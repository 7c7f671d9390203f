-- ===== src/Dns/SigV4/Sorted.antt =====
-- The canonical query of internal/dns/sigv4.go against the parameters that the raw query spells.
use dddns.Prelude.{◌≡◌, refl, false, List, [], ◌∷◌, map}
use dddns.Prelude.Lists.{All}
use dddns.Prelude.Text.{Text, split}
use dddns.Dns.SigV4.{text_less, pairs_of, join_pairs, canonical_query_string}
use dddns.Dns.SigV4.Queries.{Param, query, meanings, IsProper, encoded, pairs_of-query}
use mathlib.Core.List.{Perm}
use mathlib.Core.List.Perm

-- No key is followed by a smaller one.
abbrev pub IsAscending : List (Text × Text) → Type 0
IsAscending [] = Unit
IsAscending (p ∷ []) = Unit
IsAscending (p ∷ q ∷ ps) = (text_less q.0 p.0 ≡ false) × IsAscending (q ∷ ps)

-- What `sort.Slice` promises: the same pairs, with ascending keys. It need not be stable.
pub record IsSort (sort : List (Text × Text) → List (Text × Text)) : Type 0 where
  pub perm : (ps : List (Text × Text)) → Perm (sort ps) ps
  pub ascending : (ps : List (Text × Text)) → IsAscending (sort ps)

module _ (sort : List (Text × Text) → List (Text × Text)) (sorts : IsSort sort) where
  -- The early return for an empty query makes no difference.
  canonical_query_string_lem :
      (raw : Text) → canonical_query_string sort raw ≡ join_pairs (sort (pairs_of (split b'&' raw)))
  unfolding canonical_query_string pairs_of split join_pairs
  canonical_query_string_lem [] = rw (Perm.eq-nil (sorts.perm [])) refl
  canonical_query_string_lem (c ∷ raw) = refl

  pub canonical_query_string-query :
      (params : List Param)
      → All IsProper params
      → canonical_query_string sort (query params)
        ≡ join_pairs (sort (map encoded (meanings params)))
  canonical_query_string-query params h =
      rw (canonical_query_string_lem (query params), pairs_of-query params h) refl
