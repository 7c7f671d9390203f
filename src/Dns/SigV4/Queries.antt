-- ===== src/Dns/SigV4/Queries.antt =====
-- The raw queries that internal/dns/sigv4.go parses, by the parameters that they spell.
use dddns.Prelude.{◌≡◌, ◌≢◌, ◌∙◌, refl, ap, true, List, [], ◌∷◌, ◌++◌, map, arith}
use dddns.Prelude.Lists.{All, All-append}
use dddns.Prelude.Text.{
  Text, Lacks, split, split-append, split-Lacks, split_once-append, split_once-eq_none,
}
use dddns.Dns.SigV4.{aws_uri_encode, pair_of, pairs_of}
use dddns.Dns.SigV4.Encode.{IsByte, percent_decode, percent_decode-aws_uri_encode}

-- A segment between two `&`: a key alone, a key with its value, or nothing.
pub data Param : Type 0 where
  bare : Text → Param
  assign : (key value : Text) → Param
  blank : Param

abbrev pub spell : Param → Text
spell (bare k) = k
spell (assign k v) = k ++ b'=' ∷ v
spell blank = []

-- The raw query with these segments.
abbrev pub query : List Param → Text
query [] = []
query (p ∷ []) = spell p
query (p ∷ q ∷ ps) = spell p ++ b'&' ∷ query (q ∷ ps)

-- The keys and values that are meant.
abbrev pub meanings : List Param → List (Text × Text)
meanings [] = []
meanings (bare k ∷ ps) = (k, []) ∷ meanings ps
meanings (assign k v ∷ ps) = (k, v) ∷ meanings ps
meanings (blank ∷ ps) = meanings ps

-- The texts are bytes, a key has no `=` and no `&`, a value no `&`, and a key alone is not empty.
abbrev pub IsProper : Param → Type 0
IsProper (bare k) = (k ≢ []) × Lacks b'&' k × Lacks b'=' k × All IsByte k
IsProper (assign k v) = Lacks b'&' k × Lacks b'=' k × All IsByte k × Lacks b'&' v × All IsByte v
IsProper blank = Unit

-- What the signature spells for a key and a value: each percent-encoded, with the slashes.
abbrev pub encoded : Text × Text → Text × Text
encoded (k, v) = (aws_uri_encode k true, aws_uri_encode v true)

-- The reference reader of such a pair.
abbrev pub decoded : Text × Text → Text × Text
decoded (k, v) = (percent_decode k, percent_decode v)

spell-Lacks : (p : Param) → IsProper p → Lacks b'&' (spell p)
spell-Lacks (bare k) h = h.1
spell-Lacks (assign k v) h = All-append _ k (b'=' ∷ v) h.0 (omega arith, h.3)
spell-Lacks blank h = tt

-- What one segment adds.
pairs_of-spell :
    (p : Param) (segs : List Text)
    → IsProper p
    → pairs_of (spell p ∷ segs) ≡ map encoded (meanings (p ∷ [])) ++ pairs_of segs
unfolding pairs_of pair_of aws_uri_encode
pairs_of-spell (bare []) segs h = absurd (h.0 refl)
pairs_of-spell (bare (c ∷ k)) segs h = rw (split_once-eq_none b'=' (c ∷ k) h.2, pair_of) refl
pairs_of-spell (assign [] v) segs h = rw (split_once-append b'=' [] v tt, pair_of) refl
pairs_of-spell (assign (c ∷ k) v) segs h = rw (split_once-append b'=' (c ∷ k) v h.1, pair_of) refl
pairs_of-spell blank segs h = refl

meanings-cons :
    (p : Param) (ps : List Param)
    → map encoded (meanings (p ∷ [])) ++ map encoded (meanings ps) ≡ map encoded (meanings (p ∷ ps))
meanings-cons (bare k) ps = refl
meanings-cons (assign k v) ps = refl
meanings-cons blank ps = refl

-- The loop over the segments finds the parameters, each encoded.
pub pairs_of-query :
    (ps : List Param)
    → All IsProper ps
    → pairs_of (split b'&' (query ps)) ≡ map encoded (meanings ps)
pairs_of-query [] h = unfold pairs_of split in refl
pairs_of-query (p ∷ []) (h, _) =
    rw (split-Lacks b'&' (spell p) (spell-Lacks p h))
      (pairs_of-spell p [] h ∙ unfold pairs_of in meanings-cons p [])
pairs_of-query (p ∷ q ∷ ps) (h, hs) =
    rw (split-append b'&' (spell p) (query (q ∷ ps)) (spell-Lacks p h)) (
      pairs_of-spell p _ h
      ∙ ap (λ x. map encoded (meanings (p ∷ [])) ++ x) (pairs_of-query (q ∷ ps) hs)
      ∙ meanings-cons p (q ∷ ps))

-- Nothing is lost.
pub decoded-encoded :
    (ps : List Param) → All IsProper ps → map decoded (map encoded (meanings ps)) ≡ meanings ps
unfolding aws_uri_encode
decoded-encoded [] h = refl
decoded-encoded (bare k ∷ ps) (h, hs) = cc (
  percent_decode-aws_uri_encode k true h.3,
  percent_decode-aws_uri_encode [] true tt,
  decoded-encoded ps hs,
)
decoded-encoded (assign k v ∷ ps) (h, hs) = cc (
  percent_decode-aws_uri_encode k true h.2,
  percent_decode-aws_uri_encode v true h.4,
  decoded-encoded ps hs,
)
decoded-encoded (blank ∷ ps) (_, hs) = decoded-encoded ps hs
