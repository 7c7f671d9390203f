-- ===== src/Dns/SigV4/Order.antt =====
-- The canonical query of internal/dns/sigv4.go does not depend on the order of the parameters.
use dddns.Prelude.{◌≡◌, ◌∙◌, refl, sym, ap, false, List, [], ◌∷◌, map, arith}
use dddns.Prelude.Lists.{All}
use dddns.Prelude.Text.{Text}
use dddns.Dns.SigV4.{text_less, join_pairs, canonical_query_string}
use dddns.Dns.SigV4.Queries.{Param, query, meanings, IsProper, encoded, decoded, decoded-encoded}
use dddns.Dns.SigV4.Encode.{percent_decode}
use dddns.Dns.SigV4.Sorted.{IsAscending, IsSort, canonical_query_string-query}
use mathlib.Core.Path.{subst}
use mathlib.Core.Logic.Or
use mathlib.Core.Bool.{Bool-set}
use mathlib.Core.List.{
  Perm, Mem, Nodup, mem-cons, mem-cons_self, not-mem-nil, mem-map_of_mem, Nodup-cons,
}
use mathlib.Core.List.Perm
use mathlib.Core.List.Pairwise

text_less_total : (s t : Text) → text_less s t ≡ false → text_less t s ≡ false → s ≡ t
unfolding text_less
text_less_total [] [] h k = refl
text_less_total [] (b ∷ t) h k = cc
text_less_total (a ∷ s) [] h k = cc
text_less_total (a ∷ s) (b ∷ t) h k = ground (arith, text_less_total s t)

-- What is above a text that is not below another is not below the other.
text_less_above :
    (q r p : Text) → text_less r q ≡ false → text_less q p ≡ false → text_less r p ≡ false
unfolding text_less
text_less_above [] [] p h k = k
text_less_above (a ∷ q) [] p h k = cc
text_less_above [] (b ∷ r) [] h k = refl
text_less_above [] (b ∷ r) (c ∷ p) h k = cc
text_less_above (a ∷ q) (b ∷ r) [] h k = refl
text_less_above (a ∷ q) (b ∷ r) (c ∷ p) h k = ground (arith, text_less_above q r p)

text_less_irrefl : (s : Text) → text_less s s ≡ false
unfolding text_less
text_less_irrefl [] = refl
text_less_irrefl (a ∷ s) = ground (arith, text_less_irrefl s)

-- The first key is not above any of the others.
first_least :
    (p : Text × Text) (ps : List (Text × Text)) (q : Text × Text)
    → IsAscending (p ∷ ps)
    → Mem q (p ∷ ps)
    → text_less q.0 p.0 ≡ false
first_least p [] q h m =
    Or.elim (Bool-set _ _) (mem-cons.0 m) (λ e. rw e (text_less_irrefl p.0))
      λ m'. absurd (not-mem-nil m')
first_least p (r ∷ ps) q (first, rest) m =
    Or.elim (Bool-set _ _) (mem-cons.0 m) (λ e. rw e (text_less_irrefl p.0))
      λ m'. text_less_above r.0 q.0 p.0 (first_least r ps q rest m') first

IsAscending-tail :
    (p : Text × Text) (ps : List (Text × Text)) → IsAscending (p ∷ ps) → IsAscending ps
IsAscending-tail p [] h = tt
IsAscending-tail p (q ∷ ps) h = h.1

abbrev pub name_of : Text × Text → Text
name_of p = p.0

Pair-set : IsSet (Text × Text)
Pair-set = hlevel

-- The first pairs of two ascending lists with the same pairs, of different keys, are the same.
first_unique :
    (p q : Text × Text) (ps qs : List (Text × Text))
    → IsAscending (p ∷ ps)
    → IsAscending (q ∷ qs)
    → Perm (p ∷ ps) (q ∷ qs)
    → Nodup (map name_of (p ∷ ps))
    → q ≡ p
first_unique p q ps qs up up' same apart =
    let there : Mem q (p ∷ ps) = (Perm.mem_iff same).1 mem-cons_self in
    let back : Mem p (q ∷ qs) = (Perm.mem_iff same).0 mem-cons_self in
    let keys : q.0 ≡ p.0 =
      text_less_total q.0 p.0 (first_least p ps q up there) (first_least q qs p up' back) in
    Or.elim (Pair-set _ _) (mem-cons.0 there) (λ e. e)
      λ m. absurd (
        (Nodup-cons.0 apart).0
          (subst (λ k. Mem k (map name_of ps)) keys (mem-map_of_mem name_of m)))

-- An ascending list with different keys is known by its items.
ascending_unique :
    (ps qs : List (Text × Text))
    → IsAscending ps
    → IsAscending qs
    → Perm ps qs
    → Nodup (map name_of ps)
    → ps ≡ qs
ascending_unique [] qs up up' same apart = Perm.nil-eq same
ascending_unique (p ∷ ps) [] up up' same apart = Perm.eq-nil same
ascending_unique (p ∷ ps) (q ∷ qs) up up' same apart =
    let e = first_unique p q ps qs up up' same apart in
    let rest : Perm ps qs = Perm.cons_inv (subst (λ x. Perm (p ∷ ps) (x ∷ qs)) e same) in
    cc (
      e,
      ascending_unique ps qs (IsAscending-tail p ps up) (IsAscending-tail q qs up') rest
          (Nodup-cons.0 apart).1,
    )

decoded_keys :
    (ps : List (Text × Text)) → map percent_decode (map name_of ps) ≡ map name_of (map decoded ps)
decoded_keys [] = refl
decoded_keys (p ∷ ps) = ap (λ ks. percent_decode p.0 ∷ ks) (decoded_keys ps)

-- The keys as they are spelled differ if those that are meant do.
encoded_apart :
    (params : List Param)
    → All IsProper params
    → Nodup (map name_of (meanings params))
    → Nodup (map name_of (map encoded (meanings params)))
encoded_apart params h apart =
    Pairwise.of_map percent_decode (λ a b ne e. ne (ap percent_decode e))
      (subst Nodup (sym (decoded_keys (map encoded (meanings params))))
        (subst (λ ms. Nodup (map name_of ms)) (sym (decoded-encoded params h)) apart))

-- Two raw queries with the same parameters, in whatever order, have the same canonical form, if no
-- two of the parameters have the same key. The two sorts may differ: each gives a permutation with
-- ascending keys. The texts are bytes, a key has no `=` and no `&`, a value no `&`, and a key without
-- `=` is not empty.
pub canonical_query_string-perm :
    (sort sort' : List (Text × Text) → List (Text × Text)) (params params' : List Param)
    → IsSort sort
    → IsSort sort'
    → All IsProper params
    → All IsProper params'
    → Perm (meanings params) (meanings params')
    → Nodup (map name_of (meanings params))
    → canonical_query_string sort (query params) ≡ canonical_query_string sort' (query params')
canonical_query_string-perm sort sort' params params' sorts sorts' h h' same apart =
    let ms = map encoded (meanings params) in
    let ms' = map encoded (meanings params') in
    let both : Perm (sort ms) (sort' ms') =
      Perm.trans (sorts.perm ms)
        (Perm.trans (Perm.map encoded same) (Perm.symm (sorts'.perm ms'))) in
    let keys : Nodup (map name_of (sort ms)) =
      (Perm.Nodup-iff (Perm.map name_of (sorts.perm ms))).1 (encoded_apart params h apart) in
    canonical_query_string-query sort sorts params h
    ∙ ap join_pairs (
        ascending_unique (sort ms) (sort' ms') (sorts.ascending ms) (sorts'.ascending ms') both
          keys)
    ∙ sym (canonical_query_string-query sort' sorts' params' h')
