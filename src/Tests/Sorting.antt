-- ===== src/Tests/Sorting.antt =====
-- A sort by key as `sort.Slice` may be: by insertion.
use dddns.Prelude.{◌≡◌, refl, inl, inr, true, false, List, [], ◌∷◌, arith}
use dddns.Prelude.Tests.{Bool-cases, if◌then◌else◌}
use dddns.Prelude.Text.{Text}
use dddns.Dns.SigV4.{text_less}
use dddns.Dns.SigV4.Sorted.{IsAscending, IsSort}
use mathlib.Core.Path.{subst}
use mathlib.Core.List.{Perm}
use mathlib.Core.List.Perm

unfoldable pub insert_pair : Text × Text → List (Text × Text) → List (Text × Text)
insert_pair x [] = x ∷ []
insert_pair x (y ∷ ys) = if text_less y.0 x.0 then y ∷ insert_pair x ys else x ∷ y ∷ ys

unfoldable pub sort_pairs : List (Text × Text) → List (Text × Text)
unfolding insert_pair
sort_pairs [] = []
sort_pairs (x ∷ xs) = insert_pair x (sort_pairs xs)

text_less_asymm : (s t : Text) → text_less s t ≡ true → text_less t s ≡ false
unfolding text_less
text_less_asymm [] [] h = cc
text_less_asymm [] (b ∷ t) h = refl
text_less_asymm (a ∷ s) [] h = cc
text_less_asymm (a ∷ s) (b ∷ t) h = ground (arith, text_less_asymm s t)

insert_pair-perm : (p : Text × Text) (ps : List (Text × Text)) → Perm (insert_pair p ps) (p ∷ ps)
unfolding insert_pair
insert_pair-perm p [] = Perm.rfl
insert_pair-perm p (q ∷ qs) = elim (Bool-cases (text_less q.0 p.0)) [
  | inl e ↦
      rw (e, insert_pair) (Perm.trans (Perm.cons q (insert_pair-perm p qs)) (Perm.swap p q qs))
  | inr e ↦ rw (e, insert_pair) Perm.rfl
]

sort_pairs-perm : (ps : List (Text × Text)) → Perm (sort_pairs ps) ps
unfolding sort_pairs
sort_pairs-perm [] = Perm.rfl
sort_pairs-perm (p ∷ ps) =
    Perm.trans (insert_pair-perm p (sort_pairs ps)) (Perm.cons p (sort_pairs-perm ps))

insert_pair-IsAscending :
    (p : Text × Text) (ps : List (Text × Text)) → IsAscending ps → IsAscending (insert_pair p ps)
unfolding insert_pair
insert_pair-IsAscending p [] h = tt
insert_pair-IsAscending p (q ∷ []) h = elim (Bool-cases (text_less q.0 p.0)) [
  | inl e ↦ rw (e, insert_pair) (text_less_asymm q.0 p.0 e, tt)
  | inr e ↦ rw (e, insert_pair) (e, tt)
]
insert_pair-IsAscending p (q ∷ r ∷ ps) (first, rest) =
    let inner = insert_pair-IsAscending p (r ∷ ps) rest in
    elim (Bool-cases (text_less q.0 p.0)) [
      | inr e ↦ rw (e, insert_pair) (e, (first, rest))
      | inl e ↦ elim (Bool-cases (text_less r.0 p.0)) [
        | inl e' ↦
            let eq : insert_pair p (r ∷ ps) ≡ r ∷ insert_pair p ps = rw (e', insert_pair) in
            rw (e, e', insert_pair) (first, subst IsAscending eq inner)
        | inr e' ↦
            let eq : insert_pair p (r ∷ ps) ≡ p ∷ r ∷ ps = rw (e', insert_pair) in
            rw (e, e', insert_pair) (text_less_asymm q.0 p.0 e, subst IsAscending eq inner)
      ]
    ]

sort_pairs-IsAscending : (ps : List (Text × Text)) → IsAscending (sort_pairs ps)
unfolding sort_pairs
sort_pairs-IsAscending [] = tt
sort_pairs-IsAscending (p ∷ ps) =
    insert_pair-IsAscending p (sort_pairs ps) (sort_pairs-IsAscending ps)

pub sort_pairs-IsSort : IsSort sort_pairs
sort_pairs-IsSort = record { perm = sort_pairs-perm; ascending = sort_pairs-IsAscending }
