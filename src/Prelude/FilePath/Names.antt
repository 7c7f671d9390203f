-- ===== src/Prelude/FilePath/Names.antt =====
-- A directory joined with the plain name of a file.
use dddns.Prelude.{
  ◌≡◌, ◌≢◌, ◌∙◌, refl, ap, sym, Bool, true, false, List, [], ◌∷◌, ◌++◌, reverse, arith,
}
use dddns.Prelude.Tests.{◌==◌}
use dddns.Prelude.Text.{Text, codes, text_eq, is_empty, split}
use dddns.Prelude.FilePath.{walk, take_part, join_slash, is_rooted, spell, clean, join}
use mathlib.Core.List.{append_cancel_left, reverse-cons, append_assoc}
use dddns.Prelude.{ℕ}
use dddns.Prelude.Text.{text_eq_iff}

-- A name that a path takes as it stands.
pub record IsName (name : Text) : Type 0 where
  pub whole : split b'/' name ≡ name ∷ []
  pub plain :
      (is_empty name ≡ false)
      × (text_eq name (codes ".") ≡ false)
      × (text_eq name (codes "..") ≡ false)
  pub unrooted : is_rooted name ≡ false

split-ne-nil : (sep : ℕ) (s : Text) → split sep s ≢ []
unfolding split
split-ne-nil sep [] e = cc
split-ne-nil sep (c ∷ s) e = ground arith

split-append_sep : (sep : ℕ) (s t : Text) → split sep (s ++ sep ∷ t) ≡ split sep s ++ split sep t
unfolding split
split-append_sep sep [] t = ground arith
split-append_sep sep (c ∷ s) t = ground (arith, split-append_sep sep s t, split-ne-nil sep s)

walk-append :
    (rooted : Bool) (out ps qs : List Text)
    → walk rooted out (ps ++ qs) ≡ walk rooted (walk rooted out ps) qs
unfolding walk
walk-append rooted out [] qs = refl
walk-append rooted out (p ∷ ps) qs = walk-append rooted (take_part rooted out p) ps qs

-- What stands before the last part.
lead : List Text → Text
lead [] = []
lead (p ∷ ps) = join_slash (p ∷ ps) ++ b'/' ∷ []

join_slash-snoc : (ps : List Text) (name : Text) → join_slash (ps ++ name ∷ []) ≡ lead ps ++ name
unfolding join_slash lead
join_slash-snoc [] name = refl
join_slash-snoc (p ∷ []) name = simp append_assoc
join_slash-snoc (p ∷ q ∷ ps) name = simp (join_slash-snoc (q ∷ ps) name, append_assoc)

place : Bool → List Text → Text
place true out = b'/' ∷ lead (reverse out)
place false out = lead (reverse out)

spell-name :
    (rooted : Bool) (out : List Text) (name : Text)
    → spell rooted (name ∷ out) ≡ place rooted out ++ name
unfolding spell place
spell-name true out name = ap (λ s. b'/' ∷ s) (rw reverse-cons (join_slash-snoc (reverse out) name))
spell-name false out name = rw reverse-cons (join_slash-snoc (reverse out) name)

-- The directory in a joined path.
pub folder : Text → Text
folder [] = []
folder (c ∷ d) = place (c == b'/') (walk (c == b'/') [] (split b'/' (c ∷ d)))

walk-name :
    (rooted : Bool) (out : List Text) (name : Text)
    → IsName name
    → walk rooted out (name ∷ []) ≡ name ∷ out
unfolding walk
walk-name rooted out name h = simp (h.plain.0, h.plain.1, h.plain.2)

clean-name : (name : Text) → IsName name → clean name ≡ name
unfolding clean spell
clean-name name h = rw (h.unrooted, h.whole, walk-name false [] name h) refl

clean-append :
    (c : ℕ) (d name : Text) → IsName name → clean ((c ∷ d) ++ b'/' ∷ name) ≡ folder (c ∷ d) ++ name
unfolding clean folder is_rooted
clean-append c d name h =
    rw (split-append_sep b'/' (c ∷ d) name, h.whole)
      (rw (walk-append (c == b'/') [] (split b'/' (c ∷ d)) (name ∷ [])) (
        rw (walk-name (c == b'/') (walk (c == b'/') [] (split b'/' (c ∷ d))) name h)
          (spell-name (c == b'/') (walk (c == b'/') [] (split b'/' (c ∷ d))) name)))

pub join-name : (d name : Text) → IsName name → join d name ≡ folder d ++ name
unfolding join folder is_rooted
join-name [] name h = rw (h.plain.0) (clean-name name h)
join-name (c ∷ d) name h = clean-append c d name h

-- One directory holds different names at different paths.
pub join-inj : (d a b : Text) → IsName a → IsName b → join d a ≡ join d b → a ≡ b
join-inj d a b ha hb e =
    append_cancel_left (folder d) a b (sym (join-name d a ha) ∙ e ∙ join-name d b hb)

pub join-ne : (d a b : Text) → IsName a → IsName b → text_eq a b ≡ false → join d a ≢ join d b
join-ne d a b ha hb differ same = cc (differ, (text_eq_iff a b).1 (join-inj d a b ha hb same))
