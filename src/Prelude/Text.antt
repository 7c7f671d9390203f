-- ===== src/Prelude/Text.antt =====
-- A Go string is its list of bytes. This file has what the program uses of package strings, and the
-- comparison of strings.
use Prim.Native.Nat.{ℕ, ◌+◌}
use Prim.Native.Char.{code}
use Prim.Native.String.{String}
use mathlib.Core.Path.{◌≡◌, refl}
use mathlib.Core.Logic.{◌↔◌, ◌≢◌, ◌⊎◌, inl, inr}
use mathlib.Core.Bool.{Bool, true, false, not, ◌&&◌, ◌||◌}
use mathlib.Core.Option.{Option, none, some}
use mathlib.Core.List.{List, [], ◌∷◌, ◌++◌, reverse}
use native.Mathlib.Omega.{arith}
use dddns.Prelude.Tests.{leb, ◌==◌, if◌then◌else◌, Bool-cases}
use dddns.Prelude.Lists.{All}

abbrev pub Text : Type 0
Text = List ℕ

-- The bytes of a literal; the literals of the program that are compared are ASCII.
abbrev pub codes : String → Text
codes String.[] = []
codes (String.◌∷◌ c s) = code c ∷ codes s

-- `s == t`.
unfoldable pub text_eq : Text → Text → Bool
text_eq [] [] = true
text_eq (a ∷ s) (b ∷ t) = (a == b) && text_eq s t
text_eq _ _ = false

-- `s == ""`.
abbrev pub is_empty : Text → Bool
is_empty [] = true
is_empty (_ ∷ _) = false

pub text_eq_refl : (s : Text) → text_eq s s ≡ true
unfolding text_eq
text_eq_refl [] = refl
text_eq_refl (a ∷ s) = ground (arith, text_eq_refl s)

text_eq_sound : (s t : Text) → text_eq s t ≡ true → s ≡ t
unfolding text_eq
text_eq_sound [] [] h = refl
text_eq_sound (a ∷ s) (b ∷ t) h = ground (arith, text_eq_sound s t)
text_eq_sound [] (b ∷ t) h = cc
text_eq_sound (a ∷ s) [] h = cc

text_eq_complete : (s t : Text) → s ≡ t → text_eq s t ≡ true
unfolding text_eq
text_eq_complete [] [] h = refl
text_eq_complete (a ∷ s) (b ∷ t) h = ground (arith, text_eq_complete s t)
text_eq_complete [] (b ∷ t) h = cc
text_eq_complete (a ∷ s) [] h = cc

pub text_eq_iff : (s t : Text) → (text_eq s t ≡ true) ↔ (s ≡ t)
text_eq_iff s t = (text_eq_sound s t, text_eq_complete s t)

-- `strings.HasPrefix(s, p)`, with the prefix first.
unfoldable pub has_prefix : Text → Text → Bool
has_prefix [] s = true
has_prefix (a ∷ p) [] = false
has_prefix (a ∷ p) (b ∷ s) = (a == b) && has_prefix p s

-- `strings.HasSuffix(s, p)`.
unfoldable pub has_suffix : Text → Text → Bool
unfolding has_prefix
has_suffix p s = has_prefix (reverse p) (reverse s)

-- `strings.CutPrefix`: what follows the prefix, if it is there.
unfoldable pub cut_prefix : Text → Text → Option Text
cut_prefix [] s = some s
cut_prefix (a ∷ p) [] = none
cut_prefix (a ∷ p) (b ∷ s) = let rest = cut_prefix p s in if a == b then rest else none

-- `strings.SplitN(s, sep, 2)` at a one-byte separator: `none` if the separator does not occur.
unfoldable pub split_once : ℕ → Text → Option (Text × Text)
split_once sep [] = none
split_once sep (c ∷ s) =
    if c == sep
    then some ([], s)
    else elim (split_once sep s) [ none ↦ none | some (a, b) ↦ some (c ∷ a, b) ]

-- `strings.Split` at a one-byte separator.
split_cons : ℕ → List Text → List Text
split_cons c [] = (c ∷ []) ∷ []
split_cons c (p ∷ ps) = (c ∷ p) ∷ ps

unfoldable pub split : ℕ → Text → List Text
unfolding split_cons
split sep [] = [] ∷ []
split sep (c ∷ s) = let rest = split sep s in if c == sep then [] ∷ rest else split_cons c rest

-- The ASCII white space that `strings.TrimSpace` removes.
unfoldable pub is_space : ℕ → Bool
is_space c = (c == 32) || (leb 9 c && leb c 13)

unfoldable pub trim_left : Text → Text
unfolding is_space
trim_left [] = []
trim_left (c ∷ s) = let rest = trim_left s in if is_space c then rest else c ∷ s

-- `strings.TrimSpace` on ASCII text.
unfoldable pub trim_space : Text → Text
unfolding trim_left
trim_space s = reverse (trim_left (reverse (trim_left s)))

unfoldable pub to_lower_ascii : ℕ → ℕ
to_lower_ascii c = if leb b'A' c && leb c b'Z' then c + 32 else c

-- One representative for each text up to `strings.EqualFold`. Besides the ASCII letters, Unicode
-- folds U+017F (the long s) to `s` and U+212A (the Kelvin sign) to `k`; the folding of other
-- letters beyond ASCII is left out.
unfoldable pub fold : Text → Text
unfolding to_lower_ascii
fold [] = []
fold (a ∷ []) = to_lower_ascii a ∷ []
fold (a ∷ b ∷ []) =
    if (a == 0xc5) && (b == 0xbf) then b's' ∷ [] else to_lower_ascii a ∷ to_lower_ascii b ∷ []
fold (a ∷ b ∷ c ∷ s) =
    let two = b's' ∷ fold (c ∷ s) in
    let three = b'k' ∷ fold s in
    let one = to_lower_ascii a ∷ fold (b ∷ c ∷ s) in
    if (a == 0xc5) && (b == 0xbf)
    then two
    else if (a == 0xe2) && ((b == 0x84) && (c == 0xaa))
    then three
    else one

-- `strings.EqualFold`.
unfoldable pub equal_fold : Text → Text → Bool
unfolding fold text_eq
equal_fold s t = text_eq (fold s) (fold t)

-- No byte of the text is `b`.
abbrev pub Lacks : ℕ → Text → Type 0
Lacks b = All (λ c. c ≢ b)

pub split_once-append :
    (sep : ℕ) (s t : Text) → Lacks sep s → split_once sep (s ++ sep ∷ t) ≡ some (s, t)
unfolding split_once
split_once-append sep [] t _ = ground arith
split_once-append sep (c ∷ s) t (h, hs) = ground (arith, split_once-append sep s t hs)

-- `s != ""` as a test.
pub not_empty_iff : (s : Text) → (not (is_empty s) ≡ true) ↔ (s ≢ [])
not_empty_iff [] = ((λ h. cc), λ h. absurd (h refl))
not_empty_iff (c ∷ s) = ((λ h e. cc e), λ h. refl)

pub eq-nil_of_empty : (s : Text) → is_empty s ≡ true → s ≡ []
eq-nil_of_empty [] h = refl
eq-nil_of_empty (c ∷ s) h = cc

pub ne-nil_of_not_empty : (s : Text) → is_empty s ≡ false → s ≢ []
ne-nil_of_not_empty [] h = cc
ne-nil_of_not_empty (c ∷ s) h = λ e. cc e

-- The first part of a text ends at the first separator.
pub split-append : (sep : ℕ) (p s : Text) → Lacks sep p → split sep (p ++ sep ∷ s) ≡ p ∷ split sep s
unfolding split
split-append sep [] s h = ground arith
split-append sep (c ∷ p) s (h, hs) = ground (arith, split-append sep p s hs)

pub split-Lacks : (sep : ℕ) (s : Text) → Lacks sep s → split sep s ≡ s ∷ []
unfolding split
split-Lacks sep [] h = refl
split-Lacks sep (c ∷ s) (h, hs) = ground (arith, split-Lacks sep s hs)

pub split_once-eq_none : (sep : ℕ) (s : Text) → Lacks sep s → split_once sep s ≡ none
unfolding split_once
split_once-eq_none sep [] h = refl
split_once-eq_none sep (c ∷ s) (h, hs) = ground (arith, split_once-eq_none sep s hs)

-- Either the separator does not occur, or the text is cut at its first occurrence.
pub split_once-cases :
    (sep : ℕ) (s : Text)
    → (Lacks sep s × (split_once sep s ≡ none))
      ⊎ ((a : Text) × (b : Text) × Lacks sep a
          × (s ≡ a ++ sep ∷ b)
          × (split_once sep s ≡ some (a, b)))
unfolding split_once
split_once-cases sep [] = inl (tt, refl)
split_once-cases sep (c ∷ s) = elim (Bool-cases (c == sep)) [
  | inl e ↦ inr ([], s, tt, ground arith, ground arith)
  | inr e ↦ elim (split_once-cases sep s) [
    | inl (lacks, missing) ↦ inl ((ground arith, lacks), ground arith)
    | inr (a, b, lacks, same, found) ↦
        inr (c ∷ a, b, (ground arith, lacks), ground arith, ground arith)
  ]
]
