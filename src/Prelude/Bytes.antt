-- ===== src/Prelude/Bytes.antt =====
-- Facts about the bits of a byte, checked over all 256 values.
use Prim.Native.Nat.{ℕ, zero, suc, ◌<◌, bit_and}
use mathlib.Core.Path.{◌≡◌, refl}
use mathlib.Core.Bool.{Bool, true, false, not, ◌&&◌}
use native.Mathlib.Omega.{arith}
use dddns.Prelude.Tests.{leb, ◌==◌, if◌then◌else◌}
use mathlib.Core.Path.{subst, sym}
use dddns.Prelude.Tests.{Bool-cases}
use dddns.Prelude.{inl}
use dddns.Prelude.{inr}

abbrev same_answer : Bool → Bool → Bool
same_answer true b = b
same_answer false b = not b

same_answer_sound : (a b : Bool) → same_answer a b ≡ true → a ≡ b
same_answer_sound a b h = ground arith

-- Do two tests answer the same on every number under the bound?
unfoldable pub same_under : (f g : ℕ → Bool) → ℕ → Bool
same_under f g zero = true
same_under f g (suc bound) = if same_answer (f bound) (g bound) then same_under f g bound else false

same_under_sound :
    (f g : ℕ → Bool) (bound x : ℕ) → x < bound → same_under f g bound ≡ true → f x ≡ g x
unfolding same_under
same_under_sound f g zero x small table = absurd (omega arith)
same_under_sound f g (suc bound) x small table = elim (Bool-cases (x == bound)) [
  | inl last ↦
      let e : x ≡ bound = ground arith in
      subst (λ n. f n ≡ g n) (sym e) (same_answer_sound (f bound) (g bound) (ground arith))
  | inr earlier ↦ same_under_sound f g bound x (ground arith) (ground arith)
]

pub high_nibble_14 : (x : ℕ) → x < 256 → (bit_and x 0xf0 == 0xe0) ≡ (leb 224 x && leb x 239)
unfolding same_under
high_nibble_14 x small =
    same_under_sound (λ y. bit_and y 0xf0 == 0xe0) (λ y. leb 224 y && leb y 239) 256 x small refl

pub high_nibble_1 : (x : ℕ) → x < 256 → (bit_and x 0xf0 == 16) ≡ (leb 16 x && leb x 31)
unfolding same_under
high_nibble_1 x small =
    same_under_sound (λ y. bit_and y 0xf0 == 16) (λ y. leb 16 y && leb y 31) 256 x small refl

pub high_bits_01 : (x : ℕ) → x < 256 → (64 == bit_and x 0xc0) ≡ (leb 64 x && leb x 127)
unfolding same_under
high_bits_01 x small =
    same_under_sound (λ y. 64 == bit_and y 0xc0) (λ y. leb 64 y && leb y 127) 256 x small refl

pub whole_byte_100 : (x : ℕ) → x < 256 → (100 == bit_and x 0xff) ≡ (x == 100)
unfolding same_under
whole_byte_100 x small =
    same_under_sound (λ y. 100 == bit_and y 0xff) (λ y. y == 100) 256 x small refl

pub no_bits : (x : ℕ) → x < 256 → (0 == bit_and x 0) ≡ true
unfolding same_under
no_bits x small = same_under_sound (λ y. 0 == bit_and y 0) (λ _. true) 256 x small refl
