-- ===== src/Prelude/Decimal.antt =====
-- `%d` of package fmt, by which internal/config/config.go and the commands print a number.
use Prim.Native.Nat.{◌+◌, ◌-◌, ◌*◌, ◌/◌, ◌%◌}
use dddns.Prelude.{ℕ, zero, suc, ◌≤◌, ◌<◌, ◌≡◌, refl, ◌∙◌, ap, inl, inr, [], ◌∷◌, ◌++◌, arith}
use dddns.Prelude.Tests.{ltb, ◌==◌, if◌then◌else◌, Bool-cases}
use dddns.Prelude.Int.{ℤ, pos, negsuc}
use dddns.Prelude.Lists.{All, All-append}
use dddns.Prelude.Text.{Text}

-- The decimal digits of a number; one more than the number is fuel enough.
digits : ℕ → ℕ → Text
digits zero n = []
digits (suc fuel) n =
    let front = digits fuel (n / 10) in
    if ltb n 10 then (48 + n) ∷ [] else front ++ (48 + n % 10) ∷ []

-- `%d`.
unfoldable pub decimal : ℤ → Text
unfolding digits
decimal (pos n) = digits (suc n) n
decimal (negsuc n) = b'-' ∷ digits (suc (suc n)) (suc n)

-- The value of a text of decimal digits behind a front of value `acc`.
value : ℕ → Text → ℕ
value acc [] = acc
value acc (c ∷ s) = value (acc * 10 + (c - 48)) s

minus : ℕ → ℤ
minus zero = pos 0
minus (suc n) = negsuc n

-- The reference reader of a number with a sign.
read_decimal : Text → ℤ
read_decimal [] = pos 0
read_decimal (c ∷ s) = if c == b'-' then minus (value 0 s) else pos (value 0 (c ∷ s))

value-append : (acc : ℕ) (s : Text) (c : ℕ) → value acc (s ++ c ∷ []) ≡ value acc s * 10 + (c - 48)
unfolding value
value-append acc [] c = refl
value-append acc (d ∷ s) c = value-append (acc * 10 + (d - 48)) s c

abbrev IsDigit : ℕ → Type 0
IsDigit c = (48 ≤ c) × (c ≤ 57)

digits-IsDigit : (fuel n : ℕ) → All IsDigit (digits fuel n)
unfolding digits
digits-IsDigit zero n = tt
digits-IsDigit (suc fuel) n = elim (Bool-cases (ltb n 10)) [
  | inl e ↦ rw e (ground arith)
  | inr e ↦ rw e (
      All-append _ (digits fuel (n / 10)) ((48 + n % 10) ∷ []) (digits-IsDigit fuel (n / 10))
        (omega arith))
]

value-digits : (fuel n : ℕ) → n < fuel → value 0 (digits fuel n) ≡ n
unfolding digits value
value-digits zero n h = absurd (omega arith)
value-digits (suc fuel) n h = elim (Bool-cases (ltb n 10)) [
  | inl e ↦ rw e (omega arith)
  | inr e ↦ rw e (
      omega (
        arith,
        value-append 0 (digits fuel (n / 10)) (48 + n % 10),
        value-digits fuel (n / 10) (ground arith),
      ))
]

read_decimal-digits : (s : Text) → All IsDigit s → read_decimal s ≡ pos (value 0 s)
unfolding read_decimal value
read_decimal-digits [] h = refl
read_decimal-digits (c ∷ s) (h, hs) = ground arith

-- The text of a number is read back as that number, of whatever size and sign: the fuel of its digits
-- is enough.
read_decimal-decimal : (n : ℤ) → read_decimal (decimal n) ≡ n
unfolding decimal minus
read_decimal-decimal (pos n) =
    read_decimal-digits (digits (suc n) n) (digits-IsDigit (suc n) n)
    ∙ ap (λ k. pos k) (value-digits (suc n) n (omega arith))
read_decimal-decimal (negsuc n) =
    unfold read_decimal in ap minus (value-digits (suc (suc n)) (suc n) (omega arith))
