-- ===== src/Prelude/Url/Escape.antt =====
-- `url.QueryEscape` is undone by reading, and writes only what a query can hold.
use Prim.Native.Nat.{◌/◌, ◌%◌}
use dddns.Prelude.{
  ℕ, ◌<◌, ◌≡◌, ◌≢◌, ◌∙◌, refl, ap, inl, inr, true, false, [], ◌∷◌, ◌++◌, some, arith,
}
use dddns.Prelude.Tests.{Bool-cases, ◌==◌, if◌then◌else◌}
use dddns.Prelude.Lists.{All, All-append}
use dddns.Prelude.Text.{Text, Lacks}
use dddns.Prelude.Url.{
  is_plain, hex_upper, escape_byte, query_escape, unhex, prepend, escaped, query_unescape,
}

abbrev pub AllBytes : Text → Type 0
AllBytes s = All (λ c. c < 256) s

unhex-hex_upper : (n : ℕ) → n < 16 → unhex (hex_upper n) ≡ some n
unfolding unhex hex_upper
unhex-hex_upper n h = ground arith

unescape-percent :
    (a b : ℕ) (t : Text)
    → query_unescape (b'%' ∷ a ∷ b ∷ t) ≡ escaped (unhex a) (unhex b) (query_unescape t)
unfolding query_unescape
unescape-percent a b t = refl

unescape-plain :
    (a : ℕ) (t : Text)
    → a ≢ b'%'
    → query_unescape (a ∷ t) ≡ prepend (if a == b'+' then 32 else a) (query_unescape t)
unfolding query_unescape
unescape-plain a [] h = ground arith
unescape-plain a (b ∷ []) h = ground arith
unescape-plain a (b ∷ c ∷ t) h = ground arith

is_plain_signs : (c : ℕ) → is_plain c ≡ true → (c ≢ b'%') × (c ≢ b'+')
unfolding is_plain
is_plain_signs c h = (λ e. ground arith, λ e. ground arith)

two_digits :
    (c : ℕ) (t : Text)
    → c < 256
    → escaped (unhex (hex_upper (c / 16))) (unhex (hex_upper (c % 16))) (query_unescape t)
      ≡ prepend c (query_unescape t)
unfolding escaped
two_digits c t h =
    rw (unhex-hex_upper (c / 16) (omega arith), unhex-hex_upper (c % 16) (omega arith), escaped)
      (ap (λ x. prepend x (query_unescape t)) (omega arith))

unescape-escape_byte :
    (c : ℕ) (t : Text)
    → c < 256
    → query_unescape (escape_byte c ++ t) ≡ prepend c (query_unescape t)
unfolding escape_byte
unescape-escape_byte c t h = elim (Bool-cases (is_plain c)) [
  | inl e ↦
      let (p, q) = is_plain_signs c e in
      rw (e, escape_byte)
        (unescape-plain c t p ∙ ap (λ x. prepend x (query_unescape t)) (ground arith))
  | inr e ↦ elim (Bool-cases (c == 32)) [
    | inl blank ↦
        rw (e, blank, escape_byte)
          (unescape-plain b'+' t (omega arith)
            ∙ ap (λ x. prepend x (query_unescape t)) (ground arith))
    | inr other ↦
        rw (e, other, escape_byte)
          (unescape-percent (hex_upper (c / 16)) (hex_upper (c % 16)) t ∙ two_digits c t h)
  ]
]

pub query_unescape-query_escape : (s : Text) → AllBytes s → query_unescape (query_escape s) ≡ some s
unfolding query_escape query_unescape prepend
query_unescape-query_escape [] h = refl
query_unescape-query_escape (c ∷ s) (h, hs) =
    unescape-escape_byte c (query_escape s) h ∙ ap (prepend c) (query_unescape-query_escape s hs)

-- A sign that is neither plain nor one of the two that escaping writes does not occur.
hex_upper-ne : (sep n : ℕ) → n < 16 → is_plain sep ≡ false → hex_upper n ≢ sep
unfolding hex_upper is_plain
hex_upper-ne sep n h k e = ground arith

escape_byte-Lacks :
    (sep c : ℕ)
    → c < 256
    → is_plain sep ≡ false
    → sep ≢ b'%'
    → sep ≢ b'+'
    → Lacks sep (escape_byte c)
unfolding escape_byte
escape_byte-Lacks sep c h k p q = elim (Bool-cases (is_plain c)) [
  | inl e ↦ rw (e, escape_byte) (λ same. cc (e, k, same), tt)
  | inr e ↦ elim (Bool-cases (c == 32)) [
    | inl blank ↦ rw (e, blank, escape_byte) (λ same. ground arith, tt)
    | inr other ↦
        rw (e, other, escape_byte)
          (
            λ same. ground arith,
            (
              hex_upper-ne sep (c / 16) (omega arith) k,
              (hex_upper-ne sep (c % 16) (omega arith) k, tt),
            ),
          )
  ]
]

pub query_escape-Lacks :
    (sep : ℕ) (s : Text)
    → AllBytes s
    → is_plain sep ≡ false
    → sep ≢ b'%'
    → sep ≢ b'+'
    → Lacks sep (query_escape s)
unfolding query_escape
query_escape-Lacks sep [] h k p q = tt
query_escape-Lacks sep (c ∷ s) (h, hs) k p q =
    All-append _ (escape_byte c) (query_escape s) (escape_byte-Lacks sep c h k p q)
      (query_escape-Lacks sep s hs k p q)
