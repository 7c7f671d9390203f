-- ===== src/Dns/SigV4/Encode.antt =====
-- `awsURIEncode` of internal/dns/sigv4.go loses nothing.
use dddns.Prelude.{
  ℕ, ◌+◌, ◌-◌, ◌*◌, ◌/◌, ◌%◌, ◌<◌, ◌≡◌, refl, Bool, not, ◌&&◌, [], ◌∷◌, ◌++◌, arith,
}
use dddns.Prelude.Tests.{ltb, ◌==◌, Bool-cases, if◌then◌else◌}
use dddns.Prelude.Lists.{All}
use dddns.Prelude.Text.{Text}
use dddns.Dns.SigV4.{is_unreserved, hex_digit, encode_byte, aws_uri_encode}
use dddns.Prelude.{inl, ◌∙◌}
use dddns.Prelude.{ap, inr}

-- The value of a hexadecimal digit.
unhex : ℕ → ℕ
unhex c = if ltb c b'A' then c - b'0' else c - b'A' + 10

-- The reference reader: a percent sign and two digits stand for a byte, all else for itself. It is
-- in plain text, behind a percent sign, or behind the first digit.
data Mode : Type 0 where
  plain percent : Mode
  digit : ℕ → Mode

read : Mode → Text → Text
read m [] = []
read plain (c ∷ s) =
    let escape = read percent s in let same = c ∷ read plain s in if c == b'%' then escape else same
read percent (c ∷ s) = read (digit (unhex c)) s
read (digit h) (c ∷ s) = (h * 16 + unhex c) ∷ read plain s

pub percent_decode : Text → Text
percent_decode s = read plain s

abbrev pub IsByte : ℕ → Type 0
IsByte c = c < 256

hex_value : (n : ℕ) → n < 16 → unhex (hex_digit n) ≡ n
unfolding unhex hex_digit
hex_value n h = ground arith

read-encode_byte :
    (encode_slash : Bool) (c : ℕ) (s : Text)
    → c < 256
    → read plain (encode_byte encode_slash c ++ s) ≡ c ∷ read plain s
unfolding read encode_byte
read-encode_byte encode_slash c s h = elim (Bool-cases (is_unreserved c)) [
  | inl e ↦ rw (e, encode_byte) (unfold is_unreserved in ground arith)
  | inr e ↦ elim (Bool-cases ((c == b'/') && not encode_slash)) [
    | inl e' ↦ rw (e, e', encode_byte) (ground arith)
    | inr e' ↦ rw (e, e', encode_byte) (ground (arith, hex_value (c / 16), hex_value (c % 16)))
  ]
]

-- The bytes of a text come back from its encoding, with slashes encoded or not.
pub percent_decode-aws_uri_encode :
    (s : Text) (encode_slash : Bool)
    → All IsByte s
    → percent_decode (aws_uri_encode s encode_slash) ≡ s
unfolding percent_decode aws_uri_encode read
percent_decode-aws_uri_encode [] encode_slash h = refl
percent_decode-aws_uri_encode (c ∷ s) encode_slash (h, hs) =
    read-encode_byte encode_slash c (aws_uri_encode s encode_slash) h
    ∙ ap (λ t. c ∷ t) (percent_decode-aws_uri_encode s encode_slash hs)
