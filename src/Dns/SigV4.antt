-- ===== src/Dns/SigV4.antt =====
-- internal/dns/sigv4.go: AWS Signature Version 4. SHA-256, HMAC, the hexadecimal print and
-- `sort.Slice` are parameters; `time.Format` enters by its two results.
pub mod Encode
pub mod Queries
pub mod Sorted
pub mod Order
use Prim.Native.Nat.{compare, Ordering}
use dddns.Prelude.{
  ℕ, ◌+◌, ◌-◌, ◌/◌, ◌%◌, ◌≡◌, refl, Bool, true, false, not, ◌&&◌, ◌||◌, List, [], ◌∷◌, ◌++◌, Option,
  none, some,
}
use dddns.Prelude.Tests.{ltb, leb, ◌==◌, if◌then◌else◌}
use dddns.Prelude.Result.{Result, ok, err}
use dddns.Prelude.Text.{Text, codes, is_empty, split, split_once}

-- A-Z a-z 0-9 - _ . ~
unfoldable pub is_unreserved : ℕ → Bool
is_unreserved c =
    (leb b'A' c && leb c b'Z')
    || ((leb b'a' c && leb c b'z')
        || ((leb b'0' c && leb c b'9')
            || ((c == b'-') || ((c == b'_') || ((c == b'.') || (c == b'~'))))))

-- A digit of `%02X`.
unfoldable pub hex_digit : ℕ → ℕ
hex_digit n = if ltb n 10 then b'0' + n else b'A' + (n - 10)

-- What one round of `awsURIEncode` writes.
unfoldable pub encode_byte : Bool → ℕ → Text
unfolding is_unreserved hex_digit
encode_byte encode_slash c =
    if is_unreserved c
    then c ∷ []
    else if (c == b'/') && not encode_slash
    then c ∷ []
    else b'%' ∷ hex_digit (c / 16) ∷ hex_digit (c % 16) ∷ []

unfoldable pub aws_uri_encode : Text → Bool → Text
unfolding encode_byte
aws_uri_encode [] encode_slash = []
aws_uri_encode (c ∷ s) encode_slash = encode_byte encode_slash c ++ aws_uri_encode s encode_slash

unfoldable pub canonical_uri_path : Text → Text
canonical_uri_path path = if is_empty path then b'/' ∷ [] else aws_uri_encode path false

-- `a < b` on strings.
unfoldable pub text_less : Text → Text → Bool
text_less [] [] = false
text_less [] (b ∷ t) = true
text_less (a ∷ s) [] = false
text_less (a ∷ s) (b ∷ t) = elim (compare a b) [
  | Ordering.lt ↦ true
  | Ordering.eq ↦ text_less s t
  | Ordering.gt ↦ false
]

-- One segment of the query, as a key and a value.
unfoldable pub pair_of : Text → Text × Text
pair_of seg = elim (split_once b'=' seg) [
  | none ↦ (aws_uri_encode seg true, [])
  | some (k, v) ↦ (aws_uri_encode k true, aws_uri_encode v true)
]

unfoldable pub pairs_of : List Text → List (Text × Text)
pairs_of [] = []
pairs_of (seg ∷ segs) = if is_empty seg then pairs_of segs else pair_of seg ∷ pairs_of segs

unfoldable pub join_pairs : List (Text × Text) → Text
join_pairs [] = []
join_pairs ((k, v) ∷ []) = k ++ b'=' ∷ v
join_pairs ((k, v) ∷ p ∷ ps) = (k ++ b'=' ∷ v) ++ b'&' ∷ join_pairs (p ∷ ps)

-- `sort` is `sort.Slice` by key.
unfoldable pub canonical_query_string :
    (sort : List (Text × Text) → List (Text × Text)) → Text → Text
unfolding join_pairs
canonical_query_string sort raw =
    if is_empty raw then [] else join_pairs (sort (pairs_of (split b'&' raw)))

-- `strings.Join(parts, "\n")`.
unfoldable pub join_lines : List Text → Text
join_lines [] = []
join_lines (l ∷ []) = l
join_lines (l ∷ m ∷ ls) = l ++ 10 ∷ join_lines (m ∷ ls)

pub record Hashes : Type 0 where
  pub sha256_hex : Text → Text
  pub hmac : (key message : Text) → Text
  pub hex : Text → Text

-- What the signer reads of a request, and the headers that it sets.
pub record Unsigned : Type 0 where
  pub method : Text
  pub host : Text
  pub path : Text
  pub raw_query : Text

pub record Signed : Type 0 where
  pub x_amz_date : Text
  pub x_amz_security_token : Option Text
  pub authorization : Text

pub record Credentials : Type 0 where
  pub access_key : Text
  pub secret_key : Text
  pub session_token : Text

unfoldable pub signed_headers : Text → Text
signed_headers token =
    codes "host;x-amz-date" ++ (if is_empty token then [] else codes ";x-amz-security-token")

unfoldable pub canonical_headers : Text → Text → Text → Text
canonical_headers host timestamp token =
    codes "host:"
    ++ (host
        ++ 10
          ∷ (codes "x-amz-date:"
              ++ (timestamp
                  ++ 10
                    ∷ (if is_empty token
                        then []
                        else codes "x-amz-security-token:" ++ (token ++ 10 ∷ [])))))

unfoldable pub canonical_request :
    (sort : List (Text × Text) → List (Text × Text)) → Unsigned → Text → Text → Text → Text
canonical_request sort r timestamp token payload_hash = join_lines (
    r.method
    ∷ canonical_uri_path r.path
    ∷ canonical_query_string sort r.raw_query
    ∷ canonical_headers r.host timestamp token
    ∷ signed_headers token
    ∷ payload_hash
    ∷ [])

credential_scope : Text → Text → Text → Text
credential_scope datestamp region service =
    datestamp ++ b'/' ∷ (region ++ b'/' ∷ (service ++ codes "/aws4_request"))

-- The digest of no bytes.
abbrev pub empty_payload_hash : Text
empty_payload_hash = codes "e3b0c44298fc1c149afbf4c8996fb92427ae41e4649b934ca495991b7852b855"

module _ (h : Hashes) where
  -- `hashBody`: the digest of a body, and its bytes. A body that is not there has no bytes; one that
  -- cannot be read is an error.
  unfoldable pub hash_body : Option (Result Text Text) → Result Text (Text × Text)
  hash_body none = ok (empty_payload_hash, [])
  hash_body (some (err e)) = err e
  hash_body (some (ok body)) = ok (h.sha256_hex body, body)

  unfoldable pub derive_signing_key : (secret datestamp region service : Text) → Text
  derive_signing_key secret datestamp region service =
      let date = h.hmac (codes "AWS4" ++ secret) datestamp in
      h.hmac (h.hmac (h.hmac date region) service) (codes "aws4_request")

  unfoldable pub sign_request :
      (sort : List (Text × Text) → List (Text × Text))
      → Unsigned
      → Credentials
      → (region service payload_hash timestamp datestamp : Text) → Signed
  unfolding credential_scope
  sign_request sort r c region service payload_hash timestamp datestamp =
      let scope = credential_scope datestamp region service in
      let to_sign = join_lines (
        codes "AWS4-HMAC-SHA256"
        ∷ timestamp
        ∷ scope
        ∷ h.sha256_hex (canonical_request sort r timestamp c.session_token payload_hash)
        ∷ []) in
      let signature =
        h.hex (h.hmac (derive_signing_key c.secret_key datestamp region service) to_sign) in
      record {
        x_amz_date = timestamp;
        x_amz_security_token = if is_empty c.session_token then none else some c.session_token;
        authorization =
            codes "AWS4-HMAC-SHA256 Credential="
            ++ (c.access_key
                ++ b'/'
                  ∷ (scope
                      ++ (codes ", SignedHeaders="
                          ++ (signed_headers c.session_token
                              ++ (codes ", Signature=" ++ signature)))));
      }
