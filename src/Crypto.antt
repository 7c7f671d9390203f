-- ===== src/Crypto.antt =====
-- internal/crypto/device_crypto.go: the vault that is bound to a device. AES-256-GCM, SHA-256 and
-- base64 are a record of parameters, with the laws that the packages document.
pub mod RoundTrip
use dddns.Prelude.{
  ℕ, ◌<◌, ◌≡◌, refl, Bool, true, false, not, List, [], ◌∷◌, ◌++◌, Option, none, some,
}
use dddns.Prelude.Tests.{ltb, if◌then◌else◌}
use dddns.Prelude.Lists.{length, take, drop}
use dddns.Prelude.Result.{Result, ok, err, ◌>>=◌}
use dddns.Prelude.Text.{
  Text, codes, is_empty, cut_prefix, split, split_once, trim_space, has_prefix,
}

pub record Primitives : Type 0 where
  pub seal : (key nonce plaintext : Text) → Text
  pub unseal : (key nonce body : Text) → Option Text
  pub encode : Text → Text
  pub decode : Text → Option Text
  pub sha256 : Text → Text
  pub nonce_size : ℕ

-- What the packages document: opening undoes sealing with the same key and nonce, and decoding
-- undoes encoding.
pub record IsSound (p : Primitives) : Type 0 where
  pub opens :
      (key nonce plaintext : Text)
      → p.unseal key nonce (p.seal key nonce plaintext) ≡ some plaintext
  pub decodes : (s : Text) → p.decode (p.encode s) ≡ some s

pub data Os : Type 0 where
  linux darwin windows other_os : Os

-- What a device answers to the probes; the two collectors that run commands are given by their
-- results.
pub record Device : Type 0 where
  pub os : Os
  pub read_file : Text → Option Text
  pub darwin_id : Option Text
  pub windows_id : Option Text
  pub hostname : Option Text
  pub user : Text
  pub username : Text

pub data CryptoError : Type 0 where
  no_device_identifier : CryptoError
  no_randomness : Text → CryptoError
  not_base64 too_short not_authentic bad_format : CryptoError

-- The loop over the lines of system.info.
udm_id : List Text → Option Text
udm_id [] = none
udm_id (line ∷ lines) = elim (cut_prefix (codes "serialno=") line) [
  | some v ↦ some v
  | none ↦ elim (cut_prefix (codes "device.hashid=") line) [ some v ↦ some v | none ↦ udm_id lines ]
]

-- `strings.Contains`.
has_infix : Text → Text → Bool
has_infix p [] = is_empty p
has_infix p (c ∷ s) = let rest = has_infix p s in if has_prefix p (c ∷ s) then true else rest

last_part : Text → List Text → Text
last_part d [] = d
last_part d (p ∷ ps) = last_part p ps

-- The loop over the lines of cgroup.
docker_id : List Text → Option Text
docker_id [] = none
docker_id (line ∷ lines) =
    let rest = docker_id lines in
    if has_infix (codes "docker") line
    then some (take 12 (last_part [] (split b'/' line)))
    else rest

or_else : Option Text → Option Text → Option Text
or_else none o = o
or_else (some x) o = some x

-- The result of a probe of a file that may be absent.
probe : (Text → Option Text) → Option Text → Option Text
probe f none = none
probe f (some s) = f s

unfoldable pub device_id_linux : Device → Option Text
unfolding udm_id docker_id last_part has_infix or_else probe
device_id_linux d =
    or_else (probe (λ s. udm_id (split 10 s)) (d.read_file (codes "/proc/ubnthal/system.info"))) (
      or_else (probe (λ s. docker_id (split 10 s)) (d.read_file (codes "/proc/self/cgroup"))) (
        probe (λ s. let mac = trim_space s in if not (is_empty mac) then some mac else none)
          (d.read_file (codes "/sys/class/net/eth0/address"))))

unfoldable pub device_id_fallback : Device → Option Text
device_id_fallback d = elim d.hostname [
  | none ↦ none
  | some hostname ↦
      if not (is_empty d.user)
      then some (hostname ++ b'-' ∷ d.user)
      else if not (is_empty d.username)
      then some (hostname ++ b'-' ∷ d.username)
      else some hostname
]

-- The identifier of the platform, "" if there is none.
platform_id : Device → Os → Text
platform_id d linux = elim (device_id_linux d) [ some id ↦ id | none ↦ [] ]
platform_id d darwin = elim d.darwin_id [ some id ↦ id | none ↦ [] ]
platform_id d windows = elim d.windows_id [ some id ↦ id | none ↦ [] ]
platform_id d other_os = []

module _ (p : Primitives) where
  from_id : Text → Text
  from_id id = p.sha256 (id ++ codes "dddns-vault-2025")

  unfoldable pub get_device_key : Device → Result CryptoError Text
  unfolding platform_id from_id
  get_device_key d =
      let id = platform_id d d.os in
      if is_empty id
      then elim (device_id_fallback d) [
        | none ↦ err no_device_identifier
        | some fallback ↦ ok (from_id fallback)
      ]
      else ok (from_id id)

  -- The nonce is what `rand.Reader` gives.
  unfoldable pub encrypt_string : Device → Result Text Text → Text → Result CryptoError Text
  encrypt_string d random plaintext = do
    key ← get_device_key d
    elim random [
      | err e ↦ err (no_randomness e)
      | ok nonce ↦ ok (p.encode (nonce ++ p.seal key nonce plaintext))
    ]

  open_sealed : Text → Text → Result CryptoError Text
  open_sealed key ciphertext =
      if ltb (length ciphertext) p.nonce_size
      then err too_short
      else elim (p.unseal key (take p.nonce_size ciphertext) (drop p.nonce_size ciphertext)) [
        | none ↦ err not_authentic
        | some plaintext ↦ ok plaintext
      ]

  unfoldable pub decrypt_string : Device → Text → Result CryptoError Text
  unfolding open_sealed
  decrypt_string d encoded = do
    key ← get_device_key d
    elim (p.decode encoded) [ none ↦ err not_base64 | some ciphertext ↦ open_sealed key ciphertext ]

  unfoldable pub encrypt_credentials :
      Device → Result Text Text → (access_key secret_key : Text) → Result CryptoError Text
  encrypt_credentials d random access_key secret_key =
      encrypt_string d random (access_key ++ b':' ∷ secret_key)

  unfoldable pub decrypt_credentials : Device → Text → Result CryptoError (Text × Text)
  decrypt_credentials d encrypted = do
    plaintext ← decrypt_string d encrypted
    elim (split_once b':' plaintext) [ none ↦ err bad_format | some parts ↦ ok parts ]
