-- ===== src/Crypto/RoundTrip.antt =====
-- Sealing and opening a vault of internal/crypto/device_crypto.go on one device.
use dddns.Prelude.{ℕ, ◌≡◌, ◌↔◌, refl, ap, false, [], ◌∷◌, ◌++◌, some, arith}
use dddns.Prelude.Tests.{Bool-cases, Option-cases, ◌==◌, ltb}
use dddns.Prelude.Lists.{length, take, drop, length-append}
use dddns.Prelude.Result.{ok, ◌>>=◌}
use dddns.Prelude.Text.{Text, Lacks, split_once, split_once-append}
use dddns.Crypto.{
  Primitives, IsSound, Device, get_device_key, encrypt_string, open_sealed, decrypt_string,
  encrypt_credentials, decrypt_credentials,
}
use dddns.Prelude.{inl}
use dddns.Prelude.{inr}

take-append : (s t : Text) → take (length s) (s ++ t) ≡ s
take-append [] t = refl
take-append (c ∷ s) t = ap (λ x. c ∷ x) (take-append s t)

drop-append : (s t : Text) → drop (length s) (s ++ t) ≡ t
drop-append [] t = refl
drop-append (c ∷ s) t = drop-append s t

-- What stands before the first separator holds none.
pub split_once-Lacks : (sep : ℕ) (s a b : Text) → split_once sep s ≡ some (a, b) → Lacks sep a
unfolding split_once
split_once-Lacks sep [] a b h = cc
split_once-Lacks sep (c ∷ s) a b h = elim (Bool-cases (c == sep)) [
  | inl e ↦ let nothing : a ≡ [] = ground arith in rw nothing tt
  | inr e ↦ elim (Option-cases (split_once sep s)) [
    | inl absent ↦ absurd (ground arith)
    | inr ((x, y), found) ↦
        let more : a ≡ c ∷ x = ground arith in
        rw more (ground arith, split_once-Lacks sep s x y found)
  ]
]

module _ (p : Primitives) (sound : IsSound p) (d : Device) (key nonce : Text)
    (known : get_device_key p d ≡ ok key) (size : length nonce ≡ p.nonce_size) where
  sealed-open : (s : Text) → open_sealed p key (nonce ++ p.seal key nonce s) ≡ ok s
  unfolding open_sealed
  sealed-open s =
      let long : ltb (length (nonce ++ p.seal key nonce s)) p.nonce_size ≡ false =
        ground (arith, length-append nonce (p.seal key nonce s)) in
      rw (long, ← size, take-append, drop-append, sound.opens key nonce s)

  abbrev pub vault : Text → Text
  vault s = p.encode (nonce ++ p.seal key nonce s)

  pub encrypt_string-vault : (s : Text) → encrypt_string p d (ok nonce) s ≡ ok (vault s)
  unfolding encrypt_string
  encrypt_string-vault s = rw known

  -- A text sealed on a device is read back on it.
  pub decrypt_string-vault : (s : Text) → decrypt_string p d (vault s) ≡ ok s
  unfolding decrypt_string
  decrypt_string-vault s = rw (known, sound.decodes) (sealed-open s)

  decrypt_credentials-vault :
      (s : Text) (x : Text × Text)
      → (decrypt_credentials p d (vault s) ≡ ok x) ↔ (split_once b':' s ≡ some x)
  unfolding decrypt_credentials
  decrypt_credentials-vault s x =
      rw (decrypt_string-vault s) (elim (Option-cases (split_once b':' s)) [
        | inl absent ↦ (λ h. absurd (ground arith), λ h. absurd (ground arith))
        | inr (y, found) ↦ (λ h. ground arith, λ h. ground arith)
      ])

  -- Credentials come back from the vault exactly as they went in if and only if the access key holds
  -- no colon; the secret key may hold any bytes. This is on one device that has
  -- a key, with a nonce of the size that the cipher wants, a cipher that opens what it has sealed, and
  -- an encoding that decodes.
  pub decrypt_credentials-encrypt_credentials_iff :
      (access_key secret_key : Text)
      → ((encrypt_credentials p d (ok nonce) access_key secret_key >>= decrypt_credentials p d)
          ≡ ok (access_key, secret_key))
        ↔ Lacks b':' access_key
  unfolding encrypt_credentials
  decrypt_credentials-encrypt_credentials_iff a s =
      let (to, from) = decrypt_credentials-vault (a ++ b':' ∷ s) (a, s) in
      rw (encrypt_string-vault (a ++ b':' ∷ s))
        (λ h. split_once-Lacks b':' _ a s (to h), λ h. from (split_once-append b':' a s h))

  -- The vault of credentials, with what opens it.
  pub sealed_credentials :
      (access_key secret_key : Text)
      → Lacks b':' access_key
      → (v : Text) × (encrypt_credentials p d (ok nonce) access_key secret_key ≡ ok v)
        × (decrypt_credentials p d v ≡ ok (access_key, secret_key))
  unfolding encrypt_credentials
  sealed_credentials a s h =
      let t = a ++ b':' ∷ s in
      (
        vault t,
        encrypt_string-vault t,
        (decrypt_credentials-vault t (a, s)).1 (split_once-append b':' a s h),
      )
