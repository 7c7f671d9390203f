-- ===== src/Config/Secure/RoundTrip.antt =====
-- Saving and loading a configuration of internal/config/secure_config.go.
use dddns.Prelude.{◌≡◌, ◌≢◌, inl, inr, refl, [], Option, none, some, arith}
use dddns.Prelude.Lists.{length}
use dddns.Prelude.Result.{Result, ok, Result-cases}
use dddns.Prelude.Text.{Text, Lacks}
use dddns.Files.{Files, secure_config_perm, written_file}
use dddns.Config.{ServerConfig, Config}
use dddns.Crypto.{Primitives, IsSound, Device, get_device_key}
use dddns.Crypto.RoundTrip.{vault, encrypt_string-vault, decrypt_string-vault, sealed_credentials}
use dddns.Config.Secure.{
  SecureServerConfig, SecureConfig, Faults, Yaml, seal_server, open_server, to_secure, from_secure,
  store, save_secure, load_secure, read_secure, write_sealed, make_writable,
}
use dddns.Prelude.Text.{text_eq_refl}
use dddns.Prelude.Text.{text_eq_iff}

-- What a configuration comes back as: the schedule and the time limit of an update are not kept.
abbrev pub reloaded : Config → Config
reloaded c = record c { update_interval = []; update_timeout = [] }

module _ (p : Primitives) (sound : IsSound p) (d : Device) (key nonce nonce' : Text)
    (known : get_device_key p d ≡ ok key) (size : length nonce ≡ p.nonce_size)
    (size' : length nonce' ≡ p.nonce_size) where
  sealed_server :
      (o : Option ServerConfig)
      → (s : Option SecureServerConfig) × (seal_server p d (ok nonce) (ok nonce') o ≡ ok s)
        × (open_server p d s ≡ ok o)
  unfolding seal_server open_server
  sealed_server none = (none, refl, refl)
  sealed_server (some c) = (
    some (record {
      bind = c.bind;
      secret_vault = vault p sound d key nonce' known size' c.shared_secret;
      allowed_cidrs = c.allowed_cidrs;
      audit_log = c.audit_log;
      wan_interface = c.wan_interface;
    }),
    rw (encrypt_string-vault p sound d key nonce' known size' c.shared_secret),
    rw (decrypt_string-vault p sound d key nonce' known size' c.shared_secret),
  )

  from_secure-to_secure :
      (c : Config)
      → Lacks b':' c.aws_access_key
      → (s : SecureConfig) × (to_secure p d (ok nonce) (ok nonce') c ≡ ok s)
        × (from_secure p d s ≡ ok (reloaded c))
  unfolding to_secure from_secure
  from_secure-to_secure c h =
      let (v, sealed, opened) =
        sealed_credentials p sound d key nonce known size c.aws_access_key c.aws_secret_key h in
      let (o, sealed', opened') = sealed_server c.server in
      (
        record {
          aws_region = c.aws_region;
          aws_credentials_vault = v;
          hosted_zone_id = c.hosted_zone_id;
          hostname = c.hostname;
          ttl = c.ttl;
          ip_cache_file = c.ip_cache_file;
          ip_source = c.ip_source;
          server = o;
        },
        rw (sealed, sealed'),
        rw (opened, opened'),
      )

-- A save that succeeds has stored exactly the new content, readable by the owner alone.
store-ok :
    (f : Faults) (path content : Text) (fs : Files)
    → (store f path content fs).1 ≡ ok tt
    → (store f path content fs).0 path
      ≡ some (record { mode = secure_config_perm; content = content })
unfolding store make_writable write_sealed written_file
store-ok f path content fs h = ground (arith, text_eq_refl path)

-- A save touches no other file, also if it fails.
pub store-other :
    (f : Faults) (path q content : Text) (fs : Files)
    → q ≢ path
    → (store f path content fs).0 q ≡ fs q
unfolding store make_writable write_sealed
store-other f path q content fs h = ground (arith, text_eq_iff q path)

pub save_secure-other :
    (y : Yaml) (p : Primitives) (d : Device) (random random' : Result Text Text) (f : Faults)
    (c : Config) (path q : Text) (fs : Files)
    → q ≢ path
    → (save_secure y p d random random' f c path fs).0 q ≡ fs q
unfolding save_secure
save_secure-other y p d random random' f c path q fs h =
    elim (Result-cases (to_secure p d random random' c)) [
      | inl (s, e) ↦ rw (e, save_secure) (store-other f path q (y.marshal s) fs h)
      | inr (e', e) ↦ rw (e, save_secure)
    ]

-- A load depends on its own file alone.
pub load_secure-cong :
    (y : Yaml) (p : Primitives) (d : Device) (f : Faults) (path : Text) (fs fs' : Files)
    → fs path ≡ fs' path
    → load_secure y p d f path fs ≡ load_secure y p d f path fs'
unfolding load_secure
load_secure-cong y p d f path fs fs' h = ground arith

-- What is saved is loaded again on the same device, but for the schedule and the time limit of an
-- update, which come back empty. The YAML of the sealed record reads back, the access key holds no
-- colon, both nonces have the cipher's size, and the load is not disturbed.
pub load_secure-save_secure :
    (y : Yaml) (p : Primitives) (d : Device) (key nonce nonce' : Text) (f g : Faults) (c : Config)
    (path : Text) (fs : Files)
    → ((s : SecureConfig)
        → to_secure p d (ok nonce) (ok nonce') c ≡ ok s
        → y.unmarshal (y.marshal s) ≡ some s)
    → IsSound p
    → get_device_key p d ≡ ok key
    → length nonce ≡ p.nonce_size
    → length nonce' ≡ p.nonce_size
    → Lacks b':' c.aws_access_key
    → (g.stat ≡ none) × (g.read ≡ none)
    → (save_secure y p d (ok nonce) (ok nonce') f c path fs).1 ≡ ok tt
    → load_secure y p d g path (save_secure y p d (ok nonce) (ok nonce') f c path fs).0
      ≡ ok (reloaded c)
unfolding save_secure load_secure read_secure
load_secure-save_secure y p d key nonce nonce' f g c path fs spelled sound known size size' colon
      clear h =
    let (s, made, back) =
      from_secure-to_secure p sound d key nonce nonce' known size size' c colon in
    let stored = store-ok f path (y.marshal s) fs (rw (made, save_secure) at h) in
    rw (made, save_secure)
      (rw (clear.0, stored, load_secure)
        (rw (clear.1, read_secure) (rw (spelled s made) (rw back))))
