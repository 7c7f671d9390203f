-- ===== src/Config/Secure.antt =====
-- internal/config/secure_config.go: the configuration with its secrets sealed, and the migration to
-- it. The encoding of the record as YAML is a parameter, and so is which calls of package os fail.
pub mod RoundTrip
use dddns.Prelude.{
  ℕ, ◌≡◌, refl, Bool, true, false, not, ◌&&◌, ◌||◌, List, [], ◌∷◌, ◌++◌, Option, none, some,
}
use dddns.Prelude.Tests.{◌==◌, if◌then◌else◌}
use dddns.Prelude.Lists.{length}
use dddns.Prelude.Int.{ℤ}
use dddns.Prelude.Result.{Result, ok, err, ◌>>=◌, wrap}
use dddns.Prelude.Text.{Text}
use dddns.Files.{File, Files, config_file_perm, secure_config_perm, put, written_file, may_write}
use dddns.Config.{ServerConfig, Config}
use dddns.Crypto.{
  Primitives, Device, CryptoError, encrypt_string, decrypt_string, encrypt_credentials,
  decrypt_credentials,
}

pub record SecureServerConfig : Type 0 where
  pub bind : Text
  pub secret_vault : Text
  pub allowed_cidrs : List Text
  pub audit_log : Text
  pub wan_interface : Text

pub record SecureConfig : Type 0 where
  pub aws_region : Text
  pub aws_credentials_vault : Text
  pub hosted_zone_id : Text
  pub hostname : Text
  pub ttl : ℤ
  pub ip_cache_file : Text
  pub ip_source : Text
  pub server : Option SecureServerConfig

pub data SecureError : Type 0 where
  encrypt_failed decrypt_failed : CryptoError → SecureError
  mkdir_failed chmod_failed write_failed stat_failed read_failed remove_failed : Text → SecureError
  insecure_permissions : ℕ → SecureError
  parse_failed : SecureError
  load_failed save_failed : SecureError → SecureError

-- Which calls fail, and with what message; a write that fails leaves the content `partial`.
pub record Faults : Type 0 where
  pub root : Bool
  pub mkdir : Option Text
  pub chmod_before : Option Text
  pub write : Option Text
  pub partial : Text
  pub chmod_after : Option Text
  pub read : Option Text
  pub stat : Option Text
  pub wipe : Option Text
  pub remove : Option Text

-- How a configuration is spelled in a file.
pub record Yaml : Type 0 where
  pub marshal : SecureConfig → Text
  pub unmarshal : Text → Option SecureConfig

module _ (p : Primitives) (d : Device) (random random' : Result Text Text) where
  unfoldable pub seal_server : Option ServerConfig → Result CryptoError (Option SecureServerConfig)
  seal_server none = ok none
  seal_server (some s) = do
    vault ← encrypt_string p d random' s.shared_secret
    ok (
        some (record {
          bind = s.bind;
          secret_vault = vault;
          allowed_cidrs = s.allowed_cidrs;
          audit_log = s.audit_log;
          wan_interface = s.wan_interface;
        }))

  -- The part of `SaveSecure` that builds the record; the two vaults draw a nonce each.
  unfoldable pub to_secure : Config → Result CryptoError SecureConfig
  to_secure c = do
    vault ← encrypt_credentials p d random c.aws_access_key c.aws_secret_key
    server ← seal_server c.server
    ok (record {
      aws_region = c.aws_region;
      aws_credentials_vault = vault;
      hosted_zone_id = c.hosted_zone_id;
      hostname = c.hostname;
      ttl = c.ttl;
      ip_cache_file = c.ip_cache_file;
      ip_source = c.ip_source;
      server = server;
    })

module _ (p : Primitives) (d : Device) where
  unfoldable pub open_server : Option SecureServerConfig → Result CryptoError (Option ServerConfig)
  open_server none = ok none
  open_server (some s) = do
    secret ← decrypt_string p d s.secret_vault
    ok (
        some (record {
          bind = s.bind;
          shared_secret = secret;
          allowed_cidrs = s.allowed_cidrs;
          audit_log = s.audit_log;
          wan_interface = s.wan_interface;
        }))

  -- The part of `LoadSecure` behind the parser. The fields that it does not set are "".
  unfoldable pub from_secure : SecureConfig → Result CryptoError Config
  from_secure c = do
    (access_key, secret_key) ← decrypt_credentials p d c.aws_credentials_vault
    server ← open_server c.server
    ok (record {
      aws_region = c.aws_region;
      aws_access_key = access_key;
      aws_secret_key = secret_key;
      hosted_zone_id = c.hosted_zone_id;
      hostname = c.hostname;
      ttl = c.ttl;
      ip_cache_file = c.ip_cache_file;
      ip_source = c.ip_source;
      update_interval = [];
      update_timeout = [];
      server = server;
    })

-- Is the file there with the mode 0400, so that it must be made writable first?
unfoldable pub is_sealed : Option File → Bool
is_sealed none = false
is_sealed (some f) = f.mode == secure_config_perm

abbrev chmod : Files → Text → ℕ → Files
chmod fs path mode = elim (fs path) [
  | none ↦ fs
  | some f ↦ put fs path (some (record f { mode = mode }))
]

-- `os.Chmod` before the write, where it is needed.
unfoldable pub make_writable : Faults → Files → Text → Files × Option Text
make_writable f fs path =
    if is_sealed (fs path)
    then elim f.chmod_before [
      | some e ↦ (fs, some e)
      | none ↦ (chmod fs path config_file_perm, none)
    ]
    else (fs, none)

-- `os.WriteFile` and the `os.Chmod` behind it.
unfoldable pub write_sealed : Faults → Text → Text → Files → Files × Result SecureError (Unit {0})
unfolding written_file may_write
write_sealed f path content fs =
    if not (may_write f.root fs path) then (fs, err (write_failed [])) else elim f.write [
      | some e ↦ (
        put fs path (some (written_file fs path f.partial secure_config_perm)),
        err (write_failed e),
      )
      | none ↦
          let fs' = put fs path (some (written_file fs path content secure_config_perm)) in
          elim f.chmod_after [
            | some e ↦ (fs', err (chmod_failed e))
            | none ↦ (chmod fs' path secure_config_perm, ok tt)
          ]
    ]

unfoldable pub store : Faults → Text → Text → Files → Files × Result SecureError (Unit {0})
unfolding make_writable write_sealed is_sealed
store f path content fs = elim f.mkdir [
  | some e ↦ (fs, err (mkdir_failed e))
  | none ↦
      let (fs', failed) = make_writable f fs path in
      elim failed [ some e ↦ (fs', err (chmod_failed e)) | none ↦ write_sealed f path content fs' ]
]

module _ (y : Yaml) (p : Primitives) (d : Device) where
  unfoldable pub save_secure :
      (random random' : Result Text Text)
      → Faults
      → Config
      → Text
      → Files
      → Files × Result SecureError (Unit {0})
  unfolding store
  save_secure random random' f c path fs = elim (to_secure p d random random' c) [
    | err e ↦ (fs, err (encrypt_failed e))
    | ok s ↦ store f path (y.marshal s) fs
  ]

  read_secure : Faults → File → Result SecureError Config
  read_secure f file =
      if not (file.mode == config_file_perm) && not (file.mode == secure_config_perm)
      then err (insecure_permissions file.mode)
      else elim f.read [
        | some e ↦ err (read_failed e)
        | none ↦ elim (y.unmarshal file.content) [
          | none ↦ err parse_failed
          | some s ↦ wrap decrypt_failed (from_secure p d s)
        ]
      ]

  unfoldable pub load_secure : Faults → Text → Files → Result SecureError Config
  unfolding read_secure
  load_secure f path fs = elim f.stat [
    | some e ↦ err (stat_failed e)
    | none ↦ elim (fs path) [ none ↦ err (stat_failed []) | some file ↦ read_secure f file ]
  ]
