-- ===== src/Tests/Vault.antt =====
-- A vault with primitives that stand in for the cipher, and a migration with them.
use dddns.Prelude.{◌≡◌, ◌↔◌, refl, [], ◌∷◌, Option, none, some, arith, false}
use dddns.Prelude.Result.{ok, err, ◌>>=◌}
use dddns.Prelude.Text.{Text, codes, Lacks, text_eq}
use dddns.Prelude.Int.{pos}
use dddns.Files.{Files}
use dddns.Config.{Config}
use dddns.Crypto.{
  Primitives, IsSound, Device, linux, get_device_key, encrypt_credentials, decrypt_credentials,
}
use dddns.Crypto.RoundTrip.{decrypt_credentials-encrypt_credentials_iff}
use dddns.Config.Secure.{
  Yaml, Faults, SecureConfig, save_secure, load_secure, mkdir_failed, save_failed,
}
use dddns.Config.Secure.RoundTrip.{reloaded, load_secure-save_secure}
use dddns.Config.Load.{load}
use dddns.Config.Migrate.{migrate_to_secure, migrate_to_secure-ok, migrate_to_secure-save_failed}
use dddns.Prelude.Tests.{if◌then◌else◌}
use dddns.Config.Secure.{make_writable, write_sealed, is_sealed}
use dddns.Config.Load.{load_plain, read_plain}
use dddns.Prelude.Text.{has_suffix}
use dddns.Crypto.{device_id_linux}
use dddns.Crypto.{device_id_fallback}
use dddns.Config.Secure.{store, to_secure}
use dddns.Config.Migrate.{wipe}
use dddns.Config.Secure.{seal_server}
use dddns.Crypto.{encrypt_string}
use dddns.Files.{may_write}
use dddns.Files.{written_file}

-- Nothing is hidden, but the laws hold.
abbrev pub clear_text : Primitives
clear_text = record {
  seal = λ key nonce s. s;
  unseal = λ key nonce s. some s;
  encode = λ s. s;
  decode = λ s. some s;
  sha256 = λ s. s;
  nonce_size = 1;
}

pub clear_text-IsSound : IsSound clear_text
clear_text-IsSound = record { opens = λ _ _ s. refl; decodes = λ s. refl }

abbrev pub router : Device
router = record {
  os = linux;
  read_file = λ _. none;
  darwin_id = none;
  windows_id = none;
  hostname = some (codes "udr");
  user = [];
  username = [];
}

abbrev pub key : Text
key = codes "udrdddns-vault-2025"

pub router-key : get_device_key clear_text router ≡ ok key
unfolding get_device_key device_id_linux device_id_fallback
router-key = refl

pub no_colon : Lacks b':' (codes "AK")
no_colon = (λ e. ground arith, (λ e. ground arith, tt))

decrypt_credentials-encrypt_credentials_iff_example :
    ((encrypt_credentials clear_text router (ok (0 ∷ [])) (codes "AK") (codes "s:k")
        >>= decrypt_credentials clear_text router)
      ≡ ok (codes "AK", codes "s:k"))
    ↔ Lacks b':' (codes "AK")
decrypt_credentials-encrypt_credentials_iff_example =
    decrypt_credentials-encrypt_credentials_iff clear_text clear_text-IsSound router key (0 ∷ [])
      router-key refl (codes "AK") (codes "s:k")

abbrev pub config : Config
config = record {
  aws_region = codes "us-east-1";
  aws_access_key = codes "AK";
  aws_secret_key = codes "sk";
  hosted_zone_id = codes "Z1";
  hostname = codes "home.example.com";
  ttl = pos 300;
  ip_cache_file = codes "/tmp/ip";
  ip_source = [];
  update_interval = codes "0 * * * *";
  update_timeout = codes "2m";
  server = none;
}

abbrev pub faultless : Faults
faultless = record {
  root = false;
  mkdir = none;
  chmod_before = none;
  write = none;
  partial = [];
  chmod_after = none;
  read = none;
  stat = none;
  wipe = none;
  remove = none;
}

abbrev no_directory : Faults
no_directory = record {
  root = false;
  mkdir = some (codes "read-only");
  chmod_before = none;
  write = none;
  partial = [];
  chmod_after = none;
  read = none;
  stat = none;
  wipe = none;
  remove = none;
}

abbrev pub nonce : Text
nonce = 0 ∷ []

abbrev sealed : SecureConfig
sealed = record {
  aws_region = codes "us-east-1";
  aws_credentials_vault = 0 ∷ codes "AK:sk";
  hosted_zone_id = codes "Z1";
  hostname = codes "home.example.com";
  ttl = pos 300;
  ip_cache_file = codes "/tmp/ip";
  ip_source = [];
  server = none;
}

sealed_made : to_secure clear_text router (ok nonce) (ok nonce) config ≡ ok sealed
unfolding to_secure seal_server encrypt_credentials encrypt_string get_device_key device_id_linux
    device_id_fallback
sealed_made = refl

-- A spelling of this one record.
abbrev pub yaml : Yaml
yaml = record { marshal = λ _. codes "sealed"; unmarshal = λ _. some sealed }

pub spelled :
    (s : SecureConfig)
    → to_secure clear_text router (ok nonce) (ok nonce) config ≡ ok s
    → yaml.unmarshal (yaml.marshal s) ≡ some s
spelled s made = ground (arith, sealed_made)

abbrev pub secure_path : Text
secure_path = codes "c.secure"

abbrev pub plain_path : Text
plain_path = codes "c.yaml"

abbrev pub plain_only : Files
plain_only path =
    if text_eq path plain_path
    then some (record { mode = 0o600; content = codes "plain" })
    else none

saved :
    (save_secure yaml clear_text router
      (ok nonce)
      (ok nonce)
      faultless
      config
      secure_path
      plain_only).1
    ≡ ok tt
unfolding save_secure store make_writable write_sealed is_sealed may_write written_file text_eq
saved = rw (sealed_made, save_secure) refl

load_secure-save_secure_example :
    load_secure yaml clear_text router faultless secure_path
      (save_secure yaml clear_text router
        (ok nonce)
        (ok nonce)
        faultless
        config
        secure_path
        plain_only).0
    ≡ ok (reloaded config)
load_secure-save_secure_example =
    load_secure-save_secure yaml clear_text router key nonce nonce faultless faultless config
      secure_path plain_only spelled clear_text-IsSound router-key refl refl no_colon (refl, refl)
      saved

abbrev pub parsed : Config → Text → Option Config
parsed _ _ = some config

pub loaded :
    (f : Faults)
    → f.stat ≡ none
    → f.read ≡ none
    → load yaml clear_text router parsed f (ok (codes "/tmp/ip")) plain_path plain_only ≡ ok config
unfolding load load_plain read_plain has_suffix text_eq
loaded f e e' = rw (e, e') refl

pub migrated :
    (migrate_to_secure yaml clear_text router parsed
      (ok nonce)
      (ok nonce)
      faultless
      (ok (codes "/tmp/ip"))
      plain_path
      plain_path
      secure_path
      plain_only).1
    ≡ ok tt
unfolding migrate_to_secure wipe
migrated = ground (arith, loaded faultless refl refl, saved)

migrate_to_secure-ok_example :
    ((migrate_to_secure yaml clear_text router parsed
          (ok nonce)
          (ok nonce)
          faultless
          (ok (codes "/tmp/ip"))
          plain_path
          plain_path
          secure_path
          plain_only).0
        plain_path
      ≡ none)
    × (load_secure yaml clear_text router faultless secure_path
          (migrate_to_secure yaml clear_text router parsed
            (ok nonce)
            (ok nonce)
            faultless
            (ok (codes "/tmp/ip"))
            plain_path
            plain_path
            secure_path
            plain_only).0
        ≡ ok (reloaded config))
migrate_to_secure-ok_example =
    migrate_to_secure-ok yaml clear_text router parsed key nonce nonce faultless faultless config
      (ok (codes "/tmp/ip")) plain_path plain_path secure_path plain_only spelled clear_text-IsSound
      router-key refl refl no_colon (refl, refl) (λ e. ground arith) (loaded faultless refl refl)
      migrated

not_migrated :
    (migrate_to_secure yaml clear_text router parsed
      (ok nonce)
      (ok nonce)
      no_directory
      (ok (codes "/tmp/ip"))
      plain_path
      plain_path
      secure_path
      plain_only).1
    ≡ err (save_failed (mkdir_failed (codes "read-only")))
unfolding migrate_to_secure save_secure store
not_migrated = rw (loaded no_directory refl refl, sealed_made, migrate_to_secure, save_secure) refl

migrate_to_secure-save_failed_example :
    (migrate_to_secure yaml clear_text router parsed
        (ok nonce)
        (ok nonce)
        no_directory
        (ok (codes "/tmp/ip"))
        plain_path
        plain_path
        secure_path
        plain_only).0
      plain_path
    ≡ plain_only plain_path
migrate_to_secure-save_failed_example =
    migrate_to_secure-save_failed yaml clear_text router parsed (ok nonce) (ok nonce) no_directory
      (ok (codes "/tmp/ip")) plain_path plain_path secure_path plain_only
      (mkdir_failed (codes "read-only")) (λ e. ground arith) not_migrated
