-- ===== src/Tests/Commands.antt =====
-- The commands and what they rest on: the profile, the boot script, the dialogue.
use dddns.Prelude.{ℕ, ◌≡◌, ◌⊎◌, refl, [], ◌∷◌, Option, none, some, true, false, arith}
use dddns.Prelude.Tests.{if◌then◌else◌}
use dddns.Prelude.Int.{pos}
use dddns.Prelude.Lists.{take, All}
use dddns.Prelude.Result.{ok}
use dddns.Prelude.Text.{Text, codes, text_eq, has_suffix, split, Lacks, trim_space}
use dddns.Prelude.FilePath.{clean, dir, join}
use dddns.Crypto.{
  linux, get_device_key, device_id_linux, device_id_fallback, encrypt_string, encrypt_credentials,
}
use dddns.Config.{ServerConfig}
use dddns.Config.Secure.{
  SecureConfig, to_secure, seal_server, save_secure, load_secure, store, make_writable,
  write_sealed, is_sealed,
}
use dddns.Config.Secure.RoundTrip.{reloaded}
use dddns.Config.Plain.{format_config_yaml}
use dddns.Profile.{Host, detect, get_config_path, get_data_dir, get_secure_path}
use dddns.BootScript.{Params, default_unifi_params, render_cron}
use dddns.BootScript.Lines.{quote, quote_byte}
use dddns.BootScript.Entry.{here_document, opener, cron_table, here_document-render_cron}
use dddns.Cmd.SetMode.{ScriptFaults}
use dddns.Cmd.SetMode.Installed.{Installed}
use dddns.Cmd.Root.{InitEnv, found, absent, init_config, resolve, activate}
use dddns.Cmd.Root.Active.{Chosen, IsProtected, init_config-Chosen}
use dddns.Cmd.Wizard.{mask_key, prompt_config}
use dddns.Cmd.Wizard.Mask.{Blank, long, mask_key-LookAlike, prompt_config-Blank}
use dddns.Cmd.RotateSecret.{
  RotateEnv, block_for, with_secret, run_rotate_secret, replace_secret, save, generate_secret,
  default_bind, default_allowed_cidr,
}
use dddns.Cmd.RotateSecret.Rotated.{load_secure-run_rotate_secret}
use dddns.Server.Lifecycle.{audit_path}
use dddns.Tests.Vault.{
  clear_text, clear_text-IsSound, router, router-key, key, config, faultless, nonce, no_colon,
  plain_only, secure_path,
}
use dddns.Files.{may_write}
use dddns.Files.{written_file}

abbrev host : Host
host = record { exists = λ _. false; os = linux; home = ok (codes "/root"); appdata = [] }

at_home : get_config_path host (detect host) ≡ ok (codes "/root/.dddns/config.yaml")
unfolding get_config_path get_data_dir detect join clean split text_eq
at_home = refl

abbrev hourly : Params
hourly = record (default_unifi_params (codes "cron")) { update_interval = codes "0 * * * *" }

hourly-Lacks : Lacks 10 (codes "0 * * * *")
hourly-Lacks = omega arith

here_document-render_cron_example :
    here_document opener (codes "CRON") (split 10 (render_cron hourly))
    ≡ some (cron_table (codes "0 * * * *"))
unfolding default_unifi_params
here_document-render_cron_example = here_document-render_cron hourly hourly-Lacks

quoted : quote (codes "a\"b\n") ≡ codes "\"a\\\"b\\n\""
unfolding quote quote_byte
quoted = refl

abbrev no_faults : ScriptFaults
no_faults = record { root = true; mkdir = none; write = none; partial = [] }

abbrev no_pair : Text → Option (Text × Text)
no_pair _ = none

abbrev no_net : Text → Option ℕ
no_net _ = none

abbrev files : InitEnv
files = record {
  host = host;
  stat = λ p. if text_eq p (codes "/root/.dddns/config.yaml") then found 0o600 else absent;
  read_file = λ _. ok (codes "ttl: 300");
  is_yaml = λ _. true;
}

finds_plain : init_config files [] ≡ ok (codes "/root/.dddns/config.yaml")
unfolding init_config resolve activate get_secure_path get_data_dir detect join clean split text_eq
    has_suffix
finds_plain = refl

init_config-Chosen_example :
    Chosen files [] (codes "/root/.dddns/config.yaml")
    × ((codes "/root/.dddns/config.yaml" ≡ [])
        ⊎ IsProtected files (codes "/root/.dddns/config.yaml"))
init_config-Chosen_example =
    init_config-Chosen files [] (codes "/root/.dddns/config.yaml") finds_plain

mask_key-LookAlike_example :
    mask_key (codes "AKIA1234WXYZ") ≡ mask_key (codes "AKIA-another-key-WXYZ")
mask_key-LookAlike_example =
    mask_key-LookAlike (codes "AKIA1234WXYZ") (codes "AKIA-another-key-WXYZ")
      (long (omega arith) (omega arith) refl refl)

blank : All Blank ([] ∷ [] ∷ [] ∷ [] ∷ [] ∷ [] ∷ [] ∷ [])
unfolding trim_space
blank = (refl, (refl, (refl, (refl, (refl, (refl, (refl, tt)))))))

prompt_config-Blank_example :
    prompt_config
      (λ _. none)
      (ok (codes "/tmp/ip"))
      (some config)
      (record { lines = [] ∷ [] ∷ [] ∷ [] ∷ [] ∷ [] ∷ [] ∷ codes "yes" ∷ []; rest = [] })
    ≡ ok (
      record config { ip_source = []; update_interval = []; update_timeout = []; server = none },
      record { lines = codes "yes" ∷ []; rest = [] },
    )
prompt_config-Blank_example =
    prompt_config-Blank (λ _. none) (ok (codes "/tmp/ip")) config [] [] [] [] [] [] []
      (codes "yes" ∷ []) [] blank refl refl refl

first_lines :
    take 42 (format_config_yaml config)
    ≡ take 42 (codes "# dddns Configuration\n# AWS Settings (REQUIRED")
unfolding format_config_yaml
first_lines = refl

abbrev new_block : ServerConfig
new_block = record {
  bind = default_bind;
  shared_secret = [];
  allowed_cidrs = default_allowed_cidr ∷ [];
  audit_log = [];
  wan_interface = [];
}

abbrev resealed : SecureConfig
resealed = record {
  aws_region = codes "us-east-1";
  aws_credentials_vault = 0 ∷ codes "AK:sk";
  hosted_zone_id = codes "Z1";
  hostname = codes "home.example.com";
  ttl = pos 300;
  ip_cache_file = codes "/tmp/ip";
  ip_source = [];
  server = some (record {
    bind = default_bind;
    secret_vault = 0 ∷ codes "01ff";
    allowed_cidrs = default_allowed_cidr ∷ [];
    audit_log = [];
    wan_interface = [];
  });
}

resealed_made :
    to_secure clear_text router (ok nonce) (ok nonce) (with_secret config new_block (codes "01ff"))
    ≡ ok resealed
unfolding to_secure seal_server encrypt_credentials encrypt_string get_device_key device_id_linux
    device_id_fallback
resealed_made = refl

abbrev rotation : RotateEnv
rotation = record {
  yaml = record { marshal = λ _. codes "sealed"; unmarshal = λ _. some resealed };
  primitives = clear_text;
  device = router;
  marshal_plain = λ _. ok [];
  marshal_entry = λ _ _. ok (codes "{}");
  random = λ _. ok (1 ∷ 255 ∷ []);
  nonce = ok nonce;
  nonce' = ok nonce;
  now = 7;
  faults = faultless;
  plain_faults = record { root = false; mkdir = none; write = none; partial = [] };
  audit_faults = record { rename_fails = false; cannot_open = none; write = none; partial = [] };
}

rotates : (run_rotate_secret rotation true (ok config) secure_path plain_only).1 ≡ ok (codes "01ff")
unfolding run_rotate_secret replace_secret save generate_secret block_for save_secure store
    make_writable write_sealed is_sealed may_write written_file text_eq has_suffix to_secure
    seal_server encrypt_credentials encrypt_string get_device_key device_id_linux device_id_fallback
rotates = refl

audit_elsewhere :
    audit_path (with_secret config new_block (codes "01ff")) ≡ codes "/tmp/serve-audit.log"
unfolding audit_path dir join clean split text_eq
audit_elsewhere = refl

respelled :
    (s : SecureConfig)
    → to_secure clear_text router
        (ok nonce)
        (ok nonce)
        (with_secret config new_block (codes "01ff"))
      ≡ ok s
    → some resealed ≡ some s
respelled s made = ground (arith, resealed_made)

is_sealed_path : has_suffix (codes ".secure") secure_path ≡ true
unfolding has_suffix
is_sealed_path = refl

chosen : block_for true config.server ≡ some new_block
unfolding block_for
chosen = refl

load_secure-run_rotate_secret_example :
    load_secure rotation.yaml clear_text router faultless secure_path
      (run_rotate_secret rotation true (ok config) secure_path plain_only).0
    ≡ ok (reloaded (with_secret config new_block (codes "01ff")))
load_secure-run_rotate_secret_example =
    load_secure-run_rotate_secret rotation true config new_block secure_path key nonce nonce
      (codes "01ff") faultless plain_only chosen is_sealed_path refl refl respelled
      clear_text-IsSound router-key refl refl no_colon (refl, refl)
      (λ e. ground (arith, audit_elsewhere)) (λ e. ground (arith, audit_elsewhere)) rotates
