-- ===== src/Cmd/SetMode.antt =====
-- cmd/config_set_mode.go: the switch between cron and serve mode.
pub mod Installed
use dddns.Prelude.{ℕ, ◌≡◌, Bool, not, ◌&&◌, List, [], Option, none, some}
use dddns.Prelude.Tests.{if◌then◌else◌}
use dddns.Prelude.Result.{Result, ok, err, ◌>>=◌, ◌>>◌, guard, wrap}
use dddns.Prelude.Text.{Text, codes, text_eq}
use dddns.Files.{File, Files, put, written_file, may_write}
use dddns.Config.{Config, ServerConfig, ConfigError, validate_server, update_interval_or_default}
use dddns.Config.Secure.{SecureError}
use dddns.BootScript.{Params, ScriptError, default_unifi_params, generate}

pub data SetModeError : Type 0 where
  bad_mode : Text → SetModeError
  load_failed : SecureError → SetModeError
  no_server_block : SetModeError
  server_invalid : ConfigError → SetModeError
  no_script : ScriptError → SetModeError
  script_not_written : Text → SetModeError

-- Which calls fail while the script is written; a write that fails leaves the content `partial`.
pub record ScriptFaults : Type 0 where
  pub root : Bool
  pub mkdir : Option Text
  pub write : Option Text
  pub partial : Text

abbrev pub default_boot_script_path : Text
default_boot_script_path = codes "/data/on_boot.d/20-dddns.sh"

unfoldable pub write_boot_script :
    ScriptFaults → (path body : Text) → Files → Files × Result SetModeError (Unit {0})
unfolding written_file may_write
write_boot_script f path body fs = elim f.mkdir [
  | some e ↦ (fs, err (script_not_written e))
  | none ↦
      if not (may_write f.root fs path) then (fs, err (script_not_written [])) else elim f.write [
        | some e ↦
            (put fs path (some (written_file fs path f.partial 0o755)), err (script_not_written e))
        | none ↦ (put fs path (some (written_file fs path body 0o755)), ok tt)
      ]
]

module _ (split_host_port : Text → Option (Text × Text)) {N : Type 0}
    (parse_cidr : Text → Option N) where
  check_block : Option ServerConfig → Result SetModeError (Unit {0})
  check_block none = err no_server_block
  check_block (some s) = wrap server_invalid (validate_server split_host_port parse_cidr s)

  -- The script for a mode, once the configuration is loaded.
  unfoldable pub script_for : Text → Config → Result SetModeError Text
  unfolding check_block
  script_for mode cfg = do
    (if text_eq mode (codes "serve") then check_block cfg.server else ok tt)
    wrap no_script (
        generate
          (record (default_unifi_params mode) { update_interval = update_interval_or_default cfg }))

  -- `runSetMode`, on the answer of `config.Load`.
  unfoldable pub run_set_mode :
      ScriptFaults
      → (loaded : Result SecureError Config) → (mode boot_path : Text) → Files
      → Files × Result SetModeError (Unit {0})
  run_set_mode f loaded mode boot_path fs =
      if not (text_eq mode (codes "cron")) && not (text_eq mode (codes "serve"))
      then (fs, err (bad_mode mode))
      else elim loaded [
        | err e ↦ (fs, err (load_failed e))
        | ok cfg ↦ elim (script_for mode cfg) [
          | err e ↦ (fs, err e)
          | ok script ↦ write_boot_script f boot_path script fs
        ]
      ]
