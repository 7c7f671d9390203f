-- ===== src/Cmd/Update.antt =====
-- cmd/update.go: the command `update`, on the answer of `config.Load`. The flags for quiet and verbose
-- output are left out, and the signals and the time limit are answers of the environment.
pub mod Override
use dddns.Prelude.{Bool, not, Option, none, some}
use dddns.Prelude.Tests.{if◌then◌else◌}
use dddns.Prelude.Int.{ℤ}
use dddns.Prelude.Result.{Result, ok, err, wrap}
use dddns.Prelude.Text.{Text, is_empty}
use dddns.Net.{Ip}
use dddns.Config.{Config, ConfigError, validate}
use dddns.Config.Secure.{SecureError}
use dddns.MyIp.{MyIpError, validate_public_ip}
use dddns.Updater.{Env, World, Options, UpdateError, UpdateResult, update_with_resolver}

pub data CommandError : Type 0 where
  load_failed : SecureError → CommandError
  config_invalid : ConfigError → CommandError
  override_invalid : MyIpError → CommandError
  update_failed : UpdateError → CommandError

pub record Flags : Type 0 where
  pub force : Bool
  pub dry_run : Bool
  pub custom_ip : Text

abbrev pub options_of : Flags → Options
options_of flags = record {
  force = flags.force;
  dry_run = flags.dry_run;
  override_ip = flags.custom_ip;
}

module _ (parse_duration : Text → Option ℤ) (parse_ip : Text → Option Ip) where
  unfoldable pub update : Env → Config → Flags → World → World × Result CommandError UpdateResult
  update env cfg flags w =
      let (w', done) = update_with_resolver parse_ip env cfg (options_of flags) w in
      (w', wrap update_failed done)

  -- The check of the flag `--ip`, and the run.
  unfoldable pub checked_update :
      Env → Config → Flags → World → World × Result CommandError UpdateResult
  checked_update env cfg flags w =
      if is_empty flags.custom_ip
      then update env cfg flags w
      else elim (validate_public_ip parse_ip flags.custom_ip) [
        | some e ↦ (w, err (override_invalid e))
        | none ↦ update env cfg flags w
      ]

  unfoldable pub run_update :
      Env → Flags → Result SecureError Config → World → World × Result CommandError UpdateResult
  run_update env flags (err e) w = (w, err (load_failed e))
  run_update env flags (ok cfg) w = elim (validate parse_duration cfg) [
    | err e ↦ (w, err (config_invalid e))
    | ok _ ↦ checked_update env cfg flags w
  ]
