-- ===== src/Cmd/Update/Override.antt =====
-- cmd/update.go: an address that is given by hand.
use dddns.Prelude.{◌≡◌, false, Option, some}
use dddns.Prelude.Int.{ℤ}
use dddns.Prelude.Result.{Result}
use dddns.Prelude.Text.{Text, is_empty}
use dddns.Net.{Ip}
use dddns.Config.{Config}
use dddns.MyIp.{MyIpError, validate_public_ip}
use dddns.Updater.{Env, World}
use dddns.Config.Secure.{SecureError}
use dddns.Cmd.Update.{run_update}
use dddns.Cmd.Update.{checked_update}
use dddns.Cmd.Update.{Flags}
use dddns.Prelude.{arith}

module _ (parse_duration : Text → Option ℤ) (parse_ip : Text → Option Ip) where
  -- An address given by hand that does not pass the check of public addresses ends the command
  -- before anything is touched.
  pub run_update-refused :
      (env : Env) (flags : Flags) (loaded : Result SecureError Config) (w : World) (e : MyIpError)
      → is_empty flags.custom_ip ≡ false
      → validate_public_ip parse_ip flags.custom_ip ≡ some e
      → (run_update parse_duration parse_ip env flags loaded w).0 ≡ w
  unfolding run_update checked_update
  run_update-refused env flags loaded w e given bad = ground arith
