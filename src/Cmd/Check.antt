-- ===== src/Cmd/Check.antt =====
-- The commands that only look: `config check` of cmd/config.go and `ip` of cmd/ip.go. The client of
-- Route53 and its lookup enter by their answers.
use dddns.Prelude.{Option, none, some, ◌∷◌, [], ◌++◌}
use dddns.Prelude.Int.{ℤ}
use dddns.Prelude.Result.{Result, ok, err, ◌>>=◌, ◌>>◌, wrap}
use dddns.Prelude.Text.{Text}
use dddns.Net.{Ip}
use dddns.MyIp.{MyIpError, Response, get_public_ip}
use dddns.Config.{Config, ConfigError, validate}
use dddns.Config.Secure.{SecureError}

pub data CheckError : Type 0 where
  load_failed : SecureError → CheckError
  config_invalid : ConfigError → CheckError

-- What the command prints of the credentials.
pub data Credentials : Type 0 where
  verified : Credentials
  check_failed : Text → Credentials

unfoldable pub probe_credentials :
    (client : Option Text) → (current : Result Text Text) → Credentials
probe_credentials (some e) current = check_failed e
probe_credentials none (err e) = check_failed e
probe_credentials none (ok ip) = verified

-- `runConfigCheck`: credentials that do not work are reported, and are no error of the command.
unfoldable pub run_config_check :
    (parse_duration : Text → Option ℤ)
    → Result SecureError Config
    → (client : Option Text) → (current : Result Text Text) → Result CheckError Credentials
unfolding probe_credentials
run_config_check parse_duration loaded client current = do
  cfg ← wrap load_failed loaded
  wrap config_invalid (validate parse_duration cfg)
  ok (probe_credentials client current)

-- `runIP`; the answer is the line that is printed.
unfoldable pub run_ip : (parse_ip : Text → Option Ip) → Result Text Response → Result MyIpError Text
run_ip parse_ip response = do ip ← get_public_ip parse_ip response; ok (ip ++ 10 ∷ [])
