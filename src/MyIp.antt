-- ===== src/MyIp.antt =====
-- internal/commands/myip/myip.go: the public address as checkip.amazonaws.com reports it.
-- `net.ParseIP` is a parameter, and so is the answer of the HTTP request.
pub mod Accepted
use dddns.Prelude.{ℕ, ◌≡◌, refl, not, Option, none, some}
use dddns.Prelude.Tests.{◌==◌, if◌then◌else◌}
use dddns.Prelude.Lists.{take}
use dddns.Prelude.Result.{Result, ok, err}
use dddns.Prelude.Text.{Text, trim_space}
use dddns.Net.{Ip, is_ipv4, is_global_unicast, is_private}

pub data MyIpError : Type 0 where
  invalid_address ipv6_not_supported not_global_unicast private_range : Text → MyIpError
  request_failed : Text → MyIpError
  bad_status : ℕ → MyIpError
  read_failed : Text → MyIpError
  unusable : MyIpError → MyIpError

-- What `httpClient.Do` gives: an error, or a status and a body that may fail to read.
pub record Response : Type 0 where
  pub status : ℕ
  pub body : Result Text Text

module _ (parse_ip : Text → Option Ip) where
  -- `none` is the nil error.
  unfoldable pub validate_public_ip : Text → Option MyIpError
  validate_public_ip ip = elim (parse_ip ip) [
    | none ↦ some (invalid_address ip)
    | some parsed ↦
        if not (is_ipv4 parsed)
        then some (ipv6_not_supported ip)
        else if not (is_global_unicast parsed)
        then some (not_global_unicast ip)
        else if is_private parsed
        then some (private_range ip)
        else none
  ]

  check_body : Result Text Text → Result MyIpError Text
  check_body (err e) = err (read_failed e)
  check_body (ok body) =
      let ip = trim_space (take 64 body) in
      elim (validate_public_ip ip) [ some e ↦ err (unusable e) | none ↦ ok ip ]

  unfoldable pub get_public_ip : Result Text Response → Result MyIpError Text
  unfolding check_body
  get_public_ip (err e) = err (request_failed e)
  get_public_ip (ok r) =
      if not (r.status == 200) then err (bad_status r.status) else check_body r.body
