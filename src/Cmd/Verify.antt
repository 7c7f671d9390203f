-- ===== src/Cmd/Verify.antt =====
-- cmd/verify.go: the command `verify`, on the answer of `config.Load`: the report of internal/verify,
-- printed line by line.
pub mod Summary
use dddns.Prelude.{not, ◌||◌, List, [], ◌∷◌, ◌++◌, map, Option, none, some}
use dddns.Prelude.Tests.{if◌then◌else◌}
use dddns.Prelude.Int.{ℤ}
use dddns.Prelude.Result.{Result, ok, err, ◌>>=◌, ◌>>◌, wrap}
use dddns.Prelude.Text.{Text, codes, text_eq, is_empty}
use dddns.Net.{Ip}
use dddns.MyIp.{MyIpError}
use dddns.Config.{Config, ConfigError, validate}
use dddns.Config.Secure.{SecureError}
use dddns.Prelude.Decimal.{decimal}
use dddns.BootScript.Lines.{unlines}
use dddns.Verify.{Report, ResolverResult, run}

-- The marks in UTF-8.
abbrev pub check_mark : Text
check_mark = 0xe2 ∷ 0x9c ∷ 0x93 ∷ []

abbrev pub cross_mark : Text
cross_mark = 0xe2 ∷ 0x9c ∷ 0x97 ∷ []

abbrev pub warning_mark : Text
warning_mark = 0xe2 ∷ 0x9a ∷ 0xa0 ∷ []

-- An address with its mark.
unfoldable pub marked : (public_ip ip bad : Text) → Text
marked public_ip ip bad =
    ip ++ 32 ∷ (if text_eq ip public_ip then check_mark else cross_mark ++ bad)

unfoldable pub route53_line : Report → Text
unfolding marked
route53_line r = codes "Route53 record:     " ++ elim r.route53_error [
  | some e ↦ codes "NOT FOUND (" ++ (e ++ codes ")")
  | none ↦ marked r.public_ip r.route53_ip (codes " (mismatch)")
]

unfoldable pub stdlib_line : Report → Text
unfolding marked
stdlib_line r = codes "Public DNS lookup:  " ++ elim r.stdlib_error [
  | some e ↦ codes "FAILED (" ++ (e ++ codes ")")
  | none ↦
      if is_empty r.stdlib_ip
      then codes "NO A RECORD"
      else marked r.public_ip r.stdlib_ip (codes " (mismatch)")
]

unfoldable pub resolver_line : (public_ip : Text) → ResolverResult → Text
unfolding marked
resolver_line public_ip r =
    32
    ∷ 32
    ∷ (r.name
        ++ (codes ": " ++ elim r.error [
          | some e ↦ codes "FAILED"
          | none ↦ if is_empty r.ip then codes "NO RECORD" else marked public_ip r.ip []
        ]))

abbrev pub up_to_date : Text
up_to_date = check_mark ++ codes " Route53 record is up to date"

abbrev pub no_record : Text
no_record = warning_mark ++ codes " No Route53 record found - run 'dddns update' to create it"

abbrev pub mismatch : (route53_ip public_ip : Text) → Text
mismatch route53_ip public_ip =
    cross_mark
    ++ (codes " Route53 record ("
        ++ (route53_ip ++ (codes ") doesn't match current IP (" ++ (public_ip ++ codes ")"))))

-- The last `switch`.
unfoldable pub summary : Report → List Text
summary r = elim r.route53_error [
  | some e ↦ no_record ∷ []
  | none ↦
      if is_empty r.route53_ip
      then no_record ∷ []
      else if text_eq r.route53_ip r.public_ip
      then up_to_date ∷ []
      else mismatch r.route53_ip r.public_ip ∷ codes "  Run 'dddns update' to fix this" ∷ []
]

unfoldable pub report_lines : Report → ℤ → List Text
unfolding route53_line stdlib_line resolver_line
report_lines r ttl =
    codes "=== DNS Verification ==="
    ∷ []
    ∷ (codes "Your public IP:     " ++ r.public_ip)
    ∷ route53_line r
    ∷ stdlib_line r
    ∷ []
    ∷ codes "DNS Server Checks:"
    ∷ (map (resolver_line r.public_ip) r.resolvers
        ++ []
          ∷ codes "=== Summary ==="
          ∷ (summary r
              ++ []
                ∷ (codes "Note: DNS changes can take up to "
                    ++ (decimal ttl ++ codes " seconds to propagate globally."))
                ∷ []))

-- `formatVerifyReport`.
unfoldable pub format_verify_report : Report → ℤ → Text
format_verify_report r ttl = unlines (report_lines r ttl)

pub data VerifyError : Type 0 where
  load_failed : SecureError → VerifyError
  config_invalid : ConfigError → VerifyError
  no_public_ip : MyIpError → VerifyError

module _ (parse_duration : Text → Option ℤ) (show : Ip → Text)
    (query : Text → Text → Result Text (List Ip)) where
  -- `runVerify`; the lookups are about the host name of the configuration.
  unfoldable pub run_verify :
      Result SecureError Config
      → (public_ip : Result MyIpError Text) → (route53 : Result Text Text)
      → (stdlib : Text → Result Text (List Ip)) → Result VerifyError Text
  run_verify loaded public_ip route53 stdlib = do
    cfg ← wrap load_failed loaded
    wrap config_invalid (validate parse_duration cfg)
    report ←
        wrap no_public_ip (run show (query cfg.hostname) public_ip route53 (stdlib cfg.hostname))
    ok (format_verify_report report cfg.ttl)
