-- ===== src/MyIp/Accepted.antt =====
-- Which addresses internal/commands/myip/myip.go accepts.
use dddns.Prelude.{◌≡◌, ◌↔◌, refl, Option, none, some, arith, true, false}
use dddns.Prelude.Tests.{Option-cases}
use dddns.Prelude.Lists.{take}
use dddns.Prelude.Result.{Result, ok, err, Result-cases}
use dddns.Prelude.Text.{Text, trim_space}
use dddns.Net.{Ip, contains}
use dddns.WanIp.{cgnat, is_public_ipv4}
use dddns.MyIp.{Response, validate_public_ip, check_body, get_public_ip}
use dddns.Prelude.{inr}
use dddns.Prelude.{inl}
use dddns.Prelude.{sym}

module _ (parse_ip : Text → Option Ip) where
  -- The check of a reported address and the check of the WAN interface agree on all that parses, but
  -- for carrier-grade NAT: the interface is accepted exactly if the report would be and the address
  -- is not in 100.64.0.0/10.
  pub validate_public_ip-is_public_ipv4 :
      (text : Text) (ip : Ip)
      → parse_ip text ≡ some ip
      → (is_public_ipv4 (some ip) ≡ true)
        ↔ ((validate_public_ip parse_ip text ≡ none) × (contains cgnat ip ≡ false))
  unfolding validate_public_ip is_public_ipv4
  validate_public_ip-is_public_ipv4 text ip h =
      (λ e. (ground arith, ground arith), λ e. ground arith)

  -- An address is reported only for an answer with status 200, as the text of the first 64 bytes of
  -- its body without the white space around it, and only if it passes the check.
  pub get_public_ip_sound :
      (answer : Result Text Response) (ip : Text)
      → get_public_ip parse_ip answer ≡ ok ip
      → (r : Response) × (body : Text) × (answer ≡ ok r)
        × (r.status ≡ 200)
        × (r.body ≡ ok body)
        × (ip ≡ trim_space (take 64 body))
        × (validate_public_ip parse_ip ip ≡ none)
  unfolding get_public_ip check_body
  get_public_ip_sound (err e) ip h = cc
  get_public_ip_sound (ok r) ip h = elim (Result-cases r.body) [
    | inr (e, bad) ↦ absurd (ground arith)
    | inl (body, good) ↦
        elim (Option-cases (validate_public_ip parse_ip (trim_space (take 64 body)))) [
          | inr (e, bad) ↦ absurd (ground arith)
          | inl fine ↦
              let same : trim_space (take 64 body) ≡ ip = ground arith in
              (r, body, refl, ground arith, good, sym same, rw same at fine)
        ]
  ]
