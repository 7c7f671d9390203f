-- ===== src/Verify/Answers.antt =====
-- internal/verify/verify.go: what a report can be relied on for.
use dddns.Prelude.{◌≡◌, refl, List, [], some}
use dddns.Prelude.Result.{Result, ok, err}
use dddns.Prelude.Text.{Text}
use dddns.Net.{Ip}
use dddns.Verify.{ask, fields_of, run}
use dddns.Verify.{Report, query_resolver}

-- An answer comes with an address or with an error, never with both.
fields_of-excludes :
    (a : Result Text Text) (e : Text) → (fields_of a).1 ≡ some e → (fields_of a).0 ≡ []
unfolding fields_of
fields_of-excludes (ok ip) e h = cc
fields_of-excludes (err x) e h = refl

module _ (show : Ip → Text) (query : Text → Result Text (List Ip)) where
  -- A name server that is asked and fails leaves no address in its line.
  ask-error :
      (r : Text × Text) (e : Text) → (ask show query r).error ≡ some e → (ask show query r).ip ≡ []
  unfolding ask
  ask-error (name, server) e h = fields_of-excludes (query_resolver show (query server)) e h

  -- A report is given whatever Route53 and the name servers answer.
  run_total :
      (ip : Text) (route53 : Result Text Text) (stdlib : Result Text (List Ip))
      → (r : Report) × (run show query (ok ip) route53 stdlib ≡ ok r) × (r.public_ip ≡ ip)
  unfolding run
  run_total ip route53 stdlib = (_, refl, refl)
