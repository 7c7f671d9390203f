-- ===== src/Verify.antt =====
-- internal/verify/verify.go: what the public address, Route53 and the public name servers say of the
-- record. The lookups are parameters, and `show` is the text of an address.
pub mod Answers
use dddns.Prelude.{ℕ, Bool, List, [], ◌∷◌, map, Option, none, some}
use dddns.Prelude.Tests.{if◌then◌else◌}
use dddns.Prelude.Result.{Result, ok, err}
use dddns.Prelude.Text.{Text, codes}
use dddns.Net.{Ip, is_ipv4}
use dddns.MyIp.{MyIpError}

-- An error that is nil is `none`.
pub record ResolverResult : Type 0 where
  pub name : Text
  pub server : Text
  pub ip : Text
  pub error : Option Text

pub record Report : Type 0 where
  pub public_ip : Text
  pub route53_ip : Text
  pub route53_error : Option Text
  pub stdlib_ip : Text
  pub stdlib_error : Option Text
  pub resolvers : List ResolverResult

abbrev pub named_resolvers : List (Text × Text)
named_resolvers =
    (codes "Google", codes "8.8.8.8:53")
    ∷ (codes "Cloudflare", codes "1.1.1.1:53")
    ∷ (codes "Quad9", codes "9.9.9.9:53")
    ∷ []

-- The two fields that an answer fills: the address, or the error.
unfoldable pub fields_of : Result Text Text → Text × Option Text
fields_of (ok ip) = (ip, none)
fields_of (err e) = ([], some e)

module _ (show : Ip → Text) where
  -- The loop that stops at the first IPv4 address.
  unfoldable pub first_ipv4 : List Ip → Text
  first_ipv4 [] = []
  first_ipv4 (ip ∷ ips) = let rest = first_ipv4 ips in if is_ipv4 ip then show ip else rest

  unfoldable pub stdlib_answer : Result Text (List Ip) → Result Text Text
  stdlib_answer (err e) = err e
  stdlib_answer (ok ips) = ok (first_ipv4 ips)

  -- `queryResolver`, on the answer of the name server.
  unfoldable pub query_resolver : Result Text (List Ip) → Result Text Text
  query_resolver (err e) = err e
  query_resolver (ok []) = ok []
  query_resolver (ok (ip ∷ ips)) = ok (show ip)

  module _ (query : Text → Result Text (List Ip)) where
    unfoldable pub ask : Text × Text → ResolverResult
    ask (name, server) =
        let (ip, error) = fields_of (query_resolver (query server)) in
        record { name = name; server = server; ip = ip; error = error }

    -- `Run`: only the lookup of the public address makes it fail. `route53` is the answer of the
    -- client, or the error of its constructor.
    unfoldable pub run :
        (public_ip : Result MyIpError Text)
        → (route53 : Result Text Text) → (stdlib : Result Text (List Ip)) → Result MyIpError Report
    unfolding ask
    run (err e) route53 stdlib = err e
    run (ok public_ip) route53 stdlib =
        let (route53_ip, route53_error) = fields_of route53 in
        let (stdlib_ip, stdlib_error) = fields_of (stdlib_answer stdlib) in
        ok (record {
          public_ip = public_ip;
          route53_ip = route53_ip;
          route53_error = route53_error;
          stdlib_ip = stdlib_ip;
          stdlib_error = stdlib_error;
          resolvers = map ask named_resolvers;
        })
