-- ===== src/Server/Handler/Guards.antt =====
-- When a request to internal/server/handler.go has an address handed to the update, and which.
use dddns.Prelude.{◌≤◌, ◌≡◌, ◌≢◌, ◌⊎◌, inl, inr, refl, true, [], ◌∷◌, some, arith}
use dddns.Prelude.Tests.{Bool-cases, Option-cases}
use dddns.Prelude.Result.{ok}
use dddns.Prelude.Text.{Text, codes, text_eq, text_eq_iff, is_empty, equal_fold}
use dddns.Net.{Ip}
use dddns.Config.{ServerConfig}
use dddns.Server.Auth.{AuthResult, auth_ok, auth_bad_credentials, auth_locked_out, check}
use dddns.Server.Auth.Window.{check_verdict}
use dddns.Server.Handler.{
  returns, Hook-cases, Request, AuditEntry, Reply, State, Env, emit, recover, answer, publish,
  look_up, validate_query, after_check, authenticate, with_server, serve_http,
}
use dddns.Prelude.Text.{eq-nil_of_empty}
use mathlib.Core.Path.{subst}
use dddns.Prelude.Text.{ne-nil_of_not_empty}
use dddns.Server.Handler.{new_entry}

-- All that stands between a request and an update, and the address of the WAN interface.
pub record Authorised (env : Env) (server : ServerConfig) (r : Request) (s : State) (ip : Ip)
    : Type 0 where
  pub network : env.allowed r.remote_addr server.allowed_cidrs ≡ true
  pub get : r.method ≡ codes "GET"
  pub not_locked : s.auth.locked_until ≤ env.now
  pub password : r.basic_auth ≡ some s.auth.secret
  pub named : r.hostname ≢ []
  pub host : equal_fold r.hostname env.cfg.hostname ≡ true
  pub wan : env.wan_ip server.wan_interface ≡ returns (ok ip)

pub AuthResult-cases :
    (v : AuthResult) → (v ≡ auth_ok) ⊎ (v ≡ auth_bad_credentials) ⊎ (v ≡ auth_locked_out)
AuthResult-cases auth_ok = inl refl
AuthResult-cases auth_bad_credentials = inr (inl refl)
AuthResult-cases auth_locked_out = inr (inr refl)

publish-asked :
    (env : Env) (ip : Ip) (entry : AuditEntry) (s : State)
    → (publish env ip entry s).0.asked ≡ env.ip_string ip ∷ s.asked
unfolding publish answer recover emit
publish-asked env ip entry s = ground arith

module _ (env : Env) (server : ServerConfig) (r : Request) (s : State) where
  -- The addresses that were handed to the update before and after a request: one more, with all guards
  -- passed, or no more, and some guard did not pass.
  pub data Verdict (x : State × Reply) : Type 0 where
    published :
        (ip : Ip)
        → Authorised env server r s ip
        → x.0.asked ≡ env.ip_string ip ∷ s.asked
        → Verdict x
    refused : ((ip : Ip) → ¬ Authorised env server r s ip) → x.0.asked ≡ s.asked → Verdict x

  moved : {x : State × Reply} (y : State × Reply) → Verdict x → x ≡ y → Verdict y
  moved y v e = subst Verdict e v

  look_up-Verdict :
      (entry : AuditEntry) (t : State)
      → t.asked ≡ s.asked
      → ((ip : Ip)
          → env.wan_ip server.wan_interface ≡ returns (ok ip)
          → Authorised env server r s ip)
      → Verdict (look_up env server entry t)
  unfolding look_up emit recover
  look_up-Verdict entry t same good = elim (Hook-cases (env.wan_ip server.wan_interface)) [
    | inl (ip, e) ↦ published ip (good ip e) (rw (e, look_up) (rw publish-asked (rw same)))
    | inr (inl (cause, e)) ↦ refused (λ ip a. ground (arith, a.wan)) (ground arith)
    | inr (inr (cause, e)) ↦ refused (λ ip a. ground (arith, a.wan)) (ground arith)
  ]

  validate_query-Verdict :
      (entry : AuditEntry) (t : State)
      → t.asked ≡ s.asked
      → env.allowed r.remote_addr server.allowed_cidrs ≡ true
      → r.method ≡ codes "GET"
      → s.auth.locked_until ≤ env.now
      → r.basic_auth ≡ some s.auth.secret
      → Verdict (validate_query env server r entry t)
  unfolding validate_query emit
  validate_query-Verdict entry t same net get free pass = elim (Bool-cases (is_empty r.hostname)) [
    | inl nothing ↦ refused (λ ip a. a.named (eq-nil_of_empty _ nothing)) (ground arith)
    | inr given ↦ elim (Bool-cases (equal_fold r.hostname env.cfg.hostname)) [
      | inr other ↦ refused (λ ip a. ground (arith, a.host)) (ground arith)
      | inl matched ↦
          moved (validate_query env server r entry t)
            (look_up-Verdict (record entry { host = r.hostname; myip_claimed = r.myip }) t same
              λ ip e. record {
                network = net;
                get = get;
                not_locked = free;
                password = pass;
                named = ne-nil_of_not_empty _ given;
                host = matched;
                wan = e;
              })
            (ground arith)
    ]
  ]

  after_check-Verdict :
      (password : Text) (entry : AuditEntry)
      → r.basic_auth ≡ some password
      → env.allowed r.remote_addr server.allowed_cidrs ≡ true
      → r.method ≡ codes "GET"
      → Verdict (
          after_check env server r entry
            (record s { auth = (check password env.now s.auth).0 })
            (check password env.now s.auth).1)
  unfolding after_check emit
  after_check-Verdict password entry given net get =
      let (locked, fine, bad, _) = check_verdict password env.now s.auth in
      elim (AuthResult-cases (check password env.now s.auth).1) [
        | inl e ↦
            let (free, right) = fine.0 e in
            let t = record s { auth = (check password env.now s.auth).0 } in
            moved (after_check env server r entry t (check password env.now s.auth).1)
              (validate_query-Verdict (record entry { auth_outcome = codes "ok" }) t refl net get
                free (rw (← right) given))
              (ground arith)
        | inr (inl e) ↦ refused (λ ip a. ground (arith, bad.0 e)) (ground arith)
        | inr (inr e) ↦ refused (λ ip a. ground (arith, locked.0 e)) (ground arith)
      ]

  authenticate-Verdict :
      (entry : AuditEntry)
      → env.allowed r.remote_addr server.allowed_cidrs ≡ true
      → r.method ≡ codes "GET"
      → Verdict (authenticate env server r entry s)
  unfolding authenticate emit
  authenticate-Verdict entry net get = elim (Option-cases r.basic_auth) [
    | inl missing ↦ refused (λ ip a. ground (arith, a.password)) (ground arith)
    | inr (password, given) ↦
        moved (authenticate env server r entry s) (after_check-Verdict password entry given net get)
          (ground arith)
  ]

  with_server-Verdict : Verdict (with_server env server r s)
  unfolding with_server emit
  with_server-Verdict = elim (Bool-cases (env.allowed r.remote_addr server.allowed_cidrs)) [
    | inr denied ↦ refused (λ ip a. ground (arith, a.network)) (ground arith)
    | inl net ↦ elim (Bool-cases (text_eq r.method (codes "GET"))) [
      | inr other ↦
          refused (λ ip a. ground (arith, a.get, text_eq_iff r.method (codes "GET"))) (ground arith)
      | inl get ↦
          moved (with_server env server r s)
            (authenticate-Verdict (new_entry r.remote_addr) net ((text_eq_iff _ _).0 get))
            (ground arith)
    ]
  ]

-- With a server block, a request has an address handed to the update exactly if it comes from an
-- allowed network, is a GET, carries the secret outside of a lockout and names the configured host, and
-- the WAN lookup gives an address; and then it is that address, once. Otherwise none is.
pub serve_http-asked :
    (env : Env) (server : ServerConfig) (r : Request) (s : State)
    → env.cfg.server ≡ some server
    → Verdict env server r s (serve_http env r s)
unfolding serve_http
serve_http-asked env server r s e =
    moved env server r s (serve_http env r s) (with_server-Verdict env server r s) (ground arith)
