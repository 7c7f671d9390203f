-- ===== src/Cmd/Serve/Replies.antt =====
-- When `serve test` of cmd/serve.go is content with a reply of internal/server/handler.go.
use dddns.Prelude.{◌≡◌, ◌⊎◌, inl, inr, true, ◌||◌, [], some, arith}
use dddns.Prelude.Tests.{Bool-cases, Option-cases}
use dddns.Prelude.Result.{ok}
use dddns.Prelude.Text.{
  Text, codes, text_eq, text_eq_iff, is_empty, equal_fold, eq-nil_of_empty, ne-nil_of_not_empty,
}
use mathlib.Core.Path.{subst}
use dddns.Net.{Ip}
use dddns.Config.{ServerConfig}
use dddns.Updater.{UpdateResult, updated, nochg_cache, nochg_dns, dry_run_action}
use dddns.Server.Auth.{check}
use dddns.Server.Auth.Window.{check_verdict}
use dddns.Server.Handler.{
  returns, Hook-cases, Request, AuditEntry, Reply, State, Env, recover, answer, publish, look_up,
  validate_query, after_check, authenticate, with_server, serve_http,
}
use dddns.Server.Handler.Guards.{Authorised, AuthResult-cases}
use dddns.Cmd.Serve.{judge}
use dddns.Prelude.{◌≤◌}
use dddns.Cmd.Serve.Codes.{
  Passes, good-Passes, nochg-Passes, dnserr_fails, panic_fails, notfqdn_fails, nohost_fails,
  badauth_fails,
}

-- The actions of an update that the dyndns protocol counts as done.
abbrev pub IsDone : Text → Type 0
IsDone action =
    (action ≡ updated) ⊎ (action ≡ nochg_cache) ⊎ (action ≡ nochg_dns) ⊎ (action ≡ dry_run_action)

-- A request with which all is well: the guards let it through, and the update is done.
pub record Served (env : Env) (server : ServerConfig) (r : Request) (s : State) : Type 0 where
  pub ip : Ip
  pub result : UpdateResult
  pub authorised : Authorised env server r s ip
  pub update : env.update_ip (env.ip_string ip) ≡ returns (ok result)
  pub done : IsDone result.action

module _ (env : Env) (server : ServerConfig) (r : Request) (s : State) where
  -- Whether the test passes on a reply, with the reason.
  pub data Outcome (x : Reply) : Type 0 where
    passed : Served env server r s → Passes x → Outcome x
    failed : ¬ Served env server r s → ¬ Passes x → Outcome x

  moved : {x : Reply} (y : Reply) → Outcome x → x ≡ y → Outcome y
  moved y v e = subst Outcome e v

  recover-fails :
      (cause : Text) (entry : AuditEntry) (t : State) → ¬ Passes (recover env.sinks cause entry t).1
  unfolding recover
  recover-fails cause entry t = panic_fails []

  -- The WAN lookup has one answer.
  same_ip : (ip ip' : Ip) → Authorised env server r s ip → Authorised env server r s ip' → ip ≡ ip'
  same_ip ip ip' a b = cc (a.wan, b.wan)

  same_update :
      (ip : Ip)
      → Authorised env server r s ip
      → (v : Served env server r s) → env.update_ip (env.ip_string ip) ≡ returns (ok v.result)
  same_update ip a v = rw (same_ip ip v.ip a v.authorised) v.update

  answer-Outcome :
      (ip : Ip) (u : UpdateResult) (entry : AuditEntry) (t : State)
      → Authorised env server r s ip
      → env.update_ip (env.ip_string ip) ≡ returns (ok u)
      → Outcome (answer env.sinks u entry t).1
  unfolding answer
  answer-Outcome ip u entry t a e = elim (Bool-cases (text_eq u.action updated)) [
    | inl yes' ↦
        rw (yes', answer)
          (passed
            (record {
              ip = ip;
              result = u;
              authorised = a;
              update = e;
              done = inl ((text_eq_iff _ _).0 yes');
            })
            (good-Passes u.new_ip))
    | inr no' ↦
        elim (Bool-cases (
          text_eq u.action nochg_cache
          || (text_eq u.action nochg_dns || text_eq u.action dry_run_action))) [
            | inl yes' ↦
                rw (no', yes', answer)
                  (passed
                    (record {
                      ip = ip;
                      result = u;
                      authorised = a;
                      update = e;
                      done = ground (
                        arith,
                        text_eq_iff u.action nochg_cache,
                        text_eq_iff u.action nochg_dns,
                        text_eq_iff u.action dry_run_action,
                      );
                    })
                    (nochg-Passes u.new_ip))
            | inr neither ↦
                rw (no', neither, answer)
                  (failed
                    (λ v. ground (
                      arith,
                      same_update ip a v,
                      v.done,
                      text_eq_iff u.action updated,
                      text_eq_iff u.action nochg_cache,
                      text_eq_iff u.action nochg_dns,
                      text_eq_iff u.action dry_run_action,
                    ))
                    (dnserr_fails []))
          ]
  ]

  publish-Outcome :
      (ip : Ip) (entry : AuditEntry) (t : State)
      → Authorised env server r s ip
      → Outcome (publish env ip entry t).1
  unfolding publish
  publish-Outcome ip entry t a = elim (Hook-cases (env.update_ip (env.ip_string ip))) [
    | inl (u, e) ↦ rw (e, publish) (answer-Outcome ip u _ _ a e)
    | inr (inl (cause, e)) ↦
        rw (e, publish) (failed (λ v. cc (same_update ip a v, e)) (dnserr_fails []))
    | inr (inr (cause, e)) ↦
        rw (e, publish) (failed (λ v. cc (same_update ip a v, e)) (recover-fails cause _ _))
  ]

  look_up-Outcome :
      (entry : AuditEntry) (t : State)
      → ((ip : Ip)
          → env.wan_ip server.wan_interface ≡ returns (ok ip)
          → Authorised env server r s ip)
      → Outcome (look_up env server entry t).1
  unfolding look_up
  look_up-Outcome entry t good = elim (Hook-cases (env.wan_ip server.wan_interface)) [
    | inl (ip, e) ↦ rw (e, look_up) (publish-Outcome ip entry t (good ip e))
    | inr (inl (cause, e)) ↦
        rw (e, look_up) (failed (λ v. cc (v.authorised.wan, e)) (dnserr_fails []))
    | inr (inr (cause, e)) ↦
        rw (e, look_up) (failed (λ v. cc (v.authorised.wan, e)) (recover-fails cause _ _))
  ]

  validate_query-Outcome :
      (entry : AuditEntry) (t : State)
      → env.allowed r.remote_addr server.allowed_cidrs ≡ true
      → r.method ≡ codes "GET"
      → s.auth.locked_until ≤ env.now
      → r.basic_auth ≡ some s.auth.secret
      → Outcome (validate_query env server r entry t).1
  unfolding validate_query
  validate_query-Outcome entry t net get free pass = elim (Bool-cases (is_empty r.hostname)) [
    | inl nothing ↦
        rw (nothing, validate_query)
          (failed (λ v. v.authorised.named (eq-nil_of_empty _ nothing)) (notfqdn_fails []))
    | inr given ↦ elim (Bool-cases (equal_fold r.hostname env.cfg.hostname)) [
      | inr other ↦
          rw (given, other, validate_query)
            (failed (λ v. cc (v.authorised.host, other)) (nohost_fails []))
      | inl matched ↦
          rw (given, matched, validate_query)
            (look_up-Outcome (record entry { host = r.hostname; myip_claimed = r.myip }) t
              λ ip e. record {
                network = net;
                get = get;
                not_locked = free;
                password = pass;
                named = ne-nil_of_not_empty _ given;
                host = matched;
                wan = e;
              })
    ]
  ]

  after_check-Outcome :
      (password : Text) (entry : AuditEntry) (t : State)
      → r.basic_auth ≡ some password
      → env.allowed r.remote_addr server.allowed_cidrs ≡ true
      → r.method ≡ codes "GET"
      → Outcome (after_check env server r entry t (check password env.now s.auth).1).1
  unfolding after_check
  after_check-Outcome password entry t given net get =
      let (locked, fine, bad, _) = check_verdict password env.now s.auth in
      elim (AuthResult-cases (check password env.now s.auth).1) [
        | inl e ↦
            let (free, right) = fine.0 e in
            rw (e, after_check) (validate_query-Outcome _ t net get free (rw (← right) given))
        | inr (inl e) ↦
            rw (e, after_check)
              (failed (λ v. ground (arith, bad.0 e, v.authorised.password)) (badauth_fails []))
        | inr (inr e) ↦
            rw (e, after_check)
              (failed (λ v. ground (arith, locked.0 e, v.authorised.not_locked)) (badauth_fails []))
      ]

  authenticate-Outcome :
      (entry : AuditEntry)
      → env.allowed r.remote_addr server.allowed_cidrs ≡ true
      → r.method ≡ codes "GET"
      → Outcome (authenticate env server r entry s).1
  unfolding authenticate
  authenticate-Outcome entry net get = elim (Option-cases r.basic_auth) [
    | inl missing ↦
        rw (missing, authenticate) (failed (λ v. cc v.authorised.password) (badauth_fails []))
    | inr (password, given) ↦
        moved (authenticate env server r entry s).1
          (after_check-Outcome password entry
            (record s { auth = (check password env.now s.auth).0 }) given net get)
          (ground arith)
  ]

  with_server-Outcome : Outcome (with_server env server r s).1
  unfolding with_server judge
  with_server-Outcome = elim (Bool-cases (env.allowed r.remote_addr server.allowed_cidrs)) [
    | inr denied ↦
        rw (denied, with_server)
          (failed (λ v. cc (v.authorised.network, denied)) (λ h. ground arith))
    | inl net ↦ elim (Bool-cases (text_eq r.method (codes "GET"))) [
      | inr other ↦
          rw (net, other, with_server)
            (failed (λ v. ground (arith, v.authorised.get, text_eq_iff r.method (codes "GET")))
              (λ h. ground arith))
      | inl get ↦ rw (net, get, with_server) (authenticate-Outcome _ net ((text_eq_iff _ _).0 get))
    ]
  ]

  -- A reply of the handler passes the test exactly if the request was served.
  pub serve_http-Outcome : env.cfg.server ≡ some server → Outcome (serve_http env r s).1
  unfolding serve_http
  serve_http-Outcome e = moved (serve_http env r s).1 with_server-Outcome (ground arith)
