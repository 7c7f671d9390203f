-- ===== src/Server/Handler/Record.antt =====
-- What every request to internal/server/handler.go leaves behind, and what it ignores.
use dddns.Prelude.{◌||◌, ◌≡◌, ◌≢◌, ◌⊎◌, refl, List, [], ◌∷◌, ◌++◌, Option, none, some, arith}
use dddns.Server.Handler.{
  Request, AuditEntry, Reply, State, Env, write_dyndns, emit, finish, recover, answer, publish,
  look_up, validate_query, after_check, authenticate, with_server, serve_http,
}
use dddns.Prelude.Text.{Text}
use dddns.Updater.{UpdateResult}
use dddns.Prelude.Tests.{Bool-cases}
use dddns.Prelude.Text.{text_eq}
use dddns.Updater.{updated}
use dddns.Prelude.Text.{codes}
use dddns.Net.{Ip}
use dddns.Config.{ServerConfig}
use dddns.Server.Auth.{AuthResult}
use dddns.Server.Handler.{Hook-cases}
use dddns.Prelude.Tests.{Option-cases}
use dddns.Prelude.Text.{is_empty}
use dddns.Server.Auth.{auth_ok}
use dddns.Prelude.{inl, inr}
use dddns.Server.Auth.{auth_bad_credentials}
use dddns.Prelude.Text.{equal_fold}
use dddns.Updater.{nochg_cache}
use mathlib.Core.Path.{subst}
use dddns.Server.Auth.{check}
use dddns.Server.Handler.{new_entry}
use dddns.Server.Auth.{auth_locked_out}
use dddns.Updater.{nochg_dns}
use dddns.Updater.{dry_run_action}

-- What a failed write prints, on top of what has been printed.
abbrev pub complained : Text → Option Text → List Text → List Text
complained what none journal = journal
complained what (some e) journal = (what ++ e) ∷ journal

-- One entry, which names the sender, for the audit log and the status file: each of the two has taken
-- it, or is as before and stderr has the reason. Nothing else is printed.
pub record IsRecorded (env : Env) (r : Request) (before after : State) : Type 0 where
  pub entry : AuditEntry
  pub sender : entry.remote ≡ r.remote_addr
  pub line :
      ((env.sinks.audit_write ≡ none) × (after.audit ≡ entry ∷ before.audit))
      ⊎ ((env.sinks.audit_write ≢ none) × (after.audit ≡ before.audit))
  pub file :
      ((env.sinks.status_write ≡ none)
        × (after.status
            ≡ some (record {
              last_request_at = env.sinks.stamp;
              last_remote_addr = entry.remote;
              last_auth_outcome = entry.auth_outcome;
              last_action = entry.action;
              last_error = entry.error;
            })))
      ⊎ ((env.sinks.status_write ≢ none) × (after.status ≡ before.status))
  pub printed :
      after.journal
      ≡ complained
          (codes "serve: status write failed: ")
          env.sinks.status_write
          (complained (codes "serve: audit write failed: ") env.sinks.audit_write before.journal)

module _ (env : Env) (r : Request) (before : State) where
  -- A data type, so that the step it speaks of is known to the tactics.
  data Recorded (x : State × Reply) : Type 0 where
    recorded : IsRecorded env r before x.0 → Recorded x

  -- What a step is given: all that is written as before, and an entry of this request.
  abbrev Given : AuditEntry → State → Type 0
  Given entry s =
      (s.audit ≡ before.audit)
      × (s.status ≡ before.status)
      × (s.journal ≡ before.journal)
      × (entry.remote ≡ r.remote_addr)

  finish-Recorded :
      (reply : Reply) (entry : AuditEntry) (s : State)
      → Given entry s
      → Recorded (finish env.sinks reply entry s)
  unfolding emit
  finish-Recorded reply entry s (lines, file, printed, sender) =
      elim (Option-cases env.sinks.audit_write) [
        | inl a ↦ elim (Option-cases env.sinks.status_write) [
          | inl b ↦ recorded (record {
            entry = entry;
            sender = sender;
            line = inl (a, ground arith);
            file = inl (b, ground arith);
            printed = ground arith;
          })
          | inr (e, b) ↦ recorded (record {
            entry = entry;
            sender = sender;
            line = inl (a, ground arith);
            file = inr (λ c. cc, ground arith);
            printed = ground arith;
          })
        ]
        | inr (e, a) ↦ elim (Option-cases env.sinks.status_write) [
          | inl b ↦ recorded (record {
            entry = entry;
            sender = sender;
            line = inr (λ c. cc, ground arith);
            file = inl (b, ground arith);
            printed = ground arith;
          })
          | inr (e', b) ↦ recorded (record {
            entry = entry;
            sender = sender;
            line = inr (λ c. cc, ground arith);
            file = inr (λ c. cc, ground arith);
            printed = ground arith;
          })
        ]
      ]

  recover-Recorded :
      (cause : Text) (entry : AuditEntry) (s : State)
      → Given entry s
      → Recorded (recover env.sinks cause entry s)
  unfolding recover
  recover-Recorded cause entry s g = finish-Recorded _ _ s g

  answer-Recorded :
      (u : UpdateResult) (entry : AuditEntry) (s : State)
      → Given entry s
      → Recorded (answer env.sinks u entry s)
  unfolding answer
  answer-Recorded u entry s g = elim (Bool-cases (text_eq u.action updated)) [
    | inl e ↦ rw (e, answer) (finish-Recorded _ _ s g)
    | inr e ↦
        elim (Bool-cases (
          text_eq u.action nochg_cache
          || (text_eq u.action nochg_dns || text_eq u.action dry_run_action))) [
            | inl e' ↦ rw (e, e', answer) (finish-Recorded _ _ s g)
            | inr e' ↦ rw (e, e', answer) (finish-Recorded _ _ s g)
          ]
  ]

  publish-Recorded :
      (ip : Ip) (entry : AuditEntry) (s : State) → Given entry s → Recorded (publish env ip entry s)
  unfolding publish
  publish-Recorded ip entry s g =
      let s' : State = record s { asked = env.ip_string ip ∷ s.asked } in
      elim (Hook-cases (env.update_ip (env.ip_string ip))) [
        | inl (u, e) ↦ rw (e, publish) (answer-Recorded u _ s' g)
        | inr (inl (cause, e)) ↦ rw (e, publish) (finish-Recorded _ _ s' g)
        | inr (inr (cause, e)) ↦ rw (e, publish) (recover-Recorded cause _ s' g)
      ]

  module _ (server : ServerConfig) where
    look_up-Recorded :
        (entry : AuditEntry) (s : State) → Given entry s → Recorded (look_up env server entry s)
    unfolding look_up
    look_up-Recorded entry s g = elim (Hook-cases (env.wan_ip server.wan_interface)) [
      | inl (ip, e) ↦ rw (e, look_up) (publish-Recorded ip _ s g)
      | inr (inl (cause, e)) ↦ rw (e, look_up) (finish-Recorded _ _ s g)
      | inr (inr (cause, e)) ↦ rw (e, look_up) (recover-Recorded cause _ s g)
    ]

    validate_query-Recorded :
        (entry : AuditEntry) (s : State)
        → Given entry s
        → Recorded (validate_query env server r entry s)
    unfolding validate_query
    validate_query-Recorded entry s g = elim (Bool-cases (is_empty r.hostname)) [
      | inl e ↦ rw (e, validate_query) (finish-Recorded _ _ s g)
      | inr e ↦ elim (Bool-cases (equal_fold r.hostname env.cfg.hostname)) [
        | inl e' ↦ rw (e, e', validate_query) (look_up-Recorded _ s g)
        | inr e' ↦ rw (e, e', validate_query) (finish-Recorded _ _ s g)
      ]
    ]

    after_check-Recorded :
        (v : AuthResult) (entry : AuditEntry) (s : State)
        → Given entry s
        → Recorded (after_check env server r entry s v)
    unfolding after_check
    after_check-Recorded auth_ok entry s g = validate_query-Recorded _ s g
    after_check-Recorded auth_bad_credentials entry s g = finish-Recorded _ _ s g
    after_check-Recorded auth_locked_out entry s g = finish-Recorded _ _ s g

    authenticate-Recorded :
        (entry : AuditEntry) (s : State)
        → Given entry s
        → Recorded (authenticate env server r entry s)
    unfolding authenticate
    authenticate-Recorded entry s g = elim (Option-cases r.basic_auth) [
      | inl e ↦ subst Recorded (ground arith) (
          finish-Recorded (write_dyndns (codes "badauth") [])
            (record entry { auth_outcome = codes "missing" }) s g)
      | inr (password, e) ↦
          let (a, v) = check password env.now s.auth in
          subst Recorded (ground arith) (after_check-Recorded v entry (record s { auth = a }) g)
    ]

    with_server-Recorded :
        (s : State) → Given (new_entry r.remote_addr) s → Recorded (with_server env server r s)
    unfolding with_server
    with_server-Recorded s g = elim (Bool-cases (env.allowed r.remote_addr server.allowed_cidrs)) [
      | inr e ↦ rw (e, with_server) (finish-Recorded _ _ s g)
      | inl e ↦ elim (Bool-cases (text_eq r.method (codes "GET"))) [
        | inr e' ↦ rw (e, e', with_server) (finish-Recorded _ _ s g)
        | inl e' ↦ rw (e, e', with_server) (authenticate-Recorded _ s g)
      ]
    ]

pub serve_http-IsRecorded :
    (env : Env) (r : Request) (s : State) → IsRecorded env r s (serve_http env r s).0
unfolding serve_http
serve_http-IsRecorded env r s =
    let done : Recorded env r s (serve_http env r s) = elim (Option-cases env.cfg.server) [
      | inl e ↦ subst (Recorded env r s) (ground arith) (
          recover-Recorded env r s
            (codes "runtime error: invalid memory address or nil pointer dereference")
            (new_entry r.remote_addr) s (refl, refl, refl, refl))
      | inr (server, e) ↦
          subst (Recorded env r s) (ground arith)
            (with_server-Recorded env r s server s (refl, refl, refl, refl))
    ] in
    elim done [ recorded h ↦ h ]

-- The address that the client claims has no influence: on the reply, on the authenticator, or on
-- what is handed to the update.
pub serve_http-myip :
    (env : Env) (r : Request) (claim : Text) (s : State)
    → ((serve_http env (record r { myip = claim }) s).1 ≡ (serve_http env r s).1)
      × ((serve_http env (record r { myip = claim }) s).0.auth ≡ (serve_http env r s).0.auth)
      × ((serve_http env (record r { myip = claim }) s).0.asked ≡ (serve_http env r s).0.asked)
unfolding serve_http with_server authenticate after_check validate_query look_up publish answer
    recover emit
serve_http-myip env r claim s = (ground arith, ground arith, ground arith)
