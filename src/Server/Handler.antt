-- ===== src/Server/Handler.antt =====
-- internal/server/handler.go: one dyndns request, from the network check to the audit line. The hooks
-- that the tests replace, the WAN lookup and the update, are parameters, and may panic.
pub mod Guards
pub mod Record
use dddns.Prelude.{
  ℕ, ◌≡◌, ◌⊎◌, inl, inr, refl, Bool, true, false, not, ◌&&◌, ◌||◌, List, [], ◌∷◌, ◌++◌, Option,
  none, some,
}
use dddns.Prelude.Tests.{◌==◌, if◌then◌else◌}
use dddns.Prelude.Result.{Result, ok, err}
use dddns.Prelude.Text.{Text, codes, text_eq, is_empty, equal_fold}
use dddns.Net.{Ip}
use dddns.Config.{Config, ServerConfig}
use dddns.Updater.{UpdateResult, updated, nochg_cache, nochg_dns, dry_run_action}
use dddns.Server.Auth.{
  Authenticator, AuthResult, auth_ok, auth_bad_credentials, auth_locked_out, check,
}

-- What a call that may panic comes to.
pub data Hook {ℓ} (A : Type ℓ) : Type ℓ where
  returns : A → Hook A
  panics : Text → Hook A

pub record Request : Type 0 where
  pub remote_addr : Text
  pub method : Text
  -- The password of Basic Auth, if the header is there.
  pub basic_auth : Option Text
  -- The parameters of the query; an absent one is "".
  pub hostname : Text
  pub myip : Text

pub record AuditEntry : Type 0 where
  pub remote : Text
  pub host : Text
  pub myip_claimed : Text
  pub myip_verified : Text
  pub auth_outcome : Text
  pub action : Text
  pub error : Text

abbrev pub new_entry : Text → AuditEntry
new_entry remote = record {
  remote = remote;
  host = [];
  myip_claimed = [];
  myip_verified = [];
  auth_outcome = [];
  action = [];
  error = [];
}

pub record StatusSnapshot : Type 0 where
  pub last_request_at : ℕ
  pub last_remote_addr : Text
  pub last_auth_outcome : Text
  pub last_action : Text
  pub last_error : Text

pub record Reply : Type 0 where
  pub status : ℕ
  pub body : Text

-- The state of a handler: its authenticator, the entries that the audit log has taken, the latest
-- first and rotated or not, the snapshot in the status file, what it has printed on stderr, the latest
-- first, and the addresses that it has handed to the update, the latest first.
pub record State : Type 0 where
  pub auth : Authenticator
  pub audit : List AuditEntry
  pub status : Option StatusSnapshot
  pub journal : List Text
  pub asked : List Text

-- What `emit` meets: the time that it reads, and the errors of the two writes, if they fail. A write
-- that fails has not put a whole line into the log, and has left the status file as it was.
pub record Sinks : Type 0 where
  pub stamp : ℕ
  pub audit_write : Option Text
  pub status_write : Option Text

-- What the handler is built with, the time, and how the writes at the end go.
pub record Env : Type 0 where
  pub cfg : Config
  pub now : ℕ
  pub sinks : Sinks
  pub allowed : Text → List Text → Bool
  pub wan_ip : Text → Hook (Result Text Ip)
  pub ip_string : Ip → Text
  pub update_ip : Text → Hook (Result Text UpdateResult)

-- `writeDyndns`.
unfoldable pub write_dyndns : Text → Text → Reply
write_dyndns code ip = record {
  status = 200;
  body = (if not (is_empty ip) then code ++ 32 ∷ ip else code) ++ 10 ∷ [];
}

-- The snapshot that `emit` writes.
abbrev pub snapshot_of : ℕ → AuditEntry → StatusSnapshot
snapshot_of stamp entry = record {
  last_request_at = stamp;
  last_remote_addr = entry.remote;
  last_auth_outcome = entry.auth_outcome;
  last_action = entry.action;
  last_error = entry.error;
}

-- `h.audit.Write(entry)`, and what is printed if it fails.
unfoldable pub write_audit : Option Text → AuditEntry → State → State
write_audit none entry s = record s { audit = entry ∷ s.audit }
write_audit (some e) entry s = record s {
  journal = (codes "serve: audit write failed: " ++ e) ∷ s.journal;
}

-- `h.status.Write`, and what is printed if it fails.
unfoldable pub write_status : Option Text → StatusSnapshot → State → State
write_status none snap s = record s { status = some snap }
write_status (some e) snap s = record s {
  journal = (codes "serve: status write failed: " ++ e) ∷ s.journal;
}

-- `emit`: neither failure stops the other write or the reply.
unfoldable pub emit : Sinks → AuditEntry → State → State
unfolding write_audit write_status
emit o entry s =
    write_status o.status_write (snapshot_of o.stamp entry) (write_audit o.audit_write entry s)

-- A reply, the entry and the state behind it.
abbrev pub finish : Sinks → Reply → AuditEntry → State → State × Reply
finish o reply entry s = (emit o entry s, reply)

-- The deferred function: a panic is answered by "911".
unfoldable pub recover : Sinks → Text → AuditEntry → State → State × Reply
unfolding write_dyndns emit
recover o cause entry s =
    finish o (write_dyndns (codes "911") [])
      (record entry { action = codes "panic"; error = cause }) s

-- The `switch` on the action of the update.
unfoldable pub answer : Sinks → UpdateResult → AuditEntry → State → State × Reply
unfolding write_dyndns emit
answer o r entry s =
    let e = record entry { action = r.action } in
    if text_eq r.action updated
    then finish o (write_dyndns (codes "good") r.new_ip) e s
    else if text_eq r.action nochg_cache
        || (text_eq r.action nochg_dns || text_eq r.action dry_run_action)
    then finish o (write_dyndns (codes "nochg") r.new_ip) e s
    else finish o (write_dyndns (codes "dnserr") [])
        (record e { error = codes "unknown updater action: " ++ r.action }) s

-- To split on a hook's answer.
pub Hook-cases {ℓ κ} :
    {E : Type ℓ} {A : Type κ} (h : Hook (Result E A))
    → ((a : A) × (h ≡ returns (ok a)))
      ⊎ ((e : E) × (h ≡ returns (err e)))
      ⊎ ((cause : Text) × (h ≡ panics cause))
Hook-cases (returns (ok a)) = inl (a, refl)
Hook-cases (returns (err e)) = inr (inl (e, refl))
Hook-cases (panics cause) = inr (inr (cause, refl))

-- From the update on.
unfoldable pub publish : Env → Ip → AuditEntry → State → State × Reply
unfolding write_dyndns emit
publish env ip entry s =
    let e = record entry { myip_verified = env.ip_string ip } in
    let s' = record s { asked = env.ip_string ip ∷ s.asked } in
    elim (env.update_ip (env.ip_string ip)) [
      | panics cause ↦ recover env.sinks cause e s'
      | returns (err cause) ↦
          finish env.sinks (write_dyndns (codes "dnserr") [])
            (record e { action = codes "dnserr"; error = cause }) s'
      | returns (ok r) ↦ answer env.sinks r e s'
    ]

-- From the lookup of the WAN address on.
unfoldable pub look_up : Env → ServerConfig → AuditEntry → State → State × Reply
unfolding write_dyndns emit
look_up env server entry s = elim (env.wan_ip server.wan_interface) [
  | panics cause ↦ recover env.sinks cause entry s
  | returns (err cause) ↦
      finish env.sinks (write_dyndns (codes "dnserr") [])
        (record entry { action = codes "wanip-error"; error = cause }) s
  | returns (ok ip) ↦ publish env ip entry s
]

-- The validation of the query.
unfoldable pub validate_query : Env → ServerConfig → Request → AuditEntry → State → State × Reply
unfolding write_dyndns emit
validate_query env server r entry s =
    let e = record entry { host = r.hostname; myip_claimed = r.myip } in
    if is_empty r.hostname
    then finish env.sinks (write_dyndns (codes "notfqdn") [])
        (record e { action = codes "notfqdn" }) s
    else if not (equal_fold r.hostname env.cfg.hostname)
    then finish env.sinks (write_dyndns (codes "nohost") []) (record e { action = codes "nohost" })
        s
    else look_up env server e s

-- The `switch` on the answer of the authenticator.
unfoldable pub after_check :
    Env → ServerConfig → Request → AuditEntry → State → AuthResult → State × Reply
unfolding write_dyndns emit
after_check env server r entry s auth_ok =
    validate_query env server r (record entry { auth_outcome = codes "ok" }) s
after_check env server r entry s auth_locked_out =
    finish env.sinks (write_dyndns (codes "badauth") [])
      (record entry { auth_outcome = codes "locked" }) s
after_check env server r entry s auth_bad_credentials =
    finish env.sinks (write_dyndns (codes "badauth") [])
      (record entry { auth_outcome = codes "bad" }) s

unfoldable pub authenticate : Env → ServerConfig → Request → AuditEntry → State → State × Reply
unfolding write_dyndns emit
authenticate env server r entry s = elim r.basic_auth [
  | none ↦
      finish env.sinks (write_dyndns (codes "badauth") [])
        (record entry { auth_outcome = codes "missing" }) s
  | some password ↦
      let (a, verdict) = check password env.now s.auth in
      after_check env server r entry (record s { auth = a }) verdict
]

unfoldable pub with_server : Env → ServerConfig → Request → State → State × Reply
unfolding emit
with_server env server r s =
    let entry = new_entry r.remote_addr in
    if not (env.allowed r.remote_addr server.allowed_cidrs)
    then finish env.sinks (record { status = 403; body = [] })
        (record entry { action = codes "cidr-deny" }) s
    else if not (text_eq r.method (codes "GET"))
    then finish env.sinks (record { status = 405; body = [] })
        (record entry { action = codes "method-deny" }) s
    else authenticate env server r entry s

-- `ServeHTTP`. Without a server block the access to its networks is a nil dereference, which the
-- deferred function recovers.
unfoldable pub serve_http : Env → Request → State → State × Reply
serve_http env r s = elim env.cfg.server [
  | none ↦
      recover env.sinks (codes "runtime error: invalid memory address or nil pointer dereference")
        (new_entry r.remote_addr) s
  | some server ↦ with_server env server r s
]
