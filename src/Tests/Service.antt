-- ===== src/Tests/Service.antt =====
-- Serve mode: who is allowed, the start, the audit log and the status file.
use dddns.Prelude.{
  ℕ, ◌+◌, ◌≡◌, ◌≢◌, ◌↔◌, ◌++◌, refl, [], ◌∷◌, Option, none, some, true, false, arith,
}
use dddns.Prelude.Int.{ℤ}
use dddns.Prelude.Result.{ok}
use dddns.Prelude.Text.{Text, codes, equal_fold, text_eq, split_once}
use dddns.Net.{Ip, v4, Network, contains}
use dddns.Files.{Files}
use dddns.Config.{ServerConfig}
use dddns.Config.Validate.{IsReady, IsServable}
use dddns.Server.Auth.{new_authenticator}
use dddns.Server.Cidr.{host_of, is_allowed}
use dddns.Server.Cidr.Within.{Within, Sender, is_allowed_iff}
use dddns.Server.Handler.{returns, AuditEntry, new_entry, StatusSnapshot, serve_http}
use dddns.Server.Lifecycle.{initial, built, new_server}
use dddns.Server.Lifecycle.Service.{
  new_server_iff, started, IsRunning, Reach-IsRunning, Reach-asked,
}
use dddns.Server.Audit.{AuditLog, AuditFaults, write}
use dddns.Server.Audit.Rotation.{
  Wrote, IsBounded, IsSmall, write_all, write-Wrote, write_all-IsBounded,
}
use dddns.Server.Status
use dddns.Server.Status.{StatusFaults, StatusCodec, last_of, read_status}
use dddns.Server.Status.Atomic.{IsAtomic, write-IsAtomic, read_status-write}
use dddns.Prelude.Tests.{if◌then◌else◌}
use dddns.Server.Handler.{
  look_up, with_server, authenticate, after_check, validate_query, publish, answer, recover, emit,
}
use dddns.Tests.Requests.{env, server, request}
use dddns.Server.Status.{replace}
use dddns.Server.Audit.{rotate}
use dddns.Server.Handler.{with_server}
use dddns.Server.Audit.{append_line}
use dddns.Server.Handler.{after_check}
use dddns.Server.Auth.{check}
use dddns.Server.Handler.{validate_query}
use dddns.Server.Handler.{look_up}

abbrev one_port : Text → Option (Text × Text)
one_port s = split_once b':' s

abbrev loopback_ip : Text → Option Ip
loopback_ip _ = some (v4 127 0 0 1)

abbrev loopback_net : Text → Option Network
loopback_net _ = some (record { number = 127 ∷ 0 ∷ 0 ∷ 0 ∷ []; mask = 255 ∷ 0 ∷ 0 ∷ 0 ∷ [] })

is_allowed_iff_example :
    (is_allowed one_port loopback_ip loopback_net
        (codes "127.0.0.1:4000")
        (codes "127.0.0.0/8" ∷ [])
      ≡ true)
    ↔ ((text : Text) × Sender one_port loopback_ip loopback_net (codes "127.0.0.1:4000") text
        × ((ip : Ip) × (loopback_ip text ≡ some ip)
            × Within one_port loopback_ip loopback_net ip (codes "127.0.0.0/8" ∷ [])))
is_allowed_iff_example =
    is_allowed_iff one_port loopback_ip loopback_net (codes "127.0.0.1:4000")
      (codes "127.0.0.0/8" ∷ [])

zone_cut : host_of one_port loopback_ip loopback_net (codes "fe80%eth0:80") ≡ codes "fe80"
unfolding host_of split_once
zone_cut = refl

admitted :
    is_allowed one_port loopback_ip loopback_net (codes "127.0.0.1:4000") (codes "127.0.0.0/8" ∷ [])
    ≡ true
unfolding is_allowed contains
admitted = refl

abbrev no_duration : Text → Option ℤ
no_duration _ = none

abbrev host_port : Text → Option (Text × Text)
host_port s = some (s, codes "53353")

new_server_iff_example :
    (new_server no_duration host_port loopback_net env.cfg ≡ ok (built env.cfg server)) ↔ (
      IsReady no_duration env.cfg
      × ((block : ServerConfig) × (env.cfg.server ≡ some block)
          × IsServable host_port loopback_net block
          × (built env.cfg server ≡ built env.cfg block)))
new_server_iff_example =
    new_server_iff no_duration host_port loopback_net env.cfg (built env.cfg server)

Reach-IsRunning_example : IsRunning server 500 (initial server)
Reach-IsRunning_example =
    Reach-IsRunning env.cfg server 500 (initial server) refl (started 500 refl)

publishes : (serve_http env request (initial server)).0.asked ≡ codes "203.0.113.7" ∷ []
unfolding serve_http with_server authenticate after_check check new_authenticator validate_query
    look_up publish answer recover emit initial text_eq equal_fold
publishes = refl

changes : (serve_http env request (initial server)).0.asked ≢ (initial server).asked
unfolding initial
changes e = ground (arith, publishes)

Reach-asked_example :
    (ip : Ip) × (env.allowed request.remote_addr server.allowed_cidrs ≡ true)
    × (request.basic_auth ≡ some server.shared_secret)
    × (equal_fold request.hostname env.cfg.hostname ≡ true)
    × (env.wan_ip server.wan_interface ≡ returns (ok ip))
    × ((serve_http env request (initial server)).0.asked
        ≡ env.ip_string ip ∷ (initial server).asked)
Reach-asked_example =
    Reach-asked env.cfg server 500 (initial server) env request refl (started 500 refl) refl changes

abbrev log : AuditLog
log = record { path = codes "a.log"; max_size = 2; marshal = λ _ _. ok (codes "{}") }

abbrev sound_disk : AuditFaults
sound_disk = record { rename_fails = false; cannot_open = none; write = none; partial = [] }

abbrev full_log : Files
full_log p =
    if text_eq p (codes "a.log")
    then some (record { mode = 0o600; content = codes "abc" })
    else none

abbrev entry : AuditEntry
entry = new_entry (codes "127.0.0.1:4000")

rotates : (write log sound_disk 5 entry full_log).1 ≡ ok tt
unfolding write rotate append_line text_eq
rotates = refl

write-Wrote_example :
    (s : Text) × (log.marshal 5 entry ≡ ok s)
    × Wrote log (s ++ 10 ∷ []) full_log (write log sound_disk 5 entry full_log).0
write-Wrote_example = write-Wrote log sound_disk 5 entry full_log rotates

small : (now : ℕ) → IsSmall log 3 (sound_disk, now, entry)
small now = record { renames = refl; partial = omega arith; line = λ s e. ground arith }

write_all-IsBounded_example :
    IsBounded log
      (2 + 3)
      (write_all log ((sound_disk, 5, entry) ∷ (sound_disk, 6, entry) ∷ []) full_log)
unfolding text_eq
write_all-IsBounded_example =
    write_all-IsBounded log 3 ((sound_disk, 5, entry) ∷ (sound_disk, 6, entry) ∷ []) full_log
      (small 5, (small 6, tt)) (record { log = omega arith; old = omega arith })

abbrev snapshot : StatusSnapshot
snapshot = record {
  last_request_at = 5;
  last_remote_addr = codes "127.0.0.1:4000";
  last_auth_outcome = codes "ok";
  last_action = codes "updated";
  last_error = [];
}

abbrev one_snapshot : StatusCodec
one_snapshot = record { marshal = λ _. ok (codes "{}"); unmarshal = λ _. some snapshot }

abbrev quiet : StatusFaults
quiet = record {
  create = none;
  write = none;
  partial = [];
  close = none;
  rename = none;
  remove_fails = false;
  read = none;
}

abbrev target : Text
target = codes "status.json"

abbrev temporary_name : Text
temporary_name = codes ".tmp"

write-IsAtomic_example :
    IsAtomic target
      (codes "{}" ++ 10 ∷ [])
      full_log
      (Status.write one_snapshot quiet target temporary_name snapshot full_log)
write-IsAtomic_example =
    write-IsAtomic one_snapshot quiet target temporary_name snapshot full_log (codes "{}")
      (λ e. ground arith) refl

stored : (Status.write one_snapshot quiet target temporary_name snapshot full_log).1 ≡ ok tt
unfolding Status.write replace
stored = refl

read_status-write_example :
    read_status one_snapshot quiet target
      (last_of full_log (Status.write one_snapshot quiet target temporary_name snapshot full_log).0)
    ≡ ok snapshot
read_status-write_example =
    read_status-write one_snapshot quiet quiet target temporary_name snapshot full_log (codes "{}")
      (λ e. ground arith) refl refl refl stored
