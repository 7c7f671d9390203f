-- ===== src/Server/Lifecycle.antt =====
-- internal/server/server.go: how serve mode starts and ends. The listener of net/http, the parsers
-- of a bind address and of a network, and the parser of durations are parameters.
pub mod Service
use dddns.Prelude.{ℕ, ◌≡◌, refl, Bool, true, not, List, [], ◌∷◌, Option, none, some}
use dddns.Prelude.Int.{ℤ}
use dddns.Prelude.Tests.{if◌then◌else◌}
use dddns.Prelude.Result.{Result, ok, err, ◌>>=◌, ◌>>◌, wrap}
use dddns.Prelude.Text.{Text, codes, is_empty}
use dddns.Prelude.FilePath.{dir, join}
use dddns.Config.{Config, ServerConfig, ConfigError, validate, validate_server}
use dddns.Server.Auth.{new_authenticator}
use dddns.Server.Handler.{State}

pub data StartError : Type 0 where
  config_invalid server_config_invalid : ConfigError → StartError
  no_server_block : StartError

-- `AuditPath`.
user_audit_log : Option ServerConfig → Text
user_audit_log none = []
user_audit_log (some s) = s.audit_log

unfoldable pub audit_path : Config → Text
unfolding user_audit_log
audit_path cfg =
    if not (is_empty (user_audit_log cfg.server))
    then user_audit_log cfg.server
    else join (dir cfg.ip_cache_file) (codes "serve-audit.log")

-- `StatusPath`.
unfoldable pub status_path : Config → Text
status_path cfg = join (dir cfg.ip_cache_file) (codes "serve-status.json")

-- The state of a handler that has seen no request.
unfoldable pub initial : ServerConfig → State
initial s = record {
  auth = new_authenticator s.shared_secret;
  audit = [];
  status = none;
  journal = [];
  asked = [];
}

-- The address, the one route, the time limits in seconds, and what the handler starts with.
pub record Server : Type 0 where
  pub addr : Text
  pub route : Text
  pub cfg : Config
  pub audit_file : Text
  pub status_file : Text
  pub state : State
  pub read_header_timeout : ℕ
  pub read_timeout : ℕ
  pub write_timeout : ℕ
  pub idle_timeout : ℕ

-- The server that is built for a block.
unfoldable pub built : Config → ServerConfig → Server
built cfg s = record {
  addr = s.bind;
  route = codes "/nic/update";
  cfg = cfg;
  audit_file = audit_path cfg;
  status_file = status_path cfg;
  state = initial s;
  read_header_timeout = 5;
  read_timeout = 10;
  write_timeout = 35;
  idle_timeout = 30;
}

module _ (parse_duration : Text → Option ℤ) (split_host_port : Text → Option (Text × Text))
    {N : Type 0} (parse_cidr : Text → Option N) where
  with_block : Config → Option ServerConfig → Result StartError Server
  with_block cfg none = err no_server_block
  with_block cfg (some s) = do
    wrap server_config_invalid (validate_server split_host_port parse_cidr s)
    ok (built cfg s)

  unfoldable pub new_server : Config → Result StartError Server
  unfolding with_block
  new_server cfg = do wrap config_invalid (validate parse_duration cfg); with_block cfg cfg.server

-- What `Run` sees first: the end of its context, then the answer of the shutdown, or the end of the
-- listener with an error.
pub data Event : Type 0 where
  cancelled : (shutdown : Result Text (Unit {0})) → Event
  server_closed : Event
  listener_failed : Text → Event

unfoldable pub run : Event → Result Text (Unit {0})
run (cancelled shutdown) = shutdown
run server_closed = ok tt
run (listener_failed e) = err e
