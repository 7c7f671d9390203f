-- ===== src/Cmd/Serve.antt =====
-- cmd/serve.go: the commands `serve`, `serve status` and `serve test`, on the answer of `config.Load`.
-- The HTTP client and the format of a time are parameters.
pub mod Words
pub mod Codes
pub mod Replies
pub mod Loopback
use dddns.Prelude.{ℕ, Bool, not, ◌||◌, List, [], ◌∷◌, ◌++◌, Option, none, some}
use dddns.Prelude.Tests.{◌==◌, if◌then◌else◌}
use dddns.Prelude.Int.{ℤ, pos}
use dddns.Prelude.Result.{Result, ok, err, ◌>>=◌, ◌>>◌, wrap}
use dddns.Prelude.Text.{Text, codes, text_eq, is_empty, trim_space}
use dddns.Prelude.Url.{query_escape, join_host_port}
use dddns.Files.{Files}
use dddns.Config.{Config, ServerConfig}
use dddns.Config.Secure.{SecureError}
use dddns.Prelude.Decimal.{decimal}
use dddns.WanIp.{fields}
use dddns.Server.Handler.{StatusSnapshot}
use dddns.Server.Status.{StatusCodec, StatusFaults, StatusError, read_status}
use dddns.Server.Lifecycle.{StartError, Event, new_server, run, status_path}

pub data ServeError : Type 0 where
  load_failed : SecureError → ServeError
  start_failed : StartError → ServeError
  run_failed : Text → ServeError
  no_server_block : ServeError
  build_failed request_failed : Text → ServeError
  bad_status : ℕ → ServeError
  empty_body : ServeError
  bad_code : Text → ServeError
  no_status : StatusError → ServeError

-- What `http.NewRequest` and `SetBasicAuth` make; the method is GET.
pub record HttpRequest : Type 0 where
  pub url : Text
  pub user : Text
  pub password : Text

pub record HttpAnswer : Type 0 where
  pub status : ℕ
  pub body : Text

-- `build` is the error of `http.NewRequest`. A body that breaks off is what has been read of it.
pub record HttpClient : Type 0 where
  pub build : Text → Option Text
  pub send : HttpRequest → Result Text HttpAnswer

module _ (split_host_port : Text → Option (Text × Text)) where
  unfoldable pub loopback_url : Text → Text
  loopback_url bind = elim (split_host_port bind) [
    | none ↦ codes "http://" ++ bind
    | some (host, port) ↦
        let reachable =
          if is_empty host || (text_eq host (codes "0.0.0.0") || text_eq host (codes "::"))
          then codes "127.0.0.1"
          else host in
        codes "http://" ++ join_host_port reachable port
  ]

  module _ (parse_duration : Text → Option ℤ) {N : Type 0} (parse_cidr : Text → Option N) where
    -- `runServe`.
    unfoldable pub run_serve : Result SecureError Config → Event → Result ServeError (Unit {0})
    run_serve loaded event = do
      cfg ← wrap load_failed loaded
      server ← wrap start_failed (new_server parse_duration split_host_port parse_cidr cfg)
      wrap run_failed (run event)

-- The URL of the request.
unfoldable pub test_url : (base hostname myip : Text) → Text
test_url base hostname myip =
    base
    ++ (codes "/nic/update?hostname="
        ++ (query_escape hostname ++ (codes "&myip=" ++ query_escape myip)))

-- The `switch` on the first word of the body.
unfoldable pub judge_code : List Text → Result ServeError (Unit {0})
judge_code [] = err empty_body
judge_code (code ∷ _) =
    if text_eq code (codes "good") || text_eq code (codes "nochg")
    then ok tt
    else err (bad_code code)

unfoldable pub judge : HttpAnswer → Result ServeError (Unit {0})
judge a =
    if not (a.status == 200)
    then err (bad_status a.status)
    else judge_code (fields (trim_space a.body))

-- The two lines that are printed.
unfoldable pub shown : HttpAnswer → Text
shown a =
    codes "HTTP "
    ++ (decimal (pos a.status) ++ 10 ∷ (codes "Body: " ++ (trim_space a.body ++ 10 ∷ [])))

-- `performServeTest`, with the text that is printed.
unfoldable pub perform_serve_test :
    HttpClient → (base hostname secret myip : Text) → Text × Result ServeError (Unit {0})
unfolding judge shown
perform_serve_test client base hostname secret myip =
    let url = test_url base hostname myip in
    elim (client.build url) [
      | some e ↦ ([], err (build_failed e))
      | none ↦ elim (client.send (record { url = url; user = codes "dddns"; password = secret })) [
        | err e ↦ ([], err (request_failed e))
        | ok a ↦ (shown a, judge a)
      ]
    ]

-- A host name by the flag goes before that of the configuration.
abbrev pub or_configured : (flag configured : Text) → Text
or_configured flag configured = if is_empty flag then configured else flag

-- `runServeTest`, with its two flags.
unfoldable pub run_serve_test :
    (split_host_port : Text → Option (Text × Text))
    → HttpClient
    → (hostname_flag ip_flag : Text) → Result SecureError Config
    → Text × Result ServeError (Unit {0})
run_serve_test split_host_port client hostname_flag ip_flag (err e) = ([], err (load_failed e))
run_serve_test split_host_port client hostname_flag ip_flag (ok cfg) = elim cfg.server [
  | none ↦ ([], err no_server_block)
  | some server ↦
      perform_serve_test client (loopback_url split_host_port server.bind)
        (or_configured hostname_flag cfg.hostname) server.shared_secret ip_flag
]

-- A line that is left out if there is nothing to say.
abbrev optional : (label value rest : Text) → Text
optional label value rest = if not (is_empty value) then label ++ (value ++ 10 ∷ rest) else rest

unfoldable pub status_summary : (rfc3339 : ℕ → Text) → Text → StatusSnapshot → Text
status_summary rfc3339 path snap =
    codes "Status file:    "
    ++ (path
        ++ 10
          ∷ (codes "Last request:   "
              ++ (rfc3339 snap.last_request_at
                  ++ 10
                    ∷ optional (codes "Remote:         ") snap.last_remote_addr (
                        optional (codes "Auth outcome:   ") snap.last_auth_outcome (
                          optional (codes "Action:         ") snap.last_action
                            (optional (codes "Error:          ") snap.last_error []))))))

-- `runServeStatus`; the answer is the text that is printed.
unfoldable pub run_serve_status :
    StatusCodec
    → StatusFaults
    → (rfc3339 : ℕ → Text) → Result SecureError Config
    → Files
    → Result ServeError Text
unfolding status_summary
run_serve_status codec f rfc3339 loaded fs = do
  cfg ← wrap load_failed loaded
  snap ← wrap no_status (read_status codec f (status_path cfg) fs)
  ok (status_summary rfc3339 (status_path cfg) snap)
