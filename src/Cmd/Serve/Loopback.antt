-- ===== src/Cmd/Serve/Loopback.antt =====
-- `serve test` of cmd/serve.go against the handler of internal/server/handler.go.
use dddns.Prelude.{◌≡◌, Option, none, some, arith}
use dddns.Prelude.Result.{ok}
use dddns.Prelude.Text.{Text, codes}
use dddns.Prelude.{◌↔◌, ◌∙◌, sym, ap}
use dddns.Prelude.Text.{Lacks}
use dddns.Prelude.Url.{query_get, raw_query}
use dddns.Prelude.Url.Escape.{AllBytes}
use dddns.Prelude.Url.RoundTrip.{query_get-two, raw_query-two}
use dddns.Cmd.Serve.Replies.{Served, passed, failed, serve_http-Outcome}
use dddns.Cmd.Serve.{or_configured, loopback_url, run_serve_test}
use dddns.Config.{ServerConfig}
use dddns.Server.Handler.{Request, State, Env, serve_http}
use dddns.Cmd.Serve.{HttpRequest, HttpClient, judge, perform_serve_test, test_url}
use dddns.Prelude.{ap}
use dddns.Prelude.{◌∙◌}
use dddns.Cmd.Serve.Codes.{answer_of}

-- The request as the handler sees it, from a sender at `remote`.
unfoldable pub received : Text → HttpRequest → Request
received remote q = record {
  remote_addr = remote;
  method = codes "GET";
  basic_auth = some q.password;
  hostname = query_get (codes "hostname") (raw_query q.url);
  myip = query_get (codes "myip") (raw_query q.url);
}

-- A client whose requests reach the handler in the state `s`.
unfoldable pub wired : Env → (remote : Text) → State → HttpClient
unfolding received
wired env remote s = record {
  build = λ _. none;
  send = λ q. ok (answer_of (serve_http env (received remote q) s).1);
}

-- The request as it was meant.
abbrev pub meant : (remote secret hostname myip : Text) → Request
meant remote secret hostname myip = record {
  remote_addr = remote;
  method = codes "GET";
  basic_auth = some secret;
  hostname = hostname;
  myip = myip;
}

received-test_url :
    (remote user base hostname secret myip : Text)
    → Lacks b'#' base
    → Lacks b'?' base
    → AllBytes hostname
    → AllBytes myip
    → received remote (record { url = test_url base hostname myip; user = user; password = secret })
      ≡ meant remote secret hostname myip
unfolding received test_url
received-test_url remote user base hostname secret myip h k bytes bytes' =
    let query = raw_query-two hostname myip bytes bytes' base h k in
    let (host, ip) = query_get-two hostname myip bytes bytes' in cc (query, host, ip)

perform_serve_test-wired :
    (env : Env) (remote : Text) (s : State) (base hostname secret myip : Text)
    → Lacks b'#' base
    → Lacks b'?' base
    → AllBytes hostname
    → AllBytes myip
    → (perform_serve_test (wired env remote s) base hostname secret myip).1
      ≡ judge (answer_of (serve_http env (meant remote secret hostname myip) s).1)
unfolding perform_serve_test wired
perform_serve_test-wired env remote s base hostname secret myip h k bytes bytes' =
    ap (λ r. judge (answer_of (serve_http env r s).1))
      (received-test_url remote (codes "dddns") base hostname secret myip h k bytes bytes')

-- The command `serve test`, run against the handler with the same configuration, passes exactly if
-- the request it means was served: with the secret of the configuration and the host name of the flag,
-- or else of the configuration, the guards of the handler let it through, and the update of the
-- address of the WAN interface is done. The URL has neither a question mark nor a number sign of its
-- own, and the texts are bytes.
pub run_serve_test_iff :
    (env : Env) (server : ServerConfig) (split_host_port : Text → Option (Text × Text))
    (remote hostname_flag ip_flag : Text) (s : State)
    → env.cfg.server ≡ some server
    → Lacks b'#' (loopback_url split_host_port server.bind)
    → Lacks b'?' (loopback_url split_host_port server.bind)
    → AllBytes (or_configured hostname_flag env.cfg.hostname)
    → AllBytes ip_flag
    → ((run_serve_test split_host_port (wired env remote s) hostname_flag ip_flag (ok env.cfg)).1
        ≡ ok tt)
      ↔ Served env server
          (meant remote server.shared_secret (or_configured hostname_flag env.cfg.hostname) ip_flag)
          s
unfolding run_serve_test
run_serve_test_iff env server split_host_port remote hostname_flag ip_flag s e h k bytes bytes' =
    let hostname = or_configured hostname_flag env.cfg.hostname in
    let base = loopback_url split_host_port server.bind in
    let whole : (run_serve_test split_host_port (wired env remote s) hostname_flag ip_flag
          (ok env.cfg)).1
        ≡ judge
            (answer_of (serve_http env (meant remote server.shared_secret hostname ip_flag) s).1) =
      ground (
        arith,
        perform_serve_test-wired env remote s base hostname server.shared_secret ip_flag h k bytes
            bytes',
      ) in
    elim (serve_http-Outcome env server (meant remote server.shared_secret hostname ip_flag) s e) [
      | passed v good ↦ ((λ _. v), λ _. whole ∙ good)
      | failed v bad ↦ ((λ p. absurd (bad (sym whole ∙ p))), λ w. absurd (v w))
    ]
