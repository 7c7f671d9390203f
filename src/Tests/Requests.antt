-- ===== src/Tests/Requests.antt =====
-- Requests to the server on the router.
use dddns.Prelude.{◌≡◌, refl, [], ◌∷◌, none, some, true}
use dddns.Prelude.Int.{pos}
use dddns.Prelude.Result.{ok}
use dddns.Prelude.Text.{codes}
use dddns.Net.{v4}
use dddns.Config.{ServerConfig}
use dddns.Updater.{updated}
use dddns.Server.Handler.{returns, Request, State, Env, serve_http}
use dddns.Server.Handler.Guards.{Verdict, serve_http-asked}
use dddns.Server.Handler.Record.{serve_http-myip}

abbrev pub server : ServerConfig
server = record {
  bind = codes "127.0.0.1:53353";
  shared_secret = codes "s3";
  allowed_cidrs = codes "127.0.0.0/8" ∷ [];
  audit_log = [];
  wan_interface = codes "eth8";
}

abbrev pub env : Env
env = record {
  cfg = record {
    aws_region = codes "us-east-1";
    aws_access_key = codes "AK";
    aws_secret_key = codes "sk";
    hosted_zone_id = codes "Z1";
    hostname = codes "home.example.com";
    ttl = pos 300;
    ip_cache_file = codes "/tmp/ip";
    ip_source = [];
    update_interval = [];
    update_timeout = [];
    server = some server;
  };
  now = 1000;
  sinks = record { stamp = 1001; audit_write = none; status_write = none };
  allowed = λ _ _. true;
  wan_ip = λ _. returns (ok (v4 203 0 113 7));
  ip_string = λ _. codes "203.0.113.7";
  update_ip = λ ip. returns (
      ok (record {
        action = updated;
        old_ip = [];
        new_ip = ip;
        hostname = codes "home.example.com";
      }));
}

abbrev pub request : Request
request = record {
  remote_addr = codes "127.0.0.1:40000";
  method = codes "GET";
  basic_auth = some (codes "s3");
  hostname = codes "home.example.com";
  myip = codes "198.51.100.1";
}

abbrev pub idle : State
idle = record {
  auth = record { secret = codes "s3"; failures = []; locked_until = 0 };
  audit = [];
  status = none;
  journal = [];
  asked = [];
}

serve_http-asked_example : Verdict env server request idle (serve_http env request idle)
serve_http-asked_example = serve_http-asked env server request idle refl

serve_http-myip_example :
    ((serve_http env (record request { myip = codes "10.0.0.1" }) idle).1
      ≡ (serve_http env request idle).1)
    × ((serve_http env (record request { myip = codes "10.0.0.1" }) idle).0.auth
        ≡ (serve_http env request idle).0.auth)
    × ((serve_http env (record request { myip = codes "10.0.0.1" }) idle).0.asked
        ≡ (serve_http env request idle).0.asked)
serve_http-myip_example = serve_http-myip env request (codes "10.0.0.1") idle
