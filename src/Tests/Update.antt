-- ===== src/Tests/Update.antt =====
-- Runs of the updater, and the checks of a configuration.
use dddns.Prelude.{◌≡◌, ◌⊎◌, refl, [], ◌∷◌, Option, none, some, arith, true, false}
use dddns.Prelude.Int.{pos}
use dddns.Prelude.Result.{ok, err}
use dddns.Prelude.Text.{Text, codes, text_eq}
use dddns.Net.{Ip}
use dddns.Config.{Config, ServerConfig}
use dddns.Updater.{
  Options, World, Env, written, updated, result, current_ip, update_with_resolver, read_cached_ip,
}
use dddns.Updater.Run.{Success, update-Success}
use dddns.Updater.Effects.{dry_run_calls, Between, nothing, one_more, update_twice}
use dddns.Updater.{compare_cache, get_current, nochg_cache}
use dddns.Prelude.Text.{is_space}
use dddns.Updater.{update_failed}
use dddns.Updater.Cache.{IsSolid}
use dddns.Updater.{compare_dns}
use dddns.Updater.{dry_or_apply}
use dddns.Updater.{apply_update}
use dddns.Updater.{write_cached_ip}

abbrev pub address : Text
address = codes "203.0.113.7"

abbrev server : ServerConfig
server = record {
  bind = codes "127.0.0.1:53353";
  shared_secret = codes "s3";
  allowed_cidrs = codes "127.0.0.0/8" ∷ [];
  audit_log = [];
  wan_interface = [];
}

abbrev pub config : Config
config = record {
  aws_region = codes "us-east-1";
  aws_access_key = codes "AK";
  aws_secret_key = codes "sk";
  hosted_zone_id = codes "Z1";
  hostname = codes "home.example.com";
  ttl = pos 300;
  ip_cache_file = codes "/tmp/ip";
  ip_source = codes "remote";
  update_interval = [];
  update_timeout = [];
  server = some server;
}

abbrev pub no_parse : Text → Option Ip
no_parse _ = none

abbrev pub world : World
world = record { cache = none; calls = [] }

abbrev pub options : Options
options = record { force = false; dry_run = false; override_ip = address }

abbrev rehearsal : Options
rehearsal = record { force = true; dry_run = true; override_ip = address }

abbrev pub outside : (Text → Option Text) → Env
outside update = record {
  resolver = record { local_ip = λ _. ok address; remote_ip = ok address; profile = codes "udm" };
  client = none;
  current = ok (codes "203.0.113.1");
  context = none;
  update = update;
  write = written;
  time = codes "t";
}

abbrev pub willing : Env
willing = outside (λ _. none)

abbrev pub failing : Env
failing = outside (λ _. some (codes "throttled"))

run_tests : Unit {0}
unfolding update_with_resolver compare_cache compare_dns dry_or_apply apply_update write_cached_ip
    result read_cached_ip current_ip text_eq
run_tests = tt

pub updates :
    (update_with_resolver no_parse willing config options world).1
    ≡ ok (result no_parse updated (codes "203.0.113.1") address config)
unfolding run_tests
updates = refl

update-Success_example :
    (ip : Text) × (current_ip no_parse willing config options ≡ ok ip)
    × Success no_parse willing config options world ip
        (update_with_resolver no_parse willing config options world).0
        (result no_parse updated (codes "203.0.113.1") address config)
    × ((result no_parse updated (codes "203.0.113.1") address config).new_ip ≡ ip)
    × ((result no_parse updated (codes "203.0.113.1") address config).hostname ≡ config.hostname)
update-Success_example =
    update-Success no_parse willing config options world
      (result no_parse updated (codes "203.0.113.1") address config) updates

dry_run_calls_example :
    ((update_with_resolver no_parse willing config rehearsal world).0.calls ≡ [])
    ⊎ ((update_with_resolver no_parse willing config rehearsal world).0.calls ≡ get_current ∷ [])
dry_run_calls_example = dry_run_calls no_parse willing config rehearsal world refl

fails :
    (update_with_resolver no_parse failing config options world).1
    ≡ err (update_failed (codes "throttled"))
unfolding run_tests
fails = refl

pub solid : IsSolid address
unfolding is_space
solid = ground arith

resolved : current_ip no_parse failing config options ≡ ok address
unfolding current_ip
resolved = refl

-- A forced run that fails at Route53, after the update.
abbrev forced : Options
forced = record { force = true; dry_run = false; override_ip = address }

abbrev updated_world : World
updated_world = (update_with_resolver no_parse willing config options world).0

fails_after :
    (update_with_resolver no_parse failing config forced updated_world).1
    ≡ err (update_failed (codes "throttled"))
unfolding run_tests
fails_after = refl

one_failure :
    Between no_parse config address updated_world
      (update_with_resolver no_parse failing config forced updated_world).0
one_failure = one_more failing forced nothing (λ r done. absurd (cc (fails_after, done)))

update_twice_example :
    update_with_resolver no_parse failing config options
      (update_with_resolver no_parse failing config forced updated_world).0
    ≡ (
      (update_with_resolver no_parse failing config forced updated_world).0,
      ok (result no_parse nochg_cache address address config),
    )
unfolding result
update_twice_example =
    update_twice no_parse config willing failing options options world
      (update_with_resolver no_parse failing config forced updated_world).0
      (result no_parse updated (codes "203.0.113.1") address config) updates refl refl solid
      one_failure refl resolved
