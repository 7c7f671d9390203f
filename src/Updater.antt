-- ===== src/Updater.antt =====
-- internal/updater/updater.go: one update run. What the run touches is a state of its own, the cache
-- file and the record of calls to Route53; what the outside world answers is a record of parameters.
-- The lines written to the log are left out.
pub mod Cache
pub mod Run
pub mod Effects
pub mod Register
use dddns.Prelude.{
  ℕ, ◌≡◌, refl, Bool, true, false, not, ◌&&◌, ◌||◌, List, [], ◌∷◌, ◌++◌, Option, none, some,
}
use dddns.Prelude.Tests.{if◌then◌else◌}
use dddns.Prelude.Result.{Result, ok, err}
use dddns.Prelude.Text.{Text, codes, text_eq, is_empty, has_prefix, cut_prefix, split, trim_space}
use dddns.Net.{Ip}
use dddns.Config.{Config, ServerConfig}

pub data UpdateError : Type 0 where
  unknown_ip_source : Text → UpdateError
  lookup_failed : Text → UpdateError
  no_public_ip : UpdateError → UpdateError
  no_client : Text → UpdateError
  cancelled : Text → UpdateError
  update_failed : Text → UpdateError

-- The three lookups that a `resolver` bundles.
pub record Resolver : Type 0 where
  pub local_ip : Text → Result Text Text
  pub remote_ip : Result Text Text
  pub profile : Text

-- The source that "" and "auto" stand for.
choose_source : Resolver → Text → Text
choose_source r source =
    if is_empty source || text_eq source (codes "auto")
    then if text_eq r.profile (codes "udm") then codes "local" else codes "remote"
    else source

wan_interface_of : Option ServerConfig → Text
wan_interface_of none = []
wan_interface_of (some s) = s.wan_interface

lookup : Result Text Text → Result UpdateError Text
lookup (ok ip) = ok ip
lookup (err e) = err (lookup_failed e)

-- `resolveIP`, without the description that only the verbose log uses.
unfoldable pub resolve_ip : Resolver → Config → Result UpdateError Text
unfolding choose_source wan_interface_of lookup
resolve_ip r cfg =
    let source = choose_source r cfg.ip_source in
    if text_eq source (codes "local")
    then lookup (r.local_ip (wan_interface_of cfg.server))
    else if text_eq source (codes "remote")
    then lookup r.remote_ip
    else err (unknown_ip_source source)

pub record Options : Type 0 where
  pub force : Bool
  pub dry_run : Bool
  pub override_ip : Text

-- The field `Action` of a result, and its values.
abbrev pub updated : Text
updated = codes "updated"

abbrev pub nochg_cache : Text
nochg_cache = codes "nochg-cache"

abbrev pub nochg_dns : Text
nochg_dns = codes "nochg-dns"

abbrev pub dry_run_action : Text
dry_run_action = codes "dry-run"

pub record UpdateResult : Type 0 where
  pub action : Text
  pub old_ip : Text
  pub new_ip : Text
  pub hostname : Text

-- A call to Route53, as the service sees it.
pub data Call : Type 0 where
  get_current : Call
  upsert : Text → Call

-- The cache file, `none` if it cannot be read, and the calls so far, the latest first.
pub record World : Type 0 where
  pub cache : Option Text
  pub calls : List Call

-- What writing the cache file comes to; a write that fails may leave anything behind.
pub data WriteOutcome : Type 0 where
  written : WriteOutcome
  write_failed : (left : Option Text) → WriteOutcome

-- The answers of the outside world to one run. `client` is the error of the constructor of the
-- Route53 client, if it fails; `cancelled` is the error of the context after the lookup.
pub record Env : Type 0 where
  pub resolver : Resolver
  pub client : Option Text
  pub current : Result Text Text
  pub context : Option Text
  pub update : Text → Option Text
  pub write : WriteOutcome
  pub time : Text

-- The content that `writeCachedIP` formats.
unfoldable pub cache_content : Text → Text → Text
cache_content ip time =
    codes "last_known_ip:" ++ (32 ∷ ip) ++ 10 ∷ (codes "last_updated: " ++ (time ++ 10 ∷ []))

unfoldable pub write_cached_ip : Env → Text → World → World
write_cached_ip env ip w = elim env.write [
  | written ↦ record w { cache = some (cache_content ip env.time) }
  | write_failed left ↦ record w { cache = left }
]

-- The loop over the lines.
find_last_known : List Text → Option Text
find_last_known [] = none
find_last_known (line ∷ lines) = elim (cut_prefix (codes "last_known_ip:") line) [
  | some rest ↦ some (trim_space rest)
  | none ↦ find_last_known lines
]

module _ (parse_ip : Text → Option Ip) where
  -- A file of the older form holds the address alone.
  legacy : Text → Text
  legacy s = elim (parse_ip (trim_space s)) [ none ↦ [] | some ip ↦ trim_space s ]

  cached_in : Text → Text
  cached_in s = elim (find_last_known (split 10 s)) [ some ip ↦ ip | none ↦ legacy s ]

  unfoldable pub read_cached_ip : Option Text → Text
  unfolding cached_in legacy find_last_known
  read_cached_ip none = []
  read_cached_ip (some s) = cached_in s

  unfoldable pub result : Text → Text → Text → Config → UpdateResult
  result action old new cfg = record {
    action = action;
    old_ip = old;
    new_ip = new;
    hostname = cfg.hostname;
  }

  -- Steps 6 and 7: the upsert, and the cache after it.
  unfoldable pub apply_update :
      Env → Config → Text → Text → World → World × Result UpdateError UpdateResult
  unfolding result
  apply_update env cfg dns_ip ip w =
      let sent = record w { calls = upsert ip ∷ w.calls } in
      elim (env.update ip) [
        | some e ↦ (sent, err (update_failed e))
        | none ↦ (write_cached_ip env ip sent, ok (result updated dns_ip ip cfg))
      ]

  -- Step 5.
  unfoldable pub dry_or_apply :
      Env → Config → Options → Text → Text → World → World × Result UpdateError UpdateResult
  unfolding result
  dry_or_apply env cfg opts dns_ip ip w =
      if opts.dry_run
      then (w, ok (result dry_run_action dns_ip ip cfg))
      else apply_update env cfg dns_ip ip w

  -- Step 4: the comparison with the record in DNS.
  unfoldable pub compare_dns :
      Env → Config → Options → Text → World → World × Result UpdateError UpdateResult
  unfolding result
  compare_dns env cfg opts ip w =
      let asked = record w { calls = get_current ∷ w.calls } in
      elim env.current [
        | err e ↦ elim env.context [
          | some cause ↦ (asked, err (cancelled e))
          | none ↦ dry_or_apply env cfg opts [] ip asked
        ]
        | ok dns_ip ↦
            if text_eq ip dns_ip && not opts.force
            then (write_cached_ip env ip asked, ok (result nochg_dns dns_ip ip cfg))
            else dry_or_apply env cfg opts dns_ip ip asked
      ]

  -- Steps 2 and 3: the comparison with the cache, and the client.
  unfoldable pub compare_cache :
      Env → Config → Options → Text → World → World × Result UpdateError UpdateResult
  unfolding result
  compare_cache env cfg opts ip w =
      let cached = read_cached_ip w.cache in
      if not opts.force && text_eq ip cached
      then (w, ok (result nochg_cache cached ip cfg))
      else elim env.client [
        | some e ↦ (w, err (no_client e))
        | none ↦ compare_dns env cfg opts ip w
      ]

  -- Step 1: the address that this run is about.
  unfoldable pub current_ip : Env → Config → Options → Result UpdateError Text
  current_ip env cfg opts =
      if is_empty opts.override_ip
      then elim (resolve_ip env.resolver cfg) [ ok ip ↦ ok ip | err e ↦ err (no_public_ip e) ]
      else ok opts.override_ip

  unfoldable pub update_with_resolver :
      Env → Config → Options → World → World × Result UpdateError UpdateResult
  update_with_resolver env cfg opts w = elim (current_ip env cfg opts) [
    | err e ↦ (w, err e)
    | ok ip ↦ compare_cache env cfg opts ip w
  ]
