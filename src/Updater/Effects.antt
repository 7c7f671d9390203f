-- ===== src/Updater/Effects.antt =====
-- Dry runs, failures and repeated runs of internal/updater/updater.go.
use dddns.Prelude.{◌∷◌, ◌≡◌, ◌⊎◌, inl, inr, ◌∙◌, sym, true, false}
use dddns.Prelude.Result.{ok, err, Result-cases}
use dddns.Prelude.Text.{Text, text_eq_refl}
use dddns.Net.{Ip}
use dddns.Config.{Config}
use dddns.Updater.{
  Options, UpdateResult, UpdateError, World, Env, update_with_resolver, compare_cache, compare_dns,
  dry_or_apply, apply_update, write_cached_ip,
}
use dddns.Updater.Run.{in_cache, in_dns, rehearsed, applied, update-Success}
use dddns.Prelude.{Option}
use dddns.Updater.Cache.{IsSolid}
use dddns.Prelude.{arith}
use dddns.Updater.{get_current, result}
use dddns.Updater.{current_ip}
use dddns.Updater.{read_cached_ip}
use dddns.Updater.{nochg_cache, written}
use dddns.Updater.Run.{Success}
use dddns.Updater.Cache.{read_cached_ip-cache_content}

module _ (parse_ip : Text → Option Ip) (env : Env) (cfg : Config) (opts : Options) (w : World) where
  -- A dry run makes no upsert, whatever it answers and also with force: at most one lookup.
  pub dry_run_calls :
      opts.dry_run ≡ true
      → ((update_with_resolver parse_ip env cfg opts w).0.calls ≡ w.calls)
        ⊎ ((update_with_resolver parse_ip env cfg opts w).0.calls ≡ get_current ∷ w.calls)
  unfolding update_with_resolver compare_cache compare_dns dry_or_apply write_cached_ip
  dry_run_calls h = ground arith

  -- A run that fails leaves the cache file as it was.
  pub update_error-cache :
      (e : UpdateError)
      → (update_with_resolver parse_ip env cfg opts w).1 ≡ err e
      → (update_with_resolver parse_ip env cfg opts w).0.cache ≡ w.cache
  unfolding update_with_resolver compare_cache compare_dns dry_or_apply apply_update
  update_error-cache e h = ground arith

  cached_run :
      (ip : Text)
      → opts.force ≡ false
      → current_ip parse_ip env cfg opts ≡ ok ip
      → read_cached_ip parse_ip w.cache ≡ ip
      → update_with_resolver parse_ip env cfg opts w
        ≡ (w, ok (result parse_ip nochg_cache ip ip cfg))
  unfolding update_with_resolver compare_cache result
  cached_run ip h k e = ground (arith, text_eq_refl ip)

pub write_cached_ip-cache :
    (parse_ip : Text → Option Ip) (env : Env) (ip : Text) (w : World)
    → IsSolid ip
    → env.write ≡ written
    → read_cached_ip parse_ip (write_cached_ip env ip w).cache ≡ ip
unfolding write_cached_ip
write_cached_ip-cache parse_ip env ip w solid e =
    rw (e, write_cached_ip) (read_cached_ip-cache_content parse_ip ip env.time solid)

cached_after :
    (parse_ip : Text → Option Ip) (env : Env) (cfg : Config) (opts : Options) (w w' : World)
    (ip : Text) (r : UpdateResult)
    → Success parse_ip env cfg opts w ip w' r
    → opts.dry_run ≡ false
    → IsSolid ip
    → env.write ≡ written
    → read_cached_ip parse_ip w'.cache ≡ ip
cached_after parse_ip env cfg opts w w' ip r (in_cache _ e _ same) _ _ _ = rw same (sym e)
cached_after parse_ip env cfg opts w w' ip r (in_dns _ _ _ same) _ solid write =
    rw same (write_cached_ip-cache parse_ip env ip _ solid write)
cached_after parse_ip env cfg opts w w' ip r (rehearsed dry _ _) real _ _ = cc
cached_after parse_ip env cfg opts w w' ip r (applied _ _ _ same) _ solid write =
    rw same (write_cached_ip-cache parse_ip env ip _ solid write)

-- A run that succeeds about an address which the cache tells leaves a cache that tells it.
cached_still :
    (parse_ip : Text → Option Ip) (env : Env) (cfg : Config) (opts : Options) (w w' : World)
    (ip : Text) (r : UpdateResult)
    → Success parse_ip env cfg opts w ip w' r
    → read_cached_ip parse_ip w.cache ≡ ip
    → IsSolid ip
    → env.write ≡ written
    → read_cached_ip parse_ip w'.cache ≡ ip
cached_still parse_ip env cfg opts w w' ip r (in_cache _ _ _ same) known _ _ = rw same known
cached_still parse_ip env cfg opts w w' ip r (in_dns _ _ _ same) _ solid write =
    rw same (write_cached_ip-cache parse_ip env ip _ solid write)
cached_still parse_ip env cfg opts w w' ip r (rehearsed _ _ same) known _ _ = rw same known
cached_still parse_ip env cfg opts w w' ip r (applied _ _ _ same) _ solid write =
    rw same (write_cached_ip-cache parse_ip env ip _ solid write)

-- Any number of runs from a world on, with or without success, dry or forced: each that succeeds is
-- about the address `ip`, and can write the cache.
pub data Between (parse_ip : Text → Option Ip) (cfg : Config) (ip : Text) (w : World)
    : World → Type 0 where
  nothing : Between parse_ip cfg ip w w
  one_more :
      {v : World} (env : Env) (opts : Options)
      → Between parse_ip cfg ip w v
      → ((r : UpdateResult)
          → (update_with_resolver parse_ip env cfg opts v).1 ≡ ok r
          → (r.new_ip ≡ ip) × (env.write ≡ written))
      → Between parse_ip cfg ip w (update_with_resolver parse_ip env cfg opts v).0

cached-Between :
    (parse_ip : Text → Option Ip) (cfg : Config) (ip : Text) (w : World) {v : World}
    → Between parse_ip cfg ip w v
    → IsSolid ip
    → read_cached_ip parse_ip w.cache ≡ ip
    → read_cached_ip parse_ip v.cache ≡ ip
cached-Between parse_ip cfg ip w nothing solid known = known
cached-Between parse_ip cfg ip w (one_more {v} env opts before about) solid known =
    let known' = cached-Between parse_ip cfg ip w before solid known in
    elim (Result-cases (update_with_resolver parse_ip env cfg opts v).1) [
      | inr (e, bad) ↦ rw (update_error-cache parse_ip env cfg opts v e bad) known'
      | inl (r, done) ↦
          let (here, write) = about r done in
          let (ip', this, s, n, k) = update-Success parse_ip env cfg opts v r done in
          let same : ip' ≡ ip = sym n ∙ here in
          let w' = (update_with_resolver parse_ip env cfg opts v).0 in
          cached_still parse_ip env cfg opts v w' ip r (rw same at s) known' solid write
    ]

-- After a run that succeeds, is no dry run and can write the cache, a later run about the same address
-- makes no call and changes nothing, unless it is forced: whatever Route53 and the cache's disk would
-- answer then. Between the two there may be any number of runs that fail or are about the same
-- address, if those that succeed can write the cache. The address holds no white space.
pub update_twice :
    (parse_ip : Text → Option Ip) (cfg : Config) (env env' : Env) (opts opts' : Options)
    (w v : World) (r : UpdateResult)
    → (update_with_resolver parse_ip env cfg opts w).1 ≡ ok r
    → opts.dry_run ≡ false
    → env.write ≡ written
    → IsSolid r.new_ip
    → Between parse_ip cfg r.new_ip (update_with_resolver parse_ip env cfg opts w).0 v
    → opts'.force ≡ false
    → current_ip parse_ip env' cfg opts' ≡ ok r.new_ip
    → update_with_resolver parse_ip env' cfg opts' v
      ≡ (v, ok (result parse_ip nochg_cache r.new_ip r.new_ip cfg))
update_twice parse_ip cfg env env' opts opts' w v r done real write solid between force same =
    let (ip, this, s, n, k) = update-Success parse_ip env cfg opts w r done in
    let w' = (update_with_resolver parse_ip env cfg opts w).0 in
    let cached = cached_after parse_ip env cfg opts w w' ip r s real (rw n at solid) write in
    cached_run parse_ip env' cfg opts' v r.new_ip force same
      (cached-Between parse_ip cfg r.new_ip w' between solid (cached ∙ sym n))
