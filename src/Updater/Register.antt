-- ===== src/Updater/Register.antt =====
-- Many runs of internal/updater/updater.go against one record: what the record and the cache hold.
-- Only these runs write the record.
use dddns.Prelude.{
  ◌≡◌, ◌≢◌, ◌⊎◌, ◌∙◌, inl, inr, sym, ap, false, true, Bool, List, [], ◌∷◌, Option, none, some,
  arith,
}
use dddns.Prelude.Result.{ok, err, Result-cases}
use dddns.Prelude.Text.{Text}
use dddns.Net.{Ip}
use dddns.Config.{Config}
use dddns.Updater.{
  Options, UpdateResult, UpdateError, Call, get_current, upsert, World, Env, written, nochg_cache,
  current_ip, read_cached_ip, update_with_resolver, compare_cache, compare_dns, dry_or_apply,
  apply_update, write_cached_ip,
}
use dddns.Prelude.Tests.{if◌then◌else◌}
use dddns.Updater.Cache.{IsSolid}
use dddns.Updater.Run.{Success, in_cache, in_dns, rehearsed, applied, asked, sent, update-Success}
use dddns.Updater.Effects.{update_error-cache, write_cached_ip-cache}

-- The record behind the calls of a run, the latest of which comes first. An upsert that the client
-- takes for failed may have been made all the same, if only its answer was lost: `lost` says so.
unfoldable pub after_calls : Env → (lost : Bool) → List Call → Text → Text
after_calls env lost [] value = value
after_calls env lost (get_current ∷ calls) value = after_calls env lost calls value
after_calls env lost (upsert ip ∷ calls) value =
    let before = after_calls env lost calls value in
    elim (env.update ip) [ none ↦ ip | some e ↦ if lost then ip else before ]

-- The cache file and the record.
pub record Site : Type 0 where
  pub cache : Option Text
  pub value : Text

abbrev pub fresh : Site → World
fresh s = record { cache = s.cache; calls = [] }

module _ (parse_ip : Text → Option Ip) (cfg : Config) where
  -- A run in which an upsert that the client takes for failed has been made all the same.
  unfoldable pub run_lost : Env → Options → Site → Site
  run_lost env opts s =
      let w' = (update_with_resolver parse_ip env cfg opts (fresh s)).0 in
      record { cache = w'.cache; value = after_calls env true w'.calls s.value }

  -- A run in which an upsert is made exactly if the client sees it succeed.
  unfoldable pub run_at : Env → Options → Site → Site
  run_at env opts s =
      let w' = (update_with_resolver parse_ip env cfg opts (fresh s)).0 in
      record { cache = w'.cache; value = after_calls env false w'.calls s.value }

  -- Route53 answers with the record, the cache can be written, and the address holds no white space.
  pub record Honest (env : Env) (opts : Options) (s : Site) : Type 0 where
    pub answers : (ip : Text) → env.current ≡ ok ip → ip ≡ s.value
    pub stores : env.write ≡ written
    pub solid : (ip : Text) → current_ip parse_ip env cfg opts ≡ ok ip → IsSolid ip

  -- The cache is empty, or tells what the record holds.
  abbrev pub InSync : Site → Type 0
  InSync s = (read_cached_ip parse_ip s.cache ≡ []) ⊎ (read_cached_ip parse_ip s.cache ≡ s.value)

  module _ (env : Env) (opts : Options) (s : Site) where
    update_error-value :
        (e : UpdateError)
        → (update_with_resolver parse_ip env cfg opts (fresh s)).1 ≡ err e
        → (run_at env opts s).value ≡ s.value
    unfolding run_at after_calls update_with_resolver compare_cache compare_dns dry_or_apply
        apply_update
    update_error-value e h = ground arith

    write_cached_ip-calls : (ip : Text) (w : World) → (write_cached_ip env ip w).calls ≡ w.calls
    unfolding write_cached_ip
    write_cached_ip-calls ip w = ground arith

    run_error :
        (e : UpdateError)
        → (update_with_resolver parse_ip env cfg opts (fresh s)).1 ≡ err e
        → ((run_at env opts s).cache ≡ s.cache) × ((run_at env opts s).value ≡ s.value)
    unfolding run_at
    run_error e h = (update_error-cache parse_ip env cfg opts (fresh s) e h, update_error-value e h)

    -- A run that ends with a write of the cache.
    after_write :
        (ip : Text) (w : World)
        → Honest env opts s
        → IsSolid ip
        → after_calls env false w.calls s.value ≡ ip
        → InSync (record {
          cache = (write_cached_ip env ip w).cache;
          value = after_calls env false (write_cached_ip env ip w).calls s.value;
        })
          × (opts.dry_run ≡ false
              → ip ≢ []
              → after_calls env false (write_cached_ip env ip w).calls s.value ≡ ip)
    after_write ip w honest solid holds =
        let value =
          ap (λ calls. after_calls env false calls s.value) (write_cached_ip-calls ip w) ∙ holds in
        (
          inr (write_cached_ip-cache parse_ip env ip w solid honest.stores ∙ sym value),
          λ _ _. value,
        )

    -- What a run that succeeds leaves behind.
    left_behind :
        (ip : Text) (w' : World) (r : UpdateResult)
        → Honest env opts s
        → InSync s
        → IsSolid ip
        → Success parse_ip env cfg opts (fresh s) ip w' r
        → InSync (record { cache = w'.cache; value = after_calls env false w'.calls s.value })
          × (opts.dry_run ≡ false → ip ≢ [] → after_calls env false w'.calls s.value ≡ ip)
    unfolding after_calls
    left_behind ip w' r honest sync solid (in_cache _ e _ same) = rw same (
      sync,
      λ _ given. elim sync [
        | inl nothing ↦ absurd (given (e ∙ nothing))
        | inr known ↦ sym (e ∙ known)
      ],
    )
    left_behind ip w' r honest sync solid (in_dns _ e _ same) = rw same (
        after_write ip (asked parse_ip env cfg opts (fresh s)) honest solid
          (sym (honest.answers ip e)))
    left_behind ip w' r honest sync solid (rehearsed dry _ same) =
        rw same (sync, λ real given. cc (dry, real))
    left_behind ip w' r honest sync solid (applied _ e _ same) =
        rw same (after_write ip (sent parse_ip env cfg opts (fresh s) ip) honest solid (rw e))

    run_at-ok :
        (r : UpdateResult)
        → Honest env opts s
        → InSync s
        → (update_with_resolver parse_ip env cfg opts (fresh s)).1 ≡ ok r
        → InSync (run_at env opts s)
          × (opts.dry_run ≡ false → r.new_ip ≢ [] → (run_at env opts s).value ≡ r.new_ip)
    unfolding run_at
    run_at-ok r honest sync h =
        let (ip, this, way, named, _) = update-Success parse_ip env cfg opts (fresh s) r h in
        rw named (left_behind ip _ r honest sync (honest.solid ip this) way)

    run_at-InSync : Honest env opts s → InSync s → InSync (run_at env opts s)
    run_at-InSync honest sync =
        elim (Result-cases (update_with_resolver parse_ip env cfg opts (fresh s)).1) [
          | inl (r, good) ↦ (run_at-ok r honest sync good).0
          | inr (e, bad) ↦ let (cache, value) = run_error e bad in rw (cache, value) sync
        ]

    -- What a run leaves behind that did not take the cache's word, whatever the cache told.
    left_anew :
        (ip : Text) (w' : World) (r : UpdateResult)
        → Honest env opts s
        → IsSolid ip
        → Success parse_ip env cfg opts (fresh s) ip w' r
        → opts.dry_run ≡ false
        → r.action ≢ nochg_cache
        → InSync (record { cache = w'.cache; value = after_calls env false w'.calls s.value })
          × (ip ≢ [] → after_calls env false w'.calls s.value ≡ ip)
    unfolding after_calls
    left_anew ip w' r honest solid (in_cache _ _ from_cache _) real anew = absurd (anew from_cache)
    left_anew ip w' r honest solid (in_dns _ e _ same) real anew = rw same (
        let (sync, value) =
          after_write ip (asked parse_ip env cfg opts (fresh s)) honest solid
            (sym (honest.answers ip e)) in
        (sync, value real))
    left_anew ip w' r honest solid (rehearsed dry _ same) real anew = cc (dry, real)
    left_anew ip w' r honest solid (applied _ e _ same) real anew = rw same (
        let (sync, value) =
          after_write ip (sent parse_ip env cfg opts (fresh s) ip) honest solid (rw e) in
        (sync, value real))

    run_at-anew :
        (r : UpdateResult)
        → Honest env opts s
        → (update_with_resolver parse_ip env cfg opts (fresh s)).1 ≡ ok r
        → opts.dry_run ≡ false
        → r.action ≢ nochg_cache
        → InSync (run_at env opts s) × (r.new_ip ≢ [] → (run_at env opts s).value ≡ r.new_ip)
    unfolding run_at
    run_at-anew r honest h real anew =
        let (ip, this, way, named, _) = update-Success parse_ip env cfg opts (fresh s) r h in
        rw named (left_anew ip _ r honest (honest.solid ip this) way real anew)

  -- Any number of runs, with or without success, in any environments that are honest. The flag is
  -- lowered by a run that may have made an upsert whose answer was lost, and raised again by one that
  -- succeeds, is no dry run and does not take the cache's word.
  pub data Runs (s : Site) : Bool → Site → Type 0 where
    none_yet : Runs s true s
    one_more :
        {known : Bool} {t : Site} (env : Env) (opts : Options)
        → Runs s known t
        → Honest env opts t
        → Runs s known (run_at env opts t)
    answer_lost :
        {known : Bool} {t : Site} (env : Env) (opts : Options)
        → Runs s known t
        → Honest env opts t
        → Runs s false (run_lost env opts t)
    settled :
        {known : Bool} {t : Site} (env : Env) (opts : Options) (r : UpdateResult)
        → Runs s known t
        → Honest env opts t
        → (update_with_resolver parse_ip env cfg opts (fresh t)).1 ≡ ok r
        → opts.dry_run ≡ false
        → r.action ≢ nochg_cache
        → Runs s true (run_at env opts t)

  pub Runs-InSync :
      {s t : Site} {known : Bool} → InSync s → Runs s known t → known ≡ true → InSync t
  Runs-InSync sync none_yet _ = sync
  Runs-InSync sync (one_more {known} {t} env opts before honest) e =
      run_at-InSync env opts t honest (Runs-InSync sync before e)
  Runs-InSync sync (answer_lost env opts before honest) e = cc e
  Runs-InSync sync (settled {known} {t} env opts r before honest h real anew) _ =
      (run_at-anew env opts t r honest h real anew).0

  -- However many runs have gone before, and whether or not they have failed: once a run that is no
  -- dry run succeeds about an address that is not empty, the record holds that address, and the cache
  -- is empty or tells what the record holds. If the answer to an upsert that was made may have been
  -- lost, this is so only for runs that do not take the cache's word, until one of them that is no
  -- dry run has succeeded. It is so from a start at which the cache is empty or tells what the record holds, if
  -- only these runs write the record, Route53 answers with it, the cache can be written and addresses
  -- hold no white space.
  pub Runs-Published :
      (env : Env) (opts : Options) (s t : Site) (known : Bool) (r : UpdateResult)
      → InSync s
      → Runs s known t
      → Honest env opts t
      → (update_with_resolver parse_ip env cfg opts (fresh t)).1 ≡ ok r
      → opts.dry_run ≡ false
      → r.new_ip ≢ []
      → (known ≡ true) ⊎ (r.action ≢ nochg_cache)
      → ((run_at env opts t).value ≡ r.new_ip) × InSync (run_at env opts t)
  Runs-Published env opts s t known r sync before h done real given (inl trusted) =
      let (still, published) = run_at-ok env opts t r h (Runs-InSync sync before trusted) done in
      (published real given, still)
  Runs-Published env opts s t known r sync before h done real given (inr anew) =
      let (still, published) = run_at-anew env opts t r h done real anew in (published given, still)
