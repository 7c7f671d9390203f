-- ===== src/Updater/Run.antt =====
-- What one run of internal/updater/updater.go does to the cache and to Route53.
use dddns.Prelude.{◌≡◌, inl, inr, true, false, not, ◌&&◌, [], ◌∷◌, Option, none, arith}
use dddns.Prelude.Tests.{Bool-cases, Option-cases}
use dddns.Prelude.Result.{Result, ok, Result-cases}
use dddns.Prelude.Text.{Text, text_eq, text_eq_iff}
use dddns.Net.{Ip}
use dddns.Config.{Config}
use dddns.Updater.{
  UpdateError, Options, UpdateResult, updated, nochg_cache, nochg_dns, dry_run_action, get_current,
  upsert, World, Env, write_cached_ip, read_cached_ip, apply_update, dry_or_apply, compare_dns,
  compare_cache, current_ip, update_with_resolver,
}
use mathlib.Core.Path.{subst}

module _ (parse_ip : Text → Option Ip) (env : Env) (cfg : Config) (opts : Options) (w : World) where
  -- The state after the lookup at Route53, and after the upsert.
  abbrev pub asked : World
  asked = record w { calls = get_current ∷ w.calls }

  abbrev pub sent : Text → World
  sent ip = record w { calls = upsert ip ∷ get_current ∷ w.calls }

  -- The four ways in which a run about the address `ip` succeeds, with all that it has done.
  pub data Success (ip : Text) (w' : World) (r : UpdateResult) : Type 0 where
    in_cache :
        opts.force ≡ false
        → ip ≡ read_cached_ip parse_ip w.cache
        → r.action ≡ nochg_cache
        → w' ≡ w
        → Success ip w' r
    in_dns :
        opts.force ≡ false
        → env.current ≡ ok ip
        → r.action ≡ nochg_dns
        → w' ≡ write_cached_ip env ip asked
        → Success ip w' r
    rehearsed : opts.dry_run ≡ true → r.action ≡ dry_run_action → w' ≡ asked → Success ip w' r
    applied :
        opts.dry_run ≡ false
        → env.update ip ≡ none
        → r.action ≡ updated
        → w' ≡ write_cached_ip env ip (sent ip)
        → Success ip w' r

  abbrev Goal : Text → World × Result UpdateError UpdateResult → Type 0
  Goal ip x =
      (r : UpdateResult)
      → x.1 ≡ ok r
      → Success ip x.0 r × (r.new_ip ≡ ip) × (r.hostname ≡ cfg.hostname)

  apply_success :
      (dns_ip ip : Text)
      → opts.dry_run ≡ false
      → Goal ip (apply_update parse_ip env cfg dns_ip ip asked)
  unfolding apply_update
  apply_success dns_ip ip real r h = elim (Option-cases (env.update ip)) [
    | inr (e, bad) ↦ absurd (ground arith)
    | inl good ↦ (applied real good (ground arith) (ground arith), ground arith, ground arith)
  ]

  dry_or_apply_success :
      (dns_ip ip : Text) → Goal ip (dry_or_apply parse_ip env cfg opts dns_ip ip asked)
  unfolding dry_or_apply
  dry_or_apply_success dns_ip ip r h = elim (Bool-cases opts.dry_run) [
    | inl dry ↦ (rehearsed dry (ground arith) (ground arith), ground arith, ground arith)
    | inr real ↦ subst (Goal ip) (ground arith) (apply_success dns_ip ip real) r h
  ]

  compare_dns_success : (ip : Text) → Goal ip (compare_dns parse_ip env cfg opts ip w)
  unfolding compare_dns
  compare_dns_success ip r h = elim (Result-cases env.current) [
    | inr (e, bad) ↦ elim (Option-cases env.context) [
      | inr (cause, stop) ↦ absurd (ground arith)
      | inl go ↦ subst (Goal ip) (ground arith) (dry_or_apply_success [] ip) r h
    ]
    | inl (dns_ip, good) ↦ elim (Bool-cases (text_eq ip dns_ip && not opts.force)) [
      | inl same ↦
          let e : ip ≡ dns_ip = ground (arith, text_eq_iff ip dns_ip) in
          (
            in_dns (ground arith) (rw e good) (ground arith) (ground arith),
            ground arith,
            ground arith,
          )
      | inr other ↦ subst (Goal ip) (ground arith) (dry_or_apply_success dns_ip ip) r h
    ]
  ]

  compare_cache_success : (ip : Text) → Goal ip (compare_cache parse_ip env cfg opts ip w)
  unfolding compare_cache
  compare_cache_success ip r h =
      elim (Bool-cases (not opts.force && text_eq ip (read_cached_ip parse_ip w.cache))) [
        | inl same ↦
            let e : ip ≡ read_cached_ip parse_ip w.cache =
              ground (arith, text_eq_iff ip (read_cached_ip parse_ip w.cache)) in
            (in_cache (ground arith) e (ground arith) (ground arith), ground arith, ground arith)
        | inr other ↦ elim (Option-cases env.client) [
          | inr (e, bad) ↦ absurd (ground arith)
          | inl good ↦ subst (Goal ip) (ground arith) (compare_dns_success ip) r h
        ]
      ]

  -- A run that succeeds is one of four: it found the address in the cache or in DNS, without force,
  -- or it was a dry run, or it has upserted exactly this address. The action says which; the calls
  -- made and the cache left behind are exactly those of that way.
  pub update-Success :
      (r : UpdateResult)
      → (update_with_resolver parse_ip env cfg opts w).1 ≡ ok r
      → (ip : Text) × (current_ip parse_ip env cfg opts ≡ ok ip)
        × Success ip (update_with_resolver parse_ip env cfg opts w).0 r
        × (r.new_ip ≡ ip)
        × (r.hostname ≡ cfg.hostname)
  unfolding update_with_resolver
  update-Success r h = elim (Result-cases (current_ip parse_ip env cfg opts)) [
    | inr (e, bad) ↦ absurd (ground arith)
    | inl (ip, good) ↦
        let e : compare_cache parse_ip env cfg opts ip w
            ≡ update_with_resolver parse_ip env cfg opts w =
          ground arith in
        let (s, n, k) = subst (Goal ip) e (compare_cache_success ip) r h in (ip, good, s, n, k)
  ]
