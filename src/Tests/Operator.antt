-- ===== src/Tests/Operator.antt =====
-- What an operator runs by hand, and what many runs come to.
use dddns.Dns.SigV4.{pair_of, aws_uri_encode, encode_byte}
use dddns.Prelude.{
  ◌+◌, ◌≡◌, ◌≢◌, ◌↔◌, refl, [], ◌∷◌, Option, none, some, true, false, arith, inl, List, map,
}
use dddns.Prelude.Result.{Result, ok, err}
use dddns.Prelude.Text.{
  Text, codes, split_once, has_suffix, text_eq, split, Lacks, cut_prefix, trim_space,
}
use dddns.Net.{Ip, v4, is_ipv4}
use dddns.Config.Secure.{load_secure}
use dddns.Config.Secure.RoundTrip.{reloaded}
use dddns.Dns.SigV4.{canonical_query_string, pairs_of, text_less}
use dddns.Dns.SigV4.Queries.{Param, assign, blank, query, meanings, IsProper, encoded}
use dddns.Dns.SigV4.Order.{name_of, canonical_query_string-perm}
use dddns.Tests.Sorting.{sort_pairs, sort_pairs-IsSort}
use dddns.Prelude.Lists.{All}
use mathlib.Core.Logic.Or
use mathlib.Core.HLevel.{⊥_prop}
use mathlib.Core.List.Perm
use dddns.Server.Auth.{auth_ok, check, lockout_duration}
use dddns.Server.Auth.Lockout.{run, check-run}
use dddns.Cmd.Secure.{
  run_enable_secure, secure_path_for, path_to_seal, trim_suffix, enable_at, stat_ok,
}
use dddns.Cmd.Secure.Enabled.{run_enable_secure-ok, IsGrowing}
use dddns.Cmd.Serve.{loopback_url, run_serve_test}
use dddns.Cmd.Serve.Replies.{Served}
use dddns.Cmd.Serve.Loopback.{wired, meant, run_serve_test_iff}
use dddns.Cmd.Verify.{summary}
use dddns.Cmd.Verify.Summary.{Told, summary-Told}
use dddns.Verify
use dddns.Verify.{Report}
use dddns.Prelude.Url.{join_host_port}
use dddns.Tests.Requests.{env, server, idle}
use dddns.Tests.Vault.{
  clear_text, clear_text-IsSound, router, router-key, key, config, faultless, nonce, no_colon,
  plain_only, plain_path, parsed, yaml, spelled, loaded, migrated,
}
use dddns.Tests.Auth.{fresh, tried}
use mathlib.Core.List.{Perm, Nodup, Nodup-nil, Nodup-cons, mem-cons, not-mem-nil}
use dddns.Updater.{
  Env, Options, nochg_cache, current_ip, result, updated, read_cached_ip, update_with_resolver,
  compare_cache, compare_dns, dry_or_apply, apply_update, write_cached_ip,
}
use dddns.Updater.Cache.{IsSolid}
use dddns.Updater.Register.{
  Site, run_at, run_lost, after_calls, InSync, Honest, one_more, none_yet, Runs-Published,
}
use dddns.Updater.Register.{fresh as fresh_site}
use dddns.Tests.Update.{no_parse, failing, willing, options, address, solid}
use dddns.Tests.Update.{config as update_config}
use dddns.Prelude.Text.{text_eq_iff}

abbrev params : List Param
params = assign (codes "type") (codes "A") ∷ blank ∷ assign (codes "name") (codes "a b") ∷ []

abbrev params' : List Param
params' = assign (codes "name") (codes "a b") ∷ assign (codes "type") (codes "A") ∷ []

params-IsProper : All IsProper params
params-IsProper = (ground arith, (tt, (ground arith, tt)))

params'-IsProper : All IsProper params'
params'-IsProper = (ground arith, (ground arith, tt))

spells_query : canonical_query_string sort_pairs (query params) ≡ codes "name=a%20b&type=A"
unfolding canonical_query_string sort_pairs pairs_of pair_of split split_once aws_uri_encode
    encode_byte text_less
spells_query = refl

keys_differ : codes "type" ≢ codes "name"
unfolding text_eq
keys_differ e = cc ((text_eq_iff (codes "type") (codes "name")).1 e)

keys_apart : Nodup (map name_of (meanings params))
keys_apart = Nodup-cons.1 (
  (λ m. Or.elim ⊥_prop (mem-cons.0 m) keys_differ λ m'. not-mem-nil m'),
  Nodup-cons.1 ((λ m. not-mem-nil m), Nodup-nil),
)

canonical_query_string-perm_example :
    canonical_query_string sort_pairs (query params)
    ≡ canonical_query_string sort_pairs (query params')
canonical_query_string-perm_example =
    canonical_query_string-perm sort_pairs sort_pairs params params' sort_pairs-IsSort
      sort_pairs-IsSort params-IsProper params'-IsProper
      (Perm.swap (codes "name", codes "a b") (codes "type", codes "A") []) keys_apart

check-run_example : (check (codes "s3") (105 + lockout_duration) (run tried fresh).0).1 ≡ auth_ok
check-run_example =
    check-run 105 (105 + lockout_duration) tried fresh (ground arith) (omega arith) (omega arith)

-- A record that tells an old address, and a router that has never run.
abbrev start : Site
start = record { cache = none; value = codes "203.0.113.1" }

-- One run has failed.
abbrev later : Site
later = run_at no_parse update_config failing options start

old_answer : (ip : Text) → willing.current ≡ ok ip → ip ≡ codes "203.0.113.1"
old_answer ip h = cc h

resolved-IsSolid :
    (e : Env) (ip : Text) → current_ip no_parse e update_config options ≡ ok ip → IsSolid ip
unfolding current_ip
resolved-IsSolid e ip h = let same : ip ≡ address = cc h in rw same solid

honest : Honest no_parse update_config failing options start
honest = record { answers = old_answer; stores = refl; solid = resolved-IsSolid failing }

Honest-later : Honest no_parse update_config willing options later
unfolding run_at after_calls update_with_resolver compare_cache compare_dns dry_or_apply
    apply_update write_cached_ip result read_cached_ip current_ip text_eq
Honest-later = record { answers = old_answer; stores = refl; solid = resolved-IsSolid willing }

updates_later :
    (update_with_resolver no_parse willing update_config options (fresh_site later)).1
    ≡ ok (result no_parse updated (codes "203.0.113.1") address update_config)
unfolding run_at update_with_resolver compare_cache compare_dns dry_or_apply apply_update
    write_cached_ip result read_cached_ip current_ip text_eq
updates_later = refl

nothing_cached : InSync no_parse update_config start
unfolding read_cached_ip
nothing_cached = inl refl

real_address : address ≢ []
real_address e = cc e

Runs-Published_example :
    ((run_at no_parse update_config willing options later).value ≡ address)
    × InSync no_parse update_config (run_at no_parse update_config willing options later)
unfolding result
Runs-Published_example =
    Runs-Published no_parse update_config willing options start later true
      (result no_parse updated (codes "203.0.113.1") address update_config) nothing_cached
      (one_more failing options none_yet honest) Honest-later updates_later refl real_address
      (inl refl)

-- The record holds an address that the cache does not know, after an upsert whose answer was lost; a
-- run about the address of the cache then succeeds, and the record stays.
abbrev known_site : Site
known_site = record {
  cache = some (codes "last_known_ip: 203.0.113.1\n");
  value = codes "203.0.113.1";
}

abbrev back : Options
back = record { force = false; dry_run = false; override_ip = codes "203.0.113.1" }

lost_answer :
    ((update_with_resolver no_parse willing update_config back
        (fresh_site (run_lost no_parse update_config failing options known_site))).1
      ≡ ok (result no_parse nochg_cache (codes "203.0.113.1") (codes "203.0.113.1") update_config))
    × ((run_at no_parse update_config willing back
          (run_lost no_parse update_config failing options known_site)).value
        ≡ address)
unfolding run_at run_lost after_calls update_with_resolver compare_cache compare_dns dry_or_apply
    apply_update write_cached_ip result read_cached_ip current_ip text_eq cut_prefix split
    trim_space
lost_answer = (refl, refl)

abbrev bound : Text → Option (Text × Text)
bound _ = some (codes "127.0.0.1", codes "53353")

number_free : Lacks b'#' (loopback_url bound (codes "127.0.0.1:53353"))
unfolding loopback_url join_host_port split_once text_eq
number_free = omega arith

question_free : Lacks b'?' (loopback_url bound (codes "127.0.0.1:53353"))
unfolding loopback_url join_host_port split_once text_eq
question_free = omega arith

run_serve_test_iff_example :
    ((run_serve_test bound
        (wired env (codes "127.0.0.1:40000") idle)
        []
        (codes "1.2.3.4")
        (ok env.cfg)).1
      ≡ ok tt)
    ↔ Served env server
        (meant (codes "127.0.0.1:40000") (codes "s3") (codes "home.example.com") (codes "1.2.3.4"))
        idle
run_serve_test_iff_example =
    run_serve_test_iff env server bound (codes "127.0.0.1:40000") [] (codes "1.2.3.4") idle refl
      number_free question_free (omega arith) (omega arith)

sealed_path : secure_path_for plain_path ≡ codes "c.secure"
unfolding secure_path_for trim_suffix has_suffix
sealed_path = refl

growing : IsGrowing clear_text
growing = record { sealed = λ key nonce s. omega arith; encoded = λ s. omega arith }

enabled :
    (run_enable_secure yaml clear_text router parsed
      (ok nonce)
      (ok nonce)
      faultless
      (ok (codes "/tmp/ip"))
      false
      plain_path
      plain_path
      (ok [])
      plain_only).1
    ≡ ok tt
unfolding run_enable_secure path_to_seal enable_at stat_ok secure_path_for trim_suffix has_suffix
    text_eq
enabled = ground (arith, migrated)

run_enable_secure-ok_example :
    ((run_enable_secure yaml clear_text router parsed
          (ok nonce)
          (ok nonce)
          faultless
          (ok (codes "/tmp/ip"))
          false
          plain_path
          plain_path
          (ok [])
          plain_only).0
        plain_path
      ≡ none)
    × (load_secure yaml clear_text router faultless
          (secure_path_for plain_path)
          (run_enable_secure yaml clear_text router parsed
            (ok nonce)
            (ok nonce)
            faultless
            (ok (codes "/tmp/ip"))
            false
            plain_path
            plain_path
            (ok [])
            plain_only).0
        ≡ ok (reloaded config))
unfolding path_to_seal
run_enable_secure-ok_example =
    run_enable_secure-ok yaml clear_text router parsed key nonce nonce faultless faultless config
      (ok (codes "/tmp/ip")) (ok []) false plain_path plain_path plain_path plain_only spelled
      clear_text-IsSound router-key refl refl no_colon (refl, refl) refl
      (loaded faultless refl refl) enabled

abbrev shown : Ip → Text
shown _ = codes "203.0.113.7"

abbrev nowhere : Text → Result Text (List Ip)
nowhere _ = err (codes "timeout")

abbrev report : Report
report = record {
  public_ip = codes "203.0.113.7";
  route53_ip = codes "203.0.113.7";
  route53_error = none;
  stdlib_ip = codes "203.0.113.7";
  stdlib_error = none;
  resolvers =
      record {
        name = codes "Google";
        server = codes "8.8.8.8:53";
        ip = [];
        error = some (codes "timeout");
      }
      ∷ record {
        name = codes "Cloudflare";
        server = codes "1.1.1.1:53";
        ip = [];
        error = some (codes "timeout");
      }
      ∷ record {
        name = codes "Quad9";
        server = codes "9.9.9.9:53";
        ip = [];
        error = some (codes "timeout");
      }
      ∷ [];
}

reported :
    Verify.run shown nowhere
      (ok (codes "203.0.113.7"))
      (ok (codes "203.0.113.7"))
      (ok (v4 203 0 113 7 ∷ []))
    ≡ ok report
unfolding Verify.run Verify.ask Verify.fields_of Verify.query_resolver Verify.stdlib_answer
    Verify.first_ipv4 is_ipv4
reported = refl

summary-Told_example : Told (codes "203.0.113.7") (ok (codes "203.0.113.7")) (summary report)
summary-Told_example =
    summary-Told shown nowhere (codes "203.0.113.7") (ok (codes "203.0.113.7"))
      (ok (v4 203 0 113 7 ∷ [])) report reported
