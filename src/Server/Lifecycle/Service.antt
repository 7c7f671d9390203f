-- ===== src/Server/Lifecycle/Service.antt =====
-- Serve mode from its start on: which configurations start it, and what holds after any requests.
use dddns.Prelude.{
  ℕ, ◌≤◌, ◌≡◌, ◌≢◌, ◌↔◌, ◌⊎◌, inl, inr, refl, sym, ap, ◌∙◌, ◌∷◌, ◌+◌, List, Option, none, some,
  true, arith,
}
use dddns.Prelude.Int.{ℤ}
use dddns.Prelude.Lists.{length}
use dddns.Prelude.Tests.{Bool-cases, Option-cases}
use dddns.Prelude.Result.{ok, Result-cases}
use dddns.Prelude.Text.{Text}
use dddns.Net.{Ip}
use dddns.Config.{Config, ServerConfig, validate, validate_server}
use dddns.Config.Validate.{IsReady, IsServable, validate_iff, validate_server_iff}
use dddns.Server.Auth.{check, new_authenticator}
use dddns.Server.Auth.Window.{IsValid, check-IsValid, check_verdict, new_authenticator-IsValid}
use dddns.Server.Handler.{
  Request, State, Env, serve_http, with_server, authenticate, after_check, validate_query, look_up,
  publish, answer, recover, emit,
}
use dddns.Server.Handler.Guards.{published, refused, serve_http-asked}
use dddns.Server.Handler.Record.{complained, serve_http-IsRecorded}
use dddns.Server.Lifecycle.{Server, new_server, initial}
use dddns.Server.Lifecycle.{built}
use dddns.Prelude.{◌&&◌}
use dddns.Prelude.Text.{text_eq}
use dddns.Prelude.Text.{codes}
use dddns.Prelude.Text.{equal_fold}
use mathlib.Core.Path.{subst}
use dddns.Server.Auth.Window.{IsValid-later}
use dddns.Server.Handler.{returns}

module _ (parse_duration : Text → Option ℤ) (split_host_port : Text → Option (Text × Text))
    {N : Type 0} (parse_cidr : Text → Option N) where
  -- Serve mode starts exactly on a configuration that passes its check and has a server block that
  -- passes its own. The server is then the one built for that block.
  pub new_server_iff :
      (cfg : Config) (server : Server)
      → (new_server parse_duration split_host_port parse_cidr cfg ≡ ok server) ↔ (
          IsReady parse_duration cfg
          × ((block : ServerConfig) × (cfg.server ≡ some block)
              × IsServable split_host_port parse_cidr block
              × (server ≡ built cfg block)))
  unfolding new_server
  new_server_iff cfg server = (
    (λ h. elim (Result-cases (validate parse_duration cfg)) [
      | inr (e, bad) ↦ absurd (ground arith)
      | inl (_, good) ↦ elim (Option-cases cfg.server) [
        | inl missing ↦ absurd (ground arith)
        | inr (block, there) ↦
            elim (Result-cases (validate_server split_host_port parse_cidr block)) [
              | inr (e, bad) ↦ absurd (ground arith)
              | inl (_, fine) ↦ (
                (validate_iff parse_duration cfg).0 good,
                (
                  block,
                  there,
                  (validate_server_iff split_host_port parse_cidr block).0 fine,
                  ground arith,
                ),
              )
            ]
      ]
    ]),
    (λ h.
        let (ready, (block, there, servable, same)) = h in
        ground (
          arith,
          (validate_iff parse_duration cfg).1 ready,
          (validate_server_iff split_host_port parse_cidr block).1 servable,
        )),
  )

-- The states that serve mode can reach on a configuration, each with the time of the last request:
-- from the start, by requests of any sender at times that do not go back.
pub data Reach (cfg : Config) (block : ServerConfig) : ℕ → State → Type 0 where
  started : (now : ℕ) → cfg.server ≡ some block → Reach cfg block now (initial block)
  served :
      {t : ℕ} {s : State} (env : Env) (r : Request)
      → Reach cfg block t s
      → env.cfg ≡ cfg
      → t ≤ env.now
      → Reach cfg block env.now (serve_http env r s).0

-- A request leaves the authenticator alone, or it is one check of a password.
serve_http-auth :
    (env : Env) (r : Request) (s : State)
    → ((serve_http env r s).0.auth ≡ s.auth)
      ⊎ ((password : Text) × ((serve_http env r s).0.auth ≡ (check password env.now s.auth).0))
unfolding serve_http with_server authenticate after_check validate_query look_up publish answer
    recover emit
serve_http-auth env r s = elim (Option-cases r.basic_auth) [
  | inl missing ↦ inl (ground arith)
  | inr (password, given) ↦ elim (Option-cases env.cfg.server) [
    | inl e ↦ inl (ground arith)
    | inr (block, e) ↦
        elim (Bool-cases
          (env.allowed r.remote_addr block.allowed_cidrs && text_eq r.method (codes "GET"))) [
            | inl checked ↦ inr (password, ground arith)
            | inr not_checked ↦ inl (ground arith)
          ]
  ]
]

-- What holds in every state of serve mode.
pub record IsRunning (block : ServerConfig) (now : ℕ) (s : State) : Type 0 where
  pub secret : s.auth.secret ≡ block.shared_secret
  pub valid : IsValid now s.auth
  pub logged : length s.asked ≤ length s.audit + length s.journal

serve_http-IsValid :
    (env : Env) (r : Request) (t : ℕ) (s : State)
    → t ≤ env.now
    → IsValid t s.auth
    → IsValid env.now (serve_http env r s).0.auth
serve_http-IsValid env r t s later v = elim (serve_http-auth env r s) [
  | inl e ↦ subst (IsValid env.now) (sym e) (IsValid-later t env.now s.auth later v)
  | inr (password, e) ↦
      subst (IsValid env.now) (sym e) (check-IsValid password t env.now s.auth v later)
]

serve_http-secret :
    (env : Env) (r : Request) (s : State) → (serve_http env r s).0.auth.secret ≡ s.auth.secret
serve_http-secret env r s = elim (serve_http-auth env r s) [
  | inl e ↦ ap (λ a. a.secret) e
  | inr (password, e) ↦ ap (λ a. a.secret) e ∙ (check_verdict password env.now s.auth).3
]

complained-grows :
    (what : Text) (o : Option Text) (journal : List Text)
    → length journal ≤ length (complained what o journal)
complained-grows what none journal = omega arith
complained-grows what (some e) journal = omega arith

complained-grows_more :
    (what : Text) (o : Option Text) (journal : List Text)
    → o ≢ none
    → length journal + 1 ≤ length (complained what o journal)
complained-grows_more what none journal h = absurd (h refl)
complained-grows_more what (some e) journal h = omega arith

-- One request writes an audit line, or prints why not.
serve_http-told :
    (env : Env) (r : Request) (s : State)
    → length s.audit + length s.journal + 1
      ≤ length (serve_http env r s).0.audit + length (serve_http env r s).0.journal
serve_http-told env r s =
    let h = serve_http-IsRecorded env r s in
    let first = complained (codes "serve: audit write failed: ") env.sinks.audit_write s.journal in
    let printed = ap length h.printed in
    let grows =
      complained-grows (codes "serve: status write failed: ") env.sinks.status_write first in
    elim h.line [
      | inl (fine, line) ↦ omega (
        arith,
        ap length line,
        printed,
        grows,
        complained-grows (codes "serve: audit write failed: ") env.sinks.audit_write s.journal,
      )
      | inr (failed, line) ↦ omega (
        arith,
        ap length line,
        printed,
        grows,
        complained-grows_more (codes "serve: audit write failed: ") env.sinks.audit_write s.journal
            failed,
      )
    ]

-- At most one address more for one audit line or one printed failure more.
serve_http-logged :
    (env : Env) (block : ServerConfig) (r : Request) (s : State)
    → env.cfg.server ≡ some block
    → length s.asked ≤ length s.audit + length s.journal
    → length (serve_http env r s).0.asked
      ≤ length (serve_http env r s).0.audit + length (serve_http env r s).0.journal
serve_http-logged env block r s e h =
    let told = serve_http-told env r s in
    elim (serve_http-asked env block r s e) [
      | published ip _ asked ↦ omega (arith, ap length asked, told)
      | refused _ asked ↦ omega (arith, ap length asked, told)
    ]

-- In every state that serve mode can reach, the secret is the one of the configuration, fewer failures
-- than the limit are remembered and none from the future, and no more addresses were handed to the
-- update than lines were written to the audit log and failures to write printed on stderr, taken
-- together. The lines that a rotation has dropped since count as well.
pub Reach-IsRunning :
    (cfg : Config) (block : ServerConfig) (now : ℕ) (s : State)
    → cfg.server ≡ some block
    → Reach cfg block now s
    → IsRunning block now s
unfolding initial new_authenticator
Reach-IsRunning cfg block now s e (started _ _) = record {
  secret = refl;
  valid = new_authenticator-IsValid block.shared_secret now;
  logged = omega arith;
}
Reach-IsRunning cfg block now s e (served {t} {s = s'} env r reached same later) =
    let v = Reach-IsRunning cfg block t s' e reached in
    record {
      secret = serve_http-secret env r s' ∙ v.secret;
      valid = serve_http-IsValid env r t s' later v.valid;
      logged = serve_http-logged env block r s' (ap (λ c. c.server) same ∙ e) v.logged;
    }

-- From the start of serve mode on, whatever was asked before: a request that has an address handed to
-- the update comes from an allowed network, carries the secret of the configuration and names its host,
-- and the address is the one of the WAN interface.
pub Reach-asked :
    (cfg : Config) (block : ServerConfig) (now : ℕ) (s : State) (env : Env) (r : Request)
    → cfg.server ≡ some block
    → Reach cfg block now s
    → env.cfg ≡ cfg
    → (serve_http env r s).0.asked ≢ s.asked
    → (ip : Ip) × (env.allowed r.remote_addr block.allowed_cidrs ≡ true)
      × (r.basic_auth ≡ some block.shared_secret)
      × (equal_fold r.hostname cfg.hostname ≡ true)
      × (env.wan_ip block.wan_interface ≡ returns (ok ip))
      × ((serve_http env r s).0.asked ≡ env.ip_string ip ∷ s.asked)
Reach-asked cfg block now s env r e reached same changed =
    elim (serve_http-asked env block r s (ap (λ c. c.server) same ∙ e)) [
      | refused _ asked ↦ absurd (changed asked)
      | published ip a asked ↦ (
        ip,
        a.network,
        a.password ∙ ap some (Reach-IsRunning cfg block now s e reached).secret,
        ap (λ c. equal_fold r.hostname c.hostname) (sym same) ∙ a.host,
        a.wan,
        asked,
      )
    ]
