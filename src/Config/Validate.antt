-- ===== src/Config/Validate.antt =====
-- What the checks of internal/config/config.go accept.
use dddns.Prelude.{
  ◌≡◌, ◌≢◌, ◌↔◌, ◌⊎◌, inl, inr, refl, true, List, [], ◌∷◌, Option, none, some, arith,
}
use dddns.Prelude.Lists.{All}
use dddns.Prelude.Int.{ℤ, is_positive}
use dddns.Prelude.Result.{ok}
use dddns.Prelude.Text.{Text, codes, text_eq_iff}
use dddns.Config.{
  ServerConfig, Config, update_timeout_or_default, is_known_source, check_timeout, validate,
  check_cidrs, check_bind, no_cidrs, validate_server,
}
use dddns.Prelude.Tests.{Option-cases}
use dddns.Prelude.Result.{guard-eq-ok}
use dddns.Prelude.Text.{not_empty_iff}
use dddns.Prelude.Result.{>>-eq-ok}
use dddns.Prelude.{not}

abbrev pub IsKnownSource : Text → Type 0
IsKnownSource s = (s ≡ []) ⊎ (s ≡ codes "auto") ⊎ (s ≡ codes "local") ⊎ (s ≡ codes "remote")

is_known_source_iff : (s : Text) → (is_known_source s ≡ true) ↔ IsKnownSource s
unfolding is_known_source
is_known_source_iff [] = (λ _. inl refl, λ _. refl)
is_known_source_iff (c ∷ s) = (
  ground (
    arith,
    text_eq_iff (c ∷ s) (codes "auto"),
    text_eq_iff (c ∷ s) (codes "local"),
    text_eq_iff (c ∷ s) (codes "remote"),
  ),
  ground (
    arith,
    text_eq_iff (c ∷ s) (codes "auto"),
    text_eq_iff (c ∷ s) (codes "local"),
    text_eq_iff (c ∷ s) (codes "remote"),
  ),
)

module _ (parse_duration : Text → Option ℤ) where
  abbrev pub IsGoodTimeout : Text → Type 0
  IsGoodTimeout s = (s ≡ []) ⊎ ((d : ℤ) × (parse_duration s ≡ some d) × (is_positive d ≡ true))

  check_timeout_iff : (s : Text) → (check_timeout parse_duration s ≡ ok tt) ↔ IsGoodTimeout s
  unfolding check_timeout
  check_timeout_iff [] = (λ _. inl refl, λ _. refl)
  check_timeout_iff (c ∷ s) = elim (Option-cases (parse_duration (c ∷ s))) [
    | inl bad ↦ (λ h. absurd (ground arith), λ g. absurd (ground arith))
    | inr (d, good) ↦ (λ h. inr (d, good, ground arith), λ g. ground arith)
  ]

  -- What a configuration must have before anything runs with it.
  pub record IsReady (c : Config) : Type 0 where
    pub access_key : c.aws_access_key ≢ []
    pub secret_key : c.aws_secret_key ≢ []
    pub zone : c.hosted_zone_id ≢ []
    pub host : c.hostname ≢ []
    pub time_to_live : is_positive c.ttl ≡ true
    pub source : IsKnownSource c.ip_source
    pub timeout : IsGoodTimeout c.update_timeout

  -- The configuration passes its check exactly if credentials, zone and host name are there, the TTL
  -- is positive, the IP source is a known one, and the time limit is absent or a positive duration.
  pub validate_iff : (c : Config) → (validate parse_duration c ≡ ok tt) ↔ IsReady c
  unfolding validate
  validate_iff c = (
    λ h.
        let (h1, r1) = guard-eq-ok _ _ _ h in
        let (h2, r2) = guard-eq-ok _ _ _ r1 in
        let (h3, r3) = guard-eq-ok _ _ _ r2 in
        let (h4, r4) = guard-eq-ok _ _ _ r3 in
        let (h5, r5) = guard-eq-ok _ _ _ r4 in
        let (h6, r6) = guard-eq-ok _ _ _ r5 in
        record {
          access_key = (not_empty_iff _).0 h1;
          secret_key = (not_empty_iff _).0 h2;
          zone = (not_empty_iff _).0 h3;
          host = (not_empty_iff _).0 h4;
          time_to_live = h5;
          source = (is_known_source_iff _).0 h6;
          timeout = (check_timeout_iff _).0 r6;
        },
    λ r.
        rw
          (
            (not_empty_iff _).1 r.access_key,
            (not_empty_iff _).1 r.secret_key,
            (not_empty_iff _).1 r.zone,
            (not_empty_iff _).1 r.host,
            r.time_to_live,
            (is_known_source_iff _).1 r.source,
          )
          ((check_timeout_iff _).1 r.timeout),
  )

  -- The time limit of an update is positive for every configuration, also for one that was never
  -- checked.
  pub update_timeout_or_default-is_positive :
      (c : Config) → is_positive (update_timeout_or_default parse_duration c) ≡ true
  unfolding update_timeout_or_default
  update_timeout_or_default-is_positive c = ground arith

module _ (split_host_port : Text → Option (Text × Text)) {N : Type 0}
    (parse_cidr : Text → Option N) where
  pub record IsServable (s : ServerConfig) : Type 0 where
    pub address : s.bind ≢ []
    pub host_port : split_host_port s.bind ≢ none
    pub secret : s.shared_secret ≢ []
    pub listed : s.allowed_cidrs ≢ []
    pub all_parse : All (λ c. parse_cidr c ≢ none) s.allowed_cidrs

  check_cidrs_iff :
      (cs : List Text)
      → (check_cidrs split_host_port parse_cidr cs ≡ ok tt) ↔ All (λ c. parse_cidr c ≢ none) cs
  unfolding check_cidrs
  check_cidrs_iff [] = (λ _. tt, λ _. refl)
  check_cidrs_iff (c ∷ cs) = elim (Option-cases (parse_cidr c)) [
    | inl bad ↦ (λ h. absurd (ground arith), λ g. absurd (g.0 bad))
    | inr (n, good) ↦ (
      λ h. (λ e. absurd (ground arith), (check_cidrs_iff cs).0 (ground arith)),
      λ g. rw (good, check_cidrs) ((check_cidrs_iff cs).1 g.1),
    )
  ]

  check_bind_iff :
      (b : Text) → (check_bind split_host_port parse_cidr b ≡ ok tt) ↔ (split_host_port b ≢ none)
  unfolding check_bind
  check_bind_iff b = elim (Option-cases (split_host_port b)) [
    | inl bad ↦ (λ h. absurd (ground arith), λ g. absurd (g bad))
    | inr (hp, good) ↦ (λ h e. absurd (ground arith), λ g. ground arith)
  ]

  not-no_cidrs_iff : (cs : List Text) → (not (no_cidrs cs) ≡ true) ↔ (cs ≢ [])
  unfolding no_cidrs
  not-no_cidrs_iff [] = ((λ h. cc), λ h. absurd (h refl))
  not-no_cidrs_iff (c ∷ cs) = ((λ h e. cc e), λ h. refl)

  -- The server block passes its check exactly if it names an address that splits into host and port,
  -- has a secret, and lists at least one network, all of which parse.
  pub validate_server_iff :
      (s : ServerConfig) → (validate_server split_host_port parse_cidr s ≡ ok tt) ↔ IsServable s
  unfolding validate_server
  validate_server_iff s = (
    λ h.
        let (h1, r1) = guard-eq-ok _ _ _ h in
        let (h2, r2) = >>-eq-ok _ _ r1 in
        let (h3, r3) = guard-eq-ok _ _ _ r2 in
        let (h4, r4) = guard-eq-ok _ _ _ r3 in
        record {
          address = (not_empty_iff _).0 h1;
          host_port = (check_bind_iff _).0 h2;
          secret = (not_empty_iff _).0 h3;
          listed = (not-no_cidrs_iff _).0 h4;
          all_parse = (check_cidrs_iff _).0 r4;
        },
    λ r.
        rw
          (
            (not_empty_iff _).1 r.address,
            (check_bind_iff _).1 r.host_port,
            (not_empty_iff _).1 r.secret,
            (not-no_cidrs_iff _).1 r.listed,
          )
          ((check_cidrs_iff _).1 r.all_parse),
  )
