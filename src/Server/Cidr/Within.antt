-- ===== src/Server/Cidr/Within.antt =====
-- Who is allowed by internal/server/cidr.go.
use dddns.Prelude.{◌≡◌, ◌↔◌, refl, List, [], ◌∷◌, ◌++◌, Option, none, some, true, arith, inl, inr}
use dddns.Prelude.Tests.{Bool-cases, Option-cases}
use dddns.Prelude.Text.{Text, Lacks, split_once-cases, split_once-append, split_once-eq_none}
use mathlib.Core.Path.{subst}
use dddns.Net.{Ip, Network, contains}
use dddns.Server.Cidr.{without_zone, host_of, any_contains, is_allowed}

module _ (split_host_port : Text → Option (Text × Text)) (parse_ip : Text → Option Ip)
    (parse_cidr : Text → Option Network) where
  -- Some entry of the list is a network with this address.
  pub data Within (ip : Ip) : List Text → Type 0 where
    here :
        {c : Text} {cidrs : List Text} (network : Network)
        → parse_cidr c ≡ some network
        → contains network ip ≡ true
        → Within ip (c ∷ cidrs)
    there : {c : Text} {cidrs : List Text} → Within ip cidrs → Within ip (c ∷ cidrs)

  any_contains_sound :
      (ip : Ip) (cidrs : List Text)
      → any_contains split_host_port parse_ip parse_cidr ip cidrs ≡ true
      → Within ip cidrs
  unfolding any_contains
  any_contains_sound ip [] h = cc
  any_contains_sound ip (c ∷ cidrs) h = elim (Option-cases (parse_cidr c)) [
    | inl bad ↦ there (any_contains_sound ip cidrs (ground arith))
    | inr (network, good) ↦ elim (Bool-cases (contains network ip)) [
      | inl inside ↦ here network good inside
      | inr outside ↦ there (any_contains_sound ip cidrs (ground arith))
    ]
  ]

  any_contains_complete :
      (ip : Ip) (cidrs : List Text)
      → Within ip cidrs
      → any_contains split_host_port parse_ip parse_cidr ip cidrs ≡ true
  unfolding any_contains
  any_contains_complete ip [] w = elim w [ ]
  any_contains_complete ip (c ∷ cidrs) (here network good inside) = ground arith
  any_contains_complete ip (c ∷ cidrs) (there w) = ground (arith, any_contains_complete ip cidrs w)

  -- What stands before the first percent sign of a host, or all of it.
  pub data Unzoned (host : Text) : Text → Type 0 where
    no_zone : Lacks b'%' host → Unzoned host host
    zone :
        {text : Text} (name : Text)
        → Lacks b'%' text
        → host ≡ text ++ b'%' ∷ name
        → Unzoned host text

  -- The text of the sender's address: without the port, if there is one, and without the zone.
  pub data Sender (remote_addr : Text) (text : Text) : Type 0 where
    with_port :
        (host port : Text)
        → split_host_port remote_addr ≡ some (host, port)
        → Unzoned host text
        → Sender remote_addr text
    alone : split_host_port remote_addr ≡ none → Unzoned remote_addr text → Sender remote_addr text

  without_zone-Unzoned :
      (host : Text) → Unzoned host (without_zone split_host_port parse_ip parse_cidr host)
  unfolding without_zone
  without_zone-Unzoned host = elim (split_once-cases b'%' host) [
    | inl (lacks, e) ↦ subst (Unzoned host) (ground arith) (no_zone lacks)
    | inr (text, name, lacks, same, e) ↦
        subst (Unzoned host) (ground arith) (zone {text = text} name lacks same)
  ]

  Unzoned-unique :
      (host : Text) {text : Text}
      → Unzoned host text
      → without_zone split_host_port parse_ip parse_cidr host ≡ text
  unfolding without_zone
  Unzoned-unique host (no_zone lacks) = rw (split_once-eq_none b'%' host lacks, without_zone) refl
  Unzoned-unique host (zone {text} name lacks same) =
      rw same (rw (split_once-append b'%' text name lacks, without_zone) refl)

  host_of-Sender :
      (remote_addr : Text)
      → Sender remote_addr (host_of split_host_port parse_ip parse_cidr remote_addr)
  unfolding host_of
  host_of-Sender remote_addr = elim (Option-cases (split_host_port remote_addr)) [
    | inl bare ↦
        subst (Sender remote_addr) (ground arith) (alone bare (without_zone-Unzoned remote_addr))
    | inr ((host, port), e) ↦
        subst (Sender remote_addr) (ground arith)
          (with_port host port e (without_zone-Unzoned host))
  ]

  Sender-unique :
      (remote_addr text : Text)
      → Sender remote_addr text
      → host_of split_host_port parse_ip parse_cidr remote_addr ≡ text
  unfolding host_of
  Sender-unique remote_addr text (with_port host port e u) = ground (arith, Unzoned-unique host u)
  Sender-unique remote_addr text (alone e u) = ground (arith, Unzoned-unique remote_addr u)

  -- A sender is allowed exactly if its address parses and some entry of the list parses as a network
  -- that contains it. The address is the host in front of the port, or the whole text if there is no
  -- port to split off, up to the first percent sign. Entries that do not parse admit nobody.
  pub is_allowed_iff :
      (remote_addr : Text) (cidrs : List Text)
      → (is_allowed split_host_port parse_ip parse_cidr remote_addr cidrs ≡ true) ↔ (
          (text : Text) × Sender remote_addr text
          × ((ip : Ip) × (parse_ip text ≡ some ip) × Within ip cidrs))
  unfolding is_allowed
  is_allowed_iff remote_addr cidrs = (
    (λ h. elim (Option-cases (parse_ip (host_of split_host_port parse_ip parse_cidr remote_addr))) [
      | inl bad ↦ absurd (ground arith)
      | inr (ip, good) ↦ (
        host_of split_host_port parse_ip parse_cidr remote_addr,
        host_of-Sender remote_addr,
        (ip, good, any_contains_sound ip cidrs (ground arith)),
      )
    ]),
    (λ h.
        let (text, sender, (ip, good, within)) = h in
        ground
          (arith, Sender-unique remote_addr text sender, any_contains_complete ip cidrs within)),
  )
