-- ===== src/Server/Cidr.antt =====
-- internal/server/cidr.go: is the sender in one of the allowed networks? `net.SplitHostPort`,
-- `net.ParseIP` and `net.ParseCIDR` are parameters.
pub mod Within
use dddns.Prelude.{◌≡◌, Bool, true, false, List, [], ◌∷◌, Option, none, some}
use dddns.Prelude.Tests.{if◌then◌else◌}
use dddns.Prelude.Text.{Text, split_once}
use dddns.Net.{Ip, Network, contains}

module _ (split_host_port : Text → Option (Text × Text)) (parse_ip : Text → Option Ip)
    (parse_cidr : Text → Option Network) where
  -- The part of an address before its zone.
  unfoldable pub without_zone : Text → Text
  without_zone host = elim (split_once b'%' host) [ none ↦ host | some (ip, zone) ↦ ip ]

  unfoldable pub host_of : Text → Text
  unfolding without_zone
  host_of remote_addr = elim (split_host_port remote_addr) [
    | none ↦ without_zone remote_addr
    | some (host, port) ↦ without_zone host
  ]

  -- The loop over the networks; one that does not parse is skipped.
  unfoldable pub any_contains : Ip → List Text → Bool
  any_contains ip [] = false
  any_contains ip (c ∷ cidrs) =
      let rest = any_contains ip cidrs in
      elim (parse_cidr c) [
        | none ↦ rest
        | some network ↦ if contains network ip then true else rest
      ]

  unfoldable pub is_allowed : Text → List Text → Bool
  unfolding any_contains host_of
  is_allowed remote_addr cidrs = elim (parse_ip (host_of remote_addr)) [
    | none ↦ false
    | some ip ↦ any_contains ip cidrs
  ]
