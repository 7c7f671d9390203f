-- ===== src/Dns.antt =====
-- internal/dns: the signer and the Route53 client.
pub mod SigV4
pub mod Route53
