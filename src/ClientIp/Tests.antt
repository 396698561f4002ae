-- ===== src/ClientIp/Tests.antt =====
-- Resolved addresses, with one-letter addresses in place of real ones, and the theorems at them.
use golang_postgres_starter.Base.{
  ℕ, Text, codes, true, List, [], ◌∷◌, Option, none, some, ◌==◌, nat_eq, ◌≡◌, refl, ◌↔◌, inr, split,
  trim, trim_space,
}
use mathlib.Core.List.{reverse}
use golang_postgres_starter.ClientIp.{
  Netip, Incoming, parse_addr, is_trusted, header_entries, walk_hops, from_forwarded_for, resolve,
  middleware, parse_prefixes, parse_entry, addr_from_request,
}
use golang_postgres_starter.ClientIp.Origin.{FirstHop, from_forwarded_for_iff, resolve_unforged}

abbrev letter : Text → Option ℕ
letter [] = none
letter (c ∷ []) = some c
letter (c ∷ d ∷ s) = none

abbrev letters : Netip ℕ ℕ
letters = record {
  parse_ip = letter;
  parse_addr_port = λ _. none;
  split_host = λ _. none;
  parse_prefix = λ _. none;
  host_prefix = λ a. a;
  masked = λ p. p;
  is_valid_prefix = λ _. true;
  has_address = λ p a. p == a;
  normal = λ a. a;
}

-- The proxies are p and q.
abbrev proxies : List ℕ
proxies = b'p' ∷ b'q' ∷ []

abbrev proxied : Incoming ℕ
proxied = record {
  remote_addr = codes "p";
  forwarded_for = codes "x, c, q" ∷ [];
  real_ip = codes "r";
  true_client_ip = codes "t";
  client_addr = none;
}

abbrev forging : Incoming ℕ
forging = record proxied { forwarded_for = codes "f" ∷ codes "x, c, q" ∷ [] }

client_runs : Unit {0}
unfolding resolve middleware parse_prefixes parse_entry addr_from_request from_forwarded_for
    walk_hops parse_addr is_trusted header_entries split trim trim_space
client_runs = tt

client_tests :
    (resolve letters proxies proxied ≡ some b'c')
    × (resolve letters proxies (record proxied { forwarded_for = codes "x, ??, q" ∷ [] })
        ≡ some b'r')
    × (resolve letters proxies (record proxied { remote_addr = codes "d" }) ≡ some b'd')
    × (addr_from_request letters (middleware letters (λ a. a ∷ []) proxies proxied) ≡ some b'c')
    × (parse_prefixes letters (codes " p " ∷ codes "??" ∷ []) ≡ b'p' ∷ [])
unfolding client_runs
client_tests = (refl, refl, refl, refl, refl)

from_forwarded_for_iff_example :
    (from_forwarded_for letters proxies (codes "x, c, q" ∷ []) ≡ some b'c')
    ↔ FirstHop letters proxies (reverse (header_entries (codes "x, c, q" ∷ []))) b'c'
from_forwarded_for_iff_example = from_forwarded_for_iff letters proxies (codes "x, c, q" ∷ []) b'c'

resolve_unforged_example : resolve letters proxies forging ≡ resolve letters proxies proxied
unfolding client_runs
resolve_unforged_example =
    resolve_unforged letters proxies proxied forging (codes "f" ∷ []) b'p' refl refl
      (inr (b'c', refl, refl))
