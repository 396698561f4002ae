-- ===== src/ClientIp.antt =====
-- pkg/clientip/clientip.go: the address of the client behind trusted proxies.
pub mod Origin
mod Tests
use golang_postgres_starter.Base.{
  or_else, ℕ, Text, Bool, false, not, ◌||◌, if◌then◌else◌, ◌==◌, text_eq, List, [], ◌∷◌, ◌++◌,
  Option, none, some, trim_space, split,
}
use mathlib.Core.List.{reverse}

-- What netip and net promise is left to parameters: addresses `A` and prefixes `P`, the parsers,
-- the masking and the membership test.
pub record Netip (A P : Type 0) : Type 0 where
  pub parse_ip : Text → Option A
  pub parse_addr_port : Text → Option A
  pub split_host : Text → Option Text
  pub parse_prefix : Text → Option P
  pub host_prefix : A → P
  pub masked : P → P
  pub is_valid_prefix : P → Bool
  pub has_address : P → A → Bool
  -- Unmapped and without a zone.
  pub normal : A → A

-- The parts of a request that are read, with the address in its context.
pub record Incoming (A : Type 0) : Type 0 where
  pub remote_addr : Text
  pub forwarded_for : List Text
  pub real_ip : Text
  pub true_client_ip : Text
  pub client_addr : Option A

abbrev pub through {ℓ κ} : {X : Type ℓ} {Y : Type κ} → (X → Option Y) → Option X → Option Y
through f none = none
through f (some x) = f x

abbrev pub comma : ℕ
comma = b','

unfoldable pub header_entries : List Text → List Text
header_entries [] = []
header_entries (value ∷ values) = split value comma ++ header_entries values

module _ {A P : Type 0} (net : Netip A P) where
  -- `parseAddr`
  unfoldable pub parse_addr : Text → Option A
  parse_addr value =
      let trimmed = trim_space value in
      if trimmed == []
      then none
      else through (λ a. some (net.normal a))
          (or_else (net.parse_ip trimmed) (
            or_else (net.parse_addr_port trimmed)
              (through (λ host. net.parse_ip (trim_space host)) (net.split_host trimmed))))

  -- `NewResolver`: the trusted prefixes.
  unfoldable pub new_resolver : List P → List P
  new_resolver [] = []
  new_resolver (p ∷ ps) =
      if net.is_valid_prefix p then net.masked p ∷ new_resolver ps else new_resolver ps

  abbrev pub add_prefix : Option P → List P → List P
  add_prefix none ps = ps
  add_prefix (some p) ps = p ∷ ps

  -- `ParsePrefixes`
  unfoldable pub parse_entry : Text → Option P
  parse_entry entry =
      let trimmed = trim_space entry in
      if trimmed == []
      then none
      else or_else (through (λ p. some (net.masked p)) (net.parse_prefix trimmed))
          (through (λ a. some (net.host_prefix (net.normal a))) (net.parse_ip trimmed))

  unfoldable pub parse_prefixes : List Text → List P
  unfolding parse_entry
  parse_prefixes [] = []
  parse_prefixes (entry ∷ entries) = add_prefix (parse_entry entry) (parse_prefixes entries)

  abbrev pub any_has : List P → A → Bool
  any_has [] a = false
  any_has (p ∷ ps) a = net.has_address p a || any_has ps a

  -- `IsTrusted`
  unfoldable pub is_trusted : List P → A → Bool
  is_trusted trusted a = any_has trusted (net.normal a)

  -- The loop of `fromForwardedFor`, over the entries from the last to the first.
  unfoldable pub walk_hops : List P → List Text → Option A
  unfolding parse_addr is_trusted
  walk_hops trusted [] = none
  walk_hops trusted (entry ∷ entries) =
      let before = walk_hops trusted entries in
      through (λ a. if is_trusted trusted a then before else some a) (parse_addr entry)

  unfoldable pub from_forwarded_for : List P → List Text → Option A
  unfolding walk_hops header_entries
  from_forwarded_for trusted values = walk_hops trusted (reverse (header_entries values))

  -- `Resolve`, once the peer is known.
  unfoldable pub resolve_peer : List P → Incoming A → A → A
  unfolding from_forwarded_for
  resolve_peer trusted r peer =
      if not (is_trusted trusted peer)
      then peer
      else elim (or_else (from_forwarded_for trusted r.forwarded_for) (parse_addr r.real_ip)) [
        | some a ↦ a
        | none ↦ peer
      ]

  -- `Resolve`
  unfoldable pub resolve : List P → Incoming A → Option A
  unfolding resolve_peer
  resolve trusted r =
      through (λ peer. some (resolve_peer trusted r peer)) (parse_addr r.remote_addr)

  -- What `Middleware` hands to the next handler; `show` is the text of an address.
  unfoldable pub middleware : (A → Text) → List P → Incoming A → Incoming A
  unfolding resolve
  middleware show trusted r = elim (resolve trusted r) [
    | none ↦ record r { true_client_ip = [] }
    | some a ↦ record r { true_client_ip = []; client_addr = some a; remote_addr = show a }
  ]

  -- `AddrFromRequest`
  unfoldable pub addr_from_request : Incoming A → Option A
  unfolding parse_addr
  addr_from_request r = or_else r.client_addr (parse_addr r.remote_addr)
