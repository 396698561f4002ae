-- ===== src/ClientIp/Origin.antt =====
-- Which hop is taken for the client, and what a client cannot forge.
use golang_postgres_starter.Base.{
  Text, Bool, true, false, if◌then◌else◌, List, [], ◌∷◌, ◌++◌, append_assoc, Option, none, some,
  All, ◌≡◌, refl, ap, ◌∙◌, subst, ◌↔◌, ◌⊎◌, inl, inr, arith,
}
use mathlib.Core.List.{reverse, reverse-append}
use golang_postgres_starter.ClientIp.{
  Netip, Incoming, through, parse_addr, is_trusted, header_entries, walk_hops, from_forwarded_for,
  resolve_peer, resolve,
}

through-found :
    {X Y : Type 0} (f : X → Option Y) (o : Option X) (y : Y)
    → through f o ≡ some y
    → (x : X) × (o ≡ some x) × (f x ≡ some y)
through-found f none y h = ground arith
through-found f (some x) y h = (x, refl, h)

branch-found :
    {X : Type 0} (b : Bool) (o : Option X) (x y : X)
    → (if b then o else some x) ≡ some y
    → ((b ≡ true) × (o ≡ some y)) ⊎ ((b ≡ false) × (x ≡ y))
branch-found true o x y h = inl (refl, h)
branch-found false o x y h = inr (refl, ground arith)

module _ {A P : Type 0} (net : Netip A P) (trusted : List P) where
  abbrev pub IsProxy : Text → Type 0
  IsProxy entry = (a : A) × (parse_addr net entry ≡ some a) × (is_trusted net trusted a ≡ true)

  -- Of the entries, the last one first, `a` is the first that is no proxy.
  abbrev pub FirstHop : List Text → A → Type 0
  FirstHop entries a =
      (after : List Text) × (entry : Text) × (before : List Text) × (entries
        ≡ after ++ entry ∷ before)
      × All IsProxy after
      × (parse_addr net entry ≡ some a)
      × (is_trusted net trusted a ≡ false)

  walk_hops-found :
      (entries : List Text) (a : A) → walk_hops net trusted entries ≡ some a → FirstHop entries a
  unfolding walk_hops
  walk_hops-found [] a h = ground arith
  walk_hops-found (entry ∷ entries) a h =
      let (b, parsed, e) = through-found _ (parse_addr net entry) a h in
      elim (branch-found (is_trusted net trusted b) (walk_hops net trusted entries) b a e) [
        | inl (proxy, later) ↦
            let (after, hop, before, split_at, proxies, read, client) =
              walk_hops-found entries a later in
            (
              entry ∷ after,
              hop,
              before,
              ap (λ es. entry ∷ es) split_at,
              ((b, parsed, proxy), proxies),
              read,
              client,
            )
        | inr (client, same) ↦ (
          [],
          entry,
          entries,
          refl,
          tt,
          parsed ∙ ap some same,
          subst (λ c. is_trusted net trusted c ≡ false) same client,
        )
      ]

  walk_hops_past :
      (after : List Text) (entry : Text) (before : List Text) (a : A)
      → All IsProxy after
      → parse_addr net entry ≡ some a
      → is_trusted net trusted a ≡ false
      → walk_hops net trusted (after ++ entry ∷ before) ≡ some a
  unfolding walk_hops
  walk_hops_past [] entry before a proxies parsed client = rw (parsed, client) refl
  walk_hops_past (e ∷ after) entry before a ((b, read, proxy), proxies) parsed client =
      rw (read, proxy) (walk_hops_past after entry before a proxies parsed client)

  -- X-Forwarded-For names `a` as the client exactly if, from the right, it is the first entry that
  -- is no trusted proxy, with every entry behind it the address of one.
  pub from_forwarded_for_iff :
      (values : List Text) (a : A)
      → (from_forwarded_for net trusted values ≡ some a)
        ↔ FirstHop (reverse (header_entries values)) a
  unfolding from_forwarded_for
  from_forwarded_for_iff values a = (
    walk_hops-found (reverse (header_entries values)) a,
    λ (after, entry, before, split_at, proxies, parsed, client).
        rw split_at (walk_hops_past after entry before a proxies parsed client),
  )

  -- Entries further to the left do not matter once a hop is found.
  walk_hops-append :
      (entries forged : List Text) (a : A)
      → walk_hops net trusted entries ≡ some a
      → walk_hops net trusted (entries ++ forged) ≡ some a
  walk_hops-append entries forged a h =
      let (after, entry, before, split_at, proxies, parsed, client) = walk_hops-found entries a h in
      rw (split_at, append_assoc after (entry ∷ before) forged)
        (walk_hops_past after entry (before ++ forged) a proxies parsed client)

  forwarded-append :
      (values others : List Text) (forged : List Text) (a : A)
      → header_entries others ≡ forged ++ header_entries values
      → from_forwarded_for net trusted values ≡ some a
      → from_forwarded_for net trusted others ≡ some a
  unfolding from_forwarded_for
  forwarded-append values others forged a e h =
      rw (e, reverse-append forged (header_entries values))
        (walk_hops-append (reverse (header_entries values)) (reverse forged) a h)

  peer-same :
      (r s : Incoming A) (forged : List Text) (peer a : A)
      → header_entries s.forwarded_for ≡ forged ++ header_entries r.forwarded_for
      → from_forwarded_for net trusted r.forwarded_for ≡ some a
      → resolve_peer net trusted s peer ≡ resolve_peer net trusted r peer
  unfolding resolve_peer
  peer-same r s forged peer a e h =
      rw (forwarded-append r.forwarded_for s.forwarded_for forged a e h, h) refl

  peer-direct :
      (r : Incoming A) (peer : A)
      → is_trusted net trusted peer ≡ false
      → resolve_peer net trusted r peer ≡ peer
  unfolding resolve_peer
  peer-direct r peer h = rw h refl

  -- Two requests of one peer resolve to one address, if the peer is no trusted proxy, whatever
  -- their headers say, or if one has further entries in front of the other's X-Forwarded-For, which
  -- names a client already: what a client puts there itself does not change who it is taken for.
  pub resolve_unforged :
      (r s : Incoming A) (forged : List Text) (peer : A)
      → parse_addr net r.remote_addr ≡ some peer
      → s.remote_addr ≡ r.remote_addr
      → (is_trusted net trusted peer ≡ false)
        ⊎ ((a : A) × (from_forwarded_for net trusted r.forwarded_for ≡ some a)
            × (header_entries s.forwarded_for ≡ forged ++ header_entries r.forwarded_for))
      → resolve net trusted s ≡ resolve net trusted r
  unfolding resolve
  resolve_unforged r s forged peer parsed same (inl direct) =
      rw (same, parsed, peer-direct s peer direct, peer-direct r peer direct) refl
  resolve_unforged r s forged peer parsed same (inr (a, h, e)) =
      rw (same, parsed, peer-same r s forged peer a e h) refl
