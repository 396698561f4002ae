-- ===== src/Compile/Topology.antt =====
-- internal/httpx/compile.go: which children of a group would take over routes or mounts of others.
use golang_postgres_starter.Base.{
  ℕ, suc, zero, Text, Bool, true, false, not, ◌&&◌, ◌||◌, if◌then◌else◌, ◌==◌, nat_eq, text_eq,
  List, [], ◌∷◌, ◌++◌, Option, none, some, get_elem?, length, contains, has_prefix,
}
use golang_postgres_starter.Route.{
  slash, join_pattern, normalize_path, mount_contains_route_pattern, mount_patterns_overlap,
}
use golang_postgres_starter.Declaration.{
  Violation, duplicate_mount, overlapping_mounts, route_below_mount, EndpointDecl, InfraDecl,
  GroupChild, Group,
}

-- A claim of the group itself has no owner, the -1 of the source; one of a child has its index.
pub record TopologyMount : Type 0 where
  pub pattern : Text
  pub node : Option ℕ
  pub owner : ℕ

pub record TopologyRoute : Type 0 where
  pub method : Text
  pub path : Text
  pub owner : Option ℕ
  pub infrastructure : Bool

pub record Claims : Type 0 where
  pub routes : List TopologyRoute
  pub mounts : List TopologyMount

abbrev pub no_claims : Claims
no_claims = record { routes = []; mounts = [] }

abbrev pub join_claims : Claims → Claims → Claims
join_claims a b = record { routes = a.routes ++ b.routes; mounts = a.mounts ++ b.mounts }

abbrev pub rooted : Text → Bool
rooted pattern = has_prefix pattern (slash ∷ [])

abbrev pub is_none {ℓ} : {A : Type ℓ} → Option A → Bool
is_none none = true
is_none (some _) = false

abbrev pub prefix_label : Text → Text
prefix_label prefix = if prefix == [] then slash ∷ [] else prefix

abbrev pub is_owned_by : Option ℕ → ℕ → Bool
is_owned_by none i = false
is_owned_by (some owner) i = owner == i

unfoldable pub endpoint_claims :
    {R A Req Rep : Type 0} → Option ℕ → List (EndpointDecl R A Req Rep) → List TopologyRoute
endpoint_claims owner [] = []
endpoint_claims owner (ep ∷ eps) =
    record { method = ep.method; path = ep.path; owner = owner; infrastructure = false }
    ∷ endpoint_claims owner eps

unfoldable pub infra_claims : {R A : Type 0} → Option ℕ → List (InfraDecl R A) → List TopologyRoute
infra_claims owner [] = []
infra_claims owner (decl ∷ decls) =
    record { method = decl.method; path = decl.path; owner = owner; infrastructure = true }
    ∷ infra_claims owner decls

-- The claims of a list of children that share one owner: a child without a pattern is flattened.
unfoldable pub inline_children : (Option ℕ → Claims) → ℕ → List GroupChild → Claims
inline_children flatten owner [] = no_claims
inline_children flatten owner (child ∷ children) =
    let rest = inline_children flatten owner children in
    let flat = flatten child.node in
    if child.pattern == []
    then join_claims flat rest
    else join_claims
        (record {
          routes = [];
          mounts = record { pattern = child.pattern; node = child.node; owner = owner } ∷ [];
        })
        rest

module _ {R A Req Rep : Type 0} where
  -- The routes that a group declares itself.
  unfoldable pub own_claims : Option ℕ → Group R A Req Rep → Claims
  unfolding endpoint_claims infra_claims
  own_claims owner g = record {
    routes = endpoint_claims owner g.endpoints ++ infra_claims owner g.infra;
    mounts = [];
  }

  module _ (store : List (Group R A Req Rep)) where
    -- `collectInlineTopologyClaims`; `seen` are the groups on the way, and the fuel bounds the
    -- depth, which a way without repetition keeps at the number of groups.
    unfoldable pub collect_inline : ℕ → List ℕ → ℕ → Option ℕ → Claims
    unfolding inline_children own_claims
    collect_inline zero seen owner start = no_claims
    collect_inline (suc fuel) seen owner none = no_claims
    collect_inline (suc fuel) seen owner (some i) = elim (contains seen i) [
      | true ↦ no_claims
      | false ↦ elim (get_elem? store i) [
        | none ↦ no_claims
        | some g ↦
            join_claims (own_claims (some owner) g)
              (inline_children (λ node. collect_inline fuel (i ∷ seen) owner node) owner g.children)
      ]
    ]

    -- The loop over the children in `collectTopologyClaims`, from a child's index on.
    unfoldable pub child_claims : ℕ → ℕ → List GroupChild → Claims
    unfolding collect_inline
    child_claims i owner [] = no_claims
    child_claims i owner (child ∷ children) =
        join_claims
          (inline_children (collect_inline (suc (length store)) (i ∷ []) owner) owner (child ∷ []))
          (child_claims i (suc owner) children)

    -- `collectTopologyClaims` of the group with number `i`.
    unfoldable pub collect_topology_claims : ℕ → Group R A Req Rep → Claims
    unfolding child_claims
    collect_topology_claims i g = join_claims (own_claims none g) (child_claims i 0 g.children)

-- `mount_fault` says why chi refuses a mount pattern.
module _ (mount_fault : Text → Option Text) where
  -- Mounts that another check reports are passed over.
  unfoldable pub is_comparable : TopologyMount → Bool
  is_comparable m =
      not (m.pattern == [])
      && rooted m.pattern
      && not (is_none m.node)
      && is_none (mount_fault m.pattern)

  -- One mount against an earlier one.
  unfoldable pub check_pair : Text → TopologyMount → TopologyMount → List Violation
  unfolding is_comparable
  check_pair prefix current previous =
      if not (is_comparable previous && mount_patterns_overlap previous.pattern current.pattern)
      then []
      else if normalize_path previous.pattern == normalize_path current.pattern
      then duplicate_mount (join_pattern prefix current.pattern)
          (join_pattern prefix previous.pattern)
        ∷ []
      else overlapping_mounts (prefix_label prefix) previous.pattern current.pattern ∷ []

  -- One mount against a route.
  unfoldable pub check_route : Text → TopologyMount → TopologyRoute → List Violation
  check_route prefix current route =
      if is_owned_by route.owner current.owner
        || not (rooted route.path)
        || not (mount_contains_route_pattern current.pattern route.path)
      then []
      else route_below_mount route.method (join_pattern prefix route.path) route.infrastructure
          (join_pattern prefix current.pattern)
        ∷ []

  unfoldable pub gather : {X : Type 0} → (X → List Violation) → List X → List Violation
  gather check [] = []
  gather check (x ∷ xs) = check x ++ gather check xs

  -- One round of the outer loop; the earlier mounts stand in their order.
  unfoldable pub check_mount :
      Text → List TopologyRoute → List TopologyMount → TopologyMount → List Violation
  unfolding check_pair check_route gather is_comparable
  check_mount prefix routes previous current =
      if is_comparable current
      then gather (check_pair prefix current) previous ++ gather (check_route prefix current) routes
      else []

  -- The violations, each list with the owner whose child is not materialized for it.
  unfoldable pub check_mounts :
      Text
      → List TopologyRoute
      → List TopologyMount
      → List TopologyMount
      → List (ℕ × List Violation)
  unfolding check_mount
  check_mounts prefix routes previous [] = []
  check_mounts prefix routes previous (m ∷ mounts) =
      (m.owner, check_mount prefix routes previous m)
      ∷ check_mounts prefix routes (previous ++ m ∷ []) mounts

-- Whether nothing was found for the owner.
unfoldable pub is_unblamed : ℕ → List (ℕ × List Violation) → Bool
is_unblamed owner [] = true
is_unblamed owner ((blamed, []) ∷ found) = is_unblamed owner found
is_unblamed owner ((blamed, v ∷ vs) ∷ found) = not (blamed == owner) && is_unblamed owner found

unfoldable pub all_found : List (ℕ × List Violation) → List Violation
all_found [] = []
all_found ((_, vs) ∷ found) = vs ++ all_found found

-- `materializable` after `validateChildTopology`, for the children from an index on.
unfoldable pub materializable : ℕ → List (ℕ × List Violation) → List GroupChild → List Bool
unfolding is_unblamed
materializable owner found [] = []
materializable owner found (child ∷ children) =
    (not (is_none child.node) && is_unblamed owner found)
    ∷ materializable (suc owner) found children
