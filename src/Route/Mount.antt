-- ===== src/Route/Mount.antt =====
-- When a mount contains a route, and when two mounts overlap, by the request paths that the router
-- matches with the patterns. The comparison reads no regular expressions, so that it may find more.
use golang_postgres_starter.Base.{
  Text, Bool, true, false, ◌||◌, if◌then◌else◌, ◌==◌, nat_eq, text_eq, list_beq_iff, List, [], ◌∷◌,
  ◌++◌, contains, has_prefix, All, Lacks, ◌≡◌, ◌≢◌, refl, sym, ap, ◌∙◌, ◌↔◌, ◌⊎◌, inl, inr, arith,
  Bool-cases,
}
use golang_postgres_starter.Route.{
  open_brace, close_brace, is_templated, is_dynamic, routing_segments, covers_segments,
  mount_contains_route_pattern, mount_patterns_overlap,
}

-- The catch-all at the end of a pattern.
abbrev pub star : Text
star = b'*' ∷ []

abbrev pub IsStatic : Text → Type 0
IsStatic p = (contains p open_brace ≡ false) × (contains p b'*' ≡ false)

-- A segment of a pattern that is one placeholder, with whatever expression, or static.
abbrev pub IsSegment : Text → Type 0
IsSegment p = (is_templated p ≡ true) ⊎ IsStatic p

-- A placeholder that is a name alone.
abbrev pub IsOpen : Text → Type 0
IsOpen p =
    (is_templated p ≡ true)
    × ((name : Text) × (p ≡ open_brace ∷ name ++ close_brace ∷ [])
        × Lacks b':' name
        × Lacks open_brace name
        × Lacks close_brace name)

-- A segment that is such a placeholder, or static and not empty.
abbrev pub IsPlain : Text → Type 0
IsPlain p = IsOpen p ⊎ (IsStatic p × (p ≢ []))

templated-contains : (p : Text) → is_templated p ≡ true → contains p open_brace ≡ true
unfolding is_templated has_prefix
templated-contains [] h = cc
templated-contains (c ∷ p) h = ground arith

templated-dynamic : (p : Text) → is_templated p ≡ true → is_dynamic p ≡ true
unfolding is_dynamic
templated-dynamic p h = ground arith

static-dynamic : (p : Text) → IsStatic p → is_dynamic p ≡ false
unfolding is_dynamic
static-dynamic p (no_brace, no_star) = elim (Bool-cases (is_templated p)) [
  | inl templated ↦ absurd (cc (templated-contains p templated, no_brace))
  | inr plain ↦ elim (Bool-cases (p == star)) [
    | inl same ↦ absurd (cc (ap (λ q. contains q b'*') ((list_beq_iff p star).0 same), no_star))
    | inr other ↦ rw (other, plain) refl
  ]
]

pub IsPlain-IsSegment : (ps : List Text) → All IsPlain ps → All IsSegment ps
IsPlain-IsSegment [] a = tt
IsPlain-IsSegment (p ∷ ps) (inl whole, a) = (inl whole.0, IsPlain-IsSegment ps a)
IsPlain-IsSegment (p ∷ ps) (inr static, a) = (inr static.0, IsPlain-IsSegment ps a)

-- `accepts` is the router's verdict on a segment of a path, by a segment with a placeholder.
module _ (accepts : Text → Text → Bool) where
  abbrev pub Fits : Text → Text → Type 0
  Fits p s =
      ((contains p open_brace ≡ false) × (p ≡ s))
      ⊎ ((contains p open_brace ≡ true) × (accepts p s ≡ true))

  -- The whole path matches the pattern; a catch-all takes whatever is left.
  pub data Matches : List Text → List Text → Type 0 where
    done : Matches [] []
    step :
        {p s : Text} {ps path : List Text}
        → Fits p s
        → Matches ps path
        → Matches (p ∷ ps) (s ∷ path)
    rest : {path : List Text} → Matches (star ∷ []) path

  -- The path lies at or below the pattern.
  pub data Under : List Text → List Text → Type 0 where
    reached : {path : List Text} → Under [] path
    down : {p s : Text} {ps path : List Text} → Fits p s → Under ps path → Under (p ∷ ps) (s ∷ path)

  Fits-static : (p s : Text) → IsStatic p → Fits p s → p ≡ s
  Fits-static p s static (inl (_, same)) = same
  Fits-static p s static (inr (brace, _)) = absurd (cc (static.0, brace))

  -- Two segments that one segment of a path fits are taken to meet.
  meet :
      (m r s : Text)
      → IsSegment m
      → IsSegment r
      → Fits m s
      → Fits r s
      → (m == r || (is_dynamic m || is_dynamic r)) ≡ true
  meet m r s (inl templated) _ f g = ground (arith, templated-dynamic m templated)
  meet m r s (inr static) (inl templated) f g = ground (arith, templated-dynamic r templated)
  meet m r s (inr m_static) (inr r_static) f g =
      rw ((list_beq_iff m r).1 (Fits-static m s m_static f ∙ sym (Fits-static r s r_static g))) refl

  star_not-IsSegment : ¬ IsSegment star
  unfolding is_templated has_prefix
  star_not-IsSegment (inl h) = cc
  star_not-IsSegment (inr (_, h)) = cc

  covers_segments_sound :
      (mounts routes path : List Text)
      → Matches routes path
      → Under mounts path
      → All IsSegment mounts
      → All IsSegment routes
      → covers_segments mounts routes ≡ true
  unfolding covers_segments
  covers_segments_sound [] routes path h k a b = refl
  covers_segments_sound (m ∷ mounts) [] [] done k a b = elim k [ ]
  covers_segments_sound (m ∷ mounts) (r ∷ routes) (s ∷ path) (step f h) (down g k) (seg_m, a)
        (seg_r, b) =
      rw (meet m r s seg_m seg_r g f) (covers_segments_sound mounts routes path h k a b)
  covers_segments_sound (m ∷ mounts) _ path rest k a b = absurd (star_not-IsSegment b.0)

  module _ (opens : (p s : Text) → IsOpen p → s ≢ [] → accepts p s ≡ true) where
    open-Fits : (p s : Text) → IsOpen p → s ≢ [] → Fits p s
    open-Fits p s whole named = inr (templated-contains p whole.0, opens p s whole named)

    open_named : (p : Text) → IsOpen p → p ≢ []
    open_named p is e = cc (is.1.1, e)

    self-Fits : (p : Text) → IsPlain p → Fits p p
    self-Fits p (inl whole) = open-Fits p p whole (open_named p whole)
    self-Fits p (inr (static, _)) = inl (static.0, refl)

    -- A path for a mount and a route: the static segment of the two, where there is one.
    witness : List Text → List Text → List Text
    witness mounts [] = []
    witness [] (r ∷ routes) = r ∷ witness [] routes
    witness (m ∷ mounts) (r ∷ routes) = (if is_dynamic r then m else r) ∷ witness mounts routes

    pick-Fits :
        (m r : Text)
        → IsPlain m
        → IsPlain r
        → (m == r || (is_dynamic m || is_dynamic r)) ≡ true
        → Fits r (if is_dynamic r then m else r) × Fits m (if is_dynamic r then m else r)
    pick-Fits m r (inl m_open) (inl r_open) h =
        rw (templated-dynamic r r_open.0)
          (open-Fits r m r_open (open_named m m_open), self-Fits m (inl m_open))
    pick-Fits m r (inr (m_static, named)) (inl r_open) h =
        rw (templated-dynamic r r_open.0)
          (open-Fits r m r_open named, self-Fits m (inr (m_static, named)))
    pick-Fits m r (inl m_open) (inr (r_static, named)) h =
        rw (static-dynamic r r_static)
          (self-Fits r (inr (r_static, named)), open-Fits m r m_open named)
    pick-Fits m r (inr (m_static, m_named)) (inr (r_static, named)) h =
        let same =
          (list_beq_iff m r).0
            (both_static m r (static-dynamic m m_static) (static-dynamic r r_static) h) in
        rw (static-dynamic r r_static) (self-Fits r (inr (r_static, named)), inl (m_static.0, same))
      where
        both_static :
            (m r : Text)
            → is_dynamic m ≡ false
            → is_dynamic r ≡ false
            → (m == r || (is_dynamic m || is_dynamic r)) ≡ true
            → (m == r) ≡ true
        both_static m r a b h = ground arith

    covers_segments_complete :
        (mounts routes : List Text)
        → All IsPlain mounts
        → All IsPlain routes
        → covers_segments mounts routes ≡ true
        → Matches routes (witness mounts routes) × Under mounts (witness mounts routes)
    unfolding covers_segments witness
    covers_segments_complete [] [] a b h = (done, reached)
    covers_segments_complete (m ∷ mounts) [] a b h = cc
    covers_segments_complete [] (r ∷ routes) a (plain, b) h =
        (step (self-Fits r plain) (covers_segments_complete [] routes tt b refl).0, reached)
    covers_segments_complete (m ∷ mounts) (r ∷ routes) (plain_m, a) (plain_r, b) h =
        let (matches, under) = covers_segments_complete mounts routes a b (ground arith) in
        let (fits_route, fits_mount) = pick-Fits m r plain_m plain_r (ground arith) in
        (step fits_route matches, down fits_mount under)

  Matches-Under : (ps path : List Text) → All IsSegment ps → Matches ps path → Under ps path
  Matches-Under [] path a h = reached
  Matches-Under (p ∷ ps) (s ∷ path) (_, a) (step f h) = down f (Matches-Under ps path a h)
  Matches-Under (p ∷ ps) path a rest = absurd (star_not-IsSegment a.0)

  -- Of two mounts over one path the one with fewer segments contains the other.
  Under-covers :
      (left right path : List Text)
      → All IsSegment left
      → All IsSegment right
      → Under left path
      → Under right path
      → (covers_segments left right ≡ true) ⊎ (covers_segments right left ≡ true)
  unfolding covers_segments
  Under-covers [] right path a b h k = inl refl
  Under-covers (l ∷ left) [] path a b h k = inr refl
  Under-covers (l ∷ left) (r ∷ right) [] a b h k = elim h [ ]
  Under-covers (l ∷ left) (r ∷ right) (s ∷ path) (seg_l, a) (seg_r, b) (down f h) (down g k) =
      elim (Under-covers left right path a b h k) [
        | inl covers ↦ inl (rw (meet l r s seg_l seg_r f g) covers)
        | inr covers ↦ inr (rw (meet r l s seg_r seg_l g f) covers)
      ]

  Under-overlap :
      (left right : Text) (path : List Text)
      → All IsSegment (routing_segments left)
      → All IsSegment (routing_segments right)
      → Under (routing_segments left) path
      → Under (routing_segments right) path
      → mount_patterns_overlap left right ≡ true
  unfolding mount_patterns_overlap mount_contains_route_pattern
  Under-overlap left right path a b h k =
      let covers = Under-covers (routing_segments left) (routing_segments right) path a b h k in
      ground arith

  module _ (opens : (p s : Text) → IsOpen p → s ≢ [] → accepts p s ≡ true) where
    -- A mount without regular expressions contains a route without them exactly if some request path
    -- is matched by the route and lies at or below the mount. Their segments are placeholders by a
    -- name alone, or static and not empty, without a catch-all; the router takes every segment that
    -- is not empty for such a placeholder.
    pub mount_contains_iff :
        (mount route : Text)
        → All IsPlain (routing_segments mount)
        → All IsPlain (routing_segments route)
        → (mount_contains_route_pattern mount route ≡ true) ↔ (
            (path : List Text) × Matches (routing_segments route) path
            × Under (routing_segments mount) path)
    unfolding mount_contains_route_pattern
    mount_contains_iff mount route plain_mount plain_route =
        let mounts = routing_segments mount in
        let routes = routing_segments route in
        (
          (λ h.
              let (matches, under) =
                covers_segments_complete opens mounts routes plain_mount plain_route h in
              (witness opens mounts routes, matches, under)),
          λ (path, matches, under).
              covers_segments_sound mounts routes path matches under
                (IsPlain-IsSegment mounts plain_mount) (IsPlain-IsSegment routes plain_route),
        )

    abbrev pub Share : Text → Text → Type 0
    Share left right =
        (path : List Text) × Under (routing_segments left) path
        × Under (routing_segments right) path

    contained-Share :
        (mount route : Text)
        → All IsPlain (routing_segments mount)
        → All IsPlain (routing_segments route)
        → mount_contains_route_pattern mount route ≡ true
        → Share mount route
    contained-Share mount route a b h =
        let (path, matches, under) = (mount_contains_iff mount route a b).0 h in
        (
          path,
          under,
          Matches-Under (routing_segments route) path (IsPlain-IsSegment (routing_segments route) b)
              matches,
        )

    -- Two mounts that some request path lies at or below, so that both guard subtrees would claim
    -- it, are taken to overlap, whatever the regular expressions of their placeholders accept. If
    -- they have none, and no segment is empty, mounts that are taken to overlap have such a path. All
    -- segments are whole placeholders or static, without a catch-all; the router takes every segment
    -- that is not empty for a placeholder by a name alone.
    pub mount_patterns_overlap_iff :
        (left right : Text)
        → All IsSegment (routing_segments left)
        → All IsSegment (routing_segments right)
        → (Share left right → mount_patterns_overlap left right ≡ true)
          × (All IsPlain (routing_segments left)
              → All IsPlain (routing_segments right)
              → mount_patterns_overlap left right ≡ true
              → Share left right)
    unfolding mount_patterns_overlap
    mount_patterns_overlap_iff left right a b = (
      (λ (path, h, k). Under-overlap left right path a b h k),
      (λ plain_left plain_right h. elim (Bool-cases (mount_contains_route_pattern left right)) [
        | inl contained ↦ contained-Share left right plain_left plain_right contained
        | inr other ↦
            let (path, k, l) = contained-Share right left plain_right plain_left (ground arith) in
            (path, l, k)
      ]),
    )
