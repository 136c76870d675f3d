-- ===== src/Region/Points.antt =====
-- A region of kernel/region.cpp as the set of its points, and what a lookup makes of it.
use ring3k.Prelude.{
  ℕ, ◌-◌, ◌*◌, ◌/◌, ◌%◌, ◌≡◌, sym, ◌∙◌, ◌⊎◌, inl, inr, Bool, true, false, ◌&&◌, ◌==◌, if◌then◌else◌,
  Bool-cases, some, arith,
}
use ring3k.Region.{
  Rect, rect_equal, rect_overlaps, rect_contains, rect_intersect, null_region, simple_region,
  Region, with_first, validate, any_rect, all_equal, region_equal, contains_point, overlaps_rect,
}
use ring3k.Region.Rects.{
  HasPoints, In-rect_contains, rect_ext, rect_equal→≡, rect_intersect-HasPoints, rect_intersect_lem,
  not_overlap,
}

-- A region whose flags pass the checks of a lookup and that is null, or simple with a rectangle
-- that has points. The lookup tests the flags only.
pub record IsWell (g : Region) : Type 0 where
  pub flags : (g.flags / 16 % 2 ≡ 1) × (g.flags % 2 ≡ 0)
  pub shape : (g.kind ≡ null_region) ⊎ (g.kind ≡ simple_region) × HasPoints g.extents

-- The points of a region.
abbrev pub points : Region → ℕ → ℕ → Bool
points g x y = (g.kind == simple_region) && rect_contains g.extents x y

-- The rectangles that the kernel keeps agree with the part that the client can write.
pub record IsSeen (g : Region) : Type 0 where
  pub well : IsWell g
  pub null : g.kind ≡ null_region → g.num_rects ≡ 0
  pub simple : g.kind ≡ simple_region → (g.num_rects ≡ 1) × (g.rects 0 ≡ g.extents)

-- What a lookup makes of such a region.
pub seen : Region → Region
seen g =
    let checked = record g { flags = g.flags - g.flags / 32 % 2 * 32 } in
    if g.kind == null_region
    then record checked { num_rects = 0 }
    else record checked { num_rects = 1; rects = with_first g.rects g.extents }

pub validate_lem : (g : Region) → IsWell g → validate g ≡ some (seen g)
unfolding validate seen
validate_lem g w = ground (arith, w.flags, w.shape)

pub seen-IsSeen :
    (g : Region)
    → IsWell g
    → IsSeen (seen g) × ((seen g).kind ≡ g.kind) × ((seen g).extents ≡ g.extents)
unfolding seen
seen-IsSeen g w = (
  record {
    well = record { flags = ground (arith, w.flags); shape = ground (arith, w.shape) };
    null = λ e. ground arith;
    simple = λ e. ground arith;
  },
  ground arith,
  ground arith,
)

-- On a region that was looked up, the test of a point is the membership in its points.
pub contains_point_lem : (g : Region) (x y : ℕ) → IsSeen g → contains_point g x y ≡ points g x y
unfolding contains_point any_rect
contains_point_lem g x y v = elim v.well.shape [
  | inl null ↦ let none_left = v.null null in rw (none_left, null)
  | inr (simple, some_points) ↦
      let (one, same) = v.simple simple in rw (one, simple, same) (ground arith)
]

pub null_points : (g : Region) (x y : ℕ) → g.kind ≡ null_region → points g x y ≡ false
null_points g x y null = rw null

pub simple_points :
    (g : Region) (x y : ℕ) → g.kind ≡ simple_region → points g x y ≡ rect_contains g.extents x y
simple_points g x y simple = rw simple

-- The corner of a simple region belongs to it.
corner :
    (g : Region)
    → g.kind ≡ simple_region
    → HasPoints g.extents
    → points g g.extents.left g.extents.top ≡ true
corner g simple some_points =
    simple_points g _ _ simple ∙ In-rect_contains g.extents _ _ (omega arith)

module _ (g h : Region) (v : IsSeen g) (w : IsSeen h) where
  null_null : g.kind ≡ null_region → h.kind ≡ null_region → region_equal g h ≡ true
  unfolding region_equal
  null_null a b = let none_g = v.null a in let none_h = w.null b in rw (none_g, none_h)

  null_simple : g.kind ≡ null_region → h.kind ≡ simple_region → region_equal g h ≡ false
  unfolding region_equal
  null_simple a b = let none_g = v.null a in let one = (w.simple b).0 in rw (none_g, one)

  simple_null : g.kind ≡ simple_region → h.kind ≡ null_region → region_equal g h ≡ false
  unfolding region_equal
  simple_null a b = let one = (v.simple a).0 in let none_h = w.null b in rw (one, none_h)

  simple_simple :
      g.kind ≡ simple_region
      → h.kind ≡ simple_region
      → region_equal g h ≡ rect_equal g.extents h.extents
  unfolding region_equal all_equal
  simple_simple a b =
      let (one, same) = v.simple a in
      let (one', same') = w.simple b in
      elim (Bool-cases (rect_equal g.extents h.extents)) [
        | inl e ↦ rw (one, one', same, same', e)
        | inr e ↦ rw (one, one', e)
      ]

-- Two such regions are equal exactly if they have the same points.
pub region_equal_lem :
    (g h : Region)
    → IsSeen g
    → IsSeen h
    → (region_equal g h ≡ true → (x y : ℕ) → points g x y ≡ points h x y)
      × (((x y : ℕ) → points g x y ≡ points h x y) → region_equal g h ≡ true)
region_equal_lem g h v w = elim v.well.shape [
  | inl a ↦ elim w.well.shape [
    | inl b ↦ (λ _ x y. null_points g x y a ∙ sym (null_points h x y b), λ _. null_null g h v w a b)
    | inr (b, some_h) ↦ (
      λ e. cc (null_simple g h v w a b),
      λ same. cc (null_points g _ _ a, same _ _, corner h b some_h),
    )
  ]
  | inr (a, some_g) ↦ elim w.well.shape [
    | inl b ↦ (
      λ e. cc (simple_null g h v w a b),
      λ same. cc (corner g a some_g, same _ _, null_points h _ _ b),
    )
    | inr (b, some_h) ↦ (
      λ e x y.
          let same = rect_equal→≡ g.extents h.extents (sym (simple_simple g h v w a b) ∙ e) in
          rw (a, b, same),
      λ same.
          simple_simple g h v w a b
          ∙ rect_ext g.extents h.extents some_g some_h
              (λ x y. sym (simple_points g x y a) ∙ same x y ∙ simple_points h x y b),
    )
  ]
]

overlaps_simple :
    (g : Region) (r : Rect)
    → IsSeen g
    → g.kind ≡ simple_region
    → overlaps_rect g r ≡ rect_overlaps g.extents r
unfolding overlaps_rect any_rect
overlaps_simple g r v a =
    let (one, same) = v.simple a in
    elim (Bool-cases (rect_overlaps g.extents r)) [
      | inl e ↦ rw (one, same, e)
      | inr e ↦ rw (one, e)
    ]

overlaps_null :
    (g : Region) (r : Rect) → IsSeen g → g.kind ≡ null_region → overlaps_rect g r ≡ false
unfolding overlaps_rect
overlaps_null g r v a = let none_left = v.null a in rw none_left

-- A rectangle is overlapped by the region exactly if they have a point in common.
pub overlaps_rect_lem :
    (g : Region) (r : Rect)
    → IsSeen g
    → HasPoints r
    → (overlaps_rect g r ≡ true
        → (x : ℕ) × (y : ℕ) × (points g x y ≡ true) × (rect_contains r x y ≡ true))
      × ((x y : ℕ) → points g x y ≡ true → rect_contains r x y ≡ true → overlaps_rect g r ≡ true)
overlaps_rect_lem g r v some_points = elim v.well.shape [
  | inl a ↦ (λ e. cc (overlaps_null g r v a), λ x y p q. cc (null_points g x y a))
  | inr (a, some_g) ↦ (
    λ e.
        let meets =
          rect_intersect-HasPoints g.extents r some_g some_points
            (sym (overlaps_simple g r v a) ∙ e) in
        let m = rect_intersect g.extents r in
        let both =
          sym (rect_intersect_lem g.extents r m.left m.top)
          ∙ In-rect_contains m m.left m.top (omega (arith, meets)) in
        (m.left, m.top, simple_points g _ _ a ∙ ground (arith, both), ground (arith, both)),
    λ x y p q. elim (Bool-cases (rect_overlaps g.extents r)) [
      | inl e ↦ overlaps_simple g r v a ∙ e
      | inr e ↦ cc (not_overlap g.extents r x y e, sym (simple_points g x y a) ∙ p, q)
    ],
  )
]
