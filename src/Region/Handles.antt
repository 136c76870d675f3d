-- ===== src/Region/Handles.antt =====
-- The calls of kernel/region.cpp that ask for and change one region, and the comparison of two.
use ring3k.Prelude.{
  ℕ, ◌+◌, ◌-◌, ◌^◌, ◌≤◌, ◌<◌, ◌≡◌, ◌≢◌, ◌↔◌, refl, sym, ◌∙◌, inl, inr, Bool, true, false, not, ◌&&◌,
  ltb, leb, ◌==◌, Bool-cases, arith,
}
use ring3k.Prelude.Signed.{origin, add_int}
use ring3k.Region.{
  Rect, fix, rect_offset, rect_contains, Region, empty_region, update_type, set_rect, region_offset,
  Regions, put, looked_up, point_in_region, rect_in_region, equal_regions, set_region,
  offset_region,
}
use ring3k.Region.Rects.{HasPoints}
use ring3k.Region.Points.{IsWell, points, contains_point_lem, overlaps_rect_lem, region_equal_lem}
use ring3k.Region.Lookup.{lookup_lem}
use ring3k.Region.Intersect.{nonempty}

-- On an open region whose flags pass the checks of a lookup, null or simple with a rectangle that
-- has points, `NtGdiPtInRegion` tells whether the point is in the region,
-- and `NtGdiRectInRegion` whether a point of the region is in the rectangle, turned so that its
-- corners are in order and not flat. Both leave the points of every region as they are.
pub queries_lem :
    (is_region : ℕ → Bool) (s : Regions) (h x y : ℕ) (rect : Rect)
    → is_region h ≡ true
    → IsWell (s h)
    → HasPoints (fix rect)
    → ((point_in_region is_region s h x y).0 ≡ points (s h) x y)
      × (((rect_in_region is_region s h rect).0 ≡ true)
          ↔ ((u : ℕ) × (v : ℕ) × (points (s h) u v ≡ true) × (rect_contains (fix rect) u v ≡ true)))
      × ((q u v : ℕ)
          → (points ((point_in_region is_region s h x y).1 q) u v ≡ points (s q) u v)
            × (points ((rect_in_region is_region s h rect).1 q) u v ≡ points (s q) u v))
unfolding point_in_region rect_in_region looked_up
queries_lem is_region s h x y rect open_h w some_points =
    let (s', e, kept, seen) = lookup_lem is_region s h open_h w in
    let (meets, met) = overlaps_rect_lem (s' h) (fix rect) seen some_points in
    rw e (
      contains_point_lem (s' h) x y seen ∙ kept.points h x y,
      (
        λ o. let (u, v, p, q) = meets o in (u, v, sym (kept.points h u v) ∙ p, q),
        λ (u, v, p, q). met u v (kept.points h u v ∙ p) q,
      ),
      λ q u v. (kept.points q u v, kept.points q u v),
    )

-- `NtGdiEqualRgn` is true exactly if the two regions have the same points. Both must be open with
-- flags that pass the checks of a lookup, and each null or simple with a rectangle that has points,
-- left of its right side and above its bottom.
pub equal_regions_lem :
    (is_region : ℕ → Bool) (s : Regions) (h1 h2 : ℕ)
    → is_region h1 ≡ true
    → is_region h2 ≡ true
    → IsWell (s h1)
    → IsWell (s h2)
    → ((equal_regions is_region s h1 h2).0 ≡ true)
      ↔ ((x y : ℕ) → points (s h1) x y ≡ points (s h2) x y)
unfolding equal_regions looked_up
equal_regions_lem is_region s h1 h2 open_1 open_2 w1 w2 =
    let (s1, e1, kept1, seen1) = lookup_lem is_region s h1 open_1 w1 in
    let (s2, e2, kept2, seen2) = lookup_lem is_region s1 h2 open_2 (kept1.well h2 w2) in
    let same = λ (q x y : ℕ). kept2.points q x y ∙ kept1.points q x y in
    let (to, from) = region_equal_lem (s2 h1) (s2 h2) (kept2.seen h1 seen1) seen2 in
    rw (e1, e2)
      (
        λ e x y. sym (same h1 x y) ∙ to e x y ∙ same h2 x y,
        λ all. from (λ x y. same h1 x y ∙ all x y ∙ sym (same h2 x y)),
      )

-- The rectangle with these sides, in either order.
abbrev pub sides : ℕ → ℕ → ℕ → ℕ → Rect
sides left top right bottom =
    fix (record { left = left; top = top; right = right; bottom = bottom })

sides-HasPoints :
    (left top right bottom : ℕ)
    → (not (left == right) && not (top == bottom)) ≡ true
    → HasPoints (sides left top right bottom)
unfolding fix
sides-HasPoints left top right bottom e = (ground arith, ground arith)

flat_sides :
    (left top right bottom x y : ℕ)
    → (not (left == right) && not (top == bottom)) ≡ false
    → rect_contains (sides left top right bottom) x y ≡ false
unfolding fix rect_contains
flat_sides left top right bottom x y e = ground arith

set_rect_lem :
    (g : Region) (left top right bottom : ℕ)
    → IsWell g
    → IsWell (set_rect g left top right bottom)
      × ((x y : ℕ)
          → points (set_rect g left top right bottom) x y
            ≡ rect_contains (sides left top right bottom) x y)
unfolding set_rect update_type empty_region
set_rect_lem g left top right bottom w =
    elim (Bool-cases (not (left == right) && not (top == bottom))) [
      | inr e ↦ rw e (
        record { flags = w.flags; shape = inl refl },
        λ x y. sym (flat_sides left top right bottom x y e),
      )
      | inl e ↦
          let some_points = sides-HasPoints left top right bottom e in
          let full = nonempty (sides left top right bottom) some_points in
          rw (e, full) (record { flags = w.flags; shape = inr (refl, some_points) }, λ x y. refl)
    ]

-- The sum does not wrap.
abbrev pub Fits : ℕ → ℕ → Type 0
Fits a d = (origin ≤ a + d) × (a + d < origin + 2 ^ 32)

shift : (a d : ℕ) → Fits a d → add_int a d ≡ a + d - 2 ^ 31
shift a d f = omega arith

shift_leb : (a b d : ℕ) → Fits a d → Fits b d → leb (add_int a d) (add_int b d) ≡ leb a b
shift_leb a b d f f' = rw (shift a d f, shift b d f') (ground arith)

shift_ltb : (a b d : ℕ) → Fits a d → Fits b d → ltb (add_int a d) (add_int b d) ≡ ltb a b
shift_ltb a b d f f' = rw (shift a d f, shift b d f') (ground arith)

region_offset_lem :
    (g : Region) (dx dy x y : ℕ)
    → Fits g.extents.left dx
    → Fits g.extents.right dx
    → Fits g.extents.top dy
    → Fits g.extents.bottom dy
    → Fits x dx
    → Fits y dy
    → points (region_offset g dx dy) (add_int x dx) (add_int y dy) ≡ points g x y
unfolding region_offset rect_offset rect_contains
region_offset_lem g dx dy x y l r t b fx fy = rw (
  shift_leb g.extents.top y dy t fy,
  shift_ltb y g.extents.bottom dy fy b,
  shift_leb g.extents.left x dx l fx,
  shift_ltb x g.extents.right dx fx r,
)

-- `NtGdiSetRectRgn` makes the points of a region those of the rectangle, none if it is flat, keeps
-- what a lookup checks, and keeps the points of all other regions.
pub set_region_lem :
    (is_region : ℕ → Bool) (s : Regions) (h left top right bottom : ℕ)
    → is_region h ≡ true
    → IsWell (s h)
    → (s' : Regions) × (set_region is_region s h left top right bottom ≡ (true, s'))
      × IsWell (s' h)
      × ((x y : ℕ) → points (s' h) x y ≡ rect_contains (sides left top right bottom) x y)
      × ((q : ℕ) → q ≢ h → (x y : ℕ) → points (s' q) x y ≡ points (s q) x y)
unfolding set_region looked_up
set_region_lem is_region s h left top right bottom open_h w =
    let (s', e, kept, seen) = lookup_lem is_region s h open_h w in
    let here : (h == h) ≡ true = ground arith in
    let away : (q : ℕ) → q ≢ h → (h == q) ≡ false = λ q n. ground arith in
    let (well, is) = set_rect_lem (s' h) left top right bottom seen.well in
    (
      put s' h (set_rect (s' h) left top right bottom),
      rw e,
      rw here well,
      rw here is,
      λ q n x y. rw (away q n) (kept.points q x y),
    )

-- Moving the region by these distances takes no coordinate of it out of the range of int.
pub record CanMove (g : Region) (dx dy : ℕ) : Type 0 where
  pub left : Fits g.extents.left dx
  pub right : Fits g.extents.right dx
  pub top : Fits g.extents.top dy
  pub bottom : Fits g.extents.bottom dy

-- `NtGdiOffsetRgn` returns the type of the region and moves each of its points by the two
-- distances, if no coordinate of the region or of the point wraps. It keeps the points of all other
-- regions.
pub offset_region_lem :
    (is_region : ℕ → Bool) (s : Regions) (h dx dy x y : ℕ)
    → is_region h ≡ true
    → IsWell (s h)
    → CanMove (s h) dx dy
    → Fits x dx
    → Fits y dy
    → (s' : Regions) × (offset_region is_region s h dx dy ≡ ((s h).kind, s'))
      × (points (s' h) (add_int x dx) (add_int y dy) ≡ points (s h) x y)
      × ((q : ℕ) → q ≢ h → (u v : ℕ) → points (s' q) u v ≡ points (s q) u v)
unfolding offset_region looked_up
offset_region_lem is_region s h dx dy x y open_h w m fx fy =
    let (s', e, kept, seen) = lookup_lem is_region s h open_h w in
    let here : (h == h) ≡ true = ground arith in
    let away : (q : ℕ) → q ≢ h → (h == q) ≡ false = λ q n. ground arith in
    let same = kept.extents h in
    (
      put s' h (region_offset (s' h) dx dy),
      rw (e, kept.kind h),
      rw here (
          region_offset_lem (s' h) dx dy x y (rw same m.left) (rw same m.right) (rw same m.top)
            (rw same m.bottom) fx fy
          ∙ kept.points h x y),
      λ q n u v. rw (away q n) (kept.points q u v),
    )
