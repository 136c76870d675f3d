-- ===== src/Region.antt =====
-- kernel/region.cpp and kernel/region.h: regions of the graphics interface. Coordinates are signed
-- numbers as in Prelude/Signed. Regions are objects in a heap, as an operation may be called with
-- one region twice.
pub mod Rects
pub mod Points
pub mod Lookup
pub mod Intersect
pub mod Combine
pub mod Handles
mod Tests
use package.ring3k.Prelude.{
  ℕ, zero, suc, ◌+◌, ◌-◌, ◌*◌, ◌/◌, ◌%◌, ◌^◌, Bool, true, false, not, ◌&&◌, ◌||◌, ltb, leb, ◌==◌,
  if◌then◌else◌, Option, none, some,
}
use package.ring3k.Prelude.Checked.{Checked, returns, aborts, assert, ◌>>=◌, ◌>>◌}
use package.ring3k.Prelude.Signed.{origin, add_int}

pub record Rect : Type 0 where
  pub left : ℕ
  pub top : ℕ
  pub right : ℕ
  pub bottom : ℕ

-- `rect_tt::clear`.
abbrev pub cleared : Rect
cleared = record { left = origin; top = origin; right = origin; bottom = origin }

pub fix : Rect → Rect
fix r = record {
  left = if ltb r.right r.left then r.right else r.left;
  top = if ltb r.bottom r.top then r.bottom else r.top;
  right = if ltb r.right r.left then r.left else r.right;
  bottom = if ltb r.bottom r.top then r.top else r.bottom;
}

pub rect_equal : Rect → Rect → Bool
rect_equal r other =
    (r.left == other.left)
    && (r.right == other.right)
    && (r.top == other.top)
    && (r.bottom == other.bottom)

pub rect_offset : Rect → ℕ → ℕ → Rect
rect_offset r x y = record {
  left = add_int r.left x;
  top = add_int r.top y;
  right = add_int r.right x;
  bottom = add_int r.bottom y;
}

pub rect_overlaps : Rect → Rect → Bool
rect_overlaps r other =
    ltb other.left r.right
    && ltb r.left other.right
    && ltb other.top r.bottom
    && ltb r.top other.bottom

pub rect_contains : Rect → ℕ → ℕ → Bool
rect_contains r x y = leb r.top y && ltb y r.bottom && leb r.left x && ltb x r.right

abbrev pub larger : ℕ → ℕ → ℕ
larger a b = if ltb b a then a else b

abbrev pub smaller : ℕ → ℕ → ℕ
smaller a b = if ltb a b then a else b

-- `rect_tt::intersect`.
pub rect_intersect : Rect → Rect → Rect
rect_intersect r other =
    let left = larger r.left other.left in
    let top = larger r.top other.top in
    let right = smaller r.right other.right in
    let bottom = smaller r.bottom other.bottom in
    if leb bottom top || leb right left
    then cleared
    else record { left = left; top = top; right = right; bottom = bottom }

pub rect_is_empty : Rect → Bool
rect_is_empty r = (r.left == r.right) || (r.top == r.bottom)

abbrev pub null_region : ℕ
null_region = 1

abbrev pub simple_region : ℕ
simple_region = 2

-- `ERROR`, a region type too.
abbrev pub error : ℕ
error = 0

-- `region_tt` with the part that it shares with the client.
pub record Region : Type 0 where
  pub flags : ℕ
  pub kind : ℕ
  pub extents : Rect
  pub num_rects : ℕ
  pub rects : ℕ → Rect

-- `rects[0] = r`.
abbrev pub with_first : (ℕ → Rect) → Rect → ℕ → Rect
with_first rects r i = if i == 0 then r else rects i

pub empty_region : Region → Region
empty_region g = record g { num_rects = 0; extents = cleared; kind = null_region }

-- A new region; the two rectangles are clear.
pub new_region : Region
unfolding empty_region
new_region =
    record (empty_region
      (record { flags = 0; kind = 0; extents = cleared; num_rects = 0; rects = λ i. cleared })) {
        flags = 0;
        kind = 0;
      }

-- `validate`: none if it is false.
pub validate : Region → Option Region
validate g =
    let checked = record g { flags = g.flags - g.flags / 32 % 2 * 32 } in
    if not (g.flags / 16 % 2 == 1) || (g.flags % 2 == 1)
    then none
    else if g.kind == null_region
    then some (record checked { num_rects = 0 })
    else if g.kind == simple_region
    then some (record checked { num_rects = 1; rects = with_first g.rects g.extents })
    else some checked

pub update_type : Region → Region
unfolding rect_is_empty
update_type g =
    if rect_is_empty g.extents
    then record g { kind = null_region; num_rects = 0 }
    else record g { kind = simple_region }

pub set_rect : Region → ℕ → ℕ → ℕ → ℕ → Region
unfolding fix update_type empty_region
set_rect g left top right bottom =
    let extents = fix (record { left = left; top = top; right = right; bottom = bottom }) in
    if not (left == right) && not (top == bottom)
    then update_type
        (record g { extents = extents; num_rects = 1; rects = with_first g.rects extents })
    else empty_region g

-- `for (i = 0; i < numRects; i++)` with a test that ends the loop, from the last index down.
pub any_rect : (Rect → Bool) → (ℕ → Rect) → ℕ → Bool
any_rect p rects zero = false
any_rect p rects (suc n) = p (rects n) || any_rect p rects n

pub all_equal : (ℕ → Rect) → (ℕ → Rect) → ℕ → Bool
unfolding rect_equal
all_equal a b zero = true
all_equal a b (suc n) = rect_equal (a n) (b n) && all_equal a b n

pub region_equal : Region → Region → Bool
unfolding all_equal rect_equal
region_equal g other =
    if not (g.num_rects == other.num_rects)
    then false
    else if g.num_rects == 0
    then true
    else if not (rect_equal g.extents other.extents)
    then false
    else all_equal g.rects other.rects g.num_rects

-- The type is the result of the call.
pub region_offset : Region → ℕ → ℕ → Region
unfolding rect_offset
region_offset g x y = record g {
  rects = λ i. if ltb i g.num_rects then rect_offset (g.rects i) x y else g.rects i;
  extents = rect_offset g.extents x y;
}

pub contains_point : Region → ℕ → ℕ → Bool
unfolding any_rect rect_contains
contains_point g x y =
    if g.num_rects == 0
    then false
    else if not (rect_contains g.extents x y)
    then false
    else any_rect (λ r. rect_contains r x y) g.rects g.num_rects

pub overlaps_rect : Region → Rect → Bool
unfolding any_rect rect_overlaps
overlaps_rect g rect =
    if g.num_rects == 0
    then false
    else if not (rect_overlaps g.extents rect)
    then false
    else any_rect (λ r. rect_overlaps r rect) g.rects g.num_rects

-- The regions by handle; `none` is no region.
abbrev pub Regions : Type 0
Regions = ℕ → Region

abbrev pub put : Regions → ℕ → Region → Regions
put s h g q = if h == q then g else s q

-- The assignments of `intersect_rgn` to the extents of region `dest`, which may be one of the other
-- two, and `update_type`.
pub store_meet : Regions → ℕ → ℕ → ℕ → Regions
unfolding rect_intersect update_type
store_meet s dest reg1 reg2 =
    let s1 = put s dest (record (s dest) { extents = (s reg1).extents }) in
    let meet = rect_intersect (s1 dest).extents (s1 reg2).extents in
    put s1 dest (update_type (record (s1 dest) { extents = meet }))

pub intersect_rgn : Regions → ℕ → ℕ → ℕ → Checked (ℕ × Regions)
unfolding rect_overlaps store_meet empty_region
intersect_rgn s dest reg1 reg2 =
    if ((s reg1).num_rects == 0)
      || ((s reg2).num_rects == 0)
      || not (rect_overlaps (s reg1).extents (s reg2).extents)
    then returns (null_region, put s dest (empty_region (s dest)))
    else (do
      assert ((s reg1).kind == simple_region)
      assert ((s reg2).kind == simple_region)
      let s' = store_meet s dest reg1 reg2
      returns ((s' dest).kind, s'))

-- `combine`: union, difference and exclusive or are not implemented, and change nothing.
pub combine : Regions → ℕ → ℕ → ℕ → ℕ → Checked (ℕ × Regions)
unfolding intersect_rgn
combine s dest src1 src2 mode =
    if mode == 1 then intersect_rgn s dest src1 src2 else returns (error, s)

-- `region_from_handle`, which validates the region in its place. `is_region` says which handles
-- are of the type GDI_OBJECT_REGION.
pub region_from_handle : (ℕ → Bool) → Regions → ℕ → Option Regions
unfolding validate
region_from_handle is_region s h =
    if not (is_region h)
    then none
    else elim (validate (s h)) [ none ↦ none | some g ↦ some (put s h g) ]

-- What a call does with the result of a lookup: what it returns without a region, and the rest of
-- it.
pub looked_up {ℓ} : {A : Type ℓ} → Option Regions → A → (Regions → A) → A
looked_up none failed found = failed
looked_up (some s) failed found = found s

-- `NtGdiCombineRgn`. A region that an earlier lookup validated stays so if a later one fails.
pub combine_regions : (ℕ → Bool) → Regions → ℕ → ℕ → ℕ → ℕ → Checked (ℕ × Regions)
unfolding combine region_from_handle looked_up
combine_regions is_region s dest src1 src2 mode =
    looked_up (region_from_handle is_region s src1) (returns (error, s)) (λ s1.
      looked_up (region_from_handle is_region s1 src2) (returns (error, s1)) (λ s2.
        looked_up (region_from_handle is_region s2 dest) (returns (error, s2))
          (λ s3. combine s3 dest src1 src2 mode)))

-- `NtGdiPtInRegion`, `NtGdiRectInRegion`, `NtGdiEqualRgn`, `NtGdiSetRectRgn` and `NtGdiOffsetRgn`,
-- which give ERROR for what is no region. The rectangle was copied from the client.
pub point_in_region : (ℕ → Bool) → Regions → ℕ → ℕ → ℕ → Bool × Regions
unfolding region_from_handle contains_point looked_up
point_in_region is_region s h x y =
    looked_up (region_from_handle is_region s h) (false, s) (λ s1. (contains_point (s1 h) x y, s1))

pub rect_in_region : (ℕ → Bool) → Regions → ℕ → Rect → Bool × Regions
unfolding region_from_handle overlaps_rect fix looked_up
rect_in_region is_region s h rect =
    looked_up (region_from_handle is_region s h) (false, s)
      (λ s1. (overlaps_rect (s1 h) (fix rect), s1))

pub equal_regions : (ℕ → Bool) → Regions → ℕ → ℕ → Bool × Regions
unfolding region_from_handle region_equal looked_up
equal_regions is_region s h1 h2 =
    looked_up (region_from_handle is_region s h1) (false, s)
      (λ s1.
        looked_up (region_from_handle is_region s1 h2) (false, s1)
          (λ s2. (region_equal (s2 h1) (s2 h2), s2)))

pub set_region : (ℕ → Bool) → Regions → ℕ → ℕ → ℕ → ℕ → ℕ → Bool × Regions
unfolding region_from_handle set_rect looked_up
set_region is_region s h left top right bottom =
    looked_up (region_from_handle is_region s h) (false, s)
      (λ s1. (true, put s1 h (set_rect (s1 h) left top right bottom)))

pub offset_region : (ℕ → Bool) → Regions → ℕ → ℕ → ℕ → ℕ × Regions
unfolding region_from_handle region_offset looked_up
offset_region is_region s h x y =
    looked_up (region_from_handle is_region s h) (error, s)
      (λ s1. ((s1 h).kind, put s1 h (region_offset (s1 h) x y)))
