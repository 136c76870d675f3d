-- ===== src/Region/Rects.antt =====
-- The rectangles of kernel/region.cpp as sets of points.
use ring3k.Prelude.{
  ℕ, ◌-◌, ◌≤◌, ◌<◌, ◌≡◌, refl, sym, ◌∙◌, inl, inr, Bool, true, false, ◌&&◌, ◌||◌, ltb, leb,
  Bool-cases, arith,
}
use ring3k.Region.{
  Rect, cleared, rect_equal, rect_overlaps, rect_contains, rect_intersect, larger, smaller,
}

-- A rectangle with points.
abbrev pub HasPoints : Rect → Type 0
HasPoints r = (r.left < r.right) × (r.top < r.bottom)

-- The point is in the rectangle.
abbrev pub In : Rect → ℕ → ℕ → Type 0
In r x y = (r.top ≤ y) × (y < r.bottom) × (r.left ≤ x) × (x < r.right)

pub rect_contains-In : (r : Rect) (x y : ℕ) → rect_contains r x y ≡ true → In r x y
unfolding rect_contains
rect_contains-In r x y e = (ground arith, ground arith, ground arith, ground arith)

pub In-rect_contains : (r : Rect) (x y : ℕ) → In r x y → rect_contains r x y ≡ true
unfolding rect_contains
In-rect_contains r x y h = ground arith

larger_le : (a b x : ℕ) → leb (larger a b) x ≡ (leb a x && leb b x)
larger_le a b x = ground arith

lt_smaller : (a b x : ℕ) → ltb x (smaller a b) ≡ (ltb x a && ltb x b)
lt_smaller a b x = ground arith

regroup :
    (a b c d e f g h : Bool)
    → ((a && e) && (b && f) && (c && g) && (d && h)) ≡ ((a && b && c && d) && (e && f && g && h))
regroup false b c d e f g h = refl
regroup true false c d e f g h = ground arith
regroup true true false d e f g h = ground arith
regroup true true true d e f g h = ground arith

-- The rectangle between the larger of the upper left and the smaller of the lower right corners.
abbrev meet : Rect → Rect → Rect
meet r q = record {
  left = larger r.left q.left;
  top = larger r.top q.top;
  right = smaller r.right q.right;
  bottom = smaller r.bottom q.bottom;
}

meet_lem :
    (r q : Rect) (x y : ℕ)
    → rect_contains (meet r q) x y ≡ (rect_contains r x y && rect_contains q x y)
unfolding rect_contains
meet_lem r q x y =
    rw
      (
        larger_le r.top q.top y,
        lt_smaller r.bottom q.bottom y,
        larger_le r.left q.left x,
        lt_smaller r.right q.right x,
      )
      (regroup (leb r.top y) (ltb y r.bottom) (leb r.left x) (ltb x r.right) (leb q.top y)
        (ltb y q.bottom) (leb q.left x) (ltb x q.right))

no_points :
    (r : Rect) (x y : ℕ)
    → (leb r.bottom r.top || leb r.right r.left) ≡ true
    → rect_contains r x y ≡ false
unfolding rect_contains
no_points r x y h = ground arith

pub rect_intersect_lem :
    (r q : Rect) (x y : ℕ)
    → rect_contains (rect_intersect r q) x y ≡ (rect_contains r x y && rect_contains q x y)
unfolding rect_intersect
rect_intersect_lem r q x y =
    let m : Rect = meet r q in
    elim (Bool-cases (leb m.bottom m.top || leb m.right m.left)) [
      | inl empty ↦
          rw empty (no_points cleared x y refl ∙ sym (no_points m x y empty) ∙ meet_lem r q x y)
      | inr some_points ↦ rw some_points (meet_lem r q x y)
    ]

-- Rectangles that overlap meet in a rectangle with points.
pub rect_intersect-HasPoints :
    (r q : Rect)
    → HasPoints r
    → HasPoints q
    → rect_overlaps r q ≡ true
    → HasPoints (rect_intersect r q)
unfolding rect_overlaps rect_intersect
rect_intersect-HasPoints r q hr hq o = ground arith

-- Others have no point in common.
pub not_overlap :
    (r q : Rect) (x y : ℕ)
    → rect_overlaps r q ≡ false
    → (rect_contains r x y && rect_contains q x y) ≡ false
unfolding rect_overlaps rect_contains
not_overlap r q x y o = ground arith

pub rect_equal→≡ : (r q : Rect) → rect_equal r q ≡ true → r ≡ q
unfolding rect_equal
rect_equal→≡ r q e = ground arith

-- A rectangle whose points are in another lies in it.
within :
    (r q : Rect)
    → HasPoints r
    → ((x y : ℕ) → rect_contains r x y ≡ rect_contains q x y)
    → (q.left ≤ r.left) × (r.right ≤ q.right) × (q.top ≤ r.top) × (r.bottom ≤ q.bottom)
within r q h same =
    let first =
      rect_contains-In q r.left r.top
        (sym (same r.left r.top) ∙ In-rect_contains r r.left r.top (omega arith)) in
    let last =
      rect_contains-In q (r.right - 1) (r.bottom - 1)
        (sym (same _ _) ∙ In-rect_contains r (r.right - 1) (r.bottom - 1) (omega arith)) in
    omega (arith, first, last)

-- Rectangles with the same points, of which there are some, are the same.
pub rect_ext :
    (r q : Rect)
    → HasPoints r
    → HasPoints q
    → ((x y : ℕ) → rect_contains r x y ≡ rect_contains q x y)
    → rect_equal r q ≡ true
unfolding rect_equal
rect_ext r q hr hq same =
    let (a, b, c, d) = within r q hr same in
    let (a', b', c', d') = within q r hq (λ x y. sym (same x y)) in ground arith
