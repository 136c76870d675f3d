-- ===== src/Region/Intersect.antt =====
-- `intersect_rgn` of kernel/region.cpp, also into one of its two operands.
use ring3k.Prelude.{
  ℕ, ◌≡◌, ◌≢◌, refl, sym, ap, ◌∙◌, ◌⊎◌, inl, inr, Bool, true, false, ◌&&◌, ◌||◌, ◌==◌,
  if◌then◌else◌, Bool-cases, arith,
}
use ring3k.Prelude.Checked.{returns}
use ring3k.Region.{
  Rect, rect_overlaps, rect_contains, rect_intersect, rect_is_empty, null_region, simple_region,
  Region, empty_region, update_type, Regions, put, store_meet, intersect_rgn,
}
use ring3k.Region.Rects.{HasPoints, rect_intersect-HasPoints, rect_intersect_lem, not_overlap}
use ring3k.Region.Points.{IsWell, IsSeen, points, null_points, simple_points}

pub nonempty : (r : Rect) → HasPoints r → rect_is_empty r ≡ false
unfolding rect_is_empty
nonempty r h = ground arith

module _ (s : Regions) (dest r1 r2 : ℕ) (v1 : IsSeen (s r1)) (v2 : IsSeen (s r2))
    (w : IsWell (s dest)) where
  abbrev emptied : Regions
  emptied = put s dest (empty_region (s dest))

  emptied-dest :
      IsWell (emptied dest)
      × ((x y : ℕ) → points (emptied dest) x y ≡ false)
      × ((emptied dest).kind ≡ null_region)
  unfolding empty_region
  emptied-dest =
      let here : (dest == dest) ≡ true = ground arith in
      (rw here (record { flags = w.flags; shape = inl refl }), λ x y. rw here, rw here)

  -- One of the two is null, or they do not overlap.
  trivial :
      ((s r1).kind ≡ null_region)
        ⊎ ((s r2).kind ≡ null_region)
        ⊎ (rect_overlaps (s r1).extents (s r2).extents ≡ false)
      → intersect_rgn s dest r1 r2 ≡ returns (null_region, emptied)
  unfolding intersect_rgn
  trivial (inl a) = let none_left = v1.null a in rw none_left
  trivial (inr (inl a)) =
      let none_left = v2.null a in
      elim (Bool-cases ((s r1).num_rects == 0)) [ inl e ↦ rw e | inr e ↦ rw (e, none_left) ]
  trivial (inr (inr off)) = elim (Bool-cases (((s r1).num_rects == 0) || ((s r2).num_rects == 0))) [
    | inl e ↦ ground arith
    | inr e ↦ ground arith
  ]

  module _ (a : (s r1).kind ≡ simple_region) (b : (s r2).kind ≡ simple_region)
      (on : rect_overlaps (s r1).extents (s r2).extents ≡ true) where
    -- What the second operand's extents are when they are read.
    abbrev second : Rect
    second = if dest == r2 then (s r1).extents else (s r2).extents

    abbrev met : Regions
    met =
        put s dest
          (record (s dest) { extents = rect_intersect (s r1).extents second; kind = simple_region })

    store_meet_lem :
        HasPoints (rect_intersect (s r1).extents second)
        → (q : ℕ) → store_meet s dest r1 r2 q ≡ met q
    unfolding store_meet update_type
    store_meet_lem some_points q =
        let here : (dest == dest) ≡ true = ground arith in
        let full = nonempty _ some_points in
        elim (Bool-cases (dest == q)) [
          | inr other ↦ rw other
          | inl same ↦ elim (Bool-cases (dest == r2)) [
            | inl e ↦ let full' = rw e at full in rw (same, here, e) (rw full')
            | inr e ↦ let full' = rw e at full in rw (same, here, e) (rw full')
          ]
        ]

    overlapping :
        intersect_rgn s dest r1 r2
        ≡ returns ((store_meet s dest r1 r2 dest).kind, store_meet s dest r1 r2)
    unfolding intersect_rgn
    overlapping =
        let one1 = (v1.simple a).0 in let one2 = (v2.simple b).0 in rw (one1, one2, on, a, b)

-- `intersect_rgn` overwrites the extents of its second operand before it reads them: the result is
-- this operand, the two are simple, and they overlap.
unfoldable pub overwritten : Regions → ℕ → ℕ → ℕ → Bool
unfolding rect_overlaps
overwritten s dest r1 r2 =
    (dest == r2) && (((s r2).kind == simple_region) && rect_overlaps (s r1).extents (s r2).extents)

-- The points that `intersect_rgn` gives: those of both, or of the first if the second is
-- overwritten.
abbrev pub common : Regions → ℕ → ℕ → ℕ → ℕ → ℕ → Bool
common s dest r1 r2 x y = points (s r1) x y && (points (s r2) x y || overwritten s dest r1 r2)

-- What `intersect_rgn` does.
abbrev pub Met : Regions → ℕ → ℕ → ℕ → Type 0
Met s dest r1 r2 =
    (s' : Regions) × (intersect_rgn s dest r1 r2 ≡ returns ((s' dest).kind, s'))
    × IsWell (s' dest)
    × ((x y : ℕ) → points (s' dest) x y ≡ common s dest r1 r2 x y)
    × ((q : ℕ) → q ≢ dest → s' q ≡ s q)

self_meet : (r : Rect) → HasPoints r → rect_intersect r r ≡ r
unfolding rect_intersect
self_meet r h = ground arith

and_self : (b : Bool) → (b && true) ≡ b
and_self true = refl
and_self false = refl

or_false : (b : Bool) → (b || false) ≡ b
or_false true = refl
or_false false = refl

or_true : (b : Bool) → (b || true) ≡ true
or_true true = refl
or_true false = refl

and_false : (b : Bool) → (b && false) ≡ false
and_false true = refl
and_false false = refl

module _ (s : Regions) (dest r1 r2 : ℕ) (v1 : IsSeen (s r1)) (v2 : IsSeen (s r2))
    (w : IsWell (s dest)) where
  untouched : (g : Region) (q : ℕ) → q ≢ dest → put s dest g q ≡ s q
  untouched g q n = ground arith

  none-Met :
      ((s r1).kind ≡ null_region)
        ⊎ ((s r2).kind ≡ null_region)
        ⊎ (rect_overlaps (s r1).extents (s r2).extents ≡ false)
      → ((x y : ℕ) → common s dest r1 r2 x y ≡ false)
      → Met s dest r1 r2
  none-Met why none_common =
      let (well, no_points, kind) = emptied-dest s dest r1 r2 v1 v2 w in
      (
        emptied s dest r1 r2 v1 v2 w,
        trivial s dest r1 r2 v1 v2 w why ∙ rw kind,
        well,
        λ x y. no_points x y ∙ sym (none_common x y),
        λ q n. untouched _ q n,
      )

  overwritten_off :
      rect_overlaps (s r1).extents (s r2).extents ≡ false → overwritten s dest r1 r2 ≡ false
  unfolding overwritten
  overwritten_off off = rw (off, and_false ((s r2).kind == simple_region)) (and_false (dest == r2))

  overwritten_null : (s r2).kind ≡ null_region → overwritten s dest r1 r2 ≡ false
  unfolding overwritten
  overwritten_null b = rw b (and_false (dest == r2))

  overwritten_on :
      (s r2).kind ≡ simple_region
      → rect_overlaps (s r1).extents (s r2).extents ≡ true
      → overwritten s dest r1 r2 ≡ (dest == r2)
  unfolding overwritten
  overwritten_on b on = rw (b, on) (and_self (dest == r2))

  none_common_off :
      (x y : ℕ)
      → (s r1).kind ≡ simple_region
      → (s r2).kind ≡ simple_region
      → rect_overlaps (s r1).extents (s r2).extents ≡ false
      → common s dest r1 r2 x y ≡ false
  none_common_off x y a b off =
      let in2 = rect_contains (s r2).extents x y in
      rw (overwritten_off off, simple_points (s r1) x y a, simple_points (s r2) x y b, or_false in2)
        (not_overlap (s r1).extents (s r2).extents x y off)

  none_common_null : (x y : ℕ) → (s r2).kind ≡ null_region → common s dest r1 r2 x y ≡ false
  none_common_null x y b =
      rw (overwritten_null b, null_points (s r2) x y b) (and_false (points (s r1) x y))

  module _ (a : (s r1).kind ≡ simple_region) (b : (s r2).kind ≡ simple_region)
      (some1 : HasPoints (s r1).extents) (some2 : HasPoints (s r2).extents)
      (on : rect_overlaps (s r1).extents (s r2).extents ≡ true) where
    abbrev read : Rect
    read = second s dest r1 r2 v1 v2 w a b on

    some_met : HasPoints (rect_intersect (s r1).extents read)
    some_met = elim (Bool-cases (dest == r2)) [
      | inl alias ↦ rw (alias, self_meet (s r1).extents some1) some1
      | inr apart ↦ rw apart (rect_intersect-HasPoints _ _ some1 some2 on)
    ]

    common_on :
        (x y : ℕ)
        → common s dest r1 r2 x y
          ≡ (rect_contains (s r1).extents x y && (rect_contains (s r2).extents x y || (dest == r2)))
    common_on x y = rw (overwritten_on b on, simple_points (s r1) x y a, simple_points (s r2) x y b)

    met_points :
        (x y : ℕ) → rect_contains (rect_intersect (s r1).extents read) x y ≡ common s dest r1 r2 x y
    met_points x y =
        let e1 = (s r1).extents in
        let in2 = rect_contains (s r2).extents x y in
        rw (common_on x y) (elim (Bool-cases (dest == r2)) [
          | inl alias ↦
              rw (alias, self_meet e1 some1)
                (sym (and_self (rect_contains e1 x y))
                  ∙ ap (λ c. rect_contains e1 x y && c) (sym (or_true in2)))
          | inr apart ↦ rw (apart, or_false in2) (rect_intersect_lem e1 (s r2).extents x y)
        ])

    -- The two overlap.
    overlap-Met : Met s dest r1 r2
    overlap-Met =
        let here : (dest == dest) ≡ true = ground arith in
        let is = store_meet_lem s dest r1 r2 v1 v2 w a b on some_met in
        (
          store_meet s dest r1 r2,
          overlapping s dest r1 r2 v1 v2 w a b on,
          rw (is dest, here) (record { flags = w.flags; shape = inr (refl, some_met) }),
          λ x y. rw (is dest, here) (met_points x y),
          λ q n. is q ∙ untouched _ q n,
        )

-- The three cases together.
pub intersect_rgn_lem :
    (s : Regions) (dest r1 r2 : ℕ)
    → IsSeen (s r1)
    → IsSeen (s r2)
    → IsWell (s dest)
    → Met s dest r1 r2
intersect_rgn_lem s dest r1 r2 v1 v2 w = elim v1.well.shape [
  | inl a ↦ none-Met s dest r1 r2 v1 v2 w (inl a) (λ x y. rw (null_points (s r1) x y a))
  | inr (a, some1) ↦ elim v2.well.shape [
    | inl b ↦
        none-Met s dest r1 r2 v1 v2 w (inr (inl b))
          (λ x y. none_common_null s dest r1 r2 v1 v2 w x y b)
    | inr (b, some2) ↦ elim (Bool-cases (rect_overlaps (s r1).extents (s r2).extents)) [
      | inr off ↦
          none-Met s dest r1 r2 v1 v2 w (inr (inr off))
            (λ x y. none_common_off s dest r1 r2 v1 v2 w x y a b off)
      | inl on ↦ overlap-Met s dest r1 r2 v1 v2 w a b some1 some2 on
    ]
  ]
]
