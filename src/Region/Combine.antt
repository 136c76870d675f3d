-- ===== src/Region/Combine.antt =====
-- `NtGdiCombineRgn` of kernel/region.cpp.
use ring3k.Prelude.{ℕ, ◌≡◌, ◌≢◌, ◌∙◌, Bool, true}
use ring3k.Prelude.Checked.{returns}
use ring3k.Region.{Regions, combine, looked_up, combine_regions}
use ring3k.Region.Points.{IsWell, points}
use ring3k.Region.Lookup.{lookup_lem}
use ring3k.Region.Intersect.{overwritten, common, intersect_rgn_lem}

-- `NtGdiCombineRgn` with RGN_AND does not fail on three open regions with flags that pass the
-- checks of a lookup, each null or simple with a rectangle that has points, left of its right side
-- and above its bottom. The points of the destination become the common points of the two sources, unless it is the second source
-- and the two are simple and overlap: then they become those of the first source. The points of all
-- other regions stay.
pub combine_regions_lem :
    (is_region : ℕ → Bool) (s : Regions) (dest src1 src2 : ℕ)
    → (is_region dest ≡ true) × (is_region src1 ≡ true) × (is_region src2 ≡ true)
    → IsWell (s dest)
    → IsWell (s src1)
    → IsWell (s src2)
    → (s' : Regions) × (combine_regions is_region s dest src1 src2 1 ≡ returns ((s' dest).kind, s'))
      × IsWell (s' dest)
      × ((x y : ℕ) → points (s' dest) x y ≡ common s dest src1 src2 x y)
      × ((q : ℕ) → q ≢ dest → (x y : ℕ) → points (s' q) x y ≡ points (s q) x y)
unfolding combine_regions looked_up combine overwritten
combine_regions_lem is_region s dest src1 src2 (open_d, open_1, open_2) w w1 w2 =
    let (s1, e1, kept1, seen1) = lookup_lem is_region s src1 open_1 w1 in
    let (s2, e2, kept2, seen2) = lookup_lem is_region s1 src2 open_2 (kept1.well src2 w2) in
    let (s3, e3, kept3, seen3) =
      lookup_lem is_region s2 dest open_d (kept2.well dest (kept1.well dest w)) in
    let same = λ (q x y : ℕ). kept3.points q x y ∙ kept2.points q x y ∙ kept1.points q x y in
    let kinds = λ (q : ℕ). kept3.kind q ∙ kept2.kind q ∙ kept1.kind q in
    let extents = λ (q : ℕ). kept3.extents q ∙ kept2.extents q ∙ kept1.extents q in
    let (s', runs, well, meet, others) =
      intersect_rgn_lem s3 dest src1 src2 (kept3.seen src1 (kept2.seen src1 seen1))
        (kept3.seen src2 seen2) seen3.well in
    (
      s',
      rw (e1, e2, e3) runs,
      well,
      λ x y. meet x y ∙ rw (same src1 x y, same src2 x y, kinds src2, extents src1, extents src2),
      λ q n x y. rw (others q n) (same q x y),
    )
