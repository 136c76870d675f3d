-- ===== src/Region/Tests.antt =====
-- Regions of kernel/region.cpp on examples.
use ring3k.Prelude.{ℕ, ◌+◌, ◌*◌, ◌≡◌, ◌≢◌, ◌↔◌, refl, inr, true, arith}
use ring3k.Prelude.Checked.{returns}
use ring3k.Prelude.Signed.{origin}
use ring3k.Region.{
  Rect, fix, simple_region, Region, new_region, Regions, combine_regions, equal_regions,
}
use ring3k.Region.Rects.{HasPoints}
use ring3k.Region.Points.{IsWell, points}
use ring3k.Region.Intersect.{common}
use ring3k.Region.Combine.{combine_regions_lem}
use ring3k.Region.Handles.{equal_regions_lem}

-- The rectangle (x, y) - (x + 4, y + 4), in a region as its client leaves it.
abbrev square : ℕ → ℕ → Region
square x y = record new_region {
  flags = 16;
  kind = simple_region;
  extents = record {
    left = origin + x;
    top = origin + y;
    right = origin + x + 4;
    bottom = origin + y + 4;
  };
  num_rects = 1;
  rects = λ i. record {
    left = origin + x;
    top = origin + y;
    right = origin + x + 4;
    bottom = origin + y + 4;
  };
}

-- Three squares; the regions 0 and 1 overlap.
abbrev squares : Regions
squares h = square (2 * h) h

square-IsWell : (x y : ℕ) → IsWell (square x y)
square-IsWell x y = record { flags = (refl, refl); shape = inr (refl, (omega arith, omega arith)) }

-- The destination is the second source.
combine_regions_lem_example :
    (s' : Regions) × (combine_regions (λ _. true) squares 1 0 1 1 ≡ returns ((s' 1).kind, s'))
    × IsWell (s' 1)
    × ((x y : ℕ) → points (s' 1) x y ≡ common squares 1 0 1 x y)
    × ((q : ℕ) → q ≢ 1 → (x y : ℕ) → points (s' q) x y ≡ points (squares q) x y)
combine_regions_lem_example =
    combine_regions_lem (λ _. true) squares 1 0 1 (refl, refl, refl) (square-IsWell 2 1)
      (square-IsWell 0 0) (square-IsWell 2 1)

equal_regions_lem_example :
    ((equal_regions (λ _. true) squares 0 1).0 ≡ true)
    ↔ ((x y : ℕ) → points (squares 0) x y ≡ points (squares 1) x y)
equal_regions_lem_example =
    equal_regions_lem (λ _. true) squares 0 1 refl refl (square-IsWell 0 0) (square-IsWell 2 1)

-- The rectangle (1, 1) - (2, 2).
abbrev small : Rect
small = record { left = origin + 1; top = origin + 1; right = origin + 2; bottom = origin + 2 }

small-HasPoints : HasPoints (fix small)
unfolding fix
small-HasPoints = (omega arith, omega arith)
