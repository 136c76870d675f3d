-- ===== src/Region/Lookup.antt =====
-- `region_from_handle` of kernel/region.cpp and what it keeps.
use ring3k.Prelude.{ℕ, ◌≡◌, inl, inr, Bool, true, ◌==◌, Bool-cases, ==→≡, some, arith}
use ring3k.Region.{Regions, put, region_from_handle}
use ring3k.Region.Points.{IsWell, IsSeen, points, seen, validate_lem, seen-IsSeen}

-- The lookups that lead from `s` to `s'` keep what the regions are.
pub record IsKept (s s' : Regions) : Type 0 where
  pub well : (q : ℕ) → IsWell (s q) → IsWell (s' q)
  pub seen : (q : ℕ) → IsSeen (s q) → IsSeen (s' q)
  pub kind : (q : ℕ) → (s' q).kind ≡ (s q).kind
  pub extents : (q : ℕ) → (s' q).extents ≡ (s q).extents
  pub points : (q x y : ℕ) → points (s' q) x y ≡ points (s q) x y

pub lookup_lem :
    (is_region : ℕ → Bool) (s : Regions) (h : ℕ)
    → is_region h ≡ true
    → IsWell (s h)
    → (s' : Regions) × (region_from_handle is_region s h ≡ some s') × IsKept s s' × IsSeen (s' h)
unfolding region_from_handle
lookup_lem is_region s h open_h w =
    let (now, kind, extents) = seen-IsSeen (s h) w in
    let here : put s h (seen (s h)) h ≡ seen (s h) = ground arith in
    (
      put s h (seen (s h)),
      rw (open_h, validate_lem (s h) w),
      record {
        well = λ q v. elim (Bool-cases (h == q)) [ inl e ↦ rw e now.well | inr e ↦ rw e v ];
        seen = λ q v. elim (Bool-cases (h == q)) [ inl e ↦ rw e now | inr e ↦ rw e v ];
        kind = λ q. elim (Bool-cases (h == q)) [ inl e ↦ rw (e, kind, ==→≡ _ _ e) | inr e ↦ rw e ];
        extents =
            λ q. elim (Bool-cases (h == q)) [ inl e ↦ rw (e, extents, ==→≡ _ _ e) | inr e ↦ rw e ];
        points = λ q x y. elim (Bool-cases (h == q)) [
          | inl e ↦ rw (e, kind, extents, ==→≡ _ _ e)
          | inr e ↦ rw e
        ];
      },
      rw here now,
    )
