-- ===== src/Completion/Put.antt =====
-- The write `put` to a map.
use ring3k.Prelude.{ℕ, ◌≡◌, ◌≢◌, refl, sym, inl, inr, false, ◌==◌, Bool-cases, ==→≡, ≡→==, arith}
use ring3k.Completion.{put}

module _ {ℓ} {A : Type ℓ} where
  pub put_at : (f : ℕ → A) (n : ℕ) (v : A) → put f n v n ≡ v
  put_at f n v = rw (≡→== n n refl)

  pub put_eq : (f : ℕ → A) (n k : ℕ) (v : A) → k ≡ n → put f n v k ≡ v
  put_eq f n k v h = rw (≡→== n k (sym h))

  pub put_else : (f : ℕ → A) (n k : ℕ) (v : A) → k ≢ n → put f n v k ≡ f k
  put_else f n k v h = let e : (n == k) ≡ false = ground arith in rw e

  pub put_twice : (f : ℕ → A) (n k : ℕ) (v w : A) → put (put f n v) n w k ≡ put f n w k
  put_twice f n k v w = elim (Bool-cases (n == k)) [ inl e ↦ rw e | inr e ↦ rw e ]

  -- A write that keeps a field keeps it everywhere.
  pub put_same {κ} :
      {B : Type κ} (field : A → B) (f : ℕ → A) (n k : ℕ) (v : A)
      → field v ≡ field (f n)
      → field (put f n v k) ≡ field (f k)
  put_same field f n k v h = elim (Bool-cases (n == k)) [
    | inl e ↦ rw (e, h, ==→≡ n k e)
    | inr e ↦ rw e
  ]
