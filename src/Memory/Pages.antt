-- ===== src/Memory/Pages.antt =====
-- Runs of pages in the translation table, and sums and members of the block list.
use ring3k.Prelude.{
  ℕ, zero, suc, ◌+◌, ◌≤◌, ◌<◌, ◌≡◌, ◌≢◌, refl, ◌∙◌, Bool, true, false, not, ◌&&◌, ◌||◌, leb, ltb,
  ◌==◌, if◌then◌else◌, Bool-cases, lt-or-le, ==→≡, ==→≢, inl, inr, List, [], ◌∷◌, ◌++◌, arith,
}
use ring3k.Memory.Space.{Space, put, set_pages, pages_are, total_size, unlink}
use ring3k.Memory.Virtual.{is_linked}

-- Page `q` is among the `count` pages from `page` on.
abbrev pub in_pages : ℕ → ℕ → ℕ → Bool
in_pages page count q = leb page q && ltb q (page + count)

pub set_pages_lem :
    (xlate : ℕ → ℕ) (page count id q : ℕ)
    → set_pages xlate page count id q ≡ (if in_pages page count q then id else xlate q)
unfolding set_pages
set_pages_lem xlate page zero id q = ground arith
set_pages_lem xlate page (suc count) id q =
    set_pages_lem (put xlate page id) (page + 1) count id q ∙ ground arith

pub pages_are-true :
    (xlate : ℕ → ℕ) (page count id : ℕ)
    → ((q : ℕ) → page ≤ q → q < page + count → xlate q ≡ id)
    → pages_are xlate page count id ≡ true
unfolding pages_are
pages_are-true xlate page zero id h = refl
pages_are-true xlate page (suc count) id h =
    let rest =
      pages_are-true xlate (page + 1) count id (λ q a b. h q (omega arith) (omega arith)) in
    let first = h page (omega arith) (omega arith) in ground arith

pub pages_are-elem :
    (xlate : ℕ → ℕ) (page count id q : ℕ)
    → pages_are xlate page count id ≡ true
    → page ≤ q
    → q < page + count
    → xlate q ≡ id
unfolding pages_are
pages_are-elem xlate page zero id q e a b = absurd (omega arith)
pages_are-elem xlate page (suc count) id q e a b = elim (lt-or-le page q) [
  | inl lt ↦ pages_are-elem xlate (page + 1) count id q (ground arith) (omega arith) (omega arith)
  | inr le ↦ let same : q ≡ page = omega arith in rw same (ground arith)
]

pub is_linked-append :
    (xs : List ℕ) (id q : ℕ) → is_linked (xs ++ id ∷ []) q ≡ (is_linked xs q || (id == q))
unfolding is_linked
is_linked-append [] id q = ground arith
is_linked-append (x ∷ xs) id q = ground (arith, is_linked-append xs id q)

-- No block stands in the list twice.
unfoldable pub IsDistinct : List ℕ → Type 0
IsDistinct [] = Unit {0}
IsDistinct (x ∷ xs) = (is_linked xs x ≡ false) × IsDistinct xs

pub IsDistinct-append :
    (xs : List ℕ) (id : ℕ) → IsDistinct xs → is_linked xs id ≡ false → IsDistinct (xs ++ id ∷ [])
unfolding IsDistinct is_linked
IsDistinct-append [] id d h = (refl, tt)
IsDistinct-append (x ∷ xs) id (fresh, d) h =
    (ground (arith, is_linked-append xs id x), IsDistinct-append xs id d (ground arith))

pub is_linked-unlink :
    (xs : List ℕ) (id q : ℕ)
    → IsDistinct xs
    → is_linked (unlink id xs) q ≡ (not (id == q) && is_linked xs q)
unfolding IsDistinct is_linked unlink
is_linked-unlink [] id q d = ground arith
is_linked-unlink (x ∷ xs) id q (fresh, d) = elim (Bool-cases (x == id)) [
  | inl e ↦ let same = ==→≡ _ _ e in rw e (ground arith)
  | inr e ↦ rw e (ground (arith, is_linked-unlink xs id q d))
]

pub IsDistinct-unlink : (xs : List ℕ) (id : ℕ) → IsDistinct xs → IsDistinct (unlink id xs)
unfolding IsDistinct unlink
IsDistinct-unlink [] id d = tt
IsDistinct-unlink (x ∷ xs) id (fresh, d) = elim (Bool-cases (x == id)) [
  | inl e ↦ rw e d
  | inr e ↦ rw e (ground (arith, is_linked-unlink xs id x d), IsDistinct-unlink xs id d)
]

-- The total reads the sizes of the listed blocks only.
pub total_size_eq :
    (s t : Space) (xs : List ℕ)
    → ((id : ℕ) → is_linked xs id ≡ true → (s.block id).region_size ≡ (t.block id).region_size)
    → total_size s xs ≡ total_size t xs
unfolding total_size is_linked
total_size_eq s t [] h = refl
total_size_eq s t (x ∷ xs) h =
    let rest = total_size_eq s t xs (λ id l. h id (ground arith)) in
    let first = h x (ground arith) in omega arith

pub total_size-append :
    (s : Space) (xs : List ℕ) (id : ℕ)
    → total_size s (xs ++ id ∷ []) ≡ total_size s xs + (s.block id).region_size
unfolding total_size
total_size-append s [] id = omega arith
total_size-append s (x ∷ xs) id = omega (arith, total_size-append s xs id)

pub total_size-unlink :
    (s : Space) (xs : List ℕ) (id : ℕ)
    → is_linked xs id ≡ true
    → total_size s (unlink id xs) + (s.block id).region_size ≡ total_size s xs
unfolding total_size unlink is_linked
total_size-unlink s [] id h = cc
total_size-unlink s (x ∷ xs) id h = elim (Bool-cases (x == id)) [
  | inl e ↦ let same = ==→≡ _ _ e in rw (e, same) (omega arith)
  | inr e ↦ let rest = total_size-unlink s xs id (ground arith) in rw e (omega arith)
]

-- With the size of one listed block changed.
pub total_size-put :
    (s t : Space) (xs : List ℕ) (id : ℕ)
    → IsDistinct xs
    → is_linked xs id ≡ true
    → ((q : ℕ) → q ≢ id → is_linked xs q ≡ true → (t.block q).region_size ≡ (s.block q).region_size)
    → total_size t xs + (s.block id).region_size ≡ total_size s xs + (t.block id).region_size
unfolding total_size is_linked IsDistinct
total_size-put s t [] id d h k = cc
total_size-put s t (x ∷ xs) id (fresh, d) h k = elim (Bool-cases (x == id)) [
  | inl e ↦
      let same = ==→≡ _ _ e in
      let rest = total_size_eq t s xs (λ q l. k q (λ (p : q ≡ id). ground arith) (ground arith)) in
      rw same (omega arith)
  | inr e ↦
      let first = k x (==→≢ _ _ e) (ground arith) in
      let rest = total_size-put s t xs id d (ground arith) (λ q n l. k q n (ground arith)) in
      omega arith
]
