-- ===== src/HandleTable/Counting.antt =====
-- The reference counts of kernel/object.cpp against the uses of the objects in the table.
use ring3k.Prelude.{
  ℕ, zero, suc, ◌+◌, ◌≤◌, ◌<◌, ◌≡◌, ◌≢◌, refl, ◌∙◌, ◌⊎◌, inl, inr, true, ◌==◌, if◌then◌else◌,
  Bool-cases, lt-or-le, ==→≡, ==→≢, List, [], ◌∷◌, get_or, set, length, length-set, arith,
}
use ring3k.Status.{status_success, status_invalid_handle}
use ring3k.HandleTable.{
  HandleTable, ObjectInfo, empty_info, max_handles, word_mod, info_at, handle_to_index,
  alloc_handle, free_handle, is_open, addref, release, free_slot, free_all_loop, free_all_handles,
}
use ring3k.HandleTable.Lookup.{get_or-set}
use ring3k.HandleTable.Slots.{IsSized, Allocates, taken, full, alloc_handle-Allocates}

-- How many slots hold `obj`.
unfoldable pub occurs : ℕ → List ObjectInfo → ℕ
occurs obj [] = 0
occurs obj (s ∷ ss) = (if s.object == obj then 1 else 0) + occurs obj ss

occurs-set :
    (obj : ℕ) (xs : List ObjectInfo) (i : ℕ) (v : ObjectInfo)
    → i < length xs
    → occurs obj (set xs i v) + (if (get_or xs i empty_info).object == obj then 1 else 0)
      ≡ occurs obj xs + (if v.object == obj then 1 else 0)
unfolding occurs
occurs-set obj [] i v h = absurd (omega arith)
occurs-set obj (x ∷ xs) zero v h = omega arith
occurs-set obj (x ∷ xs) (suc i) v h = omega (arith, occurs-set obj xs i v (omega arith))

occurs-le : (obj : ℕ) (xs : List ObjectInfo) → occurs obj xs ≤ length xs
unfolding occurs
occurs-le obj [] = omega arith
occurs-le obj (x ∷ xs) = ground (arith, occurs-le obj xs)

-- `held` is the number of references from elsewhere.
pub record IsCounted (held : ℕ → ℕ) (t : HandleTable) : Type 0 where
  pub sized : IsSized t
  pub counted : (obj : ℕ) → obj ≢ 0 → t.heap.refcount obj ≡ held obj + occurs obj t.info
  pub bounded : (obj : ℕ) → held obj + 257 < word_mod

-- `alloc_handle` keeps the accounts of every object.
pub alloc_handle-IsCounted :
    (held : ℕ → ℕ) (t : HandleTable) (obj access : ℕ)
    → obj ≢ 0
    → IsCounted held t
    → IsCounted held (alloc_handle t obj access).1
unfolding addref
alloc_handle-IsCounted held t obj access some_obj v = go (alloc_handle-Allocates t obj access)
  where
    go :
        Allocates t obj access (alloc_handle t obj access)
        → IsCounted held (alloc_handle t obj access).1
    go (full _ e) = rw e v
    go (taken i inside free _ e) = rw e (record {
      sized = length-set t.info i _ ∙ v.sized;
      counted = λ o nonzero. ground (
        arith,
        v.counted o nonzero,
        v.bounded o,
        occurs-set o t.info i (record { object = obj; access = access }) (omega (arith, v.sized)),
        occurs-le o t.info,
        v.sized,
      );
      bounded = v.bounded;
    })

module _ (held : ℕ → ℕ) (t : HandleTable) (v : IsCounted held t) (i access : ℕ)
    (inside : i < max_handles) (used : (info_at t i).object ≢ 0) where
  abbrev obj : ℕ
  obj = (info_at t i).object

  -- The table after slot `i` gave up its object.
  abbrev dropped : HandleTable
  dropped = record {
    info = set t.info i (record { object = 0; access = access });
    heap = release t.heap obj;
  }

  pub dropped-IsCounted : IsCounted held dropped
  unfolding release
  dropped-IsCounted = record {
    sized = length-set t.info i _ ∙ v.sized;
    counted = λ o nonzero. ground (
      arith,
      v.counted o nonzero,
      v.bounded o,
      occurs-set o t.info i (record { object = 0; access = access }) (omega (arith, v.sized)),
      occurs-le o t.info,
      v.sized,
    );
    bounded = v.bounded;
  }

  -- The destructor runs exactly when that was the last reference of all.
  pub dropped_deletes :
      dropped.heap.deleted
      ≡ (if held obj + occurs obj t.info == 1 then obj ∷ t.heap.deleted else t.heap.deleted)
  unfolding release
  dropped_deletes = ground (
    arith,
    v.counted obj used,
    v.bounded obj,
    occurs-set obj t.info i (record { object = 0; access = access }) (omega (arith, v.sized)),
    occurs-le obj t.info,
    v.sized,
  )

open_slot :
    (t : HandleTable) (h : ℕ)
    → is_open t h ≡ true
    → (handle_to_index h < max_handles) × ((info_at t (handle_to_index h)).object ≢ 0)
unfolding is_open
open_slot t h e = (ground arith, ground arith)

-- What `free_handle` does to the accounts: they hold again afterwards, an error changes nothing,
-- and the destructor of the object runs exactly if this was its last reference.
pub free_handle-IsCounted :
    (held : ℕ → ℕ) (t : HandleTable) (h : ℕ)
    → IsCounted held t
    → let (r, t') = free_handle t h in
      let obj = (info_at t (handle_to_index h)).object in
      IsCounted held t'
      × ((r ≡ status_invalid_handle) × (t' ≡ t)
          ⊎ (r ≡ status_success)
            × (t'.heap.deleted ≡ (
                if held obj + occurs obj t.info == 1
                then obj ∷ t.heap.deleted
                else t.heap.deleted)))
unfolding free_handle
free_handle-IsCounted held t h v = elim (Bool-cases (is_open t h)) [
  | inl e ↦
      let (inside, used) = open_slot t h e in
      rw e (
        dropped-IsCounted held t v (handle_to_index h) 0 inside used,
        inr (refl, dropped_deletes held t v (handle_to_index h) 0 inside used),
      )
  | inr e ↦ rw e (v, inl (refl, refl))
]

-- `free_all_handles` empties slots from `i` on and keeps the accounts.
module _ (held : ℕ → ℕ) where
  abbrev IsCleared : HandleTable → ℕ → Type 0
  IsCleared t i = (j : ℕ) → j < i → (info_at t j).object ≡ 0

  IsCleared-next :
      (t : HandleTable) (i : ℕ) → IsCleared t i → (info_at t i).object ≡ 0 → IsCleared t (i + 1)
  IsCleared-next t i c e j h = elim (lt-or-le j i) [
    | inl lt ↦ c j lt
    | inr le ↦ let same : j ≡ i = omega arith in rw same e
  ]

  cleared_set :
      (t : HandleTable) (i : ℕ) (v : ObjectInfo)
      → i < length t.info
      → v.object ≡ 0
      → IsCleared t i
      → (j : ℕ) → j < i + 1
      → (get_or (set t.info i v) j empty_info).object ≡ 0
  cleared_set t i v inside e c j h =
      rw (get_or-set t.info i j v inside) (elim (Bool-cases (i == j)) [
        | inl same ↦ rw same e
        | inr other ↦ rw other (c j (ground (arith, ==→≢ _ _ other)))
      ])

  free_slot_lem :
      (i : ℕ) (t : HandleTable)
      → i < max_handles
      → IsCounted held t
      → IsCleared t i
      → IsCounted held (free_slot t i) × IsCleared (free_slot t i) (i + 1)
  unfolding free_slot
  free_slot_lem i t inside v c = elim (Bool-cases ((info_at t i).object == 0)) [
    | inl e ↦ rw e (v, IsCleared-next t i c (==→≡ _ _ e))
    | inr e ↦
        let access = (info_at t i).access in
        rw e (
          dropped-IsCounted held t v i access inside (==→≢ _ _ e),
          cleared_set t i (record { object = 0; access = access }) (omega (arith, v.sized)) refl c,
        )
  ]

  free_all_loop_lem :
      (left i : ℕ) (t : HandleTable)
      → i + left ≡ max_handles
      → IsCounted held t
      → IsCleared t i
      → IsCounted held (free_all_loop left i t) × IsCleared (free_all_loop left i t) max_handles
  unfolding free_all_loop
  free_all_loop_lem zero i t h v c = (v, λ j l. c j (omega arith))
  free_all_loop_lem (suc left) i t h v c =
      let (v', c') = free_slot_lem i t (omega arith) v c in
      free_all_loop_lem left (i + 1) (free_slot t i) (omega arith) v' c'

occurs_none :
    (obj : ℕ) (xs : List ObjectInfo)
    → obj ≢ 0
    → ((j : ℕ) → j < length xs → (get_or xs j empty_info).object ≡ 0)
    → occurs obj xs ≡ 0
unfolding occurs
occurs_none obj [] nonzero c = refl
occurs_none obj (x ∷ xs) nonzero c =
    ground (arith, c 0 (omega arith), occurs_none obj xs nonzero (λ j l. c (suc j) (omega arith)))

-- When a process gives up all its handles, each object keeps exactly the references that others
-- hold, and no slot is in use.
pub free_all_handles_lem :
    (held : ℕ → ℕ) (t : HandleTable)
    → IsCounted held t
    → let t' = free_all_handles t in
      ((obj : ℕ) → obj ≢ 0 → t'.heap.refcount obj ≡ held obj)
      × ((j : ℕ) → j < max_handles → (info_at t' j).object ≡ 0)
unfolding free_all_handles
free_all_handles_lem held t v =
    let (counted, cleared) =
      free_all_loop_lem held 256 0 t (omega arith) v (λ j l. absurd (omega arith)) in
    (
      λ obj nonzero. omega (
        arith,
        counted.counted obj nonzero,
        occurs_none obj _ nonzero (λ j l. cleared j (omega (arith, counted.sized))),
      ),
      cleared,
    )
