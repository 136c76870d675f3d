-- ===== src/HandleTable/Slots.antt =====
-- Handles as names of slots, and what `alloc_handle` does to the slots.
use ring3k.Prelude.{
  ℕ, zero, suc, ◌+◌, ◌/◌, ◌%◌, ◌≤◌, ◌<◌, ◌≡◌, ◌≢◌, refl, inl, inr, not, ◌==◌, Bool-cases, lt-or-le,
  ==→≡, ==→≢, set, length, arith,
}
use ring3k.HandleTable.{
  HandleTable, max_handles, word_mod, addref, index_to_handle, handle_to_index, info_at,
  alloc_handle_loop, alloc_handle, is_open,
}

-- The table has its 256 slots.
abbrev pub IsSized : HandleTable → Type 0
IsSized t = length t.info ≡ max_handles

-- Handles are the numbers 4, 8, …, 1024, one for each slot.
pub index_to_handle_lem :
    (i : ℕ)
    → i < max_handles
    → (handle_to_index (index_to_handle i) ≡ i)
      × (index_to_handle i % 4 ≡ 0)
      × (0 < index_to_handle i)
      × (index_to_handle i ≤ 1024)
unfolding index_to_handle handle_to_index
index_to_handle_lem i h = omega arith

pub handle_to_index_lem :
    (h : ℕ)
    → h % 4 ≡ 0
    → h ≢ 0
    → h < word_mod
    → (index_to_handle (handle_to_index h) ≡ h) × (handle_to_index h + 1 ≡ h / 4)
unfolding index_to_handle handle_to_index
handle_to_index_lem h aligned nonzero small = (omega arith, omega arith)

-- Slot `i` holds an object.
abbrev pub IsUsed : HandleTable → ℕ → Type 0
IsUsed t i = (info_at t i).object ≢ 0

-- The table after `obj` was put in slot `i`.
abbrev pub filled : HandleTable → ℕ → ℕ → ℕ → HandleTable
filled t i obj access = record {
  info = set t.info i (record { object = obj; access = access });
  heap = addref t.heap obj;
}

-- The two outcomes of `alloc_handle`: the lowest free slot is taken, or there is none.
pub data Allocates (t : HandleTable) (obj access : ℕ) (r : ℕ × HandleTable) : Type 0 where
  taken :
      (i : ℕ)
      → i < max_handles
      → (info_at t i).object ≡ 0
      → ((j : ℕ) → j < i → IsUsed t j)
      → r ≡ (index_to_handle i, filled t i obj access)
      → Allocates t obj access r
  full : ((j : ℕ) → j < max_handles → IsUsed t j) → r ≡ (0, t) → Allocates t obj access r

module _ (t : HandleTable) (obj access : ℕ) where
  alloc_handle_loop-Allocates :
      (left i : ℕ)
      → i + left ≡ max_handles
      → ((j : ℕ) → j < i → IsUsed t j)
      → Allocates t obj access (alloc_handle_loop left i t obj access)
  unfolding alloc_handle_loop
  alloc_handle_loop-Allocates zero i h used = full (λ j l. used j (omega arith)) refl
  alloc_handle_loop-Allocates (suc left) i h used = elim (Bool-cases ((info_at t i).object == 0)) [
    | inl e ↦ rw e (taken i (omega arith) (==→≡ _ _ e) used refl)
    | inr e ↦ rw e (
        alloc_handle_loop-Allocates left (i + 1) (omega arith) λ j l. elim (lt-or-le j i) [
          | inl lt ↦ used j lt
          | inr le ↦ let same : j ≡ i = omega arith in rw same (==→≢ _ _ e)
        ])
  ]

-- `alloc_handle` puts the object in the lowest free slot, adds one reference and returns that
-- slot's handle; if no slot is free it returns 0 and changes nothing.
pub alloc_handle-Allocates :
    (t : HandleTable) (obj access : ℕ) → Allocates t obj access (alloc_handle t obj access)
unfolding alloc_handle
alloc_handle-Allocates t obj access =
    alloc_handle_loop-Allocates t obj access 256 0 (omega arith) (λ j l. absurd (omega arith))

-- Exactly the handles of used slots are open.
pub is_open_iff :
    (t : HandleTable) (i : ℕ)
    → i < max_handles
    → is_open t (index_to_handle i) ≡ not ((info_at t i).object == 0)
unfolding is_open
is_open_iff t i h =
    let (index, aligned, positive, _) = index_to_handle_lem i h in rw index (ground arith)
