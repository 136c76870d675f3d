-- ===== src/HandleTable/Tests.antt =====
-- Runs of the handle table. One more reference to each object is held elsewhere.
use ring3k.Prelude.{
  ℕ, zero, suc, ◌+◌, ◌<◌, ◌≡◌, ◌≢◌, ◌⊎◌, refl, ◌==◌, if◌then◌else◌, none, some, [], ◌∷◌, replicate,
  length-replicate, arith,
}
use ring3k.Status.{status_success, status_invalid_handle}
use ring3k.HandleTable.{
  HandleTable, Objects, empty_info, max_handles, word_mod, alloc_handle, free_handle,
  free_all_handles, info_at, handle_to_index,
}
use ring3k.HandleTable.Slots.{IsSized, IsUsed}
use ring3k.HandleTable.Lookup.{lookup, lookup-alloc_handle}
use ring3k.HandleTable.Counting.{
  occurs, IsCounted, alloc_handle-IsCounted, free_handle-IsCounted, free_all_handles_lem,
}

abbrev heap : Objects
heap = record { refcount = λ o. 1; deleted = []; access_allowed = λ o asked given. asked == given }

abbrev empty_table : HandleTable
empty_table = record { info = replicate max_handles empty_info; heap = heap }

abbrev held : ℕ → ℕ
held o = 1

occurs_nowhere : (obj n : ℕ) → obj ≢ 0 → occurs obj (replicate n empty_info) ≡ 0
unfolding occurs
occurs_nowhere obj zero nonzero = refl
occurs_nowhere obj (suc n) nonzero = ground (arith, occurs_nowhere obj n nonzero)

empty_table-IsSized : IsSized empty_table
empty_table-IsSized = length-replicate max_handles empty_info

empty_table-IsCounted : IsCounted held empty_table
empty_table-IsCounted = record {
  sized = empty_table-IsSized;
  counted = λ obj nonzero. omega (arith, occurs_nowhere obj max_handles nonzero);
  bounded = λ obj. omega arith;
}

lookup-alloc_handle_example :
    let (h, t') = alloc_handle empty_table 5 7 in
    ((h ≡ 0) × (t' ≡ empty_table) × ((j : ℕ) → j < max_handles → IsUsed empty_table j))
    ⊎ ((h ≢ 0)
        × (lookup empty_table h ≡ none)
        × ((k : ℕ)
            → k < word_mod
            → lookup t' k ≡ (
                if k == h then some (record { object = 5; access = 7 }) else lookup empty_table k)))
lookup-alloc_handle_example = lookup-alloc_handle empty_table 5 7 empty_table-IsSized (omega arith)

one_handle-IsCounted : IsCounted held (alloc_handle empty_table 5 7).1
one_handle-IsCounted =
    alloc_handle-IsCounted held empty_table 5 7 (omega arith) empty_table-IsCounted

-- Object 5 in the first slot.
abbrev table : HandleTable
table = (alloc_handle empty_table 5 7).1

free_handle-IsCounted_example :
    let (r, t') = free_handle table 4 in
    let obj = (info_at table (handle_to_index 4)).object in
    IsCounted held t'
    × ((r ≡ status_invalid_handle) × (t' ≡ table)
        ⊎ (r ≡ status_success)
          × (t'.heap.deleted ≡ (
              if held obj + occurs obj table.info == 1
              then obj ∷ table.heap.deleted
              else table.heap.deleted)))
free_handle-IsCounted_example = free_handle-IsCounted held table 4 one_handle-IsCounted

free_all_handles_lem_example :
    let t' = free_all_handles table in
    ((obj : ℕ) → obj ≢ 0 → t'.heap.refcount obj ≡ held obj)
    × ((j : ℕ) → j < max_handles → (info_at t' j).object ≡ 0)
free_all_handles_lem_example = free_all_handles_lem held table one_handle-IsCounted
