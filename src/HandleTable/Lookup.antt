-- ===== src/HandleTable/Lookup.antt =====
-- The handle table as a finite map from handles to objects with their access masks.
use ring3k.Prelude.{
  ℕ, ◌%◌, ◌<◌, ◌≡◌, ◌≢◌, ◌⊎◌, refl, ap, sym, ◌∙◌, inl, inr, true, ◌==◌, if◌then◌else◌, Bool-cases,
  ==→≡, ==→≢, Option, none, some, List, get_or, set, length, get_or-set_self, get_or-set_ne, arith,
}
use ring3k.Status.{status_success, status_invalid_handle, status_access_denied}
use ring3k.HandleTable.{
  HandleTable, Objects, Current, ObjectInfo, empty_info, max_handles, word_mod, index_to_handle,
  handle_to_index, info_at, alloc_handle, free_handle, is_open, object_from_handle,
  nt_current_thread, nt_current_process, release,
}
use ring3k.HandleTable.Slots.{
  IsSized, IsUsed, Allocates, taken, full, index_to_handle_lem, handle_to_index_lem,
  alloc_handle-Allocates, is_open_iff,
}

pub get_or-set :
    (xs : List ObjectInfo) (i j : ℕ) (v : ObjectInfo)
    → i < length xs
    → get_or (set xs i v) j empty_info ≡ (if i == j then v else get_or xs j empty_info)
get_or-set xs i j v h = elim (Bool-cases (i == j)) [
  | inl e ↦ rw (e, ← ==→≡ _ _ e, get_or-set_self xs i v empty_info h)
  | inr e ↦ rw (e, get_or-set_ne xs i j v empty_info (==→≢ _ _ e))
]

-- What a handle names.
pub lookup : HandleTable → ℕ → Option ObjectInfo
lookup t handle = if is_open t handle then some (info_at t (handle_to_index handle)) else none

-- Two well-formed handles of one slot are one handle.
same_handle :
    (i k : ℕ)
    → i < max_handles
    → k ≢ 0
    → k % 4 ≡ 0
    → k < word_mod
    → i ≡ handle_to_index k
    → k ≡ index_to_handle i
same_handle i k h nonzero aligned small e =
    rw e (sym (handle_to_index_lem k aligned nonzero small).0)

module _ (t : HandleTable) (sized : IsSized t) (i k : ℕ) (inside : i < max_handles)
    (small : k < word_mod) where
  -- A write of slot `i` changes what the handle of `i` names, and no other handle.
  pub lookup-set :
      (v : ObjectInfo) (heap : Objects)
      → lookup (record { info = set t.info i v; heap = heap }) k
        ≡ (if k == index_to_handle i then (if v.object == 0 then none else some v) else lookup t k)
  unfolding lookup is_open
  lookup-set v heap =
      let read = get_or-set t.info i (handle_to_index k) v (omega arith) in
      let (index, aligned, positive, _) = index_to_handle_lem i inside in
      elim (Bool-cases (k == index_to_handle i)) [
        | inl e ↦
            let same = ==→≡ _ _ e in
            let read' : get_or (set t.info i v) i empty_info ≡ v =
              get_or-set_self t.info i v empty_info (omega arith) in
            rw (e, same, index, read') (ground arith)
        | inr e ↦ rw (e, read) (ground (arith, same_handle i k inside, ==→≢ _ _ e))
      ]

closed_slot :
    (t : HandleTable) (i : ℕ)
    → i < max_handles
    → (info_at t i).object ≡ 0
    → lookup t (index_to_handle i) ≡ none
unfolding lookup
closed_slot t i inside free = ground (arith, is_open_iff t i inside)

-- `alloc_handle` returns a handle that named nothing, and afterwards names the new object with its
-- mask while every other handle names what it did. Or all 256 slots are in use, it returns 0, and
-- the table is unchanged.
pub lookup-alloc_handle :
    (t : HandleTable) (obj access : ℕ)
    → IsSized t
    → obj ≢ 0
    → let (h, t') = alloc_handle t obj access in
      ((h ≡ 0) × (t' ≡ t) × ((j : ℕ) → j < max_handles → IsUsed t j))
      ⊎ ((h ≢ 0)
          × (lookup t h ≡ none)
          × ((k : ℕ)
              → k < word_mod
              → lookup t' k
                ≡ (if k == h then some (record { object = obj; access = access }) else lookup t k)))
lookup-alloc_handle t obj access sized some_obj = go (alloc_handle-Allocates t obj access)
  where
    go :
        Allocates t obj access (alloc_handle t obj access)
        → let (h, t') = alloc_handle t obj access in
          ((h ≡ 0) × (t' ≡ t) × ((j : ℕ) → j < max_handles → IsUsed t j))
          ⊎ ((h ≢ 0)
              × (lookup t h ≡ none)
              × ((k : ℕ)
                  → k < word_mod
                  → lookup t' k ≡ (
                      if k == h
                      then some (record { object = obj; access = access })
                      else lookup t k)))
    go (full used e) = inl (ap (λ r. r.0) e, ap (λ r. r.1) e, used)
    go (taken i inside free _ e) =
        let (index, _, positive, small) = index_to_handle_lem i inside in
        rw e (
          inr (
            ground (arith, positive),
            closed_slot t i inside free,
            λ k l.
                lookup-set t sized i k inside l (record { object = obj; access = access }) _
                ∙ ground arith,
          ))

-- An open handle is in range and well formed.
open_handle :
    (t : HandleTable) (h : ℕ)
    → is_open t h ≡ true
    → (handle_to_index h < max_handles) × (h % 4 ≡ 0) × (h ≢ 0)
unfolding is_open
open_handle t h e = (ground arith, ground arith, ground arith)

-- `free_handle` refuses a handle that names nothing, and changes nothing then. Otherwise it
-- releases the object that the handle names; afterwards that handle names nothing, and every other
-- handle names what it did.
pub lookup-free_handle :
    (t : HandleTable) (h : ℕ)
    → IsSized t
    → h < word_mod
    → (lookup t h ≡ none → free_handle t h ≡ (status_invalid_handle, t))
      × ((s : ObjectInfo)
          → lookup t h ≡ some s
          → let (r, t') = free_handle t h in
            (r ≡ status_success)
            × (t'.heap ≡ release t.heap s.object)
            × ((k : ℕ) → k < word_mod → lookup t' k ≡ (if k == h then none else lookup t k)))
unfolding lookup free_handle
lookup-free_handle t h sized small = elim (Bool-cases (is_open t h)) [
  | inl e ↦
      let (inside, aligned, nonzero) = open_handle t h e in
      let back = (handle_to_index_lem h aligned nonzero small).0 in
      rw e (
        λ p. cc,
        λ s p. (
          refl,
          ground arith,
          λ k l. lookup-set t sized (handle_to_index h) k inside l empty_info _ ∙ rw back,
        ),
      )
  | inr e ↦ rw e (λ p. refl, λ s p. cc)
]

-- What `object_from_handle` answers for what the handle names.
pub answer : Objects → ℕ → Option ObjectInfo → ℕ × ℕ
answer heap access none = (status_invalid_handle, 0)
answer heap access (some s) =
    if heap.access_allowed s.object access s.access
    then (status_success, s.object)
    else (status_access_denied, 0)

-- The two pseudo handles name the running thread and its process. Any other handle is answered
-- from what it names: invalid if nothing, denied if the object refuses the access, else the object.
pub object_from_handle_lem :
    (c : Current) (t : HandleTable) (h access : ℕ)
    → (h ≡ nt_current_thread → object_from_handle c t h access ≡ (status_success, c.thread))
      × (h ≡ nt_current_process → object_from_handle c t h access ≡ (status_success, c.process))
      × (h < nt_current_thread
          → object_from_handle c t h access ≡ answer t.heap access (lookup t h))
unfolding object_from_handle lookup answer
object_from_handle_lem c t h access = (λ e. rw e, λ e. rw e, λ l. ground arith)
