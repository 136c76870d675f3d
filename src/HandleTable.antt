-- ===== src/HandleTable.antt =====
-- kernel/object.cpp and kernel/object.h: reference counts of kernel objects, and the table by
-- which a process names them. An object is a number, and 0 is the null pointer. The virtual
-- `access_allowed` is a field of the heap, as each class of object brings its own.
pub mod Slots
pub mod Lookup
pub mod Counting
mod Tests
use package.ring3k.Prelude.{
  ℕ, zero, suc, ◌+◌, ◌-◌, ◌*◌, ◌/◌, ◌%◌, ◌^◌, Bool, true, false, not, ltb, leb, ◌==◌, if◌then◌else◌,
  List, [], ◌∷◌, get_or, set, replicate,
}
use package.ring3k.Status.{status_success, status_invalid_handle, status_access_denied}

abbrev pub word_mod : ℕ
word_mod = 2 ^ 32

-- `deleted` lists the objects whose destructor has run, the latest first.
pub record Objects : Type 0 where
  pub refcount : ℕ → ℕ
  pub deleted : List ℕ
  pub access_allowed : ℕ → ℕ → ℕ → Bool

abbrev update : (ℕ → ℕ) → ℕ → ℕ → ℕ → ℕ
update f p v q = if p == q then v else f q

pub addref : Objects → ℕ → Objects
addref h obj = record h { refcount = update h.refcount obj ((h.refcount obj + 1) % word_mod) }

pub release : Objects → ℕ → Objects
release h obj =
    let left = (h.refcount obj + word_mod - 1) % word_mod in
    record h {
      refcount = update h.refcount obj left;
      deleted = if left == 0 then obj ∷ h.deleted else h.deleted;
    }

-- `object_info_t`.
pub record ObjectInfo : Type 0 where
  pub object : ℕ
  pub access : ℕ

abbrev pub max_handles : ℕ
max_handles = 0x100

abbrev pub empty_info : ObjectInfo
empty_info = record { object = 0; access = 0 }

-- The table and the heap that its operations change.
pub record HandleTable : Type 0 where
  pub info : List ObjectInfo
  pub heap : Objects

pub index_to_handle : ℕ → ℕ
index_to_handle index = (index + 1) * 4 % word_mod

pub handle_to_index : ℕ → ℕ
handle_to_index handle = (handle / 4 + word_mod - 1) % word_mod

abbrev pub info_at : HandleTable → ℕ → ObjectInfo
info_at t n = get_or t.info n empty_info

-- The loop of `alloc_handle` from slot `i`, with `left` slots to go. It returns the handle, or 0.
pub alloc_handle_loop : ℕ → ℕ → HandleTable → ℕ → ℕ → ℕ × HandleTable
alloc_handle_loop zero i t obj access = (0, t)
alloc_handle_loop (suc left) i t obj access =
    let next = alloc_handle_loop left (i + 1) t obj access in
    if (info_at t i).object == 0
    then (
      index_to_handle i,
      record {
        info = set t.info i (record { object = obj; access = access });
        heap = addref t.heap obj;
      },
    )
    else next

pub alloc_handle : HandleTable → ℕ → ℕ → ℕ × HandleTable
alloc_handle t obj access = alloc_handle_loop max_handles 0 t obj access

-- The checks on a handle that `free_handle` and `object_from_handle` share: a slot in use.
pub is_open : HandleTable → ℕ → Bool
is_open t handle =
    if handle == 0
    then false
    else if not (handle % 4 == 0)
    then false
    else if leb max_handles (handle_to_index handle)
    then false
    else not ((info_at t (handle_to_index handle)).object == 0)

pub free_handle : HandleTable → ℕ → ℕ × HandleTable
free_handle t handle =
    let n = handle_to_index handle in
    if is_open t handle
    then (
      status_success,
      record { info = set t.info n empty_info; heap = release t.heap (info_at t n).object },
    )
    else (status_invalid_handle, t)

abbrev pub nt_current_thread : ℕ
nt_current_thread = 0xffff_fffe

abbrev pub nt_current_process : ℕ
nt_current_process = 0xffff_ffff

-- The thread that runs, and its process.
pub record Current : Type 0 where
  pub thread : ℕ
  pub process : ℕ

-- The status, and the object that the call stores on success.
pub object_from_handle : Current → HandleTable → ℕ → ℕ → ℕ × ℕ
object_from_handle current t handle access =
    let slot = info_at t (handle_to_index handle) in
    if handle == nt_current_thread
    then (status_success, current.thread)
    else if handle == nt_current_process
    then (status_success, current.process)
    else if is_open t handle
    then (if t.heap.access_allowed slot.object access slot.access
        then (status_success, slot.object)
        else (status_access_denied, 0))
    else (status_invalid_handle, 0)

-- The body of the loop of `free_all_handles`. The access mask stays.
pub free_slot : HandleTable → ℕ → HandleTable
free_slot t i =
    let slot = info_at t i in
    if slot.object == 0 then t else record {
      info = set t.info i (record { object = 0; access = slot.access });
      heap = release t.heap slot.object;
    }

-- The loop from slot `i` on, with `left` slots to go.
pub free_all_loop : ℕ → ℕ → HandleTable → HandleTable
free_all_loop zero i t = t
free_all_loop (suc left) i t = free_all_loop left (i + 1) (free_slot t i)

pub free_all_handles : HandleTable → HandleTable
free_all_handles t = free_all_loop max_handles 0 t
