-- ===== src/Names/Create.antt =====
-- `name_object` of kernel/objdir.cpp, and the factories of kernel/object.cpp: how objects get their
-- names and handles.
pub mod Append
pub mod Order
pub mod Kept
pub mod Naming
use ring3k.Prelude.Checked.{Checked, returns, aborts}
use ring3k.Prelude.{ℕ, false, ◌==◌, ◌&&◌, if◌then◌else◌, Option, none, some, List}
use ring3k.Completion.{put, is_empty}
use ring3k.HandleTable.{release, alloc_handle, HandleTable}
use ring3k.Names.{
  Object, Space, name_new, factory, Info, Opened, obj_permanent, has_flag, refuse, accept,
}
use ring3k.Names.Open.{Attributes, info_of, open_object, open_root}
use ring3k.Status.{is_error, status_success, status_insufficient_resources}

pub name_as : ℕ → Space → ℕ → Attributes → Option (List ℕ) → Option Opened
name_as n s obj oa none = some (accept s obj)
name_as n s obj oa (some name) =
    if is_empty name
    then some (accept s obj)
    else open_root (open_object n) s (info_of oa name (name_new obj))

pub set_attr : Space → ℕ → ℕ → Space
set_attr s obj attr =
    let named = record (s.tree.objects obj) { attr = attr } in
    record s { tree = record s.tree { objects = put s.tree.objects obj named } }

-- `name_object` with attributes; without them it does nothing.
pub name_object : ℕ → Space → ℕ → Attributes → Option Opened
name_object n s obj oa = name_as n (set_attr s obj oa.attributes) obj oa oa.name

pub create_kernel : ℕ → Space → (Space → ℕ × ℕ × Space) → List ℕ → Option Opened
create_kernel n s alloc name =
    open_root (open_object n) s
      (info_of (record { attributes = 0; root = 0; name = some name }) name (factory alloc))

-- `alloc_user_handle`, where the handle can be written.
pub alloc_user_handle : Space → ℕ → ℕ → ℕ × ℕ × Space
alloc_user_handle s obj access =
    let (handle, handles) = alloc_handle s.handles obj access in
    if handle == 0
    then (status_insufficient_resources, 0, s)
    else (status_success, handle, record s { handles = handles })

pub release_object : Space → ℕ → Space
release_object s obj = record s { handles = record s.handles { heap = release s.handles.heap obj } }

-- The end of `create`: the status, the handle, or 0 if none was written, and the space.
pub give_handle : Attributes → ℕ → Opened → ℕ × ℕ × Space
give_handle oa access opened =
    let (r, handle, s) = alloc_user_handle opened.space opened.obj access in
    if is_error opened.status
    then (opened.status, 0, opened.space)
    else if (r == status_success) && has_flag oa.attributes obj_permanent
    then (opened.status, handle, s)
    else (opened.status, handle, release_object s opened.obj)

abbrev given : Attributes → ℕ → Option Opened → Option (Checked (ℕ × ℕ × Space))
given oa access none = none
given oa access (some opened) =
    some (if opened.aborted then aborts else returns (give_handle oa access opened))

abbrev unnamed : ℕ × ℕ × Space → Opened
unnamed (r, obj, s) = record { status = r; obj = obj; space = s; aborted = false }

pub make_object : ℕ → Space → (Space → ℕ × ℕ × Space) → Attributes → Option (List ℕ) → Option Opened
make_object n s alloc oa none = some (unnamed (alloc s))
make_object n s alloc oa (some name) =
    if is_empty name
    then some (unnamed (alloc s))
    else open_root (open_object n) s (info_of oa name (factory alloc))

-- `object_factory::create`, where the arguments can be read and the handle can be written.
pub create : ℕ → Space → (Space → ℕ × ℕ × Space) → Attributes → ℕ → Option (Checked (ℕ × ℕ × Space))
create n s alloc oa access = given oa access (make_object n s alloc oa oa.name)
