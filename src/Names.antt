-- ===== src/Names.antt =====
-- kernel/objdir.cpp, kernel/symlink.cpp and the naming half of kernel/object.cpp: directories of
-- named objects and symbolic links. An object is a number, and 0 is the null pointer; a string is
-- the list of its characters, so that its length in bytes is even, as `unicode_string_t::copy` has
-- it. A call of `open` counts its nested calls down on fuel. The handles and the reference counts
-- are those of the handle table.
pub mod Open
pub mod Create
mod Tests
use package.ring3k.Prelude.{
  ℕ, Bool, true, false, not, ◌&&◌, ◌==◌, if◌then◌else◌, bit_and, Option, List, [], ◌∷◌, ◌++◌, map,
  length,
}
use package.ring3k.Prelude.Checked.{Checked, returns, aborts, assert, ◌>>=◌, ◌>>◌}
use package.ring3k.Completion.{put, unlink}
use package.ring3k.HandleTable.{addref, HandleTable, Current}
use package.ring3k.Status.{
  is_error, status_success, status_invalid_parameter, status_object_name_exists,
  status_object_name_not_found, status_object_name_collision, status_object_path_not_found,
}

-- What an object is to the name space: a directory with its `object_list`, a symbolic link with its
-- target, or an object of a class that leaves `object_t::open` as it is.
pub data Kind : Type 0 where
  directory : List ℕ → Kind
  symlink : List ℕ → Kind
  other : Kind

-- `object_t` without its count.
pub record Object : Type 0 where
  pub kind : Kind
  pub name : List ℕ
  pub parent : ℕ
  pub attr : ℕ

-- The objects, the global `root`, and the `tolower` of the C library.
pub record Tree : Type 0 where
  pub objects : ℕ → Object
  pub root : ℕ
  pub tolower : ℕ → ℕ

-- The tree, the current thread and process, and the table of the process.
pub record Space : Type 0 where
  pub tree : Tree
  pub current : Current
  pub handles : HandleTable

-- The classes of `open_info_t` with their `on_open`. A factory brings its `alloc_object`, which
-- returns a status and an object.
pub data Opener : Type 0 where
  find_object : Opener
  follow_link : Opener
  name_new : ℕ → Opener
  factory : (Space → ℕ × ℕ × Space) → Opener

-- `open_info_t`; `root` is a handle.
pub record Info : Type 0 where
  pub attributes : ℕ
  pub root : ℕ
  pub path : List ℕ
  pub opener : Opener

-- The status, the object, which counts only where the status is no error, and the space; or
-- `aborted` where an assertion failed, and the others do not count.
pub record Opened : Type 0 where
  pub status : ℕ
  pub obj : ℕ
  pub space : Space
  pub aborted : Bool

abbrev pub separator : ℕ
separator = 92

abbrev pub obj_permanent : ℕ
obj_permanent = 0x10

abbrev pub obj_case_insensitive : ℕ
obj_case_insensitive = 0x40

abbrev pub obj_openif : ℕ
obj_openif = 0x80

abbrev pub obj_openlink : ℕ
obj_openlink = 0x100

abbrev pub directory_query : ℕ
directory_query = 1

abbrev pub has_flag : ℕ → ℕ → Bool
has_flag attributes flag = not (bit_and attributes flag == 0)

abbrev pub case_insensitive : Info → Bool
case_insensitive info = has_flag info.attributes obj_case_insensitive

-- `memcmp` on strings of the same length.
pub same : List ℕ → List ℕ → Bool
same (a ∷ xs) (b ∷ ys) = if a == b then same xs ys else false
same xs ys = true

pub compare : (ℕ → ℕ) → List ℕ → List ℕ → Bool → Bool
unfolding same
compare lower a b ignore_case =
    if not (length a == length b)
    then false
    else if not ignore_case
    then same a b
    else same (map lower a) (map lower b)

-- The loop of `lookup`.
pub lookup_in : Tree → List ℕ → List ℕ → Bool → ℕ
unfolding compare
lookup_in t [] name ignore_case = 0
lookup_in t (obj ∷ rest) name ignore_case =
    if compare t.tolower (t.objects obj).name name ignore_case
    then obj
    else lookup_in t rest name ignore_case

-- What a directory with the list is after an object went in or out.
abbrev pub entries : Kind → List ℕ
entries (directory list) = list
entries (symlink target) = []
entries other = []

abbrev pub is_directory : Kind → Bool
is_directory (directory list) = true
is_directory (symlink target) = false
is_directory other = false

abbrev pub is_symlink : Kind → Bool
is_symlink (directory list) = false
is_symlink (symlink target) = true
is_symlink other = false

pub set_list : Tree → ℕ → List ℕ → Tree
set_list t dir list = record t {
  objects = put t.objects dir (record (t.objects dir) { kind = directory list });
}

pub set_parent : Tree → ℕ → ℕ → Tree
set_parent t obj dir = record t {
  objects = put t.objects obj (record (t.objects obj) { parent = dir });
}

-- The object comes last into the list.
pub link_object : Tree → ℕ → ℕ → Tree
unfolding set_list set_parent
link_object t dir obj =
    set_parent (set_list t dir (entries (t.objects dir).kind ++ obj ∷ [])) obj dir

-- The list's own `append` asserts that the object is in no list: `object_list` is the only one with
-- this entry, and an object is in it exactly while it has a parent.
pub append : Tree → ℕ → ℕ → Checked Tree
unfolding link_object
append t dir obj = do assert ((t.objects obj).parent == 0); returns (link_object t dir obj)

pub unlink_object : Tree → ℕ → ℕ → Tree
unfolding set_list set_parent
unlink_object t dir obj =
    set_parent (set_list t dir (unlink (entries (t.objects dir).kind) obj)) obj 0

abbrev pub addref_object : Space → ℕ → Space
addref_object s obj = record s { handles = record s.handles { heap = addref s.handles.heap obj } }

abbrev pub refuse : Space → ℕ → Opened
refuse s status = record { status = status; obj = 0; space = s; aborted = false }

abbrev pub accept : Space → ℕ → Opened
accept s obj = record { status = status_success; obj = obj; space = s; aborted = false }

-- `obj->name.copy( &info.path )`.
pub set_name : Tree → ℕ → List ℕ → Tree
set_name t obj path = record t {
  objects = put t.objects obj (record (t.objects obj) { name = path });
}

-- The name and then `dir->append( obj )`.
pub name_and_append : Space → ℕ → ℕ → List ℕ → Checked Space
unfolding append set_name
name_and_append s dir obj path = do
  tree ← append (set_name s.tree obj path) dir obj
  returns (record s { tree = tree })

abbrev pub accept_if : Space → ℕ → Checked Space → Opened
accept_if s obj aborts = record { status = status_success; obj = obj; space = s; aborted = true }
accept_if s obj (returns s') = accept s' obj

pub find_on_open : Space → ℕ → Info → Opened
find_on_open s obj info =
    if obj == 0
    then refuse s status_object_name_not_found
    else if is_symlink (s.tree.objects obj).kind && has_flag info.attributes obj_openlink
    then refuse s status_invalid_parameter
    else accept (addref_object s obj) obj

pub link_on_open : Space → ℕ → Opened
link_on_open s obj =
    if obj == 0 then refuse s status_object_path_not_found else accept (addref_object s obj) obj

pub name_on_open : ℕ → Space → ℕ → ℕ → Info → Opened
unfolding name_and_append
name_on_open new s dir obj info =
    if obj == 0
    then accept_if s new (name_and_append s dir new info.path)
    else refuse s status_object_name_collision

pub factory_on_open : (Space → ℕ × ℕ × Space) → Space → ℕ → ℕ → Info → Opened
unfolding name_and_append
factory_on_open alloc s dir obj info =
    let (r, new, s') = alloc s in
    if obj == 0
    then (if is_error r
        then refuse s' r
        else accept_if s' new (name_and_append s' dir new info.path))
    else if has_flag info.attributes obj_openif
    then record {
      status = status_object_name_exists;
      obj = obj;
      space = addref_object s obj;
      aborted = false;
    }
    else refuse s status_object_name_collision

pub on_open : Opener → Space → ℕ → ℕ → Info → Opened
unfolding find_on_open link_on_open name_on_open factory_on_open
on_open find_object s dir obj info = find_on_open s obj info
on_open follow_link s dir obj info = link_on_open s obj
on_open (name_new new) s dir obj info = name_on_open new s dir obj info
on_open (factory alloc) s dir obj info = factory_on_open alloc s dir obj info
