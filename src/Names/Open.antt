-- ===== src/Names/Open.antt =====
-- `open_root` and the virtual `open` of kernel/objdir.cpp, kernel/symlink.cpp and kernel/object.cpp:
-- how a path leads to an object.
pub mod Resolve
pub mod Find
use ring3k.Prelude.{
  ℕ, zero, suc, Bool, true, false, not, ◌==◌, if◌then◌else◌, Option, none, some, List, [], ◌∷◌,
}
use ring3k.Completion.{is_empty}
use ring3k.HandleTable.{object_from_handle}
use ring3k.Names.{
  Kind, directory, symlink, other, Space, Opener, find_object, follow_link, Info, Opened, separator,
  obj_openlink, directory_query, has_flag, case_insensitive, lookup_in, is_directory, addref_object,
  refuse, accept, on_open,
}
use ring3k.Status.{
  is_error, status_success, status_invalid_parameter, status_object_type_mismatch,
  status_object_name_invalid, status_object_path_not_found, status_object_path_syntax_bad,
}

-- The path up to its first separator, and what is behind it.
pub segment : List ℕ → List ℕ × Option (List ℕ)
segment [] = ([], none)
segment (c ∷ cs) =
    let (first, rest) = segment cs in if c == separator then ([], some cs) else (c ∷ first, rest)

-- The first character; the code reads it of paths that are not empty.
abbrev pub is_absolute : List ℕ → Bool
is_absolute [] = false
is_absolute (c ∷ cs) = c == separator

abbrev pub behind_first : List ℕ → List ℕ
behind_first [] = []
behind_first (c ∷ cs) = cs

-- `open_root` from the directory on; `rec` is the virtual `open`.
pub start_at : (Space → ℕ → Info → Option Opened) → Space → ℕ → Info → Option Opened
start_at rec s dir info =
    if is_empty info.path then some (on_open info.opener s 0 dir info) else rec s dir info

-- The directory of a handle: `object_from_handle` with the cast to a directory.
pub from_handle : Space → ℕ → ℕ × ℕ
from_handle s handle =
    let (r, obj) = object_from_handle s.current s.handles handle directory_query in
    if r == status_success
    then (if is_directory (s.tree.objects obj).kind
        then (status_success, obj)
        else (status_object_type_mismatch, 0))
    else (r, 0)

pub open_root : (Space → ℕ → Info → Option Opened) → Space → Info → Option Opened
open_root rec s info =
    let (r, dir) = from_handle s info.root in
    if info.root == 0
    then (if is_absolute info.path
        then start_at rec s s.tree.root (record info { path = behind_first info.path })
        else some (refuse s status_object_path_syntax_bad))
    else if is_absolute info.path
    then some (refuse s status_object_path_syntax_bad)
    else if is_error r
    then some (refuse s r)
    else start_at rec s dir info

-- `object_dir_impl_t::open` after the lookup.
pub enter :
    (Space → ℕ → Info → Option Opened) → Space → ℕ → Info → ℕ → Option (List ℕ) → Option Opened
enter rec s dir info obj none = some (on_open info.opener s dir obj info)
enter rec s dir info obj (some path) =
    if obj == 0
    then some (refuse s status_object_path_not_found)
    else rec s obj (record info { path = path })

pub open_directory : (Space → ℕ → Info → Option Opened) → Space → ℕ → List ℕ → Info → Option Opened
open_directory rec s dir list info =
    let (name, rest) = segment info.path in
    if is_empty name
    then some (refuse s status_object_name_invalid)
    else enter rec s dir info (lookup_in s.tree list name (case_insensitive info)) rest

-- What `symlink_t::open` does with the target that it found.
pub go_on : (Space → ℕ → Info → Option Opened) → Info → Option Opened → Option Opened
go_on rec info none = none
go_on rec info (some found) =
    if is_error found.status
    then some (refuse found.space found.status)
    else rec found.space found.obj info

pub open_symlink : (Space → ℕ → Info → Option Opened) → Space → List ℕ → Info → Option Opened
open_symlink rec s target info =
    let target_info = record info { root = 0; path = target; opener = follow_link } in
    if not (is_empty info.path)
    then go_on rec info (open_root rec s target_info)
    else if has_flag info.attributes obj_openlink
    then some (refuse s status_invalid_parameter)
    else open_root rec s (record info { path = target })

-- `object_t::open`.
pub open_other : Space → ℕ → Info → Opened
open_other s obj info =
    if not (is_empty info.path)
    then refuse s status_object_path_not_found
    else accept (addref_object s obj) obj

-- The virtual `open` by the class of the object, none if the calls nest deeper than the fuel.
pub open_kind : (Space → ℕ → Info → Option Opened) → Space → ℕ → Info → Kind → Option Opened
open_kind rec s obj info (directory list) = open_directory rec s obj list info
open_kind rec s obj info (symlink target) = open_symlink rec s target info
open_kind rec s obj info other = some (open_other s obj info)

pub open_object : ℕ → Space → ℕ → Info → Option Opened
open_object zero s obj info = none
open_object (suc n) s obj info = open_kind (open_object n) s obj info (s.tree.objects obj).kind

-- `OBJECT_ATTRIBUTES`. The name is none where the pointer to the attributes, to the name or to its
-- buffer is null.
pub record Attributes : Type 0 where
  pub attributes : ℕ
  pub root : ℕ
  pub name : Option (List ℕ)

-- What the openers copy of the attributes.
abbrev pub info_of : Attributes → List ℕ → Opener → Info
info_of oa name opener = record {
  attributes = oa.attributes;
  root = oa.root;
  path = name;
  opener = opener;
}

pub find_named : ℕ → Space → Attributes → Option (List ℕ) → Option Opened
find_named n s oa none = some (refuse s status_object_path_syntax_bad)
find_named n s oa (some name) =
    if is_empty name
    then some (refuse s status_object_path_syntax_bad)
    else open_root (open_object n) s (info_of oa name find_object)

pub find_object_by_name : ℕ → Space → Attributes → Option Opened
find_object_by_name n s oa = find_named n s oa oa.name
