-- ===== src/Names/Open/Find.antt =====
-- `find_object_by_name` of kernel/objdir.cpp on absolute paths.
use ring3k.Prelude.{
  ℕ, ◌≤◌, ◌≡◌, ◌≢◌, refl, ap, ◌∙◌, true, false, ◌&&◌, ◌==◌, some, List, ◌∷◌, arith,
}
use ring3k.Names.{
  Space, find_object, separator, obj_openlink, has_flag, is_symlink, addref_object, accept, refuse,
  find_on_open, on_open, Opener, obj_case_insensitive, Opened,
}
use ring3k.Names.Open.{
  Attributes, info_of, start_at, open_root, open_object, find_named, find_object_by_name,
}
use ring3k.Names.Open.Resolve.{
  IsName, join, addrefs, addrefs-tree, Resolves, first-IsName, is_empty-join, Opens,
  open_object_lem,
}
use ring3k.Status.{status_object_name_not_found, status_invalid_parameter}

-- From the root the path leads to the place `name` of `dir`, which `on_open` gets.
pub open_root_lem :
    {dir obj : ℕ} {first name leaked : List ℕ} {rest : List (List ℕ)} (s : Space) (oa : Attributes)
    (opener : Opener)
    → Resolves s.tree
        (has_flag oa.attributes obj_case_insensitive)
        s.tree.root
        first
        rest
        dir
        obj
        name
        leaked
    → oa.root ≡ 0
    → (n : ℕ) × ((m : ℕ)
        → n ≤ m
        → open_root (open_object m) s (info_of oa (separator ∷ join first rest) opener)
          ≡ some (on_open opener (addrefs leaked s) dir obj (info_of oa name opener)))
unfolding open_root start_at Opens IsName
open_root_lem {first = first} {rest = rest} s oa opener r e =
    let (n, steps) =
      open_object_lem s.tree (has_flag oa.attributes obj_case_insensitive) r s
        (info_of oa (join first rest) opener) refl refl refl in
    let (named, plain) = first-IsName r in
    let no_root : (oa.root == 0) ≡ true = ground arith in
    (n, λ m le. rw (no_root, is_empty-join first rest named) (steps m le))

-- What `find_object_by_name` gives for an absolute path.
abbrev pub Finds : Space → Attributes → Opened → Type 0
Finds s oa result = (n : ℕ) × ((m : ℕ) → n ≤ m → find_object_by_name m s oa ≡ some result)

ends :
    {dir obj : ℕ} {first name leaked : List ℕ} {rest : List (List ℕ)} (s : Space) (oa : Attributes)
    (result : Opened)
    → Resolves s.tree
        (has_flag oa.attributes obj_case_insensitive)
        s.tree.root
        first
        rest
        dir
        obj
        name
        leaked
    → oa.root ≡ 0
    → oa.name ≡ some (separator ∷ join first rest)
    → find_on_open (addrefs leaked s) obj (info_of oa name find_object) ≡ result
    → Finds s oa result
unfolding find_object_by_name find_named on_open
ends s oa result r e named last =
    let (n, steps) = open_root_lem s oa find_object r e in
    (n, λ m le. rw named (steps m le ∙ ap some last))

-- If the names of an absolute path (without a root handle) are not empty and each but the last
-- leads to a directory, itself or by a chain of links to such paths that ends,
-- `find_object_by_name` ends. If an object is at the end of the path, it
-- gives that object with one more reference, unless this is a link and OBJ_OPENLINK is asked for,
-- which is an invalid parameter; if nothing is there, the name is not found. The objects that links
-- on the way name keep one more reference in each case.
pub find_object_by_name_lem :
    {dir obj : ℕ} {first name leaked : List ℕ} {rest : List (List ℕ)} (s : Space) (oa : Attributes)
    → Resolves s.tree
        (has_flag oa.attributes obj_case_insensitive)
        s.tree.root
        first
        rest
        dir
        obj
        name
        leaked
    → oa.root ≡ 0
    → oa.name ≡ some (separator ∷ join first rest)
    → let s' = addrefs leaked s in
      let is_link = is_symlink (s.tree.objects obj).kind && has_flag oa.attributes obj_openlink in
      (obj ≡ 0 → Finds s oa (refuse s' status_object_name_not_found))
      × (obj ≢ 0 → is_link ≡ false → Finds s oa (accept (addref_object s' obj) obj))
      × (obj ≢ 0 → is_link ≡ true → Finds s oa (refuse s' status_invalid_parameter))
unfolding find_on_open
find_object_by_name_lem {obj = obj} {leaked = leaked} s oa r e named =
    let same = ap (λ t. is_symlink (t.objects obj).kind) (addrefs-tree leaked s) in
    (
      λ none_there.
          let there : (obj == 0) ≡ true = ground arith in ends s oa _ r e named (rw there),
      λ exists plain.
          let there : (obj == 0) ≡ false = ground arith in
          ends s oa _ r e named (rw (there, same, plain)),
      λ exists link.
          let there : (obj == 0) ≡ false = ground arith in
          ends s oa _ r e named (rw (there, same, link)),
    )
