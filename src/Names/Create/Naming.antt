-- ===== src/Names/Create/Naming.antt =====
-- `name_object` of kernel/objdir.cpp on absolute paths, and the tree after it.
use ring3k.Prelude.{
  ℕ, ◌≤◌, ◌≡◌, ◌≢◌, ◌++◌, ◌==◌, ◌&&◌, inl, inr, Bool-cases, ==→≡, refl, ap, sym, ◌∙◌, subst, Bool,
  true, false, some, List, [], ◌∷◌, arith,
}
use ring3k.Names.{
  directory, Tree, Space, Opened, name_new, separator, has_flag, obj_case_insensitive, obj_openlink,
  addref_object, entries, is_directory, is_symlink, lookup_in, accept, accept_if, on_open,
  name_on_open,
}
use ring3k.Names.Open.{Attributes}
use ring3k.Names.Open.Resolve.{join, addrefs, addrefs-tree, Resolves}
use ring3k.Names.Open.Find.{open_root_lem, Finds, find_object_by_name_lem}
use ring3k.Names.Create.{set_attr, name_as, name_object}
use ring3k.Names.Create.Append.{
  IsAppended, set_attr-kind, set_attr-name, set_attr-parent, appended, appended-IsAppended,
  name_and_append_lem,
}
use ring3k.Names.Create.Order.{IsTree, appended-IsTree}
use ring3k.Names.Create.Kept.{Keeps, Resolves-Keeps, lookup_named, appended-Keeps, appended_found}

-- Every deep enough call of `name_object` gives that result.
unfoldable pub Names : Space → ℕ → Attributes → Opened → Type 0
Names s obj oa result = (n : ℕ) × ((m : ℕ) → n ≤ m → name_object m s obj oa ≡ some result)

same_lookup :
    (s : Space) (obj attr : ℕ) (list name : List ℕ) (ignore_case : Bool)
    → lookup_in (set_attr s obj attr).tree list name ignore_case
      ≡ lookup_in s.tree list name ignore_case
unfolding set_attr
same_lookup s obj attr list name i =
    lookup_named s.tree (set_attr s obj attr).tree list name i refl
      (λ n on. set_attr-name s obj attr n)

set_attr-Keeps : (s : Space) (obj attr : ℕ) → Keeps s.tree (set_attr s obj attr).tree
unfolding set_attr
set_attr-Keeps s obj attr = record {
  root = refl;
  link = λ n target k. set_attr-kind s obj attr n ∙ k;
  found = λ n o list name i k exists e.
      (list, set_attr-kind s obj attr n ∙ k, same_lookup s obj attr list name i ∙ e);
}

-- The attributes of the object do not matter to the tree.
over_attr :
    (s : Space) (obj attr dir : ℕ) (name : List ℕ) (t' : Tree)
    → IsAppended (set_attr s obj attr).tree t' dir obj name
    → IsAppended s.tree t' dir obj name
unfolding set_attr
over_attr s obj attr dir name t' change = record {
  root = change.root;
  lower = change.lower;
  kind_at =
      change.kind_at ∙ ap (λ k. directory (entries k ++ obj ∷ [])) (set_attr-kind s obj attr dir);
  kind_else = λ n h. change.kind_else n h ∙ set_attr-kind s obj attr n;
  parent_at = change.parent_at;
  parent_else = λ n h. change.parent_else n h ∙ set_attr-parent s obj attr n;
  name_at = change.name_at;
  name_else = λ n h. change.name_else n h ∙ set_attr-name s obj attr n;
}

-- Every path that led to an object still leads there.
unfoldable pub KeepsPaths : Tree → Tree → Type 0
KeepsPaths t t' =
    (ignore_case : Bool) (start dir obj : ℕ) (first name leaked : List ℕ) (rest : List (List ℕ))
    → obj ≢ 0
    → Resolves t ignore_case start first rest dir obj name leaked
    → Resolves t' ignore_case start first rest dir obj name leaked

paths_kept : (t t' : Tree) → Keeps t t' → KeepsPaths t t'
unfolding KeepsPaths
paths_kept t t' keeps i start dir obj first name leaked rest exists r =
    Resolves-Keeps t t' i obj keeps r (λ list k e. keeps.found dir obj list name i k exists e)

place :
    {t : Tree} {i : Bool} {start dir obj : ℕ} {first name leaked : List ℕ} {rest : List (List ℕ)}
    → Resolves t i start first rest dir obj name leaked
    → is_directory (t.objects dir).kind ≡ true
place (Resolves.last k h e) = ap is_directory k
place (Resolves.next k h e n r) = place r
place (Resolves.link k r n r') = place r'

module _ (s : Space) (new dir : ℕ) (oa : Attributes) (first name leaked : List ℕ)
    (rest : List (List ℕ)) (tree : IsTree s.tree) (exists : new ≢ 0)
    (free : (s.tree.objects new).parent ≡ 0) (absolute : oa.root ≡ 0)
    (named : oa.name ≡ some (separator ∷ join first rest))
    (path : Resolves s.tree
      (has_flag oa.attributes obj_case_insensitive)
      s.tree.root
      first
      rest
      dir
      0
      name
      leaked) where
  -- The space after `name_object`.
  abbrev pub after : Space
  after =
      let s' = addrefs leaked (set_attr s new oa.attributes) in
      record s' { tree = appended s'.tree dir new name }

  change : IsAppended s.tree after.tree dir new name
  change = over_attr s new oa.attributes dir name after.tree (
      subst (λ t. IsAppended t after.tree dir new name)
        (addrefs-tree leaked (set_attr s new oa.attributes))
        (appended-IsAppended (addrefs leaked (set_attr s new oa.attributes)).tree dir new name))

  keeps : Keeps s.tree after.tree
  keeps = appended-Keeps s.tree after.tree dir new name tree change exists free (place path)

  path_after :
      Resolves after.tree
        (has_flag oa.attributes obj_case_insensitive)
        after.tree.root
        first
        rest
        dir
        new
        name
        leaked
  path_after =
      subst
        (λ root.
          Resolves after.tree (has_flag oa.attributes obj_case_insensitive) root first rest dir new
            name leaked)
        (sym change.root)
        (Resolves-Keeps s.tree after.tree (has_flag oa.attributes obj_case_insensitive) new keeps
          path
          (λ list k e.
            appended_found s.tree after.tree dir new name tree change exists free (place path) list
              (has_flag oa.attributes obj_case_insensitive) k e))

  path_attr :
      let s0 = set_attr s new oa.attributes in
      Resolves s0.tree
        (has_flag oa.attributes obj_case_insensitive)
        s0.tree.root
        first
        rest
        dir
        0
        name
        leaked
  unfolding set_attr
  path_attr =
      let s0 = set_attr s new oa.attributes in
      let ignore_case = has_flag oa.attributes obj_case_insensitive in
      Resolves-Keeps s.tree s0.tree ignore_case 0 (set_attr-Keeps s new oa.attributes) path
        (λ list k e. (
          list,
          set_attr-kind s new oa.attributes dir ∙ k,
          same_lookup s new oa.attributes list name ignore_case ∙ e,
        ))

  names : Names s new oa (accept after new)
  unfolding Names name_object name_as on_open name_on_open
  names =
      let (n, steps) =
        open_root_lem (set_attr s new oa.attributes) oa (name_new new) path_attr absolute in
      let s' = addrefs leaked (set_attr s new oa.attributes) in
      let alone =
        ap (λ t. (t.objects new).parent) (addrefs-tree leaked (set_attr s new oa.attributes))
        ∙ set_attr-parent s new oa.attributes new
        ∙ free in
      let runs = name_and_append_lem s' dir new name alone in
      (n, λ m le. rw named (steps m le ∙ ap (λ r. some (accept_if s' new r)) runs))

  -- If the lists of the directories and the parents of the objects belong together: for an absolute
  -- path that ends at a free place of a directory, `name_object` of an object that has no parent
  -- ends with success. Lists and parents still belong together, every path that led to an object
  -- leads to it, and this path now leads to the new object.
  pub name_object_lem :
      (s' : Space) × Names s new oa (accept s' new)
      × IsTree s'.tree
      × KeepsPaths s.tree s'.tree
      × Resolves s'.tree
          (has_flag oa.attributes obj_case_insensitive)
          s'.tree.root
          first
          rest
          dir
          new
          name
          leaked
  name_object_lem = (
    after,
    names,
    appended-IsTree s.tree after.tree dir new name tree change exists free (place path),
    paths_kept s.tree after.tree keeps,
    path_after,
  )

  still_no_link :
      is_symlink (s.tree.objects new).kind && has_flag oa.attributes obj_openlink ≡ false
      → is_symlink (after.tree.objects new).kind && has_flag oa.attributes obj_openlink ≡ false
  still_no_link h = elim (Bool-cases (new == dir)) [
    | inl e ↦
        let same = ap (λ a. (after.tree.objects a).kind) (==→≡ new dir e) in
        ap (λ k. is_symlink k && has_flag oa.attributes obj_openlink) (same ∙ change.kind_at)
    | inr e ↦ rw (change.kind_else new (ground arith)) h
  ]

  -- Under the same conditions, and unless the object is a link and OBJ_OPENLINK is asked for,
  -- `find_object_by_name` with the attributes that the object was named with gives the object, with
  -- one more reference.
  pub name_object-find_object_by_name :
      is_symlink (s.tree.objects new).kind && has_flag oa.attributes obj_openlink ≡ false
      → (s' : Space) × Names s new oa (accept s' new)
        × Finds s' oa (accept (addref_object (addrefs leaked s') new) new)
  name_object-find_object_by_name plain =
      let (none_there, found, link) = find_object_by_name_lem after oa path_after absolute named in
      (after, names, found exists (still_no_link plain))
