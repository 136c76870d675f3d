-- ===== src/Names/Tests.antt =====
-- Names, links and lookups on an example: the root holds a directory `d` and a link `l` to it.
use ring3k.Prelude.{
  ℕ, zero, suc, ◌≡◌, ◌≢◌, ◌==◌, refl, subst, inl, inr, Bool-cases, ==→≡, ◌&&◌, true, false, some,
  [], ◌∷◌, arith,
}
use ring3k.Completion.{is_linked}
use ring3k.Names.{
  directory, symlink, other, Object, Tree, Space, entries, separator, accept, obj_case_insensitive,
  obj_openlink, has_flag, lookup_in, compare, same, addref_object, is_symlink, refuse,
}
use ring3k.Names.Open.{Attributes}
use ring3k.Names.Open.Resolve.{IsName, IsPlain, Resolves, addrefs}
use ring3k.Names.Open.Find.{Finds, find_object_by_name_lem}
use ring3k.Names.Create.Order.{IsTree}
use ring3k.Names.Create.Naming.{Names, KeepsPaths, name_object_lem, name_object-find_object_by_name}
use ring3k.Status.{status_object_name_not_found, status_invalid_parameter}

abbrev objects : ℕ → Object
objects zero = record { kind = other; name = []; parent = 0; attr = 0 }
objects (suc zero) = record { kind = directory (2 ∷ 3 ∷ []); name = []; parent = 0; attr = 0 }
objects (suc (suc zero)) = record { kind = directory []; name = 100 ∷ []; parent = 1; attr = 0 }
objects (suc (suc (suc zero))) = record {
  kind = symlink (92 ∷ 100 ∷ []);
  name = 108 ∷ [];
  parent = 1;
  attr = 0;
}
objects (suc (suc (suc (suc n)))) = record { kind = other; name = []; parent = 0; attr = 0 }

abbrev lower : ℕ → ℕ
lower c = c

abbrev tree : Tree
tree = record { objects = objects; root = 1; tolower = lower }

root_entry : (obj : ℕ) → is_linked (2 ∷ 3 ∷ []) obj ≡ true → (obj ≢ 0) × ((objects obj).parent ≡ 1)
unfolding is_linked
root_entry obj h = elim (Bool-cases (2 == obj)) [
  | inl e ↦ subst (λ n. (n ≢ 0) × ((objects n).parent ≡ 1)) (==→≡ 2 obj e) (omega arith, refl)
  | inr e ↦ elim (Bool-cases (3 == obj)) [
    | inl e' ↦ subst (λ n. (n ≢ 0) × ((objects n).parent ≡ 1)) (==→≡ 3 obj e') (omega arith, refl)
    | inr e' ↦ cc (rw (e, e') at h)
  ]
]

listed :
    (dir obj : ℕ)
    → is_linked (entries (objects dir).kind) obj ≡ true
    → (obj ≢ 0) × ((objects obj).parent ≡ dir)
unfolding is_linked
listed zero obj h = cc h
listed (suc zero) obj h = root_entry obj h
listed (suc (suc zero)) obj h = cc h
listed (suc (suc (suc zero))) obj h = cc h
listed (suc (suc (suc (suc n)))) obj h = cc h

children :
    (obj : ℕ)
    → (objects obj).parent ≢ 0
    → is_linked (entries (objects (objects obj).parent).kind) obj ≡ true
unfolding is_linked
children zero h = absurd (h refl)
children (suc zero) h = absurd (h refl)
children (suc (suc zero)) h = refl
children (suc (suc (suc zero))) h = refl
children (suc (suc (suc (suc n)))) h = absurd (h refl)

tree-IsTree : IsTree tree
tree-IsTree = record { null = refl; entry = listed; child = children }

abbrev space : Space
space = record {
  tree = tree;
  current = record { thread = 8; process = 9 };
  handles = record {
    info = [];
    heap = record { refcount = λ n. 1; deleted = []; access_allowed = λ o r h. true };
  };
}

letter : (c : ℕ) → c ≢ separator → IsName (c ∷ [])
unfolding IsName IsPlain
letter c h = (refl, (h, tt))

-- The path of a place in the directory, by the link.
abbrev oa : Attributes
oa = record {
  attributes = obj_case_insensitive;
  root = 0;
  name = some (separator ∷ 108 ∷ separator ∷ 120 ∷ []);
}

in_d : (c : ℕ) → c ≢ separator → Resolves tree true 2 (c ∷ []) [] 2 0 (c ∷ []) []
unfolding lookup_in
in_d c h = Resolves.last refl (letter c h) refl

by_link : Resolves tree true 1 (108 ∷ []) ((120 ∷ []) ∷ []) 2 0 (120 ∷ []) (2 ∷ [])
unfolding lookup_in compare same
by_link = Resolves.next {list = 2 ∷ 3 ∷ []} refl (letter 108 (omega arith)) refl (omega arith) (
    Resolves.link {via_leaked = []} refl
      (Resolves.last {obj = 2} {name = 100 ∷ []} {list = 2 ∷ 3 ∷ []} refl (letter 100 (omega arith))
        refl)
      (omega arith) (in_d 120 (omega arith)))

name_object_lem_example :
    (s' : Space) × Names space 4 oa (accept s' 4)
    × IsTree s'.tree
    × KeepsPaths space.tree s'.tree
    × Resolves s'.tree
        (has_flag oa.attributes obj_case_insensitive)
        s'.tree.root
        (108 ∷ [])
        ((120 ∷ []) ∷ [])
        2
        4
        (120 ∷ [])
        (2 ∷ [])
name_object_lem_example =
    name_object_lem space 4 2 oa (108 ∷ []) (120 ∷ []) (2 ∷ []) ((120 ∷ []) ∷ []) tree-IsTree
      (omega arith) refl refl refl by_link

name_object-find_object_by_name_example :
    (s' : Space) × Names space 4 oa (accept s' 4)
    × Finds s' oa (accept (addref_object (addrefs (2 ∷ []) s') 4) 4)
name_object-find_object_by_name_example =
    name_object-find_object_by_name space 4 2 oa (108 ∷ []) (120 ∷ []) (2 ∷ []) ((120 ∷ []) ∷ [])
      tree-IsTree (omega arith) refl refl refl by_link refl

-- Nothing is there yet.
abbrev absent : Space
absent = addrefs (2 ∷ []) space

abbrev nothing : ℕ
nothing = 0

find_object_by_name_lem_example :
    let is_link = is_symlink other && has_flag oa.attributes obj_openlink in
    (nothing ≡ 0 → Finds space oa (refuse absent status_object_name_not_found))
    × (nothing ≢ 0
        → is_link ≡ false
        → Finds space oa (accept (addref_object absent nothing) nothing))
    × (nothing ≢ 0 → is_link ≡ true → Finds space oa (refuse absent status_invalid_parameter))
find_object_by_name_lem_example = find_object_by_name_lem space oa by_link refl refl
