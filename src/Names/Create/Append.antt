-- ===== src/Names/Create/Append.antt =====
-- What naming an object changes in the tree, in kernel/objdir.cpp.
use ring3k.Prelude.{ℕ, ◌≡◌, ◌≢◌, refl, ap, ◌∙◌, true, ◌==◌, ≡→==, List, [], ◌∷◌, ◌++◌}
use ring3k.Prelude.Checked.{returns}
use ring3k.Completion.{put}
use ring3k.Completion.Put.{put_at, put_else, put_same}
use ring3k.Names.{
  directory, Tree, Space, entries, set_list, set_parent, link_object, append, set_name,
  name_and_append,
}
use ring3k.Names.Create.{set_attr}

-- `obj` came last into the list of `dir`, under the name.
pub record IsAppended (t t' : Tree) (dir obj : ℕ) (name : List ℕ) : Type 0 where
  pub root : t'.root ≡ t.root
  pub lower : t'.tolower ≡ t.tolower
  pub kind_at : (t'.objects dir).kind ≡ directory (entries (t.objects dir).kind ++ obj ∷ [])
  pub kind_else : (n : ℕ) → n ≢ dir → (t'.objects n).kind ≡ (t.objects n).kind
  pub parent_at : (t'.objects obj).parent ≡ dir
  pub parent_else : (n : ℕ) → n ≢ obj → (t'.objects n).parent ≡ (t.objects n).parent
  pub name_at : (t'.objects obj).name ≡ name
  pub name_else : (n : ℕ) → n ≢ obj → (t'.objects n).name ≡ (t.objects n).name

-- A name is set, then an entry, then a parent.
pub appended : (t : Tree) (dir obj : ℕ) (name : List ℕ) → Tree
appended t dir obj name = link_object (set_name t obj name) dir obj

pub appended-IsAppended :
    (t : Tree) (dir obj : ℕ) (name : List ℕ) → IsAppended t (appended t dir obj name) dir obj name
unfolding appended link_object set_name set_list set_parent
appended-IsAppended t dir obj name =
    let f1 = put t.objects obj (record (t.objects obj) { name = name }) in
    let list = entries (f1 dir).kind ++ obj ∷ [] in
    let f2 = put f1 dir (record (f1 dir) { kind = directory list }) in
    let v1 = record (t.objects obj) { name = name } in
    let v2 = record (f1 dir) { kind = directory list } in
    let v3 = record (f2 obj) { parent = dir } in
    record {
      root = refl;
      lower = refl;
      kind_at =
          put_same (λ o. o.kind) f2 obj dir v3 refl
          ∙ ap (λ o. o.kind) (put_at f1 dir v2)
          ∙ ap (λ k. directory (entries k ++ obj ∷ []))
              (put_same (λ o. o.kind) t.objects obj dir v1 refl);
      kind_else = λ n h.
          put_same (λ o. o.kind) f2 obj n v3 refl
          ∙ ap (λ o. o.kind) (put_else f1 dir n v2 h)
          ∙ put_same (λ o. o.kind) t.objects obj n v1 refl;
      parent_at = ap (λ o. o.parent) (put_at f2 obj v3);
      parent_else = λ n h.
          ap (λ o. o.parent) (put_else f2 obj n v3 h)
          ∙ put_same (λ o. o.parent) f1 dir n v2 refl
          ∙ put_same (λ o. o.parent) t.objects obj n v1 refl;
      name_at =
          put_same (λ o. o.name) f2 obj obj v3 refl
          ∙ put_same (λ o. o.name) f1 dir obj v2 refl
          ∙ ap (λ o. o.name) (put_at t.objects obj v1);
      name_else = λ n h.
          put_same (λ o. o.name) f2 obj n v3 refl
          ∙ put_same (λ o. o.name) f1 dir n v2 refl
          ∙ ap (λ o. o.name) (put_else t.objects obj n v1 h);
    }

pub set_attr-kind :
    (s : Space) (obj attr n : ℕ)
    → ((set_attr s obj attr).tree.objects n).kind ≡ (s.tree.objects n).kind
unfolding set_attr
set_attr-kind s obj attr n =
    put_same (λ o. o.kind) s.tree.objects obj n (record (s.tree.objects obj) { attr = attr }) refl

pub set_attr-name :
    (s : Space) (obj attr n : ℕ)
    → ((set_attr s obj attr).tree.objects n).name ≡ (s.tree.objects n).name
unfolding set_attr
set_attr-name s obj attr n =
    put_same (λ o. o.name) s.tree.objects obj n (record (s.tree.objects obj) { attr = attr }) refl

pub set_attr-parent :
    (s : Space) (obj attr n : ℕ)
    → ((set_attr s obj attr).tree.objects n).parent ≡ (s.tree.objects n).parent
unfolding set_attr
set_attr-parent s obj attr n =
    put_same (λ o. o.parent) s.tree.objects obj n (record (s.tree.objects obj) { attr = attr }) refl

-- An object without a parent passes the assertion.
pub name_and_append_lem :
    (s : Space) (dir obj : ℕ) (name : List ℕ)
    → (s.tree.objects obj).parent ≡ 0
    → name_and_append s dir obj name ≡ returns (record s { tree = appended s.tree dir obj name })
unfolding name_and_append appended append set_name
name_and_append_lem s dir obj name free =
    let named = record (s.tree.objects obj) { name = name } in
    let same = put_same (λ o. o.parent) s.tree.objects obj obj named refl in
    let passed : ((set_name s.tree obj name).objects obj).parent == 0 ≡ true =
      ≡→== _ _ (same ∙ free) in
    rw passed
