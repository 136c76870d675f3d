-- ===== src/Names/Create/Order.antt =====
-- The lists of the directories and the parents of the objects, when an object gets
-- its name, in kernel/objdir.cpp.
use ring3k.Prelude.{
  ℕ, ◌≡◌, ◌≢◌, ◌⊎◌, refl, ap, sym, ◌∙◌, subst, inl, inr, Bool, true, false, ◌||◌, ◌==◌, Bool-cases,
  ==→≡, ≡→==, List, [], ◌∷◌, ◌++◌, arith,
}
use ring3k.Completion.{is_linked}
use ring3k.Names.{Kind, directory, symlink, other, Tree, entries, is_directory}
use ring3k.Names.Create.Append.{IsAppended}

-- The lists of the directories and the parents of the objects belong together.
pub record IsTree (t : Tree) : Type 0 where
  pub null : is_directory (t.objects 0).kind ≡ false
  pub entry :
      (dir obj : ℕ)
      → is_linked (entries (t.objects dir).kind) obj ≡ true
      → (obj ≢ 0) × ((t.objects obj).parent ≡ dir)
  pub child :
      (obj : ℕ)
      → (t.objects obj).parent ≢ 0
      → is_linked (entries (t.objects (t.objects obj).parent).kind) obj ≡ true

or_false : (b : Bool) → (b || false) ≡ b
or_false true = refl
or_false false = refl

or_true : (b : Bool) → (b || true) ≡ true
or_true true = refl
or_true false = refl

is_linked-append :
    (xs : List ℕ) (x n : ℕ) → is_linked (xs ++ x ∷ []) n ≡ (is_linked xs n || (x == n))
unfolding is_linked
is_linked-append [] x n = or_false (x == n)
is_linked-append (y ∷ xs) x n = ground (arith, is_linked-append xs x n)

directory-entries : (k : Kind) (n : ℕ) → is_linked (entries k) n ≡ true → is_directory k ≡ true
unfolding is_linked
directory-entries (directory list) n h = refl
directory-entries (symlink target) n h = h
directory-entries other n h = h

module _ (t t' : Tree) (dir obj : ℕ) (name : List ℕ) (tree : IsTree t)
    (change : IsAppended t t' dir obj name) (new : obj ≢ 0) (free : (t.objects obj).parent ≡ 0)
    (dir-IsDirectory : is_directory (t.objects dir).kind ≡ true) where
  pub not_linked : (n : ℕ) → is_linked (entries (t.objects n).kind) obj ≡ false
  not_linked n = elim (Bool-cases (is_linked (entries (t.objects n).kind) obj)) [
    | inr e ↦ e
    | inl e ↦
        let (some_obj, up) = tree.entry n obj e in
        let at_null =
          subst (λ k. is_linked (entries (t.objects k).kind) obj ≡ true) (sym up ∙ free) e in
        cc (directory-entries (t.objects 0).kind obj at_null, tree.null)
  ]

  at_dir :
      (k : ℕ)
      → is_linked (entries (t'.objects dir).kind) k
        ≡ (is_linked (entries (t.objects dir).kind) k || (obj == k))
  at_dir k = rw change.kind_at (is_linked-append (entries (t.objects dir).kind) obj k)

  elsewhere :
      (n k : ℕ)
      → n ≢ dir
      → is_linked (entries (t'.objects n).kind) k ≡ is_linked (entries (t.objects n).kind) k
  elsewhere n k h = ap (λ a. is_linked (entries a) k) (change.kind_else n h)

  stays :
      (n k : ℕ)
      → is_linked (entries (t.objects n).kind) k ≡ true
      → is_linked (entries (t'.objects n).kind) k ≡ true
  stays n k h = elim (Bool-cases (n == dir)) [
    | inl e ↦
        let same = ==→≡ n dir e in
        subst (λ a. is_linked (entries (t'.objects a).kind) k ≡ true) (sym same)
          (at_dir k
            ∙ ap (λ b. b || (obj == k))
                (subst (λ a. is_linked (entries (t.objects a).kind) k ≡ true) same h))
    | inr e ↦ elsewhere n k (ground arith) ∙ h
  ]

  old_or_new :
      (n k : ℕ)
      → is_linked (entries (t'.objects n).kind) k ≡ true
      → (is_linked (entries (t.objects n).kind) k ≡ true) ⊎ ((n ≡ dir) × (obj ≡ k))
  old_or_new n k h = elim (Bool-cases (n == dir)) [
    | inr e ↦ inl (sym (elsewhere n k (ground arith)) ∙ h)
    | inl e ↦
        let same = ==→≡ n dir e in
        let h' =
          sym (at_dir k) ∙ subst (λ a. is_linked (entries (t'.objects a).kind) k ≡ true) same h in
        elim (Bool-cases (obj == k)) [
          | inl e' ↦ inr (same, ==→≡ obj k e')
          | inr e' ↦ inl (
              subst (λ a. is_linked (entries (t.objects a).kind) k ≡ true) (sym same)
                (sym (or_false _) ∙ rw e' at h'))
        ]
  ]

  pub appended-IsTree : IsTree t'
  appended-IsTree = record {
    null = elim (Bool-cases (0 == dir)) [
      | inl e ↦
          let at_null =
            subst (λ a. is_directory (t.objects a).kind ≡ true) (sym (==→≡ 0 dir e))
              dir-IsDirectory in
          cc (at_null, tree.null)
      | inr e ↦ ap is_directory (change.kind_else 0 (ground arith)) ∙ tree.null
    ];
    entry = λ n k h. elim (old_or_new n k h) [
      | inl old ↦
          let (there, up) = tree.entry n k old in
          let not_new : k ≢ obj = λ e. cc (rw e at old, not_linked n) in
          (there, change.parent_else k not_new ∙ up)
      | inr (e, e') ↦
          (λ z. new (e' ∙ z), ap (λ a. (t'.objects a).parent) (sym e') ∙ change.parent_at ∙ sym e)
    ];
    child = λ k h. elim (Bool-cases (k == obj)) [
      | inl e ↦
          let same = ==→≡ k obj e in
          let up = ap (λ a. (t'.objects a).parent) same ∙ change.parent_at in
          subst (λ a. is_linked (entries (t'.objects a).kind) k ≡ true) (sym up)
            (at_dir k
              ∙ rw (≡→== obj k (sym same)) (or_true (is_linked (entries (t.objects dir).kind) k)))
      | inr e ↦
          let up = change.parent_else k (ground arith) in
          subst (λ a. is_linked (entries (t'.objects a).kind) k ≡ true) (sym up)
            (stays (t.objects k).parent k (tree.child k (λ z. h (up ∙ z))))
    ];
  }
