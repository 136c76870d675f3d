-- ===== src/Names/Create/Kept.antt =====
-- What paths mean before and after an object gets its name, in kernel/objdir.cpp.
use ring3k.Prelude.{
  ℕ, ◌≡◌, ◌≢◌, refl, ap, sym, ◌∙◌, subst, inl, inr, Bool, true, false, ◌||◌, ◌==◌, Bool-cases, ==→≡,
  ≡→==, List, [], ◌∷◌, ◌++◌, map, length, arith,
}
use ring3k.Completion.{is_linked}
use ring3k.Names.{directory, symlink, Tree, entries, is_directory, same, compare, lookup_in}
use ring3k.Names.Open.Resolve.{Resolves}
use ring3k.Names.Create.Append.{IsAppended}
use ring3k.Names.Create.Order.{IsTree, not_linked}

-- What a path names still has that name.
pub record Keeps (t t' : Tree) : Type 0 where
  pub root : t'.root ≡ t.root
  pub link :
      (n : ℕ) (target : List ℕ)
      → (t.objects n).kind ≡ symlink target
      → (t'.objects n).kind ≡ symlink target
  pub found :
      (n obj : ℕ) (list name : List ℕ) (ignore_case : Bool)
      → (t.objects n).kind ≡ directory list
      → obj ≢ 0
      → lookup_in t list name ignore_case ≡ obj
      → (list' : List ℕ) × ((t'.objects n).kind ≡ directory list')
        × (lookup_in t' list' name ignore_case ≡ obj)

pub Resolves-Keeps :
    (t t' : Tree) (ignore_case : Bool) {start dir obj : ℕ} (obj' : ℕ) {first name leaked : List ℕ}
    {rest : List (List ℕ)}
    → Keeps t t'
    → Resolves t ignore_case start first rest dir obj name leaked
    → ((list : List ℕ)
        → (t.objects dir).kind ≡ directory list
        → lookup_in t list name ignore_case ≡ obj
        → (list' : List ℕ) × ((t'.objects dir).kind ≡ directory list')
          × (lookup_in t' list' name ignore_case ≡ obj'))
    → Resolves t' ignore_case start first rest dir obj' name leaked
Resolves-Keeps t t' i obj' keeps (Resolves.last {list = list} k h e) here =
    let (list', k', e') = here list k e in Resolves.last k' h e'
Resolves-Keeps t t' i obj' keeps (Resolves.next {start} {via} {first = first} {list} k h e v r)
      here =
    let (list', k', e') = keeps.found start via list first i k v e in
    Resolves.next k' h e' v (Resolves-Keeps t t' i obj' keeps r here)
Resolves-Keeps t t' i obj' keeps
      (Resolves.link {start} {via} {via_dir} {to = to} {via_name} {via_leaked} {tos = tos} k r v r')
      here =
    let r1 =
      Resolves-Keeps t t' i via keeps r
        (λ list k e. keeps.found via_dir via list via_name i k v e) in
    let at_root =
      subst (λ root. Resolves t' i root to tos via_dir via via_name via_leaked) (sym keeps.root)
        r1 in
    Resolves.link (keeps.link start _ k) at_root v (Resolves-Keeps t t' i obj' keeps r' here)

same_refl : (a : List ℕ) → same a a ≡ true
unfolding same
same_refl [] = refl
same_refl (c ∷ cs) = rw (≡→== c c refl) (same_refl cs)

compare_refl :
    (lower : ℕ → ℕ) (a : List ℕ) (ignore_case : Bool) → compare lower a a ignore_case ≡ true
unfolding compare
compare_refl lower a true = rw (≡→== (length a) (length a) refl) (same_refl (map lower a))
compare_refl lower a false = rw (≡→== (length a) (length a) refl) (same_refl a)

-- A lookup depends on the names of the objects in the list only.
pub lookup_named :
    (t t' : Tree) (list name : List ℕ) (ignore_case : Bool)
    → t'.tolower ≡ t.tolower
    → ((n : ℕ) → is_linked list n ≡ true → (t'.objects n).name ≡ (t.objects n).name)
    → lookup_in t' list name ignore_case ≡ lookup_in t list name ignore_case
unfolding lookup_in is_linked
lookup_named t t' [] name i lower h = refl
lookup_named t t' (x ∷ xs) name i lower h =
    let here = h x (ap (λ b. b || is_linked xs x) (≡→== x x refl)) in
    let later = lookup_named t t' xs name i lower (λ n on. h n (ground (arith, on))) in
    rw (lower, here, later)

lookup_found :
    (t : Tree) (list more name : List ℕ) (ignore_case : Bool) (obj : ℕ)
    → obj ≢ 0
    → lookup_in t list name ignore_case ≡ obj
    → lookup_in t (list ++ more) name ignore_case ≡ obj
unfolding lookup_in
lookup_found t [] more name i obj h e = absurd (h (sym e))
lookup_found t (x ∷ xs) more name i obj h e =
    elim (Bool-cases (compare t.tolower (t.objects x).name name i)) [
      | inl c ↦ rw c (rw c at e)
      | inr c ↦ rw c (lookup_found t xs more name i obj h (rw c at e))
    ]

lookup_new :
    (t : Tree) (list name : List ℕ) (ignore_case : Bool) (obj : ℕ)
    → is_linked list 0 ≡ false
    → lookup_in t list name ignore_case ≡ 0
    → (t.objects obj).name ≡ name
    → lookup_in t (list ++ obj ∷ []) name ignore_case ≡ obj
unfolding lookup_in is_linked
lookup_new t [] name i obj h e own = rw (own, compare_refl t.tolower name i)
lookup_new t (x ∷ xs) name i obj h e own =
    elim (Bool-cases (compare t.tolower (t.objects x).name name i)) [
      | inl c ↦
          let zero_first = rw c at e in cc (h, ap (λ b. b || is_linked xs 0) (≡→== x 0 zero_first))
      | inr c ↦ rw c (lookup_new t xs name i obj (ground (arith, h)) (rw c at e) own)
    ]

module _ (t t' : Tree) (dir obj : ℕ) (name : List ℕ) (tree : IsTree t)
    (change : IsAppended t t' dir obj name) (new : obj ≢ 0) (free : (t.objects obj).parent ≡ 0)
    (dir-IsDirectory : is_directory (t.objects dir).kind ≡ true) where
  unlisted :
      (n : ℕ) (list : List ℕ) → (t.objects n).kind ≡ directory list → is_linked list obj ≡ false
  unlisted n list k =
      ap (λ a. is_linked (entries a) obj) (sym k)
      ∙ not_linked t t' dir obj name tree change new free dir-IsDirectory n

  no_null : (n : ℕ) (list : List ℕ) → (t.objects n).kind ≡ directory list → is_linked list 0 ≡ false
  no_null n list k = elim (Bool-cases (is_linked list 0)) [
    | inr e ↦ e
    | inl e ↦
        let (some_obj, up) = tree.entry n 0 (ap (λ a. is_linked (entries a) 0) k ∙ e) in
        absurd (some_obj refl)
  ]

  in_list :
      (n : ℕ) (list nm : List ℕ) (ignore_case : Bool)
      → (t.objects n).kind ≡ directory list
      → lookup_in t' list nm ignore_case ≡ lookup_in t list nm ignore_case
  in_list n list nm i k =
      lookup_named t t' list nm i change.lower
        (λ m on. change.name_else m (λ e. cc (rw e at on, unlisted n list k)))

  at_dir_kind :
      (list : List ℕ)
      → (t.objects dir).kind ≡ directory list
      → (t'.objects dir).kind ≡ directory (list ++ obj ∷ [])
  at_dir_kind list k = change.kind_at ∙ ap (λ a. directory (entries a ++ obj ∷ [])) k

  pub appended-Keeps : Keeps t t'
  appended-Keeps = record {
    root = change.root;
    link = λ n target k.
        change.kind_else n (λ e.
          cc (
            ap is_directory (sym k)
            ∙ ap (λ a. is_directory (t.objects a).kind) e
            ∙ dir-IsDirectory))
        ∙ k;
    found = λ n o list nm i k exists e. elim (Bool-cases (n == dir)) [
      | inr off ↦ (list, change.kind_else n (ground arith) ∙ k, in_list n list nm i k ∙ e)
      | inl on ↦
          let same = ==→≡ n dir on in
          (
            list ++ obj ∷ [],
            ap (λ a. (t'.objects a).kind) same
                ∙ at_dir_kind list (ap (λ a. (t.objects a).kind) (sym same) ∙ k),
            lookup_found t' list (obj ∷ []) nm i o exists (in_list n list nm i k ∙ e),
          )
    ];
  }

  pub appended_found :
      (list : List ℕ) (ignore_case : Bool)
      → (t.objects dir).kind ≡ directory list
      → lookup_in t list name ignore_case ≡ 0
      → (list' : List ℕ) × ((t'.objects dir).kind ≡ directory list')
        × (lookup_in t' list' name ignore_case ≡ obj)
  appended_found list i k e = (
    list ++ obj ∷ [],
    at_dir_kind list k,
    lookup_new t' list name i obj (no_null dir list k) (in_list dir list name i k ∙ e)
        change.name_at,
  )
