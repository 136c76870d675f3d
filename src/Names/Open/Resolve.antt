-- ===== src/Names/Open/Resolve.antt =====
-- What a path means to the virtual `open` of kernel/objdir.cpp and kernel/symlink.cpp.
use ring3k.Prelude.{
  ℕ, zero, suc, ◌+◌, ◌≤◌, ◌≡◌, ◌≢◌, refl, ap, sym, ◌∙◌, Bool, false, ◌==◌, Option, none, some, List,
  [], ◌∷◌, ◌++◌, arith,
}
use ring3k.Completion.{is_empty}
use ring3k.Names.{
  directory, symlink, Tree, Space, Info, Opened, follow_link, separator, case_insensitive,
  lookup_in, addref_object, link_on_open, on_open,
}
use ring3k.Names.Open.{
  segment, start_at, open_root, enter, open_directory, go_on, open_symlink, open_kind, open_object,
}

-- No character is a separator.
unfoldable pub IsPlain : List ℕ → Type 0
IsPlain [] = Unit {0}
IsPlain (c ∷ cs) = (c ≢ separator) × IsPlain cs

-- A name of a path: not empty, and without separators.
unfoldable pub IsName : List ℕ → Type 0
IsName name = (is_empty name ≡ false) × IsPlain name

-- The names in order, with separators between them.
abbrev pub join : List ℕ → List (List ℕ) → List ℕ
join name [] = name
join name (next ∷ rest) = name ++ separator ∷ join next rest

abbrev pub addrefs : List ℕ → Space → Space
addrefs [] s = s
addrefs (obj ∷ rest) s = addrefs rest (addref_object s obj)

-- From an object the names lead to the place `name` of the directory `dir`, where `obj` is, or 0 if
-- nothing is there. Links on the way are followed; `leaked` are the objects that their targets name.
pub data Resolves (t : Tree) (ignore_case : Bool)
    : ℕ → List ℕ → List (List ℕ) → ℕ → ℕ → List ℕ → List ℕ → Type 0 where
  last :
      {dir obj : ℕ} {name list : List ℕ}
      → (t.objects dir).kind ≡ directory list
      → IsName name
      → lookup_in t list name ignore_case ≡ obj
      → Resolves t ignore_case dir name [] dir obj name []
  next :
      {start via dir obj : ℕ} {first list second name leaked : List ℕ} {rest : List (List ℕ)}
      → (t.objects start).kind ≡ directory list
      → IsName first
      → lookup_in t list first ignore_case ≡ via
      → via ≢ 0
      → Resolves t ignore_case via second rest dir obj name leaked
      → Resolves t ignore_case start first (second ∷ rest) dir obj name leaked
  link :
      {start via via_dir dir obj : ℕ} {to via_name via_leaked first name leaked : List ℕ}
      {tos rest : List (List ℕ)}
      → (t.objects start).kind ≡ symlink (separator ∷ join to tos)
      → Resolves t ignore_case t.root to tos via_dir via via_name via_leaked
      → via ≢ 0
      → Resolves t ignore_case via first rest dir obj name leaked
      → Resolves t ignore_case start first rest dir obj name (via_leaked ++ via ∷ leaked)

segment_plain : (name : List ℕ) → IsPlain name → segment name ≡ (name, none)
unfolding segment IsPlain
segment_plain [] h = refl
segment_plain (c ∷ cs) (h, hs) =
    let e : (c == separator) ≡ false = ground arith in rw (segment_plain cs hs, e)

segment-join :
    (name rest : List ℕ) → IsPlain name → segment (name ++ separator ∷ rest) ≡ (name, some rest)
unfolding segment IsPlain
segment-join [] rest h = refl
segment-join (c ∷ cs) rest (h, hs) =
    let e : (c == separator) ≡ false = ground arith in rw (segment-join cs rest hs, e)

pub is_empty-join :
    (name : List ℕ) (rest : List (List ℕ))
    → is_empty name ≡ false
    → is_empty (join name rest) ≡ false
is_empty-join [] rest h = cc h
is_empty-join (c ∷ cs) [] h = refl
is_empty-join (c ∷ cs) (n ∷ ns) h = refl

pub first-IsName :
    {t : Tree} {i : Bool} {start dir obj : ℕ} {first name leaked : List ℕ} {rest : List (List ℕ)}
    → Resolves t i start first rest dir obj name leaked
    → IsName first
first-IsName (last k h e) = h
first-IsName (next k h e n r) = h
first-IsName (link k r n r') = first-IsName r'

pub addrefs-tree : (xs : List ℕ) (s : Space) → (addrefs xs s).tree ≡ s.tree
addrefs-tree [] s = refl
addrefs-tree (x ∷ xs) s = addrefs-tree xs (addref_object s x)

addrefs-append :
    (xs : List ℕ) (x : ℕ) (ys : List ℕ) (s : Space)
    → addrefs (xs ++ x ∷ ys) s ≡ addrefs ys (addref_object (addrefs xs s) x)
addrefs-append [] x ys s = refl
addrefs-append (z ∷ xs) x ys s = addrefs-append xs x ys (addref_object s z)

-- Every deep enough call of `open` gives that result.
unfoldable pub Opens : Space → ℕ → Info → Opened → Type 0
Opens s start info result = (n : ℕ) × ((m : ℕ) → n ≤ m → open_object m s start info ≡ some result)

at_depth :
    (s : Space) (start : ℕ) (info : Info) (result : Opened) (n : ℕ)
    → ((m : ℕ)
        → n ≤ m
        → open_kind (open_object m) s start info (s.tree.objects start).kind ≡ some result)
    → (m : ℕ) → suc n ≤ m
    → open_object m s start info ≡ some result
unfolding open_object
at_depth s start info result n f zero le = absurd (omega arith)
at_depth s start info result n f (suc m) le = f m (omega arith)

pub deepen :
    (s : Space) (start : ℕ) (info : Info) (result : Opened) (n : ℕ)
    → ((m : ℕ)
        → n ≤ m
        → open_kind (open_object m) s start info (s.tree.objects start).kind ≡ some result)
    → Opens s start info result
unfolding Opens
deepen s start info result n f = (suc n, at_depth s start info result n f)

module _ (t : Tree) (ignore_case : Bool) (s : Space) (info : Info) (same_tree : s.tree ≡ t)
    (same_case : case_insensitive info ≡ ignore_case) where
  open_last :
      (rec : Space → ℕ → Info → Option Opened) (dir obj : ℕ) (name list : List ℕ)
      → (t.objects dir).kind ≡ directory list
      → IsName name
      → lookup_in t list name ignore_case ≡ obj
      → info.path ≡ name
      → open_kind rec s dir info (s.tree.objects dir).kind
        ≡ some (on_open info.opener s dir obj info)
  unfolding open_kind open_directory enter IsName
  open_last rec dir obj name list k (full, plain) e p =
      rw (same_tree, k, p, segment_plain name plain, full, same_case, e)

  open_next :
      (rec : Space → ℕ → Info → Option Opened) (start via : ℕ) (name list rest : List ℕ)
      → (t.objects start).kind ≡ directory list
      → IsName name
      → lookup_in t list name ignore_case ≡ via
      → via ≢ 0
      → info.path ≡ name ++ separator ∷ rest
      → open_kind rec s start info (s.tree.objects start).kind
        ≡ rec s via (record info { path = rest })
  unfolding open_kind open_directory enter IsName
  open_next rec start via name list rest k (full, plain) e n p =
      let found : (via == 0) ≡ false = ground arith in
      rw (same_tree, k, p, segment-join name rest plain, full, same_case, e, found)

  open_link :
      (rec : Space → ℕ → Info → Option Opened) (s' : Space) (start via via_dir : ℕ) (path : List ℕ)
      (info' : Info)
      → (t.objects start).kind ≡ symlink (separator ∷ path)
      → is_empty path ≡ false
      → is_empty info.path ≡ false
      → via ≢ 0
      → rec s s.tree.root (record info { root = 0; path = path; opener = follow_link })
        ≡ some (on_open follow_link s' via_dir via info')
      → open_kind rec s start info (s.tree.objects start).kind ≡ rec (addref_object s' via) via info
  unfolding open_kind open_symlink open_root start_at go_on on_open link_on_open
  open_link rec s' start via via_dir path info' k full more n e =
      let found : (via == 0) ≡ false = ground arith in
      rw (ap (λ q. (q.objects start).kind) same_tree ∙ k, more, full, e, found)

-- `open` finds what the path means: if the names lead from an object to the place `name` of a
-- directory, then every deep enough call of `open` on the object with the path of these names hands
-- that place to `on_open`, in a space where each object that a link on the way names has one more
-- reference.
pub open_object_lem :
    (t : Tree) (ignore_case : Bool) {start dir obj : ℕ} {first name leaked : List ℕ}
    {rest : List (List ℕ)}
    → Resolves t ignore_case start first rest dir obj name leaked
    → (s : Space) (info : Info) → s.tree ≡ t
    → case_insensitive info ≡ ignore_case
    → info.path ≡ join first rest
    → Opens s start info
        (on_open info.opener (addrefs leaked s) dir obj (record info { path = name }))
unfolding Opens IsName
open_object_lem t i (last {dir} {obj} {name} {list} k h e) s info st sc p =
    deepen s dir info (on_open info.opener s dir obj (record info { path = name })) 0 (λ m le.
      open_last t i s info st sc (open_object m) dir obj name list k h e p
      ∙ ap (λ q. some (on_open info.opener s dir obj (record info { path = q }))) p)
open_object_lem t i (next {start} {via} {list = list} {second} {rest} k h e v r) s info st sc p =
    let info' = record info { path = join second rest } in
    let (n, steps) = open_object_lem t i r s info' st sc refl in
    deepen s start info _ n (λ m le.
      open_next t i s info st sc (open_object m) start via _ list (join second rest) k h e v p
      ∙ steps m le)
open_object_lem t i
      (link {start} {via} {via_dir} {dir} {obj} {to} {via_name} {via_leaked} {first} {name} {leaked}
        {tos} {rest} k r v r')
      s info st sc p =
    let target_info = record info { root = 0; path = join to tos; opener = follow_link } in
    let (n, steps) = open_object_lem t i r s target_info st sc refl in
    let s' = addref_object (addrefs via_leaked s) via in
    let (n', steps') = open_object_lem t i r' s' info (addrefs-tree via_leaked s ∙ st) sc p in
    let (named, plain) = first-IsName r in
    let (named', plain') = first-IsName r' in
    deepen s start info _ (n + n') (λ m le.
      open_link t i s info st sc (open_object m) (addrefs via_leaked s) start via via_dir
        (join to tos) (record target_info { path = via_name }) k (is_empty-join to tos named)
        (ap is_empty p ∙ is_empty-join first rest named') v
        (ap (λ q. open_object m s q.root target_info) st ∙ steps m (omega (arith, le)))
      ∙ steps' m (omega (arith, le))
      ∙ ap (λ q. some (on_open info.opener q dir obj (record info { path = name })))
          (sym (addrefs-append via_leaked via leaked s)))
