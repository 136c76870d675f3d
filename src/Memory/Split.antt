-- ===== src/Memory/Split.antt =====
-- `split_area` of kernel/mem.cpp.
use ring3k.Prelude.{
  ℕ, ◌+◌, ◌-◌, ◌%◌, ◌≤◌, ◌<◌, ◌≡◌, refl, ap, ◌∙◌, true, ◌||◌, leb, ◌==◌, if◌then◌else◌, Bool-cases,
  ==→≡, ==→≢, inl, inr, arith,
}
use ring3k.Prelude.Checked.{Checked, returns, ◌>>=◌}
use ring3k.Memory.Block.{MBlock, page_size, rest_of}
use ring3k.Memory.Space.{Space, cut, split_area}
use ring3k.Memory.Virtual.{is_linked}
use ring3k.Memory.Pages.{is_linked-append}
use ring3k.Memory.Valid.{IsValid, IsBlock}
use ring3k.Memory.Cut.{IsCut, cut-IsCut}

-- The part of block `id` from `address` on, `length` long, is block `m` of the valid space `s'`.
-- The same pages are in use as before.
pub record IsPart (s : Space) (id address length : ℕ) (m : ℕ) (s' : Space) : Type 0 where
  pub valid : IsValid s'
  pub linked : is_linked s'.blocks m ≡ true
  pub starts : (s'.block m).base_address ≡ address
  pub long : (s'.block m).region_size ≡ length
  pub state : (s'.block m).state ≡ (s.block id).state
  pub high : s'.highest_address ≡ s.highest_address
  pub used : (p : ℕ) → (s'.xlate p ≡ 0 → s.xlate p ≡ 0) × (s.xlate p ≡ 0 → s'.xlate p ≡ 0)

IsCut-linked :
    (s s' : Space) (id length q : ℕ)
    → IsCut s s' id length
    → is_linked s'.blocks q ≡ (is_linked s.blocks q || (s.next == q))
IsCut-linked s s' id length q c =
    ap (λ x. is_linked x q) c.listed ∙ is_linked-append s.blocks s.next q

-- The second step of `split_area`: what is behind the part is cut off, if there is anything.
trim : Space → ℕ → ℕ → Checked (ℕ × Space)
trim s m length =
    if (s.block m).region_size == length
    then returns (m, s)
    else cut s m length >>= λ extra. returns (m, extra.1)

trim-IsPart :
    (s : Space) (m length : ℕ)
    → IsValid s
    → is_linked s.blocks m ≡ true
    → length % page_size ≡ 0
    → 0 < length
    → length ≤ (s.block m).region_size
    → (s' : Space) × (trim s m length ≡ returns (m, s'))
      × IsPart s m (s.block m).base_address length m s'
unfolding trim
trim-IsPart s m length v l whole some_left fits =
    elim (Bool-cases ((s.block m).region_size == length)) [
      | inl e ↦ (
        s,
        rw e,
        record {
          valid = v;
          linked = l;
          starts = refl;
          long = ==→≡ _ _ e;
          state = refl;
          high = refl;
          used = λ p. (λ z. z, λ z. z);
        },
      )
      | inr n ↦
          let shorter : length < (s.block m).region_size = ground (arith, ==→≢ _ _ n) in
          let (s', e, c) = cut-IsCut s v m length l whole some_left shorter in
          (
            s',
            rw (n, e),
            record {
              valid = c.valid;
              linked = IsCut-linked s s' m length m c ∙ ground arith;
              starts = ap (λ (b : MBlock). b.base_address) c.short;
              long = ap (λ (b : MBlock). b.region_size) c.short;
              state = ap (λ (b : MBlock). b.state) c.short;
              high = c.high;
              used = c.used;
            },
          )
    ]

module _ (s : Space) (id address length : ℕ) (v : IsValid s) (l : is_linked s.blocks id ≡ true)
    (aligned : address % page_size ≡ 0) (whole : length % page_size ≡ 0) (some_left : 0 < length)
    (starts : (s.block id).base_address ≤ address)
    (ends : address + length ≤ (s.block id).base_address + (s.block id).region_size) where
  block : IsBlock s id
  block = v.linked id l

  rest_base : (n : ℕ) → (rest_of (s.block id) n).base_address ≡ (s.block id).base_address + n
  unfolding rest_of
  rest_base n = refl

  rest_size : (n : ℕ) → (rest_of (s.block id) n).region_size ≡ (s.block id).region_size - n
  unfolding rest_of
  rest_size n = refl

  rest_held : (n : ℕ) → (rest_of (s.block id) n).state ≡ (s.block id).state
  unfolding rest_of
  rest_held n = refl

  -- A part of a listed block, of whole pages: `split_area` does not fail, keeps the invariant, and
  -- returns a listed block that is exactly that part and has the state of the whole. The same pages
  -- are in use before and after.
  pub split_area-IsPart :
      (m : ℕ) × (s' : Space) × (split_area s id address length ≡ returns (m, s'))
      × IsPart s id address length m s'
  unfolding split_area trim
  split_area-IsPart =
      let least : leb page_size length ≡ true = ground arith in
      let whole' : (length % page_size == 0) ≡ true = ground arith in
      let aligned' : (address % page_size == 0) ≡ true = ground arith in
      let starts' : leb (s.block id).base_address address ≡ true = ground arith in
      let ends' : leb address ((s.block id).base_address + (s.block id).region_size) ≡ true =
        ground arith in
      elim (Bool-cases ((s.block id).base_address == address)) [
        | inl e ↦
            let same = ==→≡ _ _ e in
            let (s', t, p) = trim-IsPart s id length v l whole some_left (omega arith) in
            (
              id,
              s',
              rw (least, whole', aligned', starts', ends', e) t,
              record {
                valid = p.valid;
                linked = p.linked;
                starts = p.starts ∙ same;
                long = p.long;
                state = p.state;
                high = p.high;
                used = p.used;
              },
            )
        | inr n ↦
            let front = address - (s.block id).base_address in
            let (s1, e1, c) =
              cut-IsCut s v id front l (omega (arith, block.placed.aligned))
                (ground (arith, ==→≢ _ _ n)) (omega arith) in
            let rest_state = ap (λ (b : MBlock). b.state) c.rest in
            let starts1 : (s1.block s.next).base_address ≡ address =
              ap (λ (b : MBlock). b.base_address) c.rest ∙ (rest_base front ∙ omega arith) in
            let long1 : (s1.block s.next).region_size ≡ (s.block id).region_size - front =
              ap (λ (b : MBlock). b.region_size) c.rest ∙ rest_size front in
            let linked1 : is_linked s1.blocks s.next ≡ true =
              IsCut-linked s s1 id front s.next c ∙ ground arith in
            let (s', t, p) =
              trim-IsPart s1 s.next length c.valid linked1 whole some_left (omega arith) in
            (
              s.next,
              s',
              rw (least, whole', aligned', starts', ends', n, e1) t,
              record {
                valid = p.valid;
                linked = p.linked;
                starts = p.starts ∙ starts1;
                long = p.long;
                state = p.state ∙ rest_state ∙ rest_held front;
                high = p.high ∙ c.high;
                used =
                    λ q. (λ z. (c.used q).0 ((p.used q).0 z), λ z. (p.used q).1 ((c.used q).1 z));
              },
            )
      ]
