-- ===== src/Memory/Space.antt =====
-- kernel/mem.cpp: the list of blocks and the page translation table of an address space. Blocks
-- are objects on a heap, named by numbers; 0 is the null pointer. Addresses are below 2^32.
use ring3k.Prelude.{
  ℕ, zero, suc, ◌+◌, ◌-◌, ◌/◌, ◌%◌, Bool, true, not, ◌&&◌, ltb, leb, ◌==◌, if◌then◌else◌, Option,
  none, some, List, [], ◌∷◌, ◌++◌,
}
use ring3k.Prelude.Checked.{Checked, returns, aborts, assert, ◌>>=◌, ◌>>◌}
use ring3k.Memory.Block.{MBlock, page_size, is_free, split, uncommit, unreserve}

-- `host` gives the kernel's mapping of a block, or none if `mmap` fails, and `file`
-- whether `create_mapping_fd` makes a file for the pages of a new block. `next` numbers new blocks.
pub record Space : Type 0 where
  pub highest_address : ℕ
  pub blocks : List ℕ
  pub block : ℕ → MBlock
  pub xlate : ℕ → ℕ
  pub next : ℕ
  pub host : ℕ → Option ℕ
  pub file : ℕ → Bool

abbrev pub put {ℓ} : {A : Type ℓ} → (ℕ → A) → ℕ → A → ℕ → A
put f p v q = if p == q then v else f q

abbrev pub store : Space → ℕ → MBlock → Space
store s id b = record s { block = put s.block id b }

abbrev pub xlate_entry : Space → ℕ → ℕ
xlate_entry s address = s.xlate (address / page_size)

-- The rounds of `for (i = 0; i < size; i += 0x1000)`.
abbrev pub page_count : ℕ → ℕ
page_count size = (size + 0xfff) / page_size

-- The loop of `update_page_translation`: `count` pages from page `page` on.
unfoldable pub set_pages : (ℕ → ℕ) → ℕ → ℕ → ℕ → ℕ → ℕ
set_pages xlate page zero id = xlate
set_pages xlate page (suc count) id = set_pages (put xlate page id) (page + 1) count id

unfoldable pub update_page_translation : Space → ℕ → Space
update_page_translation s id =
    let b = s.block id in
    record s {
      xlate =
          set_pages s.xlate (b.base_address / page_size) (page_count b.region_size)
            (if is_free b then 0 else id);
    }

-- The inner loop of `verify`: all pages of a block translate to it.
unfoldable pub pages_are : (ℕ → ℕ) → ℕ → ℕ → ℕ → Bool
pages_are xlate page zero id = true
pages_are xlate page (suc count) id = (xlate page == id) && pages_are xlate (page + 1) count id

unfoldable pub blocks_are_good : Space → List ℕ → Bool
blocks_are_good s [] = true
blocks_are_good s (id ∷ ids) =
    let b = s.block id in
    not (is_free b)
    && pages_are s.xlate (b.base_address / page_size) (page_count b.region_size) id
    && blocks_are_good s ids

unfoldable pub total_size : Space → List ℕ → ℕ
total_size s [] = 0
total_size s (id ∷ ids) = (s.block id).region_size + total_size s ids

-- `verify`, which asserts all of this.
unfoldable pub verify : Space → Checked (Unit {0})
verify s = do
  assert (blocks_are_good s s.blocks)
  assert (ltb (total_size s s.blocks) s.highest_address)

unfoldable pub insert_block : Space → ℕ → Space
insert_block s id = record s { blocks = s.blocks ++ id ∷ [] }

-- `list_anchor::unlink`: the block leaves the list.
unfoldable pub unlink : ℕ → List ℕ → List ℕ
unlink id [] = []
unlink id (x ∷ xs) = if x == id then xs else x ∷ unlink id xs

unfoldable pub remove_block : Space → ℕ → Checked Space
unfolding unlink
remove_block s id = do
  assert (is_free (s.block id))
  returns (record s { blocks = unlink id s.blocks })

-- A new block on the heap.
abbrev pub allocate_block : Space → MBlock → Space
allocate_block s b = record s { block = put s.block s.next b; next = s.next + 1 }

-- What `split_area` does twice: split a block, enter the rest in the table and in the list. A
-- split that returns NULL is dereferenced.
unfoldable pub cut : Space → ℕ → ℕ → Checked (ℕ × Space)
unfolding update_page_translation insert_block
cut s id length = do
  parts ← split (s.block id) length
  elim parts [
    | none ↦ aborts
    | some (short, rest) ↦
        let s' = allocate_block (store s id short) rest in
        returns (s.next, insert_block (update_page_translation s' s.next) s.next)
  ]

-- The middle part of a block, from `address` on and `length` long, as a block of its own.
unfoldable pub split_area : Space → ℕ → ℕ → ℕ → Checked (ℕ × Space)
split_area s id address length = do
  assert (leb page_size length)
  assert (length % page_size == 0)
  assert (address % page_size == 0)
  assert (leb (s.block id).base_address address)
  assert (leb address ((s.block id).base_address + (s.block id).region_size))
  middle ←
      (if (s.block id).base_address == address
        then returns (id, s)
        else cut s id (address - (s.block id).base_address))
  if (middle.1.block middle.0).region_size == length
      then returns middle
      else cut middle.1 middle.0 length >>= λ extra. returns (middle.0, extra.1)

-- `free_shared`: the block goes back to the heap's free store.
unfoldable pub free_shared : Space → ℕ → Checked Space
unfolding remove_block update_page_translation
free_shared s id = do
  b ← unreserve (uncommit (s.block id))
  remove_block (update_page_translation (store s id b) id) id

-- `get_mblock`.
unfoldable pub get_mblock : Space → ℕ → ℕ
get_mblock s address = if leb s.highest_address address then 0 else xlate_entry s address
