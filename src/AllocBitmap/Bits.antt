-- ===== src/AllocBitmap/Bits.antt =====
-- The bits of the byte array behind their laws. The operations on one byte are checked for every
-- byte and every pair of bits.
use ring3k.Prelude.{
  ℕ, zero, suc, if◌then◌else◌, ◌+◌, ◌*◌, ◌/◌, ◌%◌, ◌≤◌, ◌<◌, ◌≡◌, refl, ◌∙◌, inl, inr, Bool, true,
  false, not, ◌&&◌, ◌||◌, ltb, leb, ◌==◌, ==→≡, ==→≢, Bool-cases, List, [], ◌∷◌, get_or, set,
  length, length-set, get_or-set_self, get_or-set_ne, arith,
}
use ring3k.AllocBitmap.{
  byte_bit, byte_set, byte_clear, bit_value, set_bit, clear_bit, set_range, clear_range,
}

abbrev bool_eq : Bool → Bool → Bool
bool_eq true b = b
bool_eq false b = not b

bool_eq→≡ : (a b : Bool) → bool_eq a b ≡ true → a ≡ b
bool_eq→≡ a b h = ground arith

-- `test` holds of all numbers up to `last`.
holds_up_to : (test : ℕ → Bool) → ℕ → Bool
holds_up_to test zero = test 0
holds_up_to test (suc last) = if test (suc last) then holds_up_to test last else false

holds_at : (test : ℕ → Bool) (last i : ℕ) → i ≤ last → holds_up_to test last ≡ true → test i ≡ true
unfolding holds_up_to
holds_at test zero i le all = let first : i ≡ 0 = omega arith in rw first all
holds_at test (suc last) i le all = elim (Bool-cases (i == suc last)) [
  | inl same ↦ let last_one = ==→≡ _ _ same in rw last_one (ground (arith, all))
  | inr other ↦ holds_at test last i (ground (arith, other)) (ground (arith, all))
]

abbrev each_bit : (ℕ → Bool) → Bool
each_bit test = holds_up_to test 7

abbrev each_byte : (ℕ → Bool) → Bool
each_byte test = holds_up_to test 255

abbrev set_law : ℕ → ℕ → ℕ → Bool
set_law k j b = bool_eq (byte_bit (byte_set b k) j) ((k == j) || byte_bit b j)

abbrev clear_law : ℕ → ℕ → ℕ → Bool
clear_law k j b = bool_eq (byte_bit (byte_clear b k) j) (not (k == j) && byte_bit b j)

abbrev range_law : ℕ → ℕ → Bool
range_law k b = ltb (byte_set b k) 256 && ltb (byte_clear b k) 256

set_table : each_bit (λ k. each_bit (λ j. each_byte (set_law k j))) ≡ true
unfolding holds_up_to byte_bit byte_set
set_table = refl

clear_table : each_bit (λ k. each_bit (λ j. each_byte (clear_law k j))) ≡ true
unfolding holds_up_to byte_bit byte_clear
clear_table = refl

range_table : each_bit (λ k. each_byte (range_law k)) ≡ true
unfolding holds_up_to byte_set byte_clear
range_table = refl

-- A law that a table shows for each byte and each pair of bits.
from_table :
    (law : ℕ → ℕ → ℕ → Bool) (b k j : ℕ)
    → each_bit (λ k. each_bit (λ j. each_byte (law k j))) ≡ true
    → b < 256
    → k < 8
    → j < 8
    → law k j b ≡ true
from_table law b k j table hb hk hj =
    let at_k = holds_at (λ k. each_bit (λ j. each_byte (law k j))) 7 k (omega arith) table in
    let at_j = holds_at (λ j. each_byte (law k j)) 7 j (omega arith) at_k in
    holds_at (law k j) 255 b (omega arith) at_j

byte_bit-byte_set :
    (b k j : ℕ) → b < 256 → k < 8 → j < 8 → byte_bit (byte_set b k) j ≡ ((k == j) || byte_bit b j)
byte_bit-byte_set b k j hb hk hj = bool_eq→≡ _ _ (from_table set_law b k j set_table hb hk hj)

byte_bit-byte_clear :
    (b k j : ℕ)
    → b < 256
    → k < 8
    → j < 8
    → byte_bit (byte_clear b k) j ≡ (not (k == j) && byte_bit b j)
byte_bit-byte_clear b k j hb hk hj = bool_eq→≡ _ _ (from_table clear_law b k j clear_table hb hk hj)

byte-range : (b k : ℕ) → b < 256 → k < 8 → (byte_set b k < 256) × (byte_clear b k < 256)
byte-range b k hb hk =
    let at_k = holds_at (λ k. each_byte (range_law k)) 7 k (omega arith) range_table in
    let h = holds_at (range_law k) 255 b (omega arith) at_k in ground arith

-- Every element of the array is a byte.
pub record IsBytes (bitmap : List ℕ) : Type 0 where
  pub byte : (i : ℕ) → get_or bitmap i 0 < 256

get_or-lt :
    (xs : List ℕ) (i v : ℕ)
    → v < 256
    → ((j : ℕ) → get_or xs j 0 < 256)
    → (j : ℕ) → get_or (set xs i v) j 0 < 256
get_or-lt [] i v hv h j = h j
get_or-lt (x ∷ xs) zero v hv h zero = hv
get_or-lt (x ∷ xs) zero v hv h (suc j) = h (suc j)
get_or-lt (x ∷ xs) (suc i) v hv h zero = h 0
get_or-lt (x ∷ xs) (suc i) v hv h (suc j) = get_or-lt xs i v hv (λ k. h (suc k)) j

pub set_bit-IsBytes : (bitmap : List ℕ) (n : ℕ) → IsBytes bitmap → IsBytes (set_bit bitmap n)
unfolding set_bit
set_bit-IsBytes bitmap n v = record {
  byte = get_or-lt bitmap (n / 8) _ (byte-range _ (n % 8) (v.byte (n / 8)) (omega arith)).0 v.byte;
}

pub clear_bit-IsBytes : (bitmap : List ℕ) (n : ℕ) → IsBytes bitmap → IsBytes (clear_bit bitmap n)
unfolding clear_bit
clear_bit-IsBytes bitmap n v = record {
  byte = get_or-lt bitmap (n / 8) _ (byte-range _ (n % 8) (v.byte (n / 8)) (omega arith)).1 v.byte;
}

pub length-set_bit : (bitmap : List ℕ) (n : ℕ) → length (set_bit bitmap n) ≡ length bitmap
unfolding set_bit
length-set_bit bitmap n = length-set bitmap (n / 8) _

pub length-clear_bit : (bitmap : List ℕ) (n : ℕ) → length (clear_bit bitmap n) ≡ length bitmap
unfolding clear_bit
length-clear_bit bitmap n = length-set bitmap (n / 8) _

module _ (bitmap : List ℕ) (v : IsBytes bitmap) (n m : ℕ) (inside : n < length bitmap * 8) where
  pub bit_value-set_bit : bit_value (set_bit bitmap n) m ≡ ((n == m) || bit_value bitmap m)
  unfolding bit_value set_bit
  bit_value-set_bit = elim (Bool-cases (n / 8 == m / 8)) [
    | inl e ↦
        let same = ==→≡ (n / 8) (m / 8) e in
        rw
          (
            ← same,
            get_or-set_self bitmap (n / 8) (byte_set (get_or bitmap (n / 8) 0) (n % 8)) 0
                (omega arith),
          )
          (byte_bit-byte_set _ (n % 8) (m % 8) (v.byte (n / 8)) (omega arith) (omega arith)
            ∙ ground arith)
    | inr e ↦
        rw
          (get_or-set_ne bitmap (n / 8) (m / 8) (byte_set (get_or bitmap (n / 8) 0) (n % 8)) 0
            (==→≢ _ _ e))
          (ground arith)
  ]

  pub bit_value-clear_bit : bit_value (clear_bit bitmap n) m ≡ (not (n == m) && bit_value bitmap m)
  unfolding bit_value clear_bit
  bit_value-clear_bit = elim (Bool-cases (n / 8 == m / 8)) [
    | inl e ↦
        let same = ==→≡ (n / 8) (m / 8) e in
        rw
          (
            ← same,
            get_or-set_self bitmap (n / 8) (byte_clear (get_or bitmap (n / 8) 0) (n % 8)) 0
                (omega arith),
          )
          (byte_bit-byte_clear _ (n % 8) (m % 8) (v.byte (n / 8)) (omega arith) (omega arith)
            ∙ ground arith)
    | inr e ↦
        rw
          (get_or-set_ne bitmap (n / 8) (m / 8) (byte_clear (get_or bitmap (n / 8) 0) (n % 8)) 0
            (==→≢ _ _ e))
          (ground arith)
  ]

-- `n` lies in the run of `count` bits at `start`.
abbrev pub in_run : ℕ → ℕ → ℕ → Bool
in_run start count n = leb start n && ltb n (start + count)

pub length-set_range :
    (bitmap : List ℕ) (n count : ℕ) → length (set_range bitmap n count) ≡ length bitmap
unfolding set_range
length-set_range bitmap n zero = refl
length-set_range bitmap n (suc count) =
    length-set_range (set_bit bitmap n) (n + 1) count ∙ length-set_bit bitmap n

pub set_range-IsBytes :
    (bitmap : List ℕ) (n count : ℕ) → IsBytes bitmap → IsBytes (set_range bitmap n count)
unfolding set_range
set_range-IsBytes bitmap n zero v = v
set_range-IsBytes bitmap n (suc count) v =
    set_range-IsBytes (set_bit bitmap n) (n + 1) count (set_bit-IsBytes bitmap n v)

pub bit_value-set_range :
    (bitmap : List ℕ) (n count m : ℕ)
    → IsBytes bitmap
    → n + count ≤ length bitmap * 8
    → bit_value (set_range bitmap n count) m ≡ (in_run n count m || bit_value bitmap m)
unfolding set_range
bit_value-set_range bitmap n zero m v h = ground arith
bit_value-set_range bitmap n (suc count) m v h =
    bit_value-set_range (set_bit bitmap n) (n + 1) count m (set_bit-IsBytes bitmap n v)
      (omega (arith, length-set_bit bitmap n))
    ∙ ground (arith, bit_value-set_bit bitmap v n m (omega arith))

pub length-clear_range :
    (bitmap : List ℕ) (n count : ℕ) → length (clear_range bitmap n count) ≡ length bitmap
unfolding clear_range
length-clear_range bitmap n zero = refl
length-clear_range bitmap n (suc count) =
    length-clear_range (clear_bit bitmap n) (n + 1) count ∙ length-clear_bit bitmap n

pub clear_range-IsBytes :
    (bitmap : List ℕ) (n count : ℕ) → IsBytes bitmap → IsBytes (clear_range bitmap n count)
unfolding clear_range
clear_range-IsBytes bitmap n zero v = v
clear_range-IsBytes bitmap n (suc count) v =
    clear_range-IsBytes (clear_bit bitmap n) (n + 1) count (clear_bit-IsBytes bitmap n v)

pub bit_value-clear_range :
    (bitmap : List ℕ) (n count m : ℕ)
    → IsBytes bitmap
    → n + count ≤ length bitmap * 8
    → bit_value (clear_range bitmap n count) m ≡ (not (in_run n count m) && bit_value bitmap m)
unfolding clear_range
bit_value-clear_range bitmap n zero m v h = ground arith
bit_value-clear_range bitmap n (suc count) m v h =
    bit_value-clear_range (clear_bit bitmap n) (n + 1) count m (clear_bit-IsBytes bitmap n v)
      (omega (arith, length-clear_bit bitmap n))
    ∙ ground (arith, bit_value-clear_bit bitmap v n m (omega arith))
