-- ===== src/Unicode/Decode.antt =====
-- `utf8_to_wchar` of kernel/unicode.cpp against UTF-8.
use ring3k.Prelude.{
  ℕ, suc, ◌+◌, ◌*◌, ◌/◌, ◌%◌, ◌^◌, ◌≤◌, ◌<◌, ◌≡◌, ◌≢◌, ◌⊎◌, leb, ◌||◌, refl, ap, ◌∙◌, inl, inr,
  true, false, ltb, ◌==◌, lt-or-le, if◌then◌else◌, none, some, List, [], ◌∷◌, ◌++◌, length, arith,
}
use ring3k.Prelude.Checked.{returns, aborts}
use ring3k.Unicode.{
  three_bytes, two_bytes, next_char, cons_to, decode, check_length, checked, utf8_to_wchar,
}

-- UTF-8 for characters below 2^16.
pub utf8_char : ℕ → List ℕ
utf8_char ch =
    if ltb ch 128
    then ch ∷ []
    else if ltb ch 2048
    then (192 + ch / 64) ∷ (128 + ch % 64) ∷ []
    else (224 + ch / 4096) ∷ (128 + ch / 64 % 64) ∷ (128 + ch % 64) ∷ []

pub utf8 : List ℕ → List ℕ
utf8 [] = []
utf8 (ch ∷ rest) = utf8_char ch ++ utf8 rest

-- Characters whose first byte the decoder tells apart: from 1 to 0x1ff, from 0x400 up to 0x5ff and from
-- 0x8000.
abbrev pub IsClear : ℕ → Type 0
IsClear ch = (0 < ch) × (ch < 512) ⊎ (1024 ≤ ch) × (ch < 1536) ⊎ (32768 ≤ ch) × (ch < 2 ^ 16)

unfoldable pub AreClear : List ℕ → Type 0
AreClear [] = Unit {0}
AreClear (ch ∷ rest) = IsClear ch × AreClear rest

one_byte :
    (ch : ℕ) (rest : List ℕ)
    → 0 < ch
    → ch < 128
    → next_char (utf8_char ch ++ rest) ≡ some (ch, rest)
unfolding next_char utf8_char
one_byte ch rest pos h =
    let low : ltb ch 128 ≡ true = ground arith in
    let some_byte : ch == 0 ≡ false = ground arith in rw low (rw (some_byte, low))

third_lem :
    (ch : ℕ)
    → 128 ≤ ch
    → (ch < 512) ⊎ (1024 ≤ ch) × (ch < 1536)
    → ((192 + ch / 64) / 8 % 2 == 0) ≡ true
third_lem ch l h = ground arith

two_clear :
    (ch : ℕ) (rest : List ℕ)
    → 128 ≤ ch
    → (ch < 512) ⊎ (1024 ≤ ch) × (ch < 1536)
    → next_char (utf8_char ch ++ rest) ≡ some (ch, rest)
unfolding next_char two_bytes utf8_char
two_clear ch rest l h =
    let not_one : ltb ch 128 ≡ false = ground arith in
    let two : ltb ch 2048 ≡ true = ground arith in
    let high : ltb (192 + ch / 64) 128 ≡ false = ground arith in
    let some_byte : (192 + ch / 64) == 0 ≡ false = ground arith in
    let lead : (192 + ch / 64) / 64 == 3 ≡ true = ground arith in
    let third : (192 + ch / 64) / 8 % 2 == 0 ≡ true = third_lem ch l h in
    let next : (128 + ch % 64) / 64 == 2 ≡ true = ground arith in
    let value : (192 + ch / 64) % 64 * 64 + (128 + ch % 64) % 64 ≡ ch = omega arith in
    rw (not_one, two) (rw (some_byte, high, lead, third, next, value))

three_clear :
    (ch : ℕ) (rest : List ℕ)
    → 32768 ≤ ch
    → ch < 2 ^ 16
    → next_char (utf8_char ch ++ rest) ≡ some (ch, rest)
unfolding next_char two_bytes three_bytes utf8_char
three_clear ch rest l h =
    let not_one : ltb ch 128 ≡ false = ground arith in
    let not_two : ltb ch 2048 ≡ false = ground arith in
    let high : ltb (224 + ch / 4096) 128 ≡ false = ground arith in
    let some_byte : (224 + ch / 4096) == 0 ≡ false = ground arith in
    let third : (224 + ch / 4096) / 8 % 2 == 0 ≡ false = ground arith in
    let lead : (224 + ch / 4096) / 64 == 3 ≡ true = ground arith in
    let lead' : (224 + ch / 4096) / 16 == 14 ≡ true = ground arith in
    let next : (128 + ch / 64 % 64) / 64 == 2 ≡ true = ground arith in
    let last : (128 + ch % 64) / 64 == 2 ≡ true = ground arith in
    let value : ((224 + ch / 4096) % 64 * 4096
            + (128 + ch / 64 % 64) % 64 * 64
            + (128 + ch % 64) % 64)
          % 2 ^ 16
        ≡ ch =
      omega arith in
    rw (not_one, not_two) (rw (some_byte, high, lead, third, lead', next, last, value))

next_char_lem :
    (ch : ℕ) (rest : List ℕ) → IsClear ch → next_char (utf8_char ch ++ rest) ≡ some (ch, rest)
next_char_lem ch rest (inr (inr (l, h))) = three_clear ch rest l h
next_char_lem ch rest (inr (inl (l, h))) = two_clear ch rest (omega (arith, l)) (inr (l, h))
next_char_lem ch rest (inl (pos, h)) = elim (lt-or-le ch 128) [
  | inl low ↦ one_byte ch rest pos low
  | inr high ↦ two_clear ch rest high (inl h)
]

pub one_round :
    (n ch : ℕ) (s rest : List ℕ)
    → next_char s ≡ some (ch, rest)
    → decode (suc n) s ≡ cons_to ch (decode n rest)
unfolding decode
one_round n ch s rest e = rw (decode, e)

pub at_end : (n : ℕ) (s : List ℕ) → next_char s ≡ none → decode (suc n) s ≡ some []
unfolding decode
at_end n s e = rw (decode, e)

-- Characters that the decoder does not take for such: from 0x200 up to 0x3ff, and from 0x600 up to
-- 0x7ff.
abbrev pub IsRefused : ℕ → Type 0
IsRefused ch = (512 ≤ ch) × (ch < 1024) ⊎ (1536 ≤ ch) × (ch < 2048)

-- The end of a string, or a part of it that starts with a zero byte or with such a character.
pub data Stops : List ℕ → Type 0 where
  ends : Stops []
  ends_early : (rest : List ℕ) → Stops (0 ∷ rest)
  refused : (ch : ℕ) (rest : List ℕ) → IsRefused ch → Stops (utf8_char ch ++ rest)

refused_bits : (ch : ℕ) → IsRefused ch → ((192 + ch / 64) / 8 % 2 == 0) ≡ false
refused_bits ch h = ground arith

two_refused :
    (ch : ℕ) (rest : List ℕ)
    → IsRefused ch
    → three_bytes (192 + ch / 64) (128 + ch % 64) rest ≡ none
unfolding three_bytes
two_refused ch [] h = refl
two_refused ch (c ∷ rest) h =
    let lead : (192 + ch / 64) / 16 == 14 ≡ false = ground arith in rw lead

stops_lem : (t : List ℕ) → Stops t → next_char t ≡ none
unfolding next_char two_bytes utf8_char
stops_lem _ ends = refl
stops_lem _ (ends_early rest) = refl
stops_lem _ (refused ch rest h) =
    let not_one : ltb ch 128 ≡ false = ground arith in
    let two : ltb ch 2048 ≡ true = ground arith in
    let high : ltb (192 + ch / 64) 128 ≡ false = ground arith in
    let some_byte : (192 + ch / 64) == 0 ≡ false = ground arith in
    let lead : (192 + ch / 64) / 64 == 3 ≡ true = ground arith in
    rw (not_one, two) (rw (some_byte, high, lead, refused_bits ch h) (two_refused ch rest h))

append_assoc : (a b c : List ℕ) → (a ++ b) ++ c ≡ a ++ (b ++ c)
append_assoc [] b c = refl
append_assoc (x ∷ a) b c = ap (λ r. x ∷ r) (append_assoc a b c)

decode_lem : (s t : List ℕ) → AreClear s → Stops t → decode (suc (length s)) (utf8 s ++ t) ≡ some s
unfolding utf8 AreClear
decode_lem [] t clear stop = at_end 0 t (stops_lem t stop)
decode_lem (ch ∷ rest) t (clear, all) stop =
    ap (decode (suc (suc (length rest)))) (append_assoc (utf8_char ch) (utf8 rest) t)
    ∙ one_round (suc (length rest)) ch (utf8_char ch ++ (utf8 rest ++ t)) (utf8 rest ++ t)
        (next_char_lem ch (utf8 rest ++ t) clear)
    ∙ ap (cons_to ch) (decode_lem rest t all stop)

-- Characters that fit into the buffer pass the assertion.
pub check_length_lem :
    (len : ℕ) (s : List ℕ) → (len ≡ 0) ⊎ (length s ≤ len) → check_length len s ≡ returns s
check_length_lem len s fits =
    let passed : ((len == 0) || leb (length s) len) ≡ true = ground arith in rw passed

check_length_fails : (len : ℕ) (s : List ℕ) → len ≢ 0 → len < length s → check_length len s ≡ aborts
check_length_fails len s bounded over =
    let failed : ((len == 0) || leb (length s) len) ≡ false = ground arith in rw failed

-- Let a string be in UTF-8, with characters from 1 to 0x1ff, from 0x400 up to 0x5ff, or from 0x8000
-- up to 0xffff, up to its end, to a zero byte, or to a character from 0x200 up to 0x3ff or from
-- 0x600 up to 0x7ff. Then `utf8_to_wchar` gives back these characters and stops there, after one
-- round for each and one more; but it fails an assertion if a length of the buffer other than 0 is
-- given and is less than their number.
pub utf8_to_wchar_lem :
    (s t : List ℕ) (len : ℕ)
    → AreClear s
    → Stops t
    → ((len ≡ 0) ⊎ (length s ≤ len)
        → utf8_to_wchar (suc (length s)) len (utf8 s ++ t) ≡ some (returns s))
      × (len ≢ 0 → len < length s → utf8_to_wchar (suc (length s)) len (utf8 s ++ t) ≡ some aborts)
unfolding utf8_to_wchar
utf8_to_wchar_lem s t len clear stop =
    let decoded = ap (checked len) (decode_lem s t clear stop) in
    (
      λ fits. decoded ∙ ap some (check_length_lem len s fits),
      λ bounded over. decoded ∙ ap some (check_length_fails len s bounded over),
    )
