-- ===== src/Unicode.antt =====
-- kernel/unicode.cpp: the conversions between UTF-8 and wide characters. A string is the list of
-- its bytes or characters in front of the terminating zero; a zero among them ends a string that is
-- decoded, as in the code.
pub mod Decode
pub mod Encode
mod Tests
use package.ring3k.Prelude.{
  ℕ, zero, suc, ◌+◌, ◌*◌, ◌/◌, ◌%◌, ◌^◌, Bool, true, false, not, ◌&&◌, ltb, leb, ◌==◌, ◌||◌,
  if◌then◌else◌, Option, none, some, List, [], ◌∷◌, ◌++◌, length,
}
use package.ring3k.Prelude.Checked.{Checked, returns, aborts, assert, ◌>>=◌, ◌>>◌}

-- The test of the third byte of a character; the first two are `a` and `b`.
pub three_bytes : ℕ → ℕ → List ℕ → Option (ℕ × List ℕ)
three_bytes a b [] = none
three_bytes a b (c ∷ rest) =
    if (a / 16 == 14) && ((b / 64 == 2) && (c / 64 == 2))
    then some ((a % 64 * 4096 + b % 64 * 64 + c % 64) % 2 ^ 16, rest)
    else none

-- A character that starts with the byte `a`, which is not ASCII; the masks as divisions.
pub two_bytes : ℕ → List ℕ → Option (ℕ × List ℕ)
unfolding three_bytes
two_bytes a [] = none
two_bytes a (b ∷ rest) =
    if ((a / 64 == 3) && (a / 8 % 2 == 0)) && (b / 64 == 2)
    then some (a % 64 * 64 + b % 64, rest)
    else three_bytes a b rest

-- One round of the loop of `utf8_to_wchar`: the next character and the rest, none where it stops.
pub next_char : List ℕ → Option (ℕ × List ℕ)
unfolding two_bytes
next_char [] = none
next_char (a ∷ rest) =
    if a == 0 then none else if ltb a 128 then some (a, rest) else two_bytes a rest

abbrev pub cons_to : ℕ → Option (List ℕ) → Option (List ℕ)
cons_to ch none = none
cons_to ch (some s) = some (ch ∷ s)

-- The characters that the loop of `utf8_to_wchar` stores, none if it needs more rounds than the
-- first argument allows.
pub decode : ℕ → List ℕ → Option (List ℕ)
unfolding next_char
decode zero s = none
decode (suc n) s = elim (next_char s) [
  | none ↦ some []
  | some (ch, rest) ↦ cons_to ch (decode n rest)
]

-- The assertion behind the loop, for a buffer of `len` characters; no limit is asked for by 0.
abbrev pub check_length : ℕ → List ℕ → Checked (List ℕ)
check_length len s = do assert ((len == 0) || leb (length s) len); returns s

abbrev pub checked : ℕ → Option (List ℕ) → Option (Checked (List ℕ))
checked len none = none
checked len (some s) = some (check_length len s)

-- `utf8_to_wchar` with as many rounds as the first argument allows, and the argument `len`.
pub utf8_to_wchar : ℕ → ℕ → List ℕ → Option (Checked (List ℕ))
utf8_to_wchar n len str = checked len (decode n str)

-- The bytes that `wchar_to_utf8` makes of a character.
pub char_bytes : ℕ → List ℕ
char_bytes ch =
    if ltb ch 128
    then ch ∷ []
    else if ltb ch 4095
    then (192 + ch % 64) ∷ (128 + ch / 64 % 64) ∷ []
    else (224 + ch % 32) ∷ (128 + ch / 64 % 64) ∷ (128 + ch / 4096 % 16) ∷ []

-- The bytes that `wchar_to_utf8` stores for the rest of the string, after `n` bytes.
pub encode_from : ℕ → ℕ → List ℕ → List ℕ
unfolding char_bytes
encode_from max n [] = []
encode_from max n (ch ∷ rest) =
    let bytes = char_bytes ch in
    let later = encode_from max (n + length bytes) rest in
    if leb max (n + length bytes) then [] else bytes ++ later

pub wchar_to_utf8 : ℕ → List ℕ → List ℕ
unfolding encode_from
wchar_to_utf8 max s = encode_from max 0 s
