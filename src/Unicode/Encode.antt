-- ===== src/Unicode/Encode.antt =====
-- `wchar_to_utf8` of kernel/unicode.cpp: its bound, and ASCII strings.
use ring3k.Prelude.{
  ℕ, suc, ◌+◌, ◌<◌, ◌≤◌, ◌⊎◌, ◌==◌, ◌≡◌, refl, ap, ◌∙◌, inl, inr, false, leb, Bool-cases, leb→lt,
  lt→ltb, some, List, [], ◌∷◌, length, length-append, arith,
}
use ring3k.Prelude.Checked.{returns}
use ring3k.Unicode.{
  next_char, cons_to, decode, checked, utf8_to_wchar, char_bytes, encode_from, wchar_to_utf8,
}
use ring3k.Unicode.Decode.{one_round, at_end, check_length_lem}

-- All characters are ASCII, and none is zero.
unfoldable pub AreAscii : List ℕ → Type 0
AreAscii [] = Unit {0}
AreAscii (ch ∷ rest) = (0 < ch) × (ch < 128) × AreAscii rest

encode_bound : (max n : ℕ) (s : List ℕ) → n < max → n + length (encode_from max n s) < max
unfolding encode_from
encode_bound max n [] h = omega arith
encode_bound max n (ch ∷ rest) h =
    let bytes = char_bytes ch in
    elim (Bool-cases (leb max (n + length bytes))) [
      | inl e ↦ rw e (omega arith)
      | inr e ↦
          let later = encode_from max (n + length bytes) rest in
          let bound = encode_bound max (n + length bytes) rest (leb→lt max (n + length bytes) e) in
          let sum = length-append bytes later in rw e (omega (arith, bound, sum))
    ]

ascii_byte : (ch : ℕ) → ch < 128 → char_bytes ch ≡ ch ∷ []
unfolding char_bytes
ascii_byte ch h = rw (lt→ltb ch 128 h)

encode_ascii : (max n : ℕ) (s : List ℕ) → AreAscii s → n + length s < max → encode_from max n s ≡ s
unfolding encode_from AreAscii
encode_ascii max n [] ascii h = refl
encode_ascii max n (ch ∷ rest) (pos, low, ascii) h =
    let fits : leb max (n + 1) ≡ false = ground arith in
    rw (ascii_byte ch low, fits)
      (ap (λ r. ch ∷ r) (encode_ascii max (n + 1) rest ascii (omega (arith, h))))

decode_ascii : (s : List ℕ) → AreAscii s → decode (suc (length s)) s ≡ some s
unfolding AreAscii next_char
decode_ascii [] ascii = at_end 0 [] refl
decode_ascii (ch ∷ rest) (pos, low, ascii) =
    let some_byte : ch == 0 ≡ false = ground arith in
    one_round (suc (length rest)) ch (ch ∷ rest) rest (rw (some_byte, lt→ltb ch 128 low))
    ∙ ap (cons_to ch) (decode_ascii rest ascii)

-- With room for at least one byte, `wchar_to_utf8` stores fewer bytes than there is room for, so
-- that the terminating zero fits.
pub wchar_to_utf8-bound : (max : ℕ) (s : List ℕ) → 0 < max → length (wchar_to_utf8 max s) < max
unfolding wchar_to_utf8
wchar_to_utf8-bound max s h = let bound = encode_bound max 0 s h in omega (arith, bound)

-- An ASCII string without a zero that is shorter than the room comes back when it is encoded by
-- `wchar_to_utf8` and decoded by `utf8_to_wchar` into a buffer that has a place for each character
-- or no limit (a length of 0).
pub utf8_to_wchar-wchar_to_utf8 :
    (max len : ℕ) (s : List ℕ)
    → AreAscii s
    → length s < max
    → (len ≡ 0) ⊎ (length s ≤ len)
    → utf8_to_wchar (suc (length s)) len (wchar_to_utf8 max s) ≡ some (returns s)
unfolding wchar_to_utf8 utf8_to_wchar
utf8_to_wchar-wchar_to_utf8 max len s ascii h fits =
    ap (λ bytes. checked len (decode (suc (length s)) bytes))
      (encode_ascii max 0 s ascii (omega (arith, h)))
    ∙ ap (checked len) (decode_ascii s ascii)
    ∙ ap some (check_length_lem len s fits)
