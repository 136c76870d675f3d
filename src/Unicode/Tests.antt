-- ===== src/Unicode/Tests.antt =====
-- The conversions of kernel/unicode.cpp on examples.
use ring3k.Prelude.{
  ℕ, suc, ◌≤◌, ◌<◌, ◌⊎◌, ◌≢◌, ◌≡◌, inl, inr, some, List, [], ◌∷◌, ◌++◌, length, arith,
}
use ring3k.Prelude.Checked.{returns, aborts}
use ring3k.Unicode.{utf8_to_wchar, wchar_to_utf8}
use ring3k.Unicode.Decode.{utf8_char, utf8, AreClear, refused, utf8_to_wchar_lem}
use ring3k.Unicode.Encode.{AreAscii, utf8_to_wchar-wchar_to_utf8}

-- An ASCII letter, a character of two bytes and one of three bytes.
abbrev three_chars : List ℕ
three_chars = 65 ∷ 0xe9 ∷ 0x8a9e ∷ []

three-AreClear : AreClear three_chars
unfolding AreClear
three-AreClear = (
  inl (omega arith, omega arith),
  (inl (omega arith, omega arith), (inr (inr (omega arith, omega arith)), tt)),
)

-- Room for three characters.
abbrev len : ℕ
len = 3

-- A character that the decoder stops at.
abbrev epsilon : List ℕ
epsilon = utf8_char 0x3b5 ++ 66 ∷ []

utf8_to_wchar_lem_example :
    ((len ≡ 0) ⊎ (length three_chars ≤ len)
      → utf8_to_wchar (suc (length three_chars)) len (utf8 three_chars ++ epsilon)
        ≡ some (returns three_chars))
    × (len ≢ 0
        → len < length three_chars
        → utf8_to_wchar (suc (length three_chars)) len (utf8 three_chars ++ epsilon) ≡ some aborts)
utf8_to_wchar_lem_example =
    utf8_to_wchar_lem three_chars epsilon len three-AreClear
      (refused 0x3b5 (66 ∷ []) (inl (omega arith, omega arith)))

abbrev letters : List ℕ
letters = 65 ∷ 66 ∷ []

letters-AreAscii : AreAscii letters
unfolding AreAscii
letters-AreAscii = (omega arith, omega arith, (omega arith, omega arith, tt))

utf8_to_wchar-wchar_to_utf8_example :
    utf8_to_wchar (suc (length letters)) 2 (wchar_to_utf8 3 letters) ≡ some (returns letters)
utf8_to_wchar-wchar_to_utf8_example =
    utf8_to_wchar-wchar_to_utf8 3 2 letters letters-AreAscii (omega arith) (inr (omega arith))
