-- ===== src/Prelude/Signed.antt =====
-- 32-bit signed numbers, with 2^31 added: the order of the numbers is the signed order.
use Prim.Native.Nat.{ℕ, ◌+◌, ◌-◌, ◌%◌, ◌^◌}

-- The number 0.
abbrev pub origin : ℕ
origin = 2 ^ 31

-- `a + b` and `a - b`; they wrap.
abbrev pub add_int : ℕ → ℕ → ℕ
add_int a b = (a + b + 2 ^ 31) % 2 ^ 32

abbrev pub sub_int : ℕ → ℕ → ℕ
sub_int a b = (a + 2 ^ 31 + 2 ^ 32 - b) % 2 ^ 32
