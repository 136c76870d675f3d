-- ===== src/Prelude/Checked.antt =====
-- Code that stops the kernel by a failed `assert` (or a call of `die`), as a monad.
use mathlib.Core.Bool.{Bool, true, false}

-- `aborts` is a failed assertion.
pub data Checked {ℓ} (A : Type ℓ) : Type ℓ where
  returns : A → Checked A
  aborts : Checked A

infixl 5 ◌>>=◌ ◌>>◌
abbrev pub ◌>>=◌ {ℓ κ} : {A : Type ℓ} {B : Type κ} → Checked A → (A → Checked B) → Checked B
returns a >>= f = f a
aborts >>= f = aborts

abbrev pub ◌>>◌ {ℓ} : {B : Type ℓ} → Checked (Unit {0}) → Checked B → Checked B
m >> k = m >>= λ _. k

abbrev pub assert : Bool → Checked (Unit {0})
assert true = returns tt
assert false = aborts
