-- ===== src/Prelude/Fallible.antt =====
-- Go's pair of a value and an error whose text is all that its callers use, and `%d`.
use Prim.Native.Nat.{ℕ, zero, suc, ◌/◌, ◌%◌}
use Prim.Native.String.{String, slice, ◌++◌}
use nimbus_app.Prelude.Tests.{ltb, if◌then◌else◌}

pub data Fallible {ℓ} (A : Type ℓ) : Type ℓ where
  value : A → Fallible A
  failed : String → Fallible A

infixl 5 ◌>>=◌
abbrev pub ◌>>=◌ {ℓ κ} : {A : Type ℓ} {B : Type κ} → Fallible A → (A → Fallible B) → Fallible B
value a >>= f = f a
failed e >>= f = failed e

abbrev digit : ℕ → String
digit d = slice "0123456789" d (suc d)

-- In as many digits as there is fuel.
unfoldable pub decimal_in : ℕ → ℕ → String
decimal_in zero n = ""
decimal_in (suc fuel) n =
    let front = decimal_in fuel (n / 10) in if ltb n 10 then digit n else front ++ digit (n % 10)

-- A number of 64 bits has at most twenty digits.
abbrev pub decimal : ℕ → String
decimal n = decimal_in 20 n
