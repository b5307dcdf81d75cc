-- ===== src/Prelude/Texts.antt =====
-- What the test on texts says of equal and of different ones, and Go's joining and replacing.
use Prim.Native.Nat.{ℕ, zero, suc}
use Prim.Native.String.{String, ◌++◌, slice, len}
use mathlib.Core.List.{List, [], ◌∷◌}
use mathlib.Core.Path.{◌≡◌, refl}
use mathlib.Core.Logic.{◌≢◌, inl, inr}
use mathlib.Core.Bool.{true, false}
use text.Mathlib.Text.{◌==◌ as str_eq, starts_with}
use text.Mathlib.TextEquality.{eq_iff}
use nimbus_app.Prelude.Tests.{Bool-cases, if◌then◌else◌}

pub str_eq_refl : (k : String) → str_eq k k ≡ true
str_eq_refl k = (eq_iff k k).1 refl

pub str_eq_apart : (k l : String) → k ≢ l → str_eq k l ≡ false
str_eq_apart k l h = elim (Bool-cases (str_eq k l)) [
  | inl e ↦ absurd (h ((eq_iff k l).0 e))
  | inr e ↦ e
]

-- `strings.Join`
abbrev pub joined_rest : String → List String → String
joined_rest sep [] = ""
joined_rest sep (t ∷ ts) = sep ++ t ++ joined_rest sep ts

abbrev pub join : String → List String → String
join sep [] = ""
join sep (t ∷ ts) = t ++ joined_rest sep ts

-- `strings.ReplaceAll` of a text that is not empty, byte by byte, in as many steps as the text has
-- bytes.
unfoldable pub replace_in : ℕ → String → String → String → String
replace_in zero s old new = s
replace_in (suc n) s old new =
    let hit = new ++ replace_in n (slice s (len old) (len s)) old new in
    let miss = slice s 0 1 ++ replace_in n (slice s 1 (len s)) old new in
    if starts_with s old then hit else miss

abbrev pub replace_all : String → String → String → String
replace_all s old new = replace_in (len s) s old new
