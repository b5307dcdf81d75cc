-- ===== src/Settings/Texts.antt =====
-- internal/config/config.go: what `Load` makes of a variable's text, with `strconv.Atoi` as the
-- standard library has it for 64 bits.
use Prim.Native.Char.{code}
use Prim.Native.String.{◌++◌}
use nimbus_app.Prelude.{
  ℕ, zero, suc, ◌+◌, ◌-◌, ◌*◌, ◌^◌, String, Bool, true, false, ◌&&◌, List, [], ◌∷◌, ltb, leb, ◌==◌,
  str_eq, if◌then◌else◌,
}
use nimbus_app.Prelude.Int.{ℤ, pos, negsuc}

pub data NumError : Type 0 where
  syntax_error range_error : NumError

pub data Parsed : Type 0 where
  parsed : ℤ → Parsed
  num_error : NumError → Parsed

abbrev is_digit : ℕ → Bool
is_digit c = leb 48 c && leb c 57

pub data Digits : Type 0 where
  digits : ℕ → Digits
  not_digits : NumError → Digits

-- The number that a text of decimal digits continues, by the first of its bytes that is no digit or
-- takes it out of 64 bits.
unfoldable pub digits_from : ℕ → String → Digits
digits_from n String.[] = digits n
digits_from n (String.◌∷◌ c s) =
    let longer = 10 * n + (code c - 48) in
    let rest = digits_from longer s in
    if is_digit (code c)
    then if ltb longer (2 ^ 64) then rest else not_digits range_error
    else not_digits syntax_error

-- At least one digit.
abbrev natural : String → Digits
natural String.[] = not_digits syntax_error
natural (String.◌∷◌ c s) = digits_from 0 (String.◌∷◌ c s)

abbrev negative : ℕ → ℤ
negative zero = pos 0
negative (suc n) = negsuc n

abbrev in_range : Bool → Digits → Parsed
in_range minus (not_digits e) = num_error e
in_range true (digits n) = if leb n (2 ^ 63) then parsed (negative n) else num_error range_error
in_range false (digits n) = if ltb n (2 ^ 63) then parsed (pos n) else num_error range_error

unfoldable pub atoi : String → Parsed
atoi String.[] = num_error syntax_error
atoi (String.◌∷◌ c s) =
    if code c == 45
    then in_range true (natural s)
    else if code c == 43
    then in_range false (natural s)
    else in_range false (natural (String.◌∷◌ c s))

-- The loop of `splitBy`; `cur` is the part since `start`.
unfoldable pub split_from : ℕ → String → String → List String
split_from sep cur String.[] = cur ∷ []
split_from sep cur (String.◌∷◌ c s) =
    let closed = cur ∷ split_from sep "" s in
    let longer = split_from sep (cur ++ String.◌∷◌ c String.[]) s in
    if code c == sep then closed else longer

abbrev pub split_by : String → ℕ → List String
split_by s sep = split_from sep "" s

abbrev pub split_comma : String → List String
split_comma s = split_by s 44

abbrev pub split_colon : String → List String
split_colon s = split_by s 58

-- `m[k] = v`, on a map as the list of its entries.
unfoldable pub set_token : String → String → List (String × String) → List (String × String)
set_token k v [] = (k, v) ∷ []
set_token k v ((l, w) ∷ m) = if str_eq l k then (k, v) ∷ m else (l, w) ∷ set_token k v m

-- `if len(parts) == 2`
abbrev pub set_parts : List String → List (String × String) → List (String × String)
set_parts (k ∷ v ∷ []) m = set_token k v m
set_parts _ m = m

unfoldable pub set_pairs : List String → List (String × String) → List (String × String)
set_pairs [] m = m
set_pairs (pair ∷ more) m = set_pairs more (set_parts (split_colon pair) m)

abbrev pub dev_token : String
dev_token = "dev-token-nimbus"

abbrev pub dev_tenant : String
dev_tenant = "00000000-0000-0000-0000-000000000001"

unfoldable pub auth_tokens : String → List (String × String)
auth_tokens raw =
    if str_eq raw ""
    then (dev_token, dev_tenant) ∷ []
    else set_pairs (split_comma raw) ((dev_token, dev_tenant) ∷ [])
