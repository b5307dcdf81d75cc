-- ===== src/Db/Statement.antt =====
-- How the functions of internal/db/repository.go see a statement: PostgreSQL runs it whole or not at
-- all, and the answer may be lost on the way back. Which of these happens is an argument.
use nimbus_app.Prelude.{
  ℕ, ◌^◌, String, Bool, true, false, Option, none, some, List, [], ◌∷◌, ltb, if◌then◌else◌,
}
use nimbus_app.Db.{Database}

-- `lost`: the statement took effect, and the caller gets an error for its answer.
pub data Outcome : Type 0 where
  done refused lost : Outcome

-- An error, by the text that `fmt.Errorf` puts in front.
pub data DbError : Type 0 where
  failed_at : String → DbError
  notification_not_found : ℕ → DbError
  dead_letter_not_found : ℕ → DbError
  already_processed : String → DbError
  not_found_or_processed : DbError

pub data Result {ℓ} (A : Type ℓ) : Type ℓ where
  ok : A → Result A
  err : DbError → Result A

abbrev pub is_ok {ℓ} : {A : Type ℓ} → Result A → Bool
is_ok (ok a) = true
is_ok (err e) = false

-- `then r db` is what the statement does, `db` the state before it.
abbrev pub exec :
    {A : Type 0} → Outcome → String → Result A × Database → Database → Result A × Database
exec done what r db = r
exec refused what r db = (err (failed_at what), db)
exec lost what r db = (err (failed_at what), r.1)

-- A query's rows, if an answer comes.
abbrev pub answer : {A : Type 0} → Outcome → String → Result A → Result A
answer done what r = r
answer _ what r = err (failed_at what)

-- A value that an INT column holds; pgx refuses any other.
abbrev pub fits_int4 : ℕ → Bool
fits_int4 n = ltb n (2 ^ 31)

module _ {A : Type 0} where
  -- The first row that passes the test.
  unfoldable pub find : (A → Bool) → List A → Option A
  find p [] = none
  find p (x ∷ xs) = if p x then some x else find p xs

  -- UPDATE … SET f WHERE p
  unfoldable pub update_where : (A → Bool) → (A → A) → List A → List A
  update_where p f [] = []
  update_where p f (x ∷ xs) = (if p x then f x else x) ∷ update_where p f xs

  unfoldable pub any : (A → Bool) → List A → Bool
  any p [] = false
  any p (x ∷ xs) = if p x then true else any p xs

  -- `case err == pgx.ErrNoRows`
  abbrev pub one_row : DbError → Option A → Result A
  one_row e none = err e
  one_row e (some a) = ok a
