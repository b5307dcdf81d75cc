-- ===== src/Redis.antt =====
-- What internal/redis/ asks of the server: string keys with an expiry, read, written, written if
-- absent, and deleted. `Server` is the documented behaviour of GET, SET … EX, SET … NX EX and DEL.
pub mod Memory
pub mod Idempotency
pub mod RateLimit
mod Examples
use nimbus_app.Prelude.{ℕ, ◌+◌, ◌≤◌, ◌<◌, ◌≡◌, ◌≢◌, String, Bool, true, false, Option, none, some}
use nimbus_app.Prelude.Int.{ℤ}
use nimbus_app.Db.Statement.{Outcome, done, refused, lost}

-- `IdempotencyResult`
pub record IdempotencyResult : Type 0 where
  pub notification_id : String
  pub status_code : ℕ
  pub created_at : ℕ

-- A stored string: a text that is no JSON document, as the marker, or a document of the struct,
-- which begins with a brace.
pub data Value : Type 0 where
  text : String → Value
  json : IdempotencyResult → Value

-- Times are the server's, in nanoseconds; a key is gone from its deadline on.
pub record Server : Type 1 where
  pub Store : Type 0
  pub get : ℕ → String → Store → Option Value
  pub set : ℕ → String → Value → ℕ → Store → Store
  pub set_nx : ℕ → String → Value → ℕ → Store → Bool × Store
  pub del : String → Store → Store
  pub get-set :
      (now t : ℕ) (k : String) (v : Value) (ttl : ℕ) (s : Store)
      → t < now + ttl
      → get t k (set now k v ttl s) ≡ some v
  pub get-set_late :
      (now t : ℕ) (k : String) (v : Value) (ttl : ℕ) (s : Store)
      → now + ttl ≤ t
      → get t k (set now k v ttl s) ≡ none
  pub get-set_other :
      (now t : ℕ) (k l : String) (v : Value) (ttl : ℕ) (s : Store)
      → l ≢ k
      → get t l (set now k v ttl s) ≡ get t l s
  pub set_nx-absent :
      (now : ℕ) (k : String) (v : Value) (ttl : ℕ) (s : Store)
      → get now k s ≡ none
      → set_nx now k v ttl s ≡ (true, set now k v ttl s)
  pub set_nx-present :
      (now : ℕ) (k : String) (v u : Value) (ttl : ℕ) (s : Store)
      → get now k s ≡ some u
      → set_nx now k v ttl s ≡ (false, s)
  pub get-del : (t : ℕ) (k : String) (s : Store) → get t k (del k s) ≡ none
  pub get-del_other : (t : ℕ) (k l : String) (s : Store) → l ≢ k → get t l (del k s) ≡ get t l s

-- The errors of the package, by the text in front of the server's.
pub data RedisError : Type 0 where
  duplicate_request : RedisError
  redis_failed : String → RedisError
  invalid_cached_result : RedisError

pub data Reply (A : Type 0) : Type 0 where
  reply : A → Reply A
  failure : RedisError → Reply A

-- A command that writes: carried out, refused, or carried out with its answer lost.
abbrev pub command : {A S : Type 0} → Outcome → String → A × S → S → Reply A × S
command done what r s = (reply r.0, r.1)
command refused what r s = (failure (redis_failed what), s)
command lost what r s = (failure (redis_failed what), r.1)

-- What holds of the state before a command and after it holds whatever the command meets.
pub command_keeps :
    {A S : Type 0} (out : Outcome) (what : String) (r : A × S) (s : S) (K : S → Type 0)
    → K r.1
    → K s
    → K (command out what r s).1
command_keeps done what r s K after before = after
command_keeps refused what r s K after before = before
command_keeps lost what r s K after before = after
