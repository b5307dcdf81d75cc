-- ===== src/Redis/Idempotency.antt =====
-- internal/redis/idempotency.go: the service that keeps the results of requests under their keys, and
-- what several clients' calls on it do one after the other.
pub mod Holding
pub mod Replay
use Prim.Native.String.{◌++◌}
use nimbus_app.Prelude.{
  ℕ, ◌*◌, String, Bool, true, false, Option, none, some, ◌==◌, str_eq, if◌then◌else◌,
}
use nimbus_app.Breaker.{second}
use nimbus_app.Db.Statement.{Outcome, done, refused, lost}
use nimbus_app.Redis.{
  IdempotencyResult, Value, text, json, Server, RedisError, duplicate_request, redis_failed,
  invalid_cached_result, Reply, reply, failure, command,
}

-- `IdempotencyTTL` and `IdempotencyTTLExact`
abbrev pub idempotency_ttl : ℕ
idempotency_ttl = 300 * second

abbrev pub idempotency_ttl_exact : ℕ
idempotency_ttl_exact = 86400 * second

abbrev pub processing_ttl : ℕ
processing_ttl = 300 * second

abbrev pub processing_marker : String
processing_marker = "processing"

unfoldable pub build_key : String → String → String
build_key tenant_id idempotency_key = "idempotency:" ++ tenant_id ++ ":" ++ idempotency_key

-- What `Check` makes of the value at its key; no value and a result are `reply`.
abbrev pub checked : Option Value → Reply (Option IdempotencyResult)
checked none = reply none
checked (some (text t)) =
    if str_eq t processing_marker then failure duplicate_request else failure invalid_cached_result
checked (some (json r)) = reply (some r)

-- `if result.CreatedAt == 0`, at `unix` seconds
abbrev pub stamped : ℕ → IdempotencyResult → IdempotencyResult
stamped unix r = record r { created_at = if r.created_at == 0 then unix else r.created_at }

-- `GET key == marker` in the script of `Release`
abbrev pub holds_marker : Option Value → Bool
holds_marker none = false
holds_marker (some (text t)) = str_eq t processing_marker
holds_marker (some (json r)) = false

module _ (R : Server) where
  -- A read needs its answer.
  unfoldable pub check : Outcome → ℕ → String → String → R.Store → Reply (Option IdempotencyResult)
  check done now tenant_id key s = checked (R.get now (build_key tenant_id key) s)
  check refused now tenant_id key s = failure (redis_failed "redis get failed")
  check lost now tenant_id key s = failure (redis_failed "redis get failed")

  unfoldable pub store :
      Outcome
      → ℕ
      → ℕ
      → String
      → String
      → IdempotencyResult
      → ℕ
      → R.Store
      → Reply (Unit {0}) × R.Store
  store out now unix tenant_id key result ttl s =
      command out "redis set failed"
        (tt, R.set now (build_key tenant_id key) (json (stamped unix result)) ttl s) s

  unfoldable pub reserve : Outcome → ℕ → String → String → R.Store → Reply Bool × R.Store
  reserve out now tenant_id key s =
      command out "redis setnx failed"
        (R.set_nx now (build_key tenant_id key) (text processing_marker) processing_ttl s) s

  abbrev pub reserved : Reply Bool × R.Store → Reply (Option IdempotencyResult) × R.Store
  reserved (reply true, s) = (reply none, s)
  reserved (reply false, s) = (failure duplicate_request, s)
  reserved (failure e, s) = (failure e, s)

  -- The two calls are two commands, each at a time of its own.
  abbrev pub unless_checked :
      Outcome
      → ℕ
      → String
      → String
      → R.Store
      → Reply (Option IdempotencyResult)
      → Reply (Option IdempotencyResult) × R.Store
  unless_checked out now tenant_id key s (failure e) = (failure e, s)
  unless_checked out now tenant_id key s (reply (some r)) = (reply (some r), s)
  unless_checked out now tenant_id key s (reply none) = reserved (reserve out now tenant_id key s)

  unfoldable pub check_or_reserve :
      Outcome
      → Outcome
      → ℕ
      → ℕ
      → String
      → String
      → R.Store
      → Reply (Option IdempotencyResult) × R.Store
  check_or_reserve out out2 now now2 tenant_id key s =
      unless_checked out2 now2 tenant_id key s (check out now tenant_id key s)

  -- `releaseScript`, which the server runs whole.
  abbrev pub release_script : ℕ → String → R.Store → R.Store
  release_script now key s = if holds_marker (R.get now key s) then R.del key s else s

  unfoldable pub release : Outcome → ℕ → String → String → R.Store → Reply (Unit {0}) × R.Store
  release out now tenant_id key s =
      command out "redis release failed" (tt, release_script now (build_key tenant_id key) s) s

-- A command of some client, for a tenant and a key.
pub data Action : Type 0 where
  check_one : Action
  reserve_one : Action
  release_one : Action
  store_one : IdempotencyResult → ℕ → Action

pub record Request : Type 0 where
  pub tenant_id : String
  pub key : String
  pub action : Action
  pub outcome : Outcome
  pub now : ℕ
  pub unix : ℕ

module _ (R : Server) where
  abbrev pub act : Action → Request → R.Store → R.Store
  act check_one q s = s
  act reserve_one q s = (reserve R q.outcome q.now q.tenant_id q.key s).1
  act release_one q s = (release R q.outcome q.now q.tenant_id q.key s).1
  act (store_one r ttl) q s = (store R q.outcome q.now q.unix q.tenant_id q.key r ttl s).1
