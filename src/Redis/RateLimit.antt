-- ===== src/Redis/RateLimit.antt =====
-- internal/redis/ratelimit.go: the sliding window of a key's requests. `SortedSets` is the documented
-- behaviour of ZREMRANGEBYSCORE, ZCARD, ZADD and EXPIRE.
pub mod Names
pub mod Kept
pub mod Window
pub mod Memory
mod Examples
use Prim.Native.String.{◌++◌}
use nimbus_app.Prelude.{
  ℕ, zero, suc, ◌+◌, ◌-◌, ◌*◌, ◌/◌, ◌≤◌, ◌<◌, ◌≡◌, String, Bool, true, false, List, [], ◌∷◌, keep,
  length, ltb, str_eq, if◌then◌else◌,
}
use nimbus_app.Prelude.Fallible.{decimal}
use nimbus_app.Breaker.{second}
use nimbus_app.Db.Sorter.{count}
use nimbus_app.Db.Statement.{Outcome, any}
use nimbus_app.Redis.{Reply, reply, failure, command}

-- A member of a sorted set with its score; a score is a double, here always a natural number.
abbrev pub Member : Type 0
Member = String × ℕ

abbrev pub above : ℕ → Member → Bool
above x m = ltb x m.1

abbrev pub named : String → Member → Bool
named name m = str_eq m.0 name

-- `double` is the double next to a number. A time is in nanoseconds.
pub record SortedSets : Type 1 where
  pub Store : Type 0
  pub double : ℕ → ℕ
  pub members : ℕ → String → Store → List Member
  pub zrem_up_to : ℕ → String → ℕ → Store → Store
  pub zadd : ℕ → String → Member → Store → Store
  pub expire : ℕ → String → ℕ → Store → Store
  pub double_mono : (a b : ℕ) → a ≤ b → double a ≤ double b
  pub double_idem : (a : ℕ) → double (double a) ≡ double a
  pub members-zrem :
      (now t : ℕ) (k : String) (max : ℕ) (s : Store)
      → now ≤ t
      → members t k (zrem_up_to now k max s) ≡ keep (above max) (members t k s)
  pub members-zadd :
      (now : ℕ) (k : String) (m : Member) (s : Store) (p : Member → Bool)
      → any (named m.0) (members now k s) ≡ false
      → count p (members now k (zadd now k m s)) ≡ count p (m ∷ members now k s)
  pub members-expire :
      (now t : ℕ) (k : String) (ttl : ℕ) (s : Store)
      → now ≤ t
      → t < now + ttl
      → members t k (expire now k ttl s) ≡ members now k s
  pub members-expire_late :
      (now t : ℕ) (k : String) (ttl : ℕ) (s : Store)
      → now + ttl ≤ t
      → members t k (expire now k ttl s) ≡ []

pub record RateLimitConfig : Type 0 where
  pub limit : ℕ
  pub window : ℕ

pub record RateLimitResult : Type 0 where
  pub allowed : Bool
  pub remaining : ℕ
  pub reset_at : ℕ

-- What a call meets: its time, and the outcome of each pipeline.
pub record Meets : Type 0 where
  pub now : ℕ
  pub counting : Outcome
  pub adding : Outcome

abbrev pub redis_key : String → String
redis_key key = "ratelimit:" ++ key

abbrev pub member_name : ℕ → ℕ → String
member_name now i = decimal now ++ "-" ++ decimal i

-- EXPIRE has whole seconds, and the client cuts the rest of a duration off.
unfoldable pub key_ttl : ℕ → ℕ
key_ttl window = (window + second) / second * second

module _ (S : SortedSets) (config : RateLimitConfig) where
  -- The first pipeline, whose answer is the number of members.
  unfoldable pub count_requests : Outcome → ℕ → String → S.Store → Reply ℕ × S.Store
  count_requests out now key s =
      let cleaned = S.zrem_up_to now key (S.double (now - config.window)) s in
      command out "redis pipeline failed" (length (S.members now key cleaned), cleaned) s

  -- The `n` members from the `i`-th on.
  unfoldable pub add_members : ℕ → ℕ → ℕ → String → S.Store → S.Store
  add_members zero i now key s = s
  add_members (suc n) i now key s =
      add_members n (i + 1) now key
        (S.zadd now key (member_name now i, S.double (S.double now + i)) s)

  -- The second pipeline.
  unfoldable pub add_requests : Outcome → ℕ → ℕ → String → S.Store → Reply (Unit {0}) × S.Store
  add_requests out n now key s =
      command out "redis zadd failed"
        (tt, S.expire now key (key_ttl config.window) (add_members n 0 now key s)) s

  abbrev pub limited : ℕ → ℕ → RateLimitResult
  limited now current = record {
    allowed = false;
    remaining = config.limit - current;
    reset_at = now + config.window;
  }

  abbrev pub added : ℕ → ℕ → ℕ → Reply (Unit {0}) × S.Store → Reply RateLimitResult × S.Store
  added n now current (failure e, s) = (failure e, s)
  added n now current (reply u, s) = (
    reply (record {
      allowed = true;
      remaining = config.limit - current - n;
      reset_at = now + config.window;
    }),
    s,
  )

  abbrev pub counted : Meets → ℕ → String → Reply ℕ × S.Store → Reply RateLimitResult × S.Store
  counted m n key (failure e, s) = (failure e, s)
  counted m n key (reply current, s) =
      if ltb config.limit (current + n)
      then (reply (limited m.now current), s)
      else added n m.now current (add_requests m.adding n m.now key s)

  unfoldable pub allow_n : Meets → String → ℕ → S.Store → Reply RateLimitResult × S.Store
  allow_n m key n s =
      counted m n (redis_key key) (count_requests m.counting m.now (redis_key key) s)

  unfoldable pub allow : Meets → String → S.Store → Reply RateLimitResult × S.Store
  allow m key s = allow_n m key 1 s
