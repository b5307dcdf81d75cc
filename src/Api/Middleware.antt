-- ===== src/Api/Middleware.antt =====
-- internal/api/middleware.go: the middleware in front of the handlers, with the limiter of
-- internal/redis/ratelimit.go.
use Prim.Native.String.{◌++◌}
use nimbus_app.Prelude.{
  ℕ, ◌+◌, ◌-◌, ◌/◌, String, Bool, List, [], ◌∷◌, ◌++◌ as ◌+++◌, leb, ◌==◌, str_eq, if◌then◌else◌,
}
use nimbus_app.Prelude.Fallible.{decimal}
use nimbus_app.Breaker.{second}
use nimbus_app.Redis.{Reply, reply, failure}
use nimbus_app.Redis.RateLimit.{SortedSets, RateLimitConfig, RateLimitResult, Meets, allow}
use nimbus_app.Api.{Response, problem}

-- What the key functions read of a request; a header or a parameter that is absent is empty.
pub record HttpRequest : Type 0 where
  pub header : String → String
  pub query : String → String
  pub remote_addr : String

unfoldable pub tenant_key_func : HttpRequest → String
tenant_key_func r =
    if str_eq (r.header "X-Tenant-ID") ""
    then if str_eq (r.query "tenant_id") "" then "" else "tenant:" ++ r.query "tenant_id"
    else "tenant:" ++ r.header "X-Tenant-ID"

unfoldable pub ip_key_func : HttpRequest → String
ip_key_func r =
    if str_eq (r.header "X-Forwarded-For") ""
    then if str_eq (r.header "X-Real-IP") ""
      then "ip:" ++ r.remote_addr
      else "ip:" ++ r.header "X-Real-IP"
    else "ip:" ++ r.header "X-Forwarded-For"

-- `int(time.Until(resetAt).Seconds())`, as a text: cut off towards 0.
abbrev pub seconds_until : ℕ → ℕ → String
seconds_until now t =
    if leb now t
    then decimal ((t - now) / second)
    else if (now - t) / second == 0
    then "0"
    else "-" ++ decimal ((now - t) / second)

-- The limit that is told is the remaining number and one.
abbrev pub rate_headers : RateLimitResult → List (String × String)
rate_headers r =
    ("X-RateLimit-Limit", decimal (r.remaining + 1))
    ∷ ("X-RateLimit-Remaining", decimal r.remaining)
    ∷ ("X-RateLimit-Reset", decimal (r.reset_at / second))
    ∷ []

abbrev pub too_many_requests : ℕ → RateLimitResult → Response
too_many_requests later r = record {
  code = 429;
  headers =
      rate_headers r
      +++ ("Retry-After", seconds_until later r.reset_at)
        ∷ ("Content-Type", "application/problem+json")
        ∷ [];
  body = problem (record {
    kind = "rate_limit_exceeded";
    title = "Too Many Requests";
    status = 429;
    detail = "Rate limit exceeded. Please retry after the specified time.";
  });
}

-- `next` is the handler behind, on a state of its own; `later` is the time of the answer.
module _ (S : SortedSets) (config : RateLimitConfig) {A : Type 0} (next : A → Response × A) where
  abbrev passed : List (String × String) → Response × A → S.Store → Response × A × S.Store
  passed headers r s = (record r.0 { headers = headers +++ r.0.headers }, r.1, s)

  -- An error of the limiter lets the request through.
  abbrev decided : ℕ → A → Reply RateLimitResult × S.Store → Response × A × S.Store
  decided later a (failure e, s) = passed [] (next a) s
  decided later a (reply r, s) =
      if r.allowed then passed (rate_headers r) (next a) s else (too_many_requests later r, a, s)

  -- `enabled` is false where there is no limiter.
  unfoldable pub rate_limit_middleware :
      Bool → (HttpRequest → String) → Meets → ℕ → HttpRequest → A → S.Store → Response × A × S.Store
  rate_limit_middleware enabled key_func m later req a s =
      if enabled
      then if str_eq (key_func req) ""
        then passed [] (next a) s
        else decided later a (allow S config m (key_func req) s)
      else passed [] (next a) s
