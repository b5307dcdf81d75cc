-- ===== src/Api/Durable.antt =====
-- What `CreateNotification` of internal/api/handler.go has done when it answers.
use nimbus_app.Prelude.{
  ℕ, ◌≡◌, refl, sym, subst, ◌⊎◌, inl, inr, String, Bool, true, false, Option, none, some, [], ◌∷◌,
  arith, Bool-cases,
}
use nimbus_app.Db.{Notification, Database}
use nimbus_app.Db.Statement.{done, lost, DbError, Result, ok, err}
use nimbus_app.Db.Repository.{get_notification, create_notification}
use nimbus_app.Redis.{Server}
use nimbus_app.Redis.Idempotency.{check_or_reserve}
use nimbus_app.Db.Repository.Laws.{created_or_not}
use nimbus_app.Redis.{
  IdempotencyResult, Reply, reply, failure, duplicate_request, redis_failed, invalid_cached_result,
}
use nimbus_app.Api.{
  NotificationRequest, Response, decoded, Formats, State, created, json_response, write_error,
}
use nimbus_app.Api.Create.{
  Services, Meets, accepted, validate, new_notification, guard, guarded, uses_key, key_of, finish,
  unless_answered, create_handler,
}

-- The row that an INSERT at `now` leaves.
abbrev inserted : ℕ → Notification → Notification
inserted now n = record n { created_at = now; updated_at = now }

-- The row of a request, whose tenant and user are `t` and `u`, under the id `fresh`.
abbrev pub pending_row : ℕ → ℕ → ℕ → ℕ → NotificationRequest → Notification
pending_row fresh now t u req = record {
  payload = req.payload;
  id = fresh;
  tenant_id = t;
  user_id = u;
  created_at = now;
  updated_at = now;
  next_retry_at = none;
  error_message = none;
  channel = req.channel;
  status = "pending";
  attempt = 0;
}

abbrev pub failed_create : Response
failed_create = write_error 500 "database_error" "Failed to create notification" ""

-- The key store has neither a result nor a reservation to answer with.
abbrev pub HasNoAnswer : Reply (Option IdempotencyResult) → Type 0
HasNoAnswer c =
    (c ≡ reply none)
    ⊎ (c ≡ failure invalid_cached_result)
    ⊎ ((w : String) × (c ≡ failure (redis_failed w)))

module _ (R : Server) (F : Formats) (services : Services) where
  -- The handler answers with what the key store has, and does nothing else.
  abbrev pub IsAnswerOf :
      Reply (Option IdempotencyResult) × R.Store → State R → Response × State R → Type 0
  IsAnswerOf c st r =
      (((x : IdempotencyResult) × (c.0 ≡ reply (some x))
          × (r.0 ≡ record {
            code = x.status_code;
            headers =
                ("Content-Type", "application/json") ∷ ("X-Idempotency-Replayed", "true") ∷ [];
            body = created x.notification_id;
          }))
        ⊎ ((c.0 ≡ failure duplicate_request)
            × (r.0
                ≡ write_error 409 "duplicate_request" "Request is already being processed"
                    "another request with this idempotency key is in progress")))
      × (r.1 ≡ record st { store = c.1 })

  -- A new notification, in the table before the answer; or an error.
  abbrev pub Makes : Meets → Notification → State R → Response × State R → Type 0
  Makes m row st r =
      ((r.0 ≡ json_response 201 (created (F.uuid_string row.id)))
        × (get_notification done row.id r.1.db ≡ ok row))
      ⊎ ((r.0 ≡ failed_create) × (r.1.queue ≡ st.queue) × ((m.insert ≡ lost) ⊎ (r.1.db ≡ st.db)))

  -- How a request that passed the checks ends.
  abbrev EndsBy :
      Reply (Option IdempotencyResult) × R.Store
      → Bool
      → Meets
      → Notification
      → State R
      → Response × State R
      → Type 0
  EndsBy c uses m row st r =
      ((uses ≡ true) × IsAnswerOf c st r) ⊎ (((uses ≡ false) ⊎ HasNoAnswer c.0) × Makes m row st r)

  abbrev pub Ends :
      Meets → String → NotificationRequest → ℕ → ℕ → State R → Response × State R → Type 0
  Ends m key req t u st r =
      EndsBy
        (check_or_reserve R m.check m.reserve m.now_check m.now_reserve req.tenant_id key st.store)
        (uses_key R F services key) m (pending_row m.fresh m.now t u req) st r

  same_id :
      (y x n : Notification) → Path (Result Notification) (ok y) (ok x) → x.id ≡ n.id → y.id ≡ n.id
  same_id y x n e i = ground arith

  finish-Makes :
      (m : Meets) (header : String) (req : NotificationRequest) (key : String) (n : Notification)
      (st st1 : State R) (r : Result Notification × Database)
      → st1.queue ≡ st.queue
      → ((x : Notification) × (r.0 ≡ ok x)
          × (x.id ≡ n.id)
          × (get_notification done n.id r.1 ≡ ok (inserted m.now n)))
        ⊎ ((e : DbError) × (r.0 ≡ err e) × ((m.insert ≡ lost) ⊎ (r.1 ≡ st.db)))
      → Makes m (inserted m.now n) st (finish R F services m header req key st1 r)
  finish-Makes m header req key n st st1 (ok y, db) q (inl (x, e, i, g)) =
      inl (λ j. json_response 201 (created (F.uuid_string (same_id y x n e i j))), g)
  finish-Makes m header req key n st st1 (err y, db) q (inl (x, e, i, g)) = ground arith
  finish-Makes m header req key n st st1 (ok y, db) q (inr (x, e, o)) = ground arith
  finish-Makes m header req key n st st1 (err y, db) q (inr (x, e, o)) = inr (refl, q, o)

  module _ (m : Meets) (header : String) (req : NotificationRequest) (key : String) (t u : ℕ)
      (st : State R) where
    abbrev new : Notification
    new = new_notification m.fresh t u req

    goes_on :
        (s : R.Store)
        → Makes m
            (pending_row m.fresh m.now t u req)
            st
            (unless_answered R F services m header req key new st (none, s))
    goes_on s =
        finish-Makes m header req key new st (record st { store = s })
          (create_notification m.insert m.now new st.db) refl
          (ground (arith, created_or_not m.insert m.now new st.db))

    used-EndsBy :
        (c : Reply (Option IdempotencyResult) × R.Store)
        → uses_key R F services key ≡ true
        → EndsBy c
            (uses_key R F services key)
            m
            (pending_row m.fresh m.now t u req)
            st
            (unless_answered R F services m header req key new st (guarded R c))
    used-EndsBy (failure duplicate_request, s) k = inl (k, (inr (refl, refl), refl))
    used-EndsBy (failure (redis_failed w), s) k = inr (inr (inr (inr (w, refl))), goes_on s)
    used-EndsBy (failure invalid_cached_result, s) k = inr (inr (inr (inl refl)), goes_on s)
    used-EndsBy (reply none, s) k = inr (inr (inl refl), goes_on s)
    used-EndsBy (reply (some x), s) k = inl (k, (inl (x, refl, refl), refl))

    guard_used :
        uses_key R F services key ≡ true
        → guard R F services m req key st.store
          ≡ guarded R (
              check_or_reserve R m.check m.reserve m.now_check m.now_reserve req.tenant_id key
                st.store)
    guard_used k = rw k refl

    guard_unused :
        uses_key R F services key ≡ false → guard R F services m req key st.store ≡ (none, st.store)
    guard_unused k = rw k refl

    guarded-Ends : Ends m key req t u st (
        unless_answered R F services m header req key new st
          (guard R F services m req key st.store))
    guarded-Ends = elim (Bool-cases (uses_key R F services key)) [
      | inl k ↦
          subst
            (λ g. Ends m key req t u st (unless_answered R F services m header req key new st g))
            (sym (guard_used k)) (used-EndsBy _ k)
      | inr k ↦
          subst
            (λ g. Ends m key req t u st (unless_answered R F services m header req key new st g))
            (sym (guard_unused k)) (inr (inl k, goes_on st.store))
    ]

  -- Whatever the calls to the key store, the database and the queue meet, a request that passes the
  -- checks ends in one of three ways. If the key is in use and the key store has a result or a
  -- reservation for it, that is the answer (the stored id as a replay, or 409), with no row and no
  -- message made. If the key is not in use, or the key store has no such answer: 201 with the new id,
  -- and the pending row with attempt 0 and the request's channel, payload, tenant and user is in the
  -- table, also if the result was not stored or the message was not sent; or 500, with no message, and
  -- with no row unless the database's answer was lost.
  pub created_is_durable :
      (m : Meets) (header : String) (req : NotificationRequest) (t u : ℕ) (st : State R)
      → validate F req ≡ accepted t u
      → Ends m
          (key_of R F services header req)
          req
          t
          u
          st
          (create_handler R F services m header (decoded req) st)
  unfolding create_handler
  created_is_durable m header req t u st v =
      rw v (guarded-Ends m header req (key_of R F services header req) t u st)
