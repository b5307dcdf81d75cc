-- ===== src/Api/Errors.antt =====
-- What the handlers of internal/api/handler.go that write answer with an error leave behind, and the
-- pages that the listings answer with.
use nimbus_app.Prelude.{
  ℕ, ◌≡◌, refl, ◌≢◌, ◌⊎◌, inl, inr, String, Option, none, some, arith, Bool-cases,
}
use nimbus_app.Prelude.Int.{ℤ, pos, negsuc}
use nimbus_app.Db.{Notification, DeadLetterNotification, Database}
use nimbus_app.Db.Statement.{Outcome, lost, Result, ok, err}
use nimbus_app.Db.Repository.{update_notification_status}
use nimbus_app.Db.DeadLetter.{
  Steps, retry_of, retry_dead_letter, discard_dead_letter, retry_check, retry_transaction,
  if_pending,
}
use nimbus_app.Api.{Response, Decoded, malformed, decoded, Formats}
use nimbus_app.Api.Handlers.{
  StatusRequest, status_handler, dlq_retry_handler, dlq_discard_handler, status_set, dlq_discarded,
  dlq_retried, status_checked, status_parsed, dlq_retry_parsed, dlq_discard_parsed, valid_status,
}

update_or_same :
    (out : Outcome) (now i : ℕ) (status : String) (a : ℕ) (e : Option String) (n : Option ℕ)
    (db : Database)
    → out ≢ lost
    → ((update_notification_status out now i status a e n db).0 ≡ ok tt)
      ⊎ ((update_notification_status out now i status a e n db).1 ≡ db)
unfolding update_notification_status
update_or_same out now i status a e n db h = ground arith

discard_or_same :
    (out : Outcome) (now i : ℕ) (db : Database)
    → out ≢ lost
    → ((discard_dead_letter out now i db).0 ≡ ok tt) ⊎ ((discard_dead_letter out now i db).1 ≡ db)
unfolding discard_dead_letter
discard_or_same out now i db h = ground arith

retry_or_same :
    (steps : Steps) (fresh now i : ℕ) (d : DeadLetterNotification) (db : Database)
    → steps.commit ≢ lost
    → ((retry_transaction steps fresh now d i db).0 ≡ ok (retry_of fresh now d))
      ⊎ ((retry_transaction steps fresh now d i db).1 ≡ db)
unfolding retry_transaction
retry_or_same steps fresh now i d db h = ground arith

module _ (F : Formats) (now fresh : ℕ) (id : String) (db : Database) where
  -- What an answer says of the database that comes with it.
  abbrev pub IsHonest : Response × Database → Type 0
  IsHonest r = (r.0.code ≡ 200) ⊎ (r.1 ≡ db)

  status_set-IsHonest :
      (status : String) (r : Result (Unit {0}) × Database)
      → (r.0 ≡ ok tt) ⊎ (r.1 ≡ db)
      → IsHonest (status_set F id status r)
  status_set-IsHonest status (ok u, db') h = inl refl
  status_set-IsHonest status (err e, db') h = ground arith

  discarded-IsHonest :
      (r : Result (Unit {0}) × Database)
      → (r.0 ≡ ok tt) ⊎ (r.1 ≡ db)
      → IsHonest (dlq_discarded F id r)
  discarded-IsHonest (ok u, db') h = inl refl
  discarded-IsHonest (err e, db') h = ground arith

  retried-IsHonest :
      (n : Notification) (r : Result Notification × Database)
      → (r.0 ≡ ok n) ⊎ (r.1 ≡ db)
      → IsHonest (dlq_retried F id r)
  retried-IsHonest n (ok u, db') h = inl refl
  retried-IsHonest n (err e, db') h = ground arith

  module _ (out : Outcome) (known : out ≢ lost) where
    status-IsHonest :
        (body : Decoded StatusRequest) (parsed : Option ℕ)
        → IsHonest (status_parsed F out now id body db parsed)
    status-IsHonest body none = inr refl
    status-IsHonest (malformed e) (some i) = inr refl
    status-IsHonest (decoded req) (some i) = elim (Bool-cases (valid_status req.status)) [
      | inl v ↦ rw v (checked req.attempt)
      | inr v ↦ rw v (inr refl)
    ]
      where
        checked : (a : ℤ) → IsHonest (status_checked F out now i id req.status a req.error db)
        checked (negsuc n) = inr refl
        checked (pos n) =
            status_set-IsHonest req.status
              (update_notification_status out now i req.status n req.error none db)
              (update_or_same out now i req.status n req.error none db known)

    discard-IsHonest : (parsed : Option ℕ) → IsHonest (dlq_discard_parsed F out now id db parsed)
    discard-IsHonest none = inr refl
    discard-IsHonest (some i) =
        discarded-IsHonest (discard_dead_letter out now i db) (discard_or_same out now i db known)

    module _ (steps : Steps) (committed : steps.commit ≢ lost) where
      checked-IsHonest :
          (i : ℕ) (r : Result DeadLetterNotification)
          → IsHonest
              (dlq_retried F id (if_pending r (λ d. retry_transaction steps fresh now d i db) db))
      checked-IsHonest i (err e) = inr refl
      checked-IsHonest i (ok d) =
          retried-IsHonest (retry_of fresh now d) (retry_transaction steps fresh now d i db)
            (retry_or_same steps fresh now i d db committed)

      retry-IsHonest :
          (parsed : Option ℕ) → IsHonest (dlq_retry_parsed F out steps fresh now id db parsed)
      unfolding retry_dead_letter
      retry-IsHonest none = inr refl
      retry-IsHonest (some i) = checked-IsHonest i (retry_check out i db)

      -- A PATCH of a status, a retry and a discard of a dead letter: each is answered with 200 or has
      -- changed nothing, whatever was wrong with the request or with the statements, unless a
      -- statement's or the commit's answer was lost.
      pub errors_change_nothing :
          (body : Decoded StatusRequest)
          → IsHonest (status_handler F out now id body db)
            × IsHonest (dlq_retry_handler F out steps fresh now id db)
            × IsHonest (dlq_discard_handler F out now id db)
      unfolding status_handler dlq_retry_handler dlq_discard_handler
      errors_change_nothing body = (
        status-IsHonest body (F.parse_uuid id),
        retry-IsHonest (F.parse_uuid id),
        discard-IsHonest (F.parse_uuid id),
      )
