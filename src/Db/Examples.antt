-- ===== src/Db/Examples.antt =====
-- Runs of the repository of internal/db/repository.go.
use mathlib.Core.Option
use nimbus_app.Prelude.{
  ◌&&◌, ℕ, ◌≤◌, ◌≡◌, ◌≢◌, ◌⊎◌, ◌++◌, refl, String, Bool, true, false, not, none, List, [], ◌∷◌,
  length, All, arith, ◌==◌,
}
use nimbus_app.Db.{Notification, DeadLetterNotification, Database, status_pending, status_sent}
use nimbus_app.Db.Sorter.{Sorter, sorter}
use nimbus_app.Db.Statement.{
  Outcome, DbError, done, Result, ok, err, is_ok, notification_not_found, already_processed,
  not_found_or_processed, find, any,
}
use nimbus_app.Db.Repository.{
  has_id, newest_first, oldest_first, create_notification, get_notification,
  update_notification_status, list_notifications_by_tenant,
}
use nimbus_app.Db.Repository.Acceptance.{IsAcceptable}
use nimbus_app.Db.Repository.Laws.{with_status, updates_exactly, creates_exactly, created}
use nimbus_app.Db.Repository.Pages.{pages_tile, rows}
use nimbus_app.Db.Claim.{
  eligible, is_in, select_batch, ids, claim_pending_notifications, claimed_ids,
}
use nimbus_app.Db.Claim.Disjoint.{claims_disjoint}
use nimbus_app.Db.Claim.Complete.{oldest_rows_first}
use nimbus_app.Db.DeadLetter.{
  Steps, dead_letter_of, get_dead_letter, retry_check, retry_transaction, retry_dead_letter,
  discard_dead_letter,
}
use nimbus_app.Db.DeadLetter.Atomic.{buried, moved, dlq, all_steps, moves_atomically}
use nimbus_app.Db.DeadLetter.Retry.{requeued, spent, all_done, retries_once, race_retries_twice}

abbrev row : ℕ → ℕ → String → Notification
row i t status = record {
  payload = "{}";
  id = i;
  tenant_id = 7;
  user_id = 8;
  created_at = t;
  updated_at = t;
  next_retry_at = none;
  error_message = none;
  channel = "email";
  status = status;
  attempt = 1;
}

abbrev item : DeadLetterNotification
item = dead_letter_of 90 50 (row 3 30 status_pending) "ses send failed"

abbrev table : Database
table = record {
  notifications = row 1 10 status_pending ∷ row 2 20 status_sent ∷ row 3 30 status_pending ∷ [];
  dead_letters = item ∷ [];
  is_json = λ s. true;
}

pub oldest_total : (a b : Notification) → oldest_first a b ≡ false → oldest_first b a ≡ true
oldest_total a b h = ground arith

pub oldest_trans :
    (a b c : Notification)
    → oldest_first a b ≡ true
    → oldest_first b c ≡ true
    → oldest_first a c ≡ true
oldest_trans a b c h k = ground arith

-- Sorted by creation.
abbrev pub oldest : Sorter Notification oldest_first
oldest = sorter oldest_first oldest_total oldest_trans

abbrev pub newest : Sorter Notification newest_first
newest = sorter newest_first (λ a b. oldest_total b a) (λ a b c h k. oldest_trans c b a k h)

abbrev free : ℕ → Bool
free i = false

read_one : get_notification done 1 table ≡ ok (row 1 10 status_pending)
unfolding get_notification find
read_one = refl

claims_the_oldest : ids (select_batch oldest free 100 1 table) ≡ 1 ∷ []
unfolding select_batch eligible sorter
claims_the_oldest = refl

updates_exactly_example :
    ((n : Notification) × (get_notification done 1 table ≡ ok n)
      × ((update_notification_status done 100 1 status_sent 2 none none table).0 ≡ ok tt)
      × (get_notification done 1
            (update_notification_status done 100 1 status_sent 2 none none table).1
          ≡ ok (with_status 100 status_sent 2 none none n))
      × ((j : ℕ)
          → j ≢ 1
          → get_notification done j
              (update_notification_status done 100 1 status_sent 2 none none table).1
            ≡ get_notification done j table))
    ⊎ ((any (has_id 1) table.notifications ≡ false)
        × ((update_notification_status done 100 1 status_sent 2 none none table).0
            ≡ err (notification_not_found 1))
        × ((update_notification_status done 100 1 status_sent 2 none none table).1 ≡ table))
updates_exactly_example = updates_exactly 100 1 status_sent 2 none none table refl (ground arith)

creates_exactly_example :
    (IsAcceptable (row 4 40 status_pending) table
      × (is_ok (create_notification done 100 (row 4 40 status_pending) table).0 ≡ true)
      × (get_notification done 4 (create_notification done 100 (row 4 40 status_pending) table).1
          ≡ ok (created 100 (row 4 40 status_pending) table))
      × ((j : ℕ)
          → j ≢ 4
          → get_notification done j (create_notification done 100 (row 4 40 status_pending) table).1
            ≡ get_notification done j table))
    ⊎ ((IsAcceptable (row 4 40 status_pending) table → ⊥)
        × (is_ok (create_notification done 100 (row 4 40 status_pending) table).0 ≡ false)
        × ((create_notification done 100 (row 4 40 status_pending) table).1 ≡ table))
creates_exactly_example = creates_exactly 100 (row 4 40 status_pending) table

pages_tile_example :
    (length (rows (list_notifications_by_tenant newest done 7 2 0 table)) ≤ 2)
    × (any
          (λ (n : Notification). not (n.tenant_id == 7))
          (rows (list_notifications_by_tenant newest done 7 2 0 table))
        ≡ false)
    × (ids (rows (list_notifications_by_tenant newest done 7 2 0 table))
          ++ ids (rows (list_notifications_by_tenant newest done 7 1 2 table))
        ≡ ids (rows (list_notifications_by_tenant newest done 7 3 0 table)))
pages_tile_example = pages_tile newest newest newest 7 2 1 0 table (λ t. ground arith)

abbrev first_claim : Result (List Notification) × Database
first_claim = claim_pending_notifications oldest free done 100 1 table

claims_disjoint_example :
    ((free 1 && is_in (claimed_ids first_claim.0) 1) ≡ false)
    × ((is_in (claimed_ids first_claim.0) 1
          && is_in
              (claimed_ids (claim_pending_notifications oldest free done 200 5 first_claim.1).0)
              1)
        ≡ false)
claims_disjoint_example = claims_disjoint oldest free free done 100 200 1 5 table 1 (ground arith)

oldest_rows_first_example :
    (is_in (ids (select_batch oldest free 100 1 table)) 3 ≡ true)
    ⊎ ((length (select_batch oldest free 100 1 table) ≡ 1)
        × All (λ (n : Notification). n.created_at ≤ 30) (select_batch oldest free 100 1 table))
unfolding any eligible
oldest_rows_first_example = oldest_rows_first oldest free 100 1 3 30 table refl refl

moves_atomically_example :
    (((moved all_steps 91 100 (row 1 10 status_pending) "timeout" table).1 ≡ table)
      × (is_ok (moved all_steps 91 100 (row 1 10 status_pending) "timeout" table).0 ≡ false))
    ⊎ ((get_dead_letter done 91 (moved all_steps 91 100 (row 1 10 status_pending) "timeout" table).1
          ≡ ok (dlq all_steps 91 100 (row 1 10 status_pending) "timeout" table))
        × (find
              (has_id 1)
              (moved all_steps 91 100 (row 1 10 status_pending) "timeout" table).1.notifications
            ≡ Option.map (buried 100) (find (has_id 1) table.notifications))
        × ((i : ℕ)
            → i ≢ 1
            → find
                (has_id i)
                (moved all_steps 91 100 (row 1 10 status_pending) "timeout" table).1.notifications
              ≡ find (has_id i) table.notifications))
moves_atomically_example =
    moves_atomically all_steps 91 100 (row 1 10 status_pending) "timeout" table

retries_once_example :
    ((retry_dead_letter done all_done 5 100 90 table).0 ≡ ok (requeued 5 100 item))
    × (get_notification done 5 (retry_dead_letter done all_done 5 100 90 table).1
        ≡ ok (requeued 5 100 item))
    × (get_dead_letter done 90 (retry_dead_letter done all_done 5 100 90 table).1
        ≡ ok (spent 5 100 item))
    × ((out : Outcome) (steps : Steps) (fresh' later : ℕ)
        → ((e : DbError) × (retry_dead_letter out steps fresh' later 90
                (retry_dead_letter done all_done 5 100 90 table).1
              ≡ (err e, (retry_dead_letter done all_done 5 100 90 table).1)))
          × ((e : DbError) × (discard_dead_letter out later 90
                  (retry_dead_letter done all_done 5 100 90 table).1
                ≡ (err e, (retry_dead_letter done all_done 5 100 90 table).1))))
    × ((steps : Steps) (fresh' later : ℕ)
        → (retry_dead_letter done steps fresh' later 90
              (retry_dead_letter done all_done 5 100 90 table).1
            ≡ (
              err (already_processed "retried"),
              (retry_dead_letter done all_done 5 100 90 table).1,
            ))
          × (discard_dead_letter done later 90 (retry_dead_letter done all_done 5 100 90 table).1
              ≡ (err not_found_or_processed, (retry_dead_letter done all_done 5 100 90 table).1)))
unfolding get_dead_letter find any
retries_once_example = retries_once 5 100 90 item table refl refl refl

abbrev first_retry : Result Notification × Database
first_retry = retry_transaction all_done 5 100 item 90 table

abbrev second_retry : Result Notification × Database
second_retry = retry_transaction all_done 6 101 item 90 first_retry.1

race_retries_twice_example :
    (first_retry.0 ≡ ok (requeued 5 100 item))
    × (second_retry.0 ≡ ok (requeued 6 101 item))
    × (get_notification done 5 second_retry.1 ≡ ok (requeued 5 100 item))
    × (get_notification done 6 second_retry.1 ≡ ok (requeued 6 101 item))
unfolding retry_check get_dead_letter find any
race_retries_twice_example =
    race_retries_twice 5 6 100 101 90 item table refl refl refl (ground arith)
