-- ===== src/Db/DeadLetter/Atomic.antt =====
-- `MoveToDeadLetter` of internal/db/repository.go: the queue's row and the notification's status
-- change together or not at all.
use mathlib.Core.Option
use nimbus_app.Prelude.{ℕ, ◌≡◌, refl, ◌≢◌, none, ◌⊎◌, inl, inr, String, true, false, arith}
use nimbus_app.Db.{Notification, DeadLetterNotification, Database, status_dead_lettered}
use nimbus_app.Db.Statement.{done, Result, ok, is_ok, find}
use nimbus_app.Db.Repository.{has_id}
use nimbus_app.Db.Rows.{find-append, find-update_self, find-update_other}
use nimbus_app.Db.DeadLetter.{
  Steps, has_dlq_id, dead_letter_of, dead_lettered, dead_letter_accepted, move_to_dead_letter,
  get_dead_letter,
}

-- The notification's row after the move.
abbrev pub buried : ℕ → Notification → Notification
buried now n = record n { status = status_dead_lettered; updated_at = now }

-- The item of a notification that was given up with the error `e`.
abbrev pub queued : ℕ → ℕ → Notification → String → DeadLetterNotification
queued fresh now n e = record {
  payload = n.payload;
  id = fresh;
  original_notification_id = n.id;
  tenant_id = n.tenant_id;
  user_id = n.user_id;
  created_at = now;
  updated_at = now;
  retried_notification_id = none;
  channel = n.channel;
  last_error = e;
  status = "pending";
  attempts = n.attempt;
}

module _ (steps : Steps) (fresh now : ℕ) (notif : Notification) (e : String) (db : Database) where
  abbrev pub moved : Result DeadLetterNotification × Database
  moved = move_to_dead_letter steps fresh now notif e db

  abbrev pub dlq : DeadLetterNotification
  dlq = queued fresh now notif e

  cases :
      ((moved.1 ≡ db) × (is_ok moved.0 ≡ false))
      ⊎ ((moved.1 ≡ dead_lettered now notif dlq db) × (dead_letter_accepted dlq db ≡ true))
  unfolding move_to_dead_letter
  cases = ground arith

  find-dead_lettered :
      find (has_id notif.id) (dead_lettered now notif dlq db).notifications
      ≡ Option.map (buried now) (find (has_id notif.id) db.notifications)
  find-dead_lettered = find-update_self (has_id notif.id) (buried now) db.notifications (λ n. refl)

  others-dead_lettered :
      (i : ℕ)
      → i ≢ notif.id
      → find (has_id i) (dead_lettered now notif dlq db).notifications
        ≡ find (has_id i) db.notifications
  others-dead_lettered i h =
      find-update_other (has_id i) (has_id notif.id) (buried now) db.notifications (λ n. refl)
        (λ n e. ground arith)

  get_dead_letter-dead_lettered :
      dead_letter_accepted dlq db ≡ true
      → get_dead_letter done fresh (dead_lettered now notif dlq db) ≡ ok dlq
  unfolding get_dead_letter
  get_dead_letter-dead_lettered h =
      rw (find-append (has_dlq_id fresh) db.dead_letters dlq) (ground arith)

  -- Whatever step of the transaction fails, and whether or not the answer to its commit arrives: an
  -- error with nothing changed, or the queue has a pending item with the notification's payload,
  -- channel, tenant and user under its new id, the notification's row is 'dead_lettered' with its
  -- other columns but `updated_at` as they were, and no other notification is changed.
  pub moves_atomically :
      ((moved.1 ≡ db) × (is_ok moved.0 ≡ false))
      ⊎ ((get_dead_letter done fresh moved.1 ≡ ok dlq)
          × (find (has_id notif.id) moved.1.notifications
              ≡ Option.map (buried now) (find (has_id notif.id) db.notifications))
          × ((i : ℕ)
              → i ≢ notif.id
              → find (has_id i) moved.1.notifications ≡ find (has_id i) db.notifications))
  moves_atomically = elim cases [
    | inl h ↦ inl h
    | inr (e, accepted) ↦ inr (
      rw e (get_dead_letter-dead_lettered accepted),
      rw e find-dead_lettered,
      rw e others-dead_lettered,
    )
  ]

-- Every step of the transaction is carried out.
abbrev pub all_steps : Steps
all_steps = record { begin = true; insert = true; update = true; commit = done }

committed :
    (fresh now : ℕ) (notif : Notification) (e : String) (db : Database)
    → dead_letter_accepted (dead_letter_of fresh now notif e) db ≡ true
    → move_to_dead_letter all_steps fresh now notif e db ≡ (
      ok (dead_letter_of fresh now notif e),
      dead_lettered now notif (dead_letter_of fresh now notif e) db,
    )
unfolding move_to_dead_letter
committed fresh now notif e db a = ground arith

pub committed_move :
    (fresh now : ℕ) (notif : Notification) (e : String) (db : Database)
    → dead_letter_accepted (dead_letter_of fresh now notif e) db ≡ true
    → (get_dead_letter done fresh (move_to_dead_letter all_steps fresh now notif e db).1
        ≡ ok (dead_letter_of fresh now notif e))
      × (find (has_id notif.id) (move_to_dead_letter all_steps fresh now notif e db).1.notifications
          ≡ Option.map (buried now) (find (has_id notif.id) db.notifications))
committed_move fresh now notif e db a = rw (committed fresh now notif e db a) (
  get_dead_letter-dead_lettered all_steps fresh now notif e db a,
  find-dead_lettered all_steps fresh now notif e db,
)
