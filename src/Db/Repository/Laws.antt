-- ===== src/Db/Repository/Laws.antt =====
-- What `UpdateNotificationStatus` and `CreateNotification` of internal/db/repository.go leave behind
-- for `GetNotification`, and the pages of `ListNotificationsByTenant`.
use nimbus_app.Prelude.{
  ℕ, ◌<◌, ◌^◌, ◌≡◌, refl, ap, ◌⊎◌, inl, inr, Bool-cases, Option-cases, ◌≢◌, String, true, false,
  Option, none, some, [], ◌∷◌, ◌++◌, arith, ==_refl,
}
use nimbus_app.Db.{Notification, Database, check_status}
use nimbus_app.Db.Statement.{
  Outcome, done, refused, lost, DbError, Result, ok, err, is_ok, notification_not_found, find, any,
}
use nimbus_app.Db.Rows.{
  any-none_of_find, find-update_self, find-update_other, any_of_find, find-append, find-none_of_any,
}
use nimbus_app.Db.Repository.Acceptance.{
  IsAcceptable, row_accepted-IsAcceptable, row_accepted_of_IsAcceptable,
}
use nimbus_app.Db.Repository.{
  has_id, row_accepted, create_notification, get_notification, update_notification_status,
}

pub found-get :
    (id : ℕ) (db : Database) (n : Notification)
    → get_notification done id db ≡ ok n
    → find (has_id id) db.notifications ≡ some n
unfolding get_notification
found-get id db n h = ground arith

get-found :
    (id : ℕ) (db : Database) (n : Notification)
    → find (has_id id) db.notifications ≡ some n
    → get_notification done id db ≡ ok n
unfolding get_notification
get-found id db n h = rw h refl

-- The row after `UpdateNotificationStatus`.
abbrev pub with_status : ℕ → String → ℕ → Option String → Option ℕ → Notification → Notification
with_status now status attempt e next n = record n {
  status = status;
  attempt = attempt;
  error_message = e;
  next_retry_at = next;
  updated_at = now;
}

module _ (now id : ℕ) (status : String) (attempt : ℕ) (e : Option String) (next : Option ℕ)
    (db : Database) where
  abbrev pub updated : Result (Unit {0}) × Database
  updated = update_notification_status done now id status attempt e next db

  pub get-update :
      (n : Notification)
      → get_notification done id db ≡ ok n
      → check_status status ≡ true
      → attempt < 2 ^ 31
      → get_notification done id updated.1 ≡ ok (with_status now status attempt e next n)
  unfolding get_notification update_notification_status
  get-update n h s a = ground (
    arith,
    found-get id db n h,
    any_of_find (has_id id) db.notifications {x = n} (found-get id db n h),
    find-update_self (has_id id) (with_status now status attempt e next) db.notifications
        (λ x. refl),
  )

  get-update_other :
      (j : ℕ) → j ≢ id → get_notification done j updated.1 ≡ get_notification done j db
  unfolding get_notification update_notification_status
  get-update_other j apart = ground (
    arith,
    find-update_other (has_id j) (has_id id) (with_status now status attempt e next)
        db.notifications (λ x. refl) (λ x q. ground arith),
  )

  update_missing :
      any (has_id id) db.notifications ≡ false
      → attempt < 2 ^ 31
      → updated ≡ (err (notification_not_found id), db)
  unfolding update_notification_status
  update_missing h a = ground arith

  update_ok :
      any (has_id id) db.notifications ≡ true
      → check_status status ≡ true
      → attempt < 2 ^ 31
      → updated.0 ≡ ok tt
  unfolding update_notification_status
  update_ok h s a = ground arith

-- `UpdateNotificationStatus` with a valid status and an attempt that the column holds: either the
-- notification is there, the call succeeds, a later read returns it with exactly the given status,
-- attempt, error and retry time (and a new `updated_at`), and every other notification reads as
-- before; or it is not there, and the call fails with "not found" and changes nothing.
pub updates_exactly :
    (now id : ℕ) (status : String) (attempt : ℕ) (e : Option String) (next : Option ℕ)
    (db : Database)
    → check_status status ≡ true
    → attempt < 2 ^ 31
    → let (result, db') = update_notification_status done now id status attempt e next db in
      ((n : Notification) × (get_notification done id db ≡ ok n)
        × (result ≡ ok tt)
        × (get_notification done id db' ≡ ok (with_status now status attempt e next n))
        × ((j : ℕ) → j ≢ id → get_notification done j db' ≡ get_notification done j db))
      ⊎ ((any (has_id id) db.notifications ≡ false)
          × (result ≡ err (notification_not_found id))
          × (db' ≡ db))
updates_exactly now id status attempt e next db s a =
    elim (Option-cases (find (has_id id) db.notifications)) [
      | inr (n, h) ↦ inl (
        n,
        get-found id db n h,
        update_ok now id status attempt e next db
            (any_of_find (has_id id) db.notifications {x = n} h) s a,
        get-update now id status attempt e next db n (get-found id db n h) s a,
        get-update_other now id status attempt e next db,
      )
      | inl h ↦ inr (
        any-none_of_find (has_id id) db.notifications h,
        ap (λ (r : Result (Unit {0}) × Database). r.0)
            (update_missing now id status attempt e next db
              (any-none_of_find (has_id id) db.notifications h) a),
        ap (λ (r : Result (Unit {0}) × Database). r.1)
            (update_missing now id status attempt e next db
              (any-none_of_find (has_id id) db.notifications h) a),
      )
    ]

module _ (now : ℕ) (n : Notification) (db : Database) where
  -- The row that `CreateNotification` writes.
  abbrev pub created : Notification
  created = record n { created_at = now; updated_at = now; error_message = none }

  pub creates :
      let (result, db') = create_notification done now n db in
      (row_accepted n db ≡ true
        → (is_ok result ≡ true)
          × (get_notification done n.id db' ≡ ok created)
          × ((j : ℕ) → j ≢ n.id → get_notification done j db' ≡ get_notification done j db))
      × (row_accepted n db ≡ false → (is_ok result ≡ false) × (db' ≡ db))
  unfolding create_notification get_notification
  creates = (
    λ h. (
      ground arith,
      ground (arith, ==_refl n.id, find-append (has_id n.id) db.notifications created),
      λ j apart. ground (arith, find_other j apart),
    ),
    λ h. ground arith,
  )
    where
      find_other :
          (j : ℕ)
          → j ≢ n.id
          → find (has_id j) (db.notifications ++ created ∷ []) ≡ find (has_id j) db.notifications
      find_other j apart = ground (
        arith,
        find-append (has_id j) db.notifications created,
        find-none_of_any (has_id j) db.notifications,
      )

-- Creating a notification: either its id is free, its payload is JSON, its channel and its status are
-- among those that the table allows and its attempt counter is in range; then the call succeeds, a read
-- by its id returns what was given (stamped, and without an error message), and every other read is as
-- before. Or one of these does not hold; then it is refused and nothing changes.
pub creates_exactly :
    (now : ℕ) (n : Notification) (db : Database)
    → let (result, db') = create_notification done now n db in
      (IsAcceptable n db
        × (is_ok result ≡ true)
        × (get_notification done n.id db' ≡ ok (created now n db))
        × ((j : ℕ) → j ≢ n.id → get_notification done j db' ≡ get_notification done j db))
      ⊎ ((IsAcceptable n db → ⊥) × (is_ok result ≡ false) × (db' ≡ db))
creates_exactly now n db = elim (Bool-cases (row_accepted n db)) [
  | inl h ↦
      let (o, g, others) = (creates now n db).0 h in
      inl (row_accepted-IsAcceptable n db h, o, g, others)
  | inr h ↦
      let (o, same) = (creates now n db).1 h in
      inr (λ a. ground (arith, row_accepted_of_IsAcceptable n db a), o, same)
]

-- What `CreateNotification` leaves, whatever its statement meets.
pub created_or_not :
    (out : Outcome) (now : ℕ) (n : Notification) (db : Database)
    → let (result, db') = create_notification out now n db in
      ((x : Notification) × (result ≡ ok x)
        × (x.id ≡ n.id)
        × (get_notification done n.id db'
            ≡ ok (record n { created_at = now; updated_at = now; error_message = none })))
      ⊎ ((e : DbError) × (result ≡ err e) × ((out ≡ lost) ⊎ (db' ≡ db)))
unfolding create_notification get_notification
created_or_not done now n db = elim (Bool-cases (row_accepted n db)) [
  | inl h ↦ inl (
    record n { created_at = now; updated_at = now },
    ground arith,
    refl,
    ((creates now n db).0 h).1,
  )
  | inr h ↦ rw h (inr (_, refl, inr refl))
]
created_or_not refused now n db = elim (Bool-cases (row_accepted n db)) [
  | inl h ↦ rw h (inr (_, refl, inr refl))
  | inr h ↦ rw h (inr (_, refl, inr refl))
]
created_or_not lost now n db = elim (Bool-cases (row_accepted n db)) [
  | inl h ↦ rw h (inr (_, refl, inl refl))
  | inr h ↦ rw h (inr (_, refl, inl refl))
]
