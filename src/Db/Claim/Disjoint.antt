-- ===== src/Db/Claim/Disjoint.antt =====
-- No row is claimed twice by internal/db/repository.go, as long as its claim is not stale.
use nimbus_app.Prelude.{
  ◌&&◌, and_false, ℕ, ◌+◌, ◌≤◌, ◌≡◌, refl, ◌∙◌, inl, inr, Bool, true, false, not, ◌&&◌, List, [],
  ◌∷◌, keep, ◌==◌, arith, if◌then◌else◌, Bool-cases,
}
use nimbus_app.Db.{Notification, Database}
use nimbus_app.Db.Sorter.{Sorter}
use nimbus_app.Db.Statement.{any, update_where, done, refused, lost, Outcome}
use nimbus_app.Db.Repository.{oldest_first}
use nimbus_app.Db.Rows.{any_of_count, count_of_any, any-take, any-keep, any-keep_both, any_never}
use nimbus_app.Db.Claim.{
  claimed_ids, eligible, is_in, ids, mark, select_batch, claim_pending_notifications,
  stuck_processing_timeout,
}

pub is_in-ids : (rows : List Notification) (i : ℕ) → is_in (ids rows) i ≡ any (λ n. n.id == i) rows
unfolding any is_in
is_in-ids [] i = refl
is_in-ids (n ∷ rows) i = ground (arith, is_in-ids rows i)

module _ (asc : Sorter Notification oldest_first) (locked : ℕ → Bool) (now limit : ℕ)
    (db : Database) where
  abbrev pub batch : List ℕ
  batch = ids (select_batch asc locked now limit db)

  -- a row that no eligible row is like is not selected
  pub batch_of_eligible :
      (i : ℕ)
      → any (λ n. n.id == i && eligible now n) db.notifications ≡ false
      → is_in batch i ≡ false
  unfolding select_batch
  batch_of_eligible i h =
      is_in-ids _ i
      ∙ any-take _ limit _ (
          any-keep _ _ _
            (count_of_any _ _ (asc.same _ _ ∙ any_of_count _ _ (any-keep_both _ _ _ h))))

  batch_locked : (i : ℕ) → locked i ≡ true → is_in batch i ≡ false
  unfolding select_batch
  batch_locked i h =
      is_in-ids _ i
      ∙ any-take _ limit _ (
          any-keep_both _ (λ (n : Notification). not (locked n.id)) _
            (any_never _ _ (λ n. ground arith)))

-- RETURNING gives only rows of the batch.
returned_in_batch :
    (b : List ℕ) (i : ℕ) (rows : List Notification)
    → is_in b i ≡ false
    → is_in (ids (keep (λ n. is_in b n.id) rows)) i ≡ false
returned_in_batch b i rows h =
    is_in-ids (keep (λ n. is_in b n.id) rows) i
    ∙ any-keep_both _ (λ (n : Notification). is_in b n.id) rows
        (any_never _ rows (λ n. ground arith))

-- One row after the update: of the rows in the batch none is eligible before the timeout.
module _ (b : List ℕ) (now later i : ℕ) (soon : later ≤ now + stuck_processing_timeout) where
  abbrev updated : Notification → Notification
  updated n = if is_in b n.id then mark now n else n

  row_not_eligible :
      (n : Notification)
      → is_in b i ≡ true
      → ((updated n).id == i && eligible later (updated n)) ≡ false
  unfolding eligible
  row_not_eligible n m = elim (Bool-cases (is_in b n.id)) [
    | inl e ↦ rw e (ground arith)
    | inr e ↦ rw e (ground arith)
  ]

  rows_not_eligible :
      (rows : List Notification)
      → is_in b i ≡ true
      → any (λ n. n.id == i && eligible later n) (update_where (λ n. is_in b n.id) (mark now) rows)
        ≡ false
  unfolding any update_where
  rows_not_eligible [] m = refl
  rows_not_eligible (n ∷ rows) m = rw (row_not_eligible n m) (rows_not_eligible rows m)

module _ (asc : Sorter Notification oldest_first) (locked : ℕ → Bool) (out : Outcome)
    (now limit : ℕ) (db : Database) where
  abbrev pub got : List ℕ
  got = claimed_ids (claim_pending_notifications asc locked out now limit db).0

  pub got_in_batch : (i : ℕ) → is_in (batch asc locked now limit db) i ≡ false → is_in got i ≡ false
  unfolding claim_pending_notifications is_in
  got_in_batch i h = go out
    where
      go :
          (o : Outcome)
          → is_in (claimed_ids (claim_pending_notifications asc locked o now limit db).0) i ≡ false
      go done = returned_in_batch (batch asc locked now limit db) i _ h
      go refused = refl
      go lost = refl

-- A claim returns no row that another transaction has locked when it runs, as one that another worker
-- is claiming; and a second claim, on the tables as the first one left them, returns none of the
-- first one's rows until the timeout for stuck rows (5 minutes) has passed.
pub claims_disjoint :
    (asc : Sorter Notification oldest_first) (locked locked' : ℕ → Bool) (out : Outcome)
    (now later limit limit' : ℕ) (db : Database) (i : ℕ)
    → later ≤ now + stuck_processing_timeout
    → let (first, db') = claim_pending_notifications asc locked done now limit db in
      let (second, _) = claim_pending_notifications asc locked' out later limit' db' in
      ((locked i && is_in (claimed_ids first) i) ≡ false)
      × ((is_in (claimed_ids first) i && is_in (claimed_ids second) i) ≡ false)
unfolding claim_pending_notifications
claims_disjoint asc locked locked' out now later limit limit' db i soon = (
  and_false _ _
      (λ l. got_in_batch asc locked done now limit db i (batch_locked asc locked now limit db i l)),
  and_false _ _ (λ m. got_in_batch asc locked' out later limit' db' i (
      batch_of_eligible asc locked' later limit' db' i
        (rows_not_eligible b now later i soon db.notifications (claimed m)))),
)
  where
    db' : Database
    db' = (claim_pending_notifications asc locked done now limit db).1

    b : List ℕ
    b = batch asc locked now limit db

    claimed : is_in (got asc locked done now limit db) i ≡ true → is_in b i ≡ true
    claimed m = elim (Bool-cases (is_in b i)) [
      | inl e ↦ e
      | inr e ↦ cc (m, got_in_batch asc locked done now limit db i e)
    ]
