-- ===== src/Db/Claim.antt =====
-- internal/db/repository.go: `ClaimPendingNotifications`, the one statement that selects a batch with
-- FOR UPDATE SKIP LOCKED, marks it 'processing' and returns it. `locked` says which rows other
-- transactions hold when the statement runs.
pub mod Disjoint
pub mod Complete
use nimbus_app.Prelude.{
  ℕ, ◌+◌, ◌*◌, String, Bool, true, false, not, ◌&&◌, ◌||◌, List, [], ◌∷◌, map, take, keep, ltb,
  ◌==◌, str_eq, if◌then◌else◌,
}
use nimbus_app.Breaker.{second}
use nimbus_app.Db.{Notification, Database, status_processing}
use nimbus_app.Db.Sorter.{Sorter}
use nimbus_app.Db.Statement.{Outcome, Result, ok, err, exec, update_where}
use nimbus_app.Db.Repository.{oldest_first, pending_due}

-- `stuckProcessingTimeout`, in nanoseconds
abbrev pub stuck_processing_timeout : ℕ
stuck_processing_timeout = 300 * second

-- status = 'processing' AND updated_at < NOW() - 300 seconds
abbrev pub stuck : ℕ → Notification → Bool
stuck now n = str_eq n.status status_processing && ltb (n.updated_at + stuck_processing_timeout) now

unfoldable pub eligible : ℕ → Notification → Bool
eligible now n = pending_due now n || stuck now n

unfoldable pub is_in : List ℕ → ℕ → Bool
is_in [] i = false
is_in (j ∷ js) i = if j == i then true else is_in js i

-- The ids of the sub-select. A locked row is skipped before LIMIT counts it.
unfoldable pub select_batch :
    Sorter Notification oldest_first → (ℕ → Bool) → ℕ → ℕ → Database → List Notification
select_batch asc locked now limit db =
    take limit (keep (λ n. not (locked n.id)) (asc.sort (keep (eligible now) db.notifications)))

abbrev pub ids : List Notification → List ℕ
ids = map (λ (n : Notification). n.id)

-- SET status = 'processing', updated_at = NOW()
abbrev pub mark : ℕ → Notification → Notification
mark now n = record n { status = status_processing; updated_at = now }

unfoldable pub claim_pending_notifications :
    Sorter Notification oldest_first
    → (ℕ → Bool)
    → Outcome
    → ℕ
    → ℕ
    → Database
    → Result (List Notification) × Database
unfolding select_batch
claim_pending_notifications asc locked out now limit db =
    let batch = ids (select_batch asc locked now limit db) in
    let rows = update_where (λ n. is_in batch n.id) (mark now) db.notifications in
    exec out "claim pending notifications"
      (ok (keep (λ n. is_in batch n.id) rows), record db { notifications = rows }) db

-- The ids that a worker gets from a claim; an error gives it none.
abbrev pub claimed_ids : Result (List Notification) → List ℕ
claimed_ids (ok rows) = ids rows
claimed_ids (err e) = []
