-- ===== src/Worker/Untouched.antt =====
-- What the statements of the worker of internal/worker/worker.go leave alone: the rows of a
-- notification that they are not about.
use nimbus_app.Prelude.{
  ℕ, ◌+◌, ◌≡◌, refl, ◌∙◌, subst, ◌≢◌, inl, inr, Bool, true, false, ◌&&◌, ◌||◌, Option, none, some,
  List, [], ◌∷◌, keep, arith, ◌==◌, ==_iff, str_eq, Bool-cases, String,
}
use nimbus_app.Prelude.Int.{pos, leb_ℤ}
use nimbus_app.Db.{Notification, Database, status_pending, status_processing, status_sent}
use nimbus_app.Db.Sorter.{Sorter}
use nimbus_app.Db.Statement.{Outcome, done, refused, lost, any, update_where}
use nimbus_app.Db.Repository.{has_id, oldest_first, update_notification_status}
use nimbus_app.Db.Claim.{eligible, is_in, ids, mark, claim_pending_notifications}
use nimbus_app.Db.Claim.Disjoint.{batch, batch_of_eligible, got, got_in_batch}
use nimbus_app.Db.DeadLetter.{Steps, move_to_dead_letter}
use nimbus_app.Sender.{Providers, World, SendError, error_text}
use nimbus_app.Worker.{Config, Calls, settle}
use nimbus_app.Worker.Process.{next_retry_bounds}

abbrev pub unfinished : Notification → Bool
unfinished n = str_eq n.status status_pending || str_eq n.status status_processing

abbrev pub rows_of : ℕ → Database → List Notification
rows_of i db = keep (has_id i) db.notifications

any_of_rows :
    (i : ℕ) (q : Notification → Bool) (ns : List Notification)
    → any (λ n. has_id i n && q n) ns ≡ any q (keep (has_id i) ns)
unfolding any
any_of_rows i q [] = refl
any_of_rows i q (n ∷ ns) = ground (arith, any_of_rows i q ns)

none_eligible :
    (now : ℕ) (ns : List Notification) → any unfinished ns ≡ false → any (eligible now) ns ≡ false
unfolding any eligible
none_eligible now [] h = refl
none_eligible now (n ∷ ns) h = ground (arith, none_eligible now ns)

-- An update of other rows.
keep-update_other :
    (i : ℕ) (p : Notification → Bool) (f : Notification → Notification) (ns : List Notification)
    → ((n : Notification) → has_id i (f n) ≡ has_id i n)
    → ((n : Notification) → p n ≡ true → has_id i n ≡ false)
    → keep (has_id i) (update_where p f ns) ≡ keep (has_id i) ns
unfolding update_where
keep-update_other i p f [] h apart = refl
keep-update_other i p f (n ∷ ns) h apart =
    ground (arith, h n, apart n, keep-update_other i p f ns h apart)

pub is_in-apart : (b : List ℕ) (j i : ℕ) → is_in b j ≡ true → is_in b i ≡ false → (j == i) ≡ false
is_in-apart b j i h k = elim (Bool-cases (j == i)) [
  | inl e ↦ ground (arith, subst (λ x. is_in b x ≡ true) ((==_iff j i).0 e) h)
  | inr e ↦ e
]

pub head_apart :
    (i : ℕ) (n : Notification) (ns : List Notification) → is_in (ids (n ∷ ns)) i ≡ false → n.id ≢ i
unfolding is_in
head_apart i n ns h = ground arith

pub tail_apart :
    (i : ℕ) (n : Notification) (ns : List Notification)
    → is_in (ids (n ∷ ns)) i ≡ false
    → is_in (ids ns) i ≡ false
unfolding is_in
tail_apart i n ns h = ground arith

module _ (i : ℕ) where
  status-other :
      (out : Outcome) (now j : ℕ) (status : String) (attempt : ℕ) (e : Option String)
      (next : Option ℕ) (db : Database)
      → j ≢ i
      → rows_of i (update_notification_status out now j status attempt e next db).1 ≡ rows_of i db
  unfolding update_notification_status
  status-other out now j status attempt e next db apart = ground (
    arith,
    keep-update_other i (has_id j)
        (λ n. record n {
          status = status;
          attempt = attempt;
          error_message = e;
          next_retry_at = next;
          updated_at = now;
        })
        db.notifications (λ n. refl) (λ n q. ground arith),
  )

  move-other :
      (steps : Steps) (fresh now : ℕ) (n : Notification) (e : String) (db : Database)
      → n.id ≢ i
      → rows_of i (move_to_dead_letter steps fresh now n e db).1 ≡ rows_of i db
  unfolding move_to_dead_letter
  move-other steps fresh now n e db apart = ground (
    arith,
    keep-update_other i (has_id n.id) (λ m. record m { status = "dead_lettered"; updated_at = now })
        db.notifications (λ m. refl) (λ m q. ground arith),
  )

  module _ (asc : Sorter Notification oldest_first) (locked : ℕ → Bool) (out : Outcome) (now : ℕ)
      (db : Database) (finished : any unfinished (rows_of i db) ≡ false) where
    not_selected : (limit : ℕ) → is_in (batch asc locked now limit db) i ≡ false
    not_selected limit =
        batch_of_eligible asc locked now limit db i (
          any_of_rows i (eligible now) db.notifications ∙ none_eligible now (rows_of i db) finished)

    pub not_claimed : (limit : ℕ) → is_in (got asc locked out now limit db) i ≡ false
    not_claimed limit = got_in_batch asc locked out now limit db i (not_selected limit)

    pub claim-other :
        (limit : ℕ)
        → rows_of i (claim_pending_notifications asc locked out now limit db).1 ≡ rows_of i db
    unfolding claim_pending_notifications
    claim-other limit = go out
      where
        other :
            keep (has_id i) (
              update_where
                (λ n. is_in (batch asc locked now limit db) n.id)
                (mark now)
                db.notifications)
            ≡ rows_of i db
        other =
            keep-update_other i (λ n. is_in (batch asc locked now limit db) n.id) (mark now)
              db.notifications (λ n. refl)
              (λ n q. is_in-apart (batch asc locked now limit db) n.id i q (not_selected limit))

        go :
            (o : Outcome)
            → rows_of i (claim_pending_notifications asc locked o now limit db).1 ≡ rows_of i db
        go done = other
        go refused = refl
        go lost = other

  -- A turn with another notification.
  module _ (P : Providers) (cfg : Config) (c : Calls) (m : Notification) (w : World P)
      (db : Database) (apart : m.id ≢ i) where
    pub settle-other :
        (e : Option SendError)
        → (r : World P × Database) × (settle P cfg c m w db e ≡ some r)
          × (rows_of i r.1 ≡ rows_of i db)
    unfolding settle
    settle-other none =
        (_, refl, status-other c.update c.now m.id status_sent (m.attempt + 1) none none db apart)
    settle-other (some e) =
        let s : String = error_text P e in
        elim (Bool-cases (leb_ℤ cfg.max_retries (pos (m.attempt + 1)))) [
          | inl h ↦ rw h (_, refl, move-other c.move c.fresh c.now m s db apart)
          | inr h ↦
              let (t, q, lo, hi) = next_retry_bounds (P.clock w.env) m.attempt in
              rw (h, q)
                (
                  _,
                  refl,
                  status-other c.update c.now m.id status_pending (m.attempt + 1) (some s) (some t)
                      db apart,
                )
        ]
