-- ===== src/Db/Claim/Complete.antt =====
-- Which rows the claim of internal/db/repository.go takes, and what it writes.
use nimbus_app.Prelude.{
  ℕ, zero, suc, ◌≤◌, ◌≡◌, refl, ap, ◌∙◌, ◌⊎◌, inl, inr, Bool, true, false, not, ◌&&◌, List, [], ◌∷◌,
  All, take, keep, ◌==◌, length, arith, Bool-cases,
}
use nimbus_app.Db.{Notification, Database}
use nimbus_app.Db.Sorter.{Sorter, IsSorted}
use nimbus_app.Db.Statement.{any}
use nimbus_app.Db.Repository.{oldest_first}
use nimbus_app.Db.Rows.{any-keep_of, any_of_same, any_mono}
use nimbus_app.Db.Claim.{eligible, is_in, ids, select_batch}
use nimbus_app.Db.Claim.Disjoint.{is_in-ids}

head_le :
    (p : Notification → Bool) (c : ℕ) (x : Notification) (xs : List Notification)
    → ((n : Notification) → p n ≡ true → n.created_at ≡ c)
    → All (λ y. oldest_first x y ≡ true) xs
    → any p xs ≡ true
    → x.created_at ≤ c
unfolding any
head_le p c x [] at s h = cc
head_le p c x (y ∷ xs) at s h = elim (Bool-cases (p y)) [
  | inl e ↦ ground (arith, at y e, s.0)
  | inr e ↦ head_le p c x xs at s.1 (ground arith)
]

-- A sorted list cut off after `k`: a row of it is kept, or the `k` rows kept are no newer.
taken_in_order :
    (p : Notification → Bool) (c k : ℕ) (xs : List Notification)
    → ((n : Notification) → p n ≡ true → n.created_at ≡ c)
    → IsSorted oldest_first xs
    → any p xs ≡ true
    → (any p (take k xs) ≡ true)
      ⊎ ((length (take k xs) ≡ k) × All (λ (n : Notification). n.created_at ≤ c) (take k xs))
unfolding any
taken_in_order p c zero xs at s h = inr (refl, tt)
taken_in_order p c (suc k) [] at s h = cc
taken_in_order p c (suc k) (x ∷ xs) at s h = elim (Bool-cases (p x)) [
  | inl e ↦ inl (rw e)
  | inr e ↦
      let later : any p xs ≡ true = ground arith in
      elim (taken_in_order p c k xs at s.1 later) [
        | inl m ↦ inl (rw e m)
        | inr (full, old) ↦ inr (ap suc full, (head_le p c x xs at s.0 later, old))
      ]
]

All-keep :
    (p : Notification → Bool) (x : Notification) (xs : List Notification)
    → All (λ y. oldest_first x y ≡ true) xs
    → All (λ y. oldest_first x y ≡ true) (keep p xs)
All-keep p x [] s = tt
All-keep p x (y ∷ xs) s = elim (Bool-cases (p y)) [
  | inl e ↦ rw e (s.0, All-keep p x xs s.1)
  | inr e ↦ rw e (All-keep p x xs s.1)
]

IsSorted-keep :
    (p : Notification → Bool) (xs : List Notification)
    → IsSorted oldest_first xs
    → IsSorted oldest_first (keep p xs)
IsSorted-keep p [] s = tt
IsSorted-keep p (x ∷ xs) s = elim (Bool-cases (p x)) [
  | inl e ↦ rw e (All-keep p x xs s.0, IsSorted-keep p xs s.1)
  | inr e ↦ rw e (IsSorted-keep p xs s.1)
]

-- A row of the table with this id, created then, that a claim may take.
abbrev pub waits : ℕ → ℕ → ℕ → Notification → Bool
waits now i c n = (n.id == i) && (n.created_at == c) && eligible now n

-- A claim takes the oldest rows that are eligible and not locked: such a row is in the batch,
-- or the batch is full with rows that are no newer.
pub oldest_rows_first :
    (asc : Sorter Notification oldest_first) (locked : ℕ → Bool) (now limit i c : ℕ) (db : Database)
    → any (waits now i c) db.notifications ≡ true
    → locked i ≡ false
    → let batch = select_batch asc locked now limit db in
      (is_in (ids batch) i ≡ true)
      ⊎ ((length batch ≡ limit) × All (λ (n : Notification). n.created_at ≤ c) batch)
unfolding select_batch
oldest_rows_first asc locked now limit i c db w free =
    elim (taken_in_order p c limit (keep free_row sorted) (λ n e. ground arith)
      (IsSorted-keep free_row sorted (asc.sorted rows)) found) [
        | inl taken ↦ inl (
            is_in-ids (take limit (keep free_row sorted)) i
            ∙ any_mono p _ _ (λ n e. ground arith) taken)
        | inr full ↦ inr full
      ]
  where
    p : Notification → Bool
    p n = (n.id == i) && (n.created_at == c)

    free_row : Notification → Bool
    free_row n = not (locked n.id)

    rows : List Notification
    rows = keep (eligible now) db.notifications

    sorted : List Notification
    sorted = asc.sort rows

    found : any p (keep free_row sorted) ≡ true
    found = any-keep_of p free_row sorted (
        any_of_same _ _ _ (asc.same _ rows)
        ∙ any-keep_of (λ n. p n && free_row n) (eligible now) db.notifications
            (any_mono (waits now i c) _ db.notifications (λ n e. ground arith) w))
