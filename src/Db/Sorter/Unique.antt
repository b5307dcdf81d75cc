-- ===== src/Db/Sorter/Unique.antt =====
-- Where no two rows have the same key, `ORDER BY` on it leaves the server no choice: what two queries
-- of internal/db/repository.go get is in the same order.
use nimbus_app.Prelude.{
  ℕ, ◌≤◌, ◌<◌, ◌≡◌, refl, map, Bool, true, not, ◌&&◌, List, [], ◌∷◌, All, arith, ◌==◌, leb,
  Bool-cases, inl, inr, ==_refl,
}
use mathlib.Core.Path.{ap₂}
use nimbus_app.Db.Sorter.{count, IsSorted}

module _ {A : Type 0} where
  count-and : (p q : A → Bool) (xs : List A) → count (λ x. p x && q x) xs ≤ count q xs
  count-and p q [] = omega arith
  count-and p q (x ∷ xs) = ground (arith, count-and p q xs)

  module _ (key : A → ℕ) where
    abbrev pub downwards : A → A → Bool
    downwards a b = leb (key b) (key a)

    abbrev pub AreDistinct : List A → Type 0
    AreDistinct xs = (t : ℕ) → count (λ x. key x == t) xs ≤ 1

    count_below :
        (k t : ℕ) (xs : List A)
        → All (λ z. leb (key z) k ≡ true) xs
        → k < t
        → count (λ z. key z == t) xs ≡ 0
    count_below k t [] h l = refl
    count_below k t (x ∷ xs) h l = ground (arith, count_below k t xs)

    module _ (x y : A) (xs ys : List A)
        (same : (p : A → Bool) → count p (x ∷ xs) ≡ count p (y ∷ ys))
        (below_x : All (λ z. downwards x z ≡ true) xs)
        (below_y : All (λ z. downwards y z ≡ true) ys) (distinct : AreDistinct (x ∷ xs)) where
      heads_key : key x ≡ key y
      heads_key = ground (
        arith,
        same (λ z. key z == key x),
        same (λ z. key z == key y),
        count_below (key x) (key y) xs below_x,
        count_below (key y) (key x) ys below_y,
        ==_refl (key x),
        ==_refl (key y),
      )

      head_passes : (p : A → Bool) → p x ≡ true → p y ≡ true
      head_passes p h = ground (
        arith,
        same (λ z. p z && key z == key x),
        same (λ z. key z == key x),
        count-and p (λ z. key z == key x) ys,
        distinct (key x),
        ==_refl (key x),
        heads_key,
      )

      heads_agree : (p : A → Bool) → p x ≡ p y
      heads_agree p = elim (Bool-cases (p x)) [
        | inl h ↦ ground (arith, head_passes p h)
        | inr h ↦ ground (arith, head_passes (λ z. not (p z)) (ground arith))
      ]

    -- Two sorted lists of the same rows agree, in the same order, in every number of a row.
    pub sorted_unique :
        (f : A → ℕ) (xs ys : List A)
        → ((p : A → Bool) → count p xs ≡ count p ys)
        → IsSorted downwards xs
        → IsSorted downwards ys
        → AreDistinct xs
        → map f xs ≡ map f ys
    sorted_unique f [] [] s h k d = refl
    sorted_unique f [] (y ∷ ys) s h k d = absurd (ground (arith, s (λ z. true)))
    sorted_unique f (x ∷ xs) [] s h k d = absurd (ground (arith, s (λ z. true)))
    sorted_unique f (x ∷ xs) (y ∷ ys) s h k d =
        let agree : (p : A → Bool) → p x ≡ p y = heads_agree x y xs ys s h.0 k.0 d in
        ap₂ (λ n ns. n ∷ ns) (ground (arith, agree (λ z. f z == f x), ==_refl (f x)))
          (sorted_unique f xs ys (λ p. ground (arith, s p, agree p)) h.1 k.1
            (λ t. ground (arith, d t)))
