-- ===== src/Db/Sorter.antt =====
-- What a query of internal/db/repository.go relies on in `ORDER BY`: the server gives back the same
-- rows, sorted by the key, and orders ties as it likes. Insertion sort shows that this can be met.
pub mod Unique
use nimbus_app.Prelude.{
  ℕ, ◌+◌, ◌≡◌, refl, Bool, true, false, List, [], ◌∷◌, All, arith, if◌then◌else◌, Bool-cases, inl,
  inr,
}

module _ {A : Type 0} where
  -- How many elements pass a test.
  abbrev pub count : (A → Bool) → List A → ℕ
  count p [] = 0
  count p (x ∷ xs) = (if p x then 1 else 0) + count p xs

  abbrev pub IsSorted : (A → A → Bool) → List A → Type 0
  IsSorted before [] = Unit
  IsSorted before (x ∷ xs) = All (λ y. before x y ≡ true) xs × IsSorted before xs

module _ {A : Type 0} (before : A → A → Bool) where
  abbrev pub IsTotal : Type 0
  IsTotal = (a b : A) → before a b ≡ false → before b a ≡ true

  abbrev pub IsTransitive : Type 0
  IsTransitive = (a b c : A) → before a b ≡ true → before b c ≡ true → before a c ≡ true

pub record Sorter (A : Type 0) (before : A → A → Bool) : Type 0 where
  pub sort : List A → List A
  pub same : (p : A → Bool) (xs : List A) → count p (sort xs) ≡ count p xs
  pub sorted : (xs : List A) → IsSorted before (sort xs)

module _ {A : Type 0} (before : A → A → Bool) where
  unfoldable pub insert : A → List A → List A
  insert a [] = a ∷ []
  insert a (x ∷ xs) = if before a x then a ∷ x ∷ xs else x ∷ insert a xs

  unfoldable pub insertion_sort : List A → List A
  insertion_sort [] = []
  insertion_sort (x ∷ xs) = insert x (insertion_sort xs)

  count-insert : (p : A → Bool) (a : A) (xs : List A) → count p (insert a xs) ≡ count p (a ∷ xs)
  unfolding insert
  count-insert p a [] = refl
  count-insert p a (x ∷ xs) = ground (arith, count-insert p a xs)

  pub count-insertion_sort : (p : A → Bool) (xs : List A) → count p (insertion_sort xs) ≡ count p xs
  unfolding insertion_sort
  count-insertion_sort p [] = refl
  count-insertion_sort p (x ∷ xs) =
      ground (arith, count-insert p x (insertion_sort xs), count-insertion_sort p xs)

  All-insert :
      (y a : A) (xs : List A)
      → before y a ≡ true
      → All (λ z. before y z ≡ true) xs
      → All (λ z. before y z ≡ true) (insert a xs)
  unfolding insert
  All-insert y a [] h hs = (h, tt)
  All-insert y a (x ∷ xs) h hs = ground (arith, All-insert y a xs h hs.1)

  module _ (total : IsTotal before) (trans : IsTransitive before) where
    All-trans :
        (a x : A) (xs : List A)
        → before a x ≡ true
        → All (λ z. before x z ≡ true) xs
        → All (λ z. before a z ≡ true) xs
    All-trans a x [] h hs = tt
    All-trans a x (y ∷ xs) h hs = (trans a x y h hs.0, All-trans a x xs h hs.1)

    IsSorted-insert : (a : A) (xs : List A) → IsSorted before xs → IsSorted before (insert a xs)
    unfolding insert
    IsSorted-insert a [] h = (tt, tt)
    IsSorted-insert a (x ∷ xs) h = elim (Bool-cases (before a x)) [
      | inl e ↦ rw e ((e, All-trans a x xs e h.0), h)
      | inr e ↦ rw e (All-insert x a xs (total a x e) h.0, IsSorted-insert a xs h.1)
    ]

    pub insertion_sort-IsSorted : (xs : List A) → IsSorted before (insertion_sort xs)
    unfolding insertion_sort
    insertion_sort-IsSorted [] = tt
    insertion_sort-IsSorted (x ∷ xs) =
        IsSorted-insert x (insertion_sort xs) (insertion_sort-IsSorted xs)

    unfoldable pub sorter : Sorter A before
    unfolding insertion_sort insert
    sorter = record {
      sort = insertion_sort;
      same = count-insertion_sort;
      sorted = insertion_sort-IsSorted;
    }
