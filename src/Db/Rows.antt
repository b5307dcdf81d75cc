-- ===== src/Db/Rows.antt =====
-- What the statements of internal/db/repository.go do to a list of rows: lemmas on `any`, `find`,
-- `update_where`, `keep` and `take`.
use mathlib.Core.Option
use nimbus_app.Prelude.{
  ℕ, zero, suc, ◌≡◌, refl, Bool, true, false, ◌&&◌, none, some, List, [], ◌∷◌, ◌++◌, take, keep,
  arith, if◌then◌else◌, not, map, ap, ◌∙◌, Bool-cases, inl, inr,
}
use nimbus_app.Db.Sorter.{Sorter, count}
use nimbus_app.Db.Statement.{any, find, update_where}

pub any_of_count : {A : Type 0} (p : A → Bool) (xs : List A) → any p xs ≡ false → count p xs ≡ 0
unfolding any
any_of_count p [] h = refl
any_of_count p (x ∷ xs) h = ground (arith, any_of_count p xs)

pub count_of_any : {A : Type 0} (p : A → Bool) (xs : List A) → count p xs ≡ 0 → any p xs ≡ false
unfolding any
count_of_any p [] h = refl
count_of_any p (x ∷ xs) h = ground (arith, count_of_any p xs)

-- Sorting, cutting off and dropping rows adds none.
pub any-take :
    {A : Type 0} (p : A → Bool) (n : ℕ) (xs : List A) → any p xs ≡ false → any p (take n xs) ≡ false
unfolding any
any-take p zero xs h = refl
any-take p (suc n) [] h = refl
any-take p (suc n) (x ∷ xs) h = ground (arith, any-take p n xs)

pub any-keep :
    {A : Type 0} (p q : A → Bool) (xs : List A) → any p xs ≡ false → any p (keep q xs) ≡ false
unfolding any
any-keep p q [] h = refl
any-keep p q (x ∷ xs) h = ground (arith, any-keep p q xs)

-- a row that the test keeps and `p` finds passes both
pub any-keep_both :
    {A : Type 0} (p q : A → Bool) (xs : List A)
    → any (λ x. p x && q x) xs ≡ false
    → any p (keep q xs) ≡ false
unfolding any
any-keep_both p q [] h = refl
any-keep_both p q (x ∷ xs) h = ground (arith, any-keep_both p q xs)

pub any_never :
    {A : Type 0} (p : A → Bool) (xs : List A) → ((x : A) → p x ≡ false) → any p xs ≡ false
unfolding any
any_never p [] h = refl
any_never p (x ∷ xs) h = ground (arith, h x, any_never p xs h)

pub any_mono :
    {A : Type 0} (p q : A → Bool) (xs : List A)
    → ((x : A) → p x ≡ true → q x ≡ true)
    → any p xs ≡ true
    → any q xs ≡ true
unfolding any
any_mono p q [] h m = cc
any_mono p q (x ∷ xs) h m = ground (arith, h x, any_mono p q xs h)

-- the same number of rows that pass, so the same answer
pub any_of_same :
    {A : Type 0} (p : A → Bool) (xs ys : List A) → count p xs ≡ count p ys → any p xs ≡ any p ys
any_of_same p xs ys h =
    ground (arith, any_of_count p xs, any_of_count p ys, count_of_any p xs, count_of_any p ys)

pub any-keep_of :
    {A : Type 0} (p q : A → Bool) (xs : List A)
    → any (λ x. p x && q x) xs ≡ true
    → any p (keep q xs) ≡ true
unfolding any
any-keep_of p q [] h = cc
any-keep_of p q (x ∷ xs) h = ground (arith, any-keep_of p q xs)

-- An update that leaves a test's answers alone changes what the test finds, and nothing else.
pub find-update_where :
    {A : Type 0} (q p : A → Bool) (f : A → A) (xs : List A)
    → ((x : A) → q (f x) ≡ q x)
    → find q (update_where p f xs) ≡ Option.map (λ x. if p x then f x else x) (find q xs)
unfolding find update_where
find-update_where q p f [] h = refl
find-update_where q p f (x ∷ xs) h = ground (arith, h x, find-update_where q p f xs h)

pub find-append :
    {A : Type 0} (q : A → Bool) (xs : List A) (y : A)
    → find q (xs ++ y ∷ []) ≡ (if any q xs then find q xs else if q y then some y else none)
unfolding find any
find-append q [] y = refl
find-append q (x ∷ xs) y = ground (arith, find-append q xs y)

pub any-append :
    {A : Type 0} (q : A → Bool) (xs : List A) (y : A)
    → any q (xs ++ y ∷ []) ≡ (if any q xs then true else q y)
unfolding any
any-append q [] y = ground arith
any-append q (x ∷ xs) y = ground (arith, any-append q xs y)

pub any-update_where :
    {A : Type 0} (q p : A → Bool) (f : A → A) (xs : List A)
    → ((x : A) → q (f x) ≡ q x)
    → any q (update_where p f xs) ≡ any q xs
unfolding any update_where
any-update_where q p f [] h = refl
any-update_where q p f (x ∷ xs) h = ground (arith, h x, any-update_where q p f xs h)

pub find-none_of_any :
    {A : Type 0} (q : A → Bool) (xs : List A) → any q xs ≡ false → find q xs ≡ none
unfolding find any
find-none_of_any q [] h = refl
find-none_of_any q (x ∷ xs) h = ground (arith, find-none_of_any q xs)

pub any-none_of_find :
    {A : Type 0} (q : A → Bool) (xs : List A) → find q xs ≡ none → any q xs ≡ false
unfolding find any
any-none_of_find q [] h = refl
any-none_of_find q (x ∷ xs) h = ground (arith, any-none_of_find q xs)

pub any_of_find :
    {A : Type 0} (q : A → Bool) (xs : List A) {x : A} → find q xs ≡ some x → any q xs ≡ true
unfolding find any
any_of_find q [] h = cc
any_of_find q (x ∷ xs) {x = y} h = ground (arith, any_of_find q xs {x = y})

-- An update of the rows that a test finds.
pub find-update_self :
    {A : Type 0} (q : A → Bool) (f : A → A) (xs : List A)
    → ((x : A) → q (f x) ≡ q x)
    → find q (update_where q f xs) ≡ Option.map f (find q xs)
unfolding find update_where
find-update_self q f [] h = refl
find-update_self q f (x ∷ xs) h = ground (arith, h x, find-update_self q f xs h)

-- An update of rows that a test does not find.
pub find-update_other :
    {A : Type 0} (q p : A → Bool) (f : A → A) (xs : List A)
    → ((x : A) → q (f x) ≡ q x)
    → ((x : A) → p x ≡ true → q x ≡ false)
    → find q (update_where p f xs) ≡ find q xs
unfolding find update_where
find-update_other q p f [] h apart = refl
find-update_other q p f (x ∷ xs) h apart =
    ground (arith, h x, apart x, find-update_other q p f xs h apart)

module _ {A : Type 0} where
  pub any-append_none :
      (p : A → Bool) (xs ys : List A)
      → any p xs ≡ false
      → any p ys ≡ false
      → any p (xs ++ ys) ≡ false
  unfolding any
  any-append_none p [] ys h k = k
  any-append_none p (x ∷ xs) ys h k = ground (arith, any-append_none p xs ys)

  pub any-map :
      {B : Type 0} (p : B → Bool) (f : A → B) (xs : List A)
      → any p (map f xs) ≡ any (λ x. p (f x)) xs
  unfolding any
  any-map p f [] = refl
  any-map p f (x ∷ xs) = ap (λ r. if p (f x) then true else r) (any-map p f xs)

  pub any-sort :
      {before : A → A → Bool} (s : Sorter A before) (p : A → Bool) (xs : List A)
      → any p xs ≡ false
      → any p (s.sort xs) ≡ false
  any-sort s p xs h = any_of_same p (s.sort xs) xs (s.same p xs) ∙ h

  any_less :
      (p q : A → Bool) (xs : List A)
      → ((x : A) → p x ≡ true → q x ≡ true)
      → any q xs ≡ false
      → any p xs ≡ false
  any_less p q xs h k = elim (Bool-cases (any p xs)) [
    | inl e ↦ absurd (ground (arith, any_mono p q xs h e))
    | inr e ↦ e
  ]

  longer_finds :
      (q : A → A → Bool) (f : A → Bool) (x : A) (xs : List A)
      → any (λ y. not (any (q y) xs)) (keep f xs) ≡ false
      → any (λ y. not (any (q y) (x ∷ xs))) (keep f xs) ≡ false
  unfolding any
  longer_finds q f x xs h =
      any_less (λ y. not (any (q y) (x ∷ xs))) (λ y. not (any (q y) xs)) (keep f xs)
        (λ y k. ground arith) h

  -- Each row that a filter keeps is found in the whole list.
  pub kept_found :
      (q : A → A → Bool) (f : A → Bool) (xs : List A)
      → ((x : A) → f x ≡ true → q x x ≡ true)
      → any (λ x. not (any (q x) xs)) (keep f xs) ≡ false
  unfolding any
  kept_found q f [] h = refl
  kept_found q f (x ∷ xs) h = elim (Bool-cases (f x)) [
    | inl e ↦ rw (e, h x e) (longer_finds q f x xs (kept_found q f xs h))
    | inr e ↦ rw e (longer_finds q f x xs (kept_found q f xs h))
  ]
