-- ===== src/Db/Repository/Pages.antt =====
-- The pages of `ListNotificationsByTenant` of internal/db/repository.go.
use native.Mathlib.Nat.{zero-add, suc-add}
use nimbus_app.Prelude.{
  ℕ, zero, suc, ◌+◌, ◌≤◌, ◌≡◌, refl, ◌∙◌, ap, sym, Bool, false, not, List, [], ◌∷◌, ◌++◌, take,
  drop, keep, length, map, length-take, arith, ◌==◌,
}
use nimbus_app.Db.{Notification, Database}
use nimbus_app.Db.Sorter.{Sorter, count}
use nimbus_app.Db.Sorter.Unique.{sorted_unique}
use nimbus_app.Db.Claim.{ids}
use nimbus_app.Db.Statement.{done, Result, ok, err, any}
use nimbus_app.Db.Rows.{any_of_count, count_of_any, any_never, any-keep_both, any-take}
use nimbus_app.Db.Repository.{list_notifications_by_tenant, newest_first}

take-nil : {A : Type 0} (n : ℕ) → take {A = A} n [] ≡ []
take-nil zero = refl
take-nil (suc n) = refl

drop-nil : {A : Type 0} (n : ℕ) → drop {A = A} n [] ≡ []
drop-nil zero = refl
drop-nil (suc n) = refl

drop-drop : {A : Type 0} (o a : ℕ) (xs : List A) → drop (o + a) xs ≡ drop a (drop o xs)
drop-drop zero a xs = rw zero-add
drop-drop (suc o) a [] = drop-nil (suc o + a) ∙ sym (drop-nil a)
drop-drop (suc o) a (x ∷ xs) = rw suc-add (drop-drop o a xs)

take_tile : {A : Type 0} (a b : ℕ) (xs : List A) → take a xs ++ take b (drop a xs) ≡ take (a + b) xs
take_tile zero b xs = rw zero-add
take_tile (suc a) b [] = take-nil b ∙ sym (take-nil (suc a + b))
take_tile (suc a) b (x ∷ xs) = rw suc-add (ap (λ r. x ∷ r) (take_tile a b xs))

-- Dropping, cutting off, sorting and filtering add no row.
any-drop :
    {A : Type 0} (p : A → Bool) (n : ℕ) (xs : List A) → any p xs ≡ false → any p (drop n xs) ≡ false
unfolding any
any-drop p zero xs h = h
any-drop p (suc n) [] h = refl
any-drop p (suc n) (x ∷ xs) h = any-drop p n xs (ground arith)

-- The rows that a page shows, where the query is answered.
abbrev pub rows : Result (List Notification) → List Notification
rows (ok ns) = ns
rows (err e) = []

map-take : {A B : Type 0} (f : A → B) (n : ℕ) (xs : List A) → map f (take n xs) ≡ take n (map f xs)
map-take f zero xs = refl
map-take f (suc n) [] = refl
map-take f (suc n) (x ∷ xs) = ap (λ r. f x ∷ r) (map-take f n xs)

map-drop : {A B : Type 0} (f : A → B) (n : ℕ) (xs : List A) → map f (drop n xs) ≡ drop n (map f xs)
map-drop f zero xs = refl
map-drop f (suc n) [] = refl
map-drop f (suc n) (x ∷ xs) = map-drop f n xs

-- A page has at most `limit` rows, all of the tenant that was asked for.
pub page_bounds :
    (desc : Sorter Notification newest_first) (tenant limit offset : ℕ) (db : Database)
    → let page = rows (list_notifications_by_tenant desc done tenant limit offset db) in
      (length page ≤ limit) × (any (λ (n : Notification). not (n.tenant_id == tenant)) page ≡ false)
unfolding list_notifications_by_tenant
page_bounds desc tenant limit offset db = (
  omega (arith, length-take limit (drop offset (desc.sort (own)))),
  any-take _ limit _ (
      any-drop _ offset _ (
        count_of_any _ _ (
          desc.same _ own
          ∙ any_of_count _ _ (
              any-keep_both _ (λ (n : Notification). n.tenant_id == tenant) db.notifications
                (any_never _ _ (λ n. ground arith)))))),
)
  where
    own : List Notification
    own = keep (λ n. n.tenant_id == tenant) db.notifications

-- The tenant's rows were created at different times.
abbrev pub CreatedApart : ℕ → Database → Type 0
CreatedApart tenant db =
    (t : ℕ)
    → count (λ (n : Notification). n.created_at == t)
        (keep (λ (n : Notification). n.tenant_id == tenant) db.notifications)
      ≤ 1

-- Two queries sort these rows alike.
sorted_alike :
    (desc desc' : Sorter Notification newest_first) (tenant : ℕ) (db : Database)
    → CreatedApart tenant db
    → let own = keep (λ (n : Notification). n.tenant_id == tenant) db.notifications in
      ids (desc.sort own) ≡ ids (desc'.sort own)
sorted_alike desc desc' tenant db apart =
    let own : List Notification = keep (λ n. n.tenant_id == tenant) db.notifications in
    sorted_unique (λ n. n.created_at) (λ n. n.id) (desc.sort own) (desc'.sort own)
      (λ p. desc.same p own ∙ sym (desc'.same p own)) (desc.sorted own) (desc'.sorted own)
      (λ t. rw (desc.same (λ n. n.created_at == t) own) (apart t))

page_ids :
    (desc desc' : Sorter Notification newest_first) (tenant limit offset : ℕ) (db : Database)
    → CreatedApart tenant db
    → ids (rows (list_notifications_by_tenant desc done tenant limit offset db))
      ≡ take limit (
          drop offset (
            ids (desc'.sort (keep (λ (n : Notification). n.tenant_id == tenant) db.notifications))))
unfolding list_notifications_by_tenant
page_ids desc desc' tenant limit offset db apart =
    let own : List Notification = keep (λ n. n.tenant_id == tenant) db.notifications in
    map-take (λ (n : Notification). n.id) limit (drop offset (desc.sort own))
    ∙ ap (take limit) (map-drop (λ (n : Notification). n.id) offset (desc.sort own))
    ∙ ap (λ r. take limit (drop offset r)) (sorted_alike desc desc' tenant db apart)

-- Where a tenant's rows were created at different times, its pages tile the list, although each query
-- may break ties in its own way: the ids on a page and those on the page that starts where it ends are
-- together the ids on the page of both lengths, in this order. A page has at most `limit` rows, all of
-- the tenant that was asked for.
pub pages_tile :
    (first second both : Sorter Notification newest_first) (tenant limit limit' offset : ℕ)
    (db : Database)
    → CreatedApart tenant db
    → let page = λ (desc : Sorter Notification newest_first) (l o : ℕ).
      rows (list_notifications_by_tenant desc done tenant l o db) in
      (length (page first limit offset) ≤ limit)
      × (any (λ (n : Notification). not (n.tenant_id == tenant)) (page first limit offset) ≡ false)
      × (ids (page first limit offset) ++ ids (page second limit' (offset + limit))
          ≡ ids (page both (limit + limit') offset))
pages_tile first second both tenant limit limit' offset db apart =
    let (short, own) = page_bounds first tenant limit offset db in
    (
      short,
      own,
      rw
          (
            page_ids first both tenant limit offset db apart,
            page_ids second both tenant limit' (offset + limit) db apart,
            page_ids both both tenant (limit + limit') offset db apart,
          )
          (sorted_tile (
            ids (both.sort (keep (λ (n : Notification). n.tenant_id == tenant) db.notifications)))),
    )
  where
    sorted_tile :
        (xs : List ℕ)
        → take limit (drop offset xs) ++ take limit' (drop (offset + limit) xs)
          ≡ take (limit + limit') (drop offset xs)
    sorted_tile xs = rw (drop-drop offset limit xs) (take_tile limit limit' (drop offset xs))
