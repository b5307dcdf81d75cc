-- ===== src/Api/Listing.antt =====
-- The pages that `ListNotifications` of internal/api/handler.go answers with.
use nimbus_app.Prelude.{
  ℕ, ◌≤◌, ◌<◌, ◌≡◌, refl, ◌≢◌, ◌⊎◌, inl, inr, String, false, not, Option, none, some, List, arith,
  length, ◌==◌, Bool-cases, str_eq,
}
use nimbus_app.Db.{Notification, Database}
use nimbus_app.Db.Sorter.{Sorter}
use nimbus_app.Db.Statement.{Outcome, done, refused, lost, any}
use nimbus_app.Db.Repository.{newest_first, list_notifications_by_tenant}
use nimbus_app.Db.Repository.Pages.{page_bounds}
use nimbus_app.Api.{Response, Param, Formats, notifications, json_response, page_limit, page_offset}
use nimbus_app.Api.Handlers.{list_handler, list_parsed}

page_limit_bounds : (p : Param) → (0 < page_limit p) × (page_limit p ≤ 100)
unfolding page_limit
page_limit_bounds p = ground arith

module _ (F : Formats) (desc : Sorter Notification newest_first) (out : Outcome)
    (limit offset : Param) (db : Database) where
  -- An error, or a page of at most 100 rows of the tenant `parsed`.
  abbrev pub IsPageOf : Option ℕ → Response → Type 0
  IsPageOf parsed r =
      (r.code ≢ 200)
      ⊎ ((t : ℕ) × (ns : List Notification) × (parsed ≡ some t)
          × (r ≡ json_response 200 (notifications ns (page_limit limit) (page_offset offset)))
          × (length ns ≤ page_limit limit)
          × (page_limit limit ≤ 100)
          × (any (λ (n : Notification). not (n.tenant_id == t)) ns ≡ false))

  list_parsed-IsPageOf :
      (parsed : Option ℕ) → IsPageOf parsed (list_parsed F desc out limit offset db parsed)
  unfolding list_notifications_by_tenant
  list_parsed-IsPageOf none = inl (ground arith)
  list_parsed-IsPageOf (some t) = go out
    where
      go : (o : Outcome) → IsPageOf (some t) (list_parsed F desc o limit offset db (some t))
      go refused = inl (ground arith)
      go lost = inl (ground arith)
      go done =
          let (short, own) = page_bounds desc t (page_limit limit) (page_offset offset) db in
          inr (t, _, refl, refl, short, (page_limit_bounds limit).1, own)

  -- Whatever the query parameters are, a listing is answered with an error, or with 200 and a page of
  -- at most as many rows as it says, which is at most 100, all of the tenant that was asked for.
  pub pages_are_bounded :
      (tenant_id : String)
      → IsPageOf (F.parse_uuid tenant_id) (list_handler F desc out tenant_id limit offset db)
  unfolding list_handler
  pages_are_bounded tenant_id = elim (Bool-cases (str_eq tenant_id "")) [
    | inl e ↦ rw e (inl (ground arith))
    | inr e ↦ rw e (list_parsed-IsPageOf (F.parse_uuid tenant_id))
  ]
