-- ===== src/Ai/Compose/Grown.antt =====
-- What a tool call of internal/ai/compose.go adds to the table: rows of the request's tenant and user.
use mathlib.Core.List.{append-nil, append_assoc}
use nimbus_app.Prelude.{
  ℕ, ◌≡◌, refl, sym, ap, ◌∙◌, subst, inl, inr, String, true, Bool-cases, Option-cases, Option, none,
  some, List, [], ◌∷◌, ◌++◌, All, All-append, arith, str_eq,
}
use nimbus_app.Db.{Notification, Database, status_pending}
use nimbus_app.Db.Sorter.{Sorter}
use nimbus_app.Db.Statement.{Outcome, done, refused, lost, ok, err, Result}
use nimbus_app.Db.Repository.{
  newest_first, create_notification, row_accepted, list_notifications_by_tenant,
}
use nimbus_app.Api.{Formats, Decoded, malformed, decoded, is_valid_channel}
use nimbus_app.Ai.Compose.{
  Tooling, Meets, ToolResult, CreateArgs, channel_payload, composed_row, create_decoded, created,
  tool_create_notification, tool_list_notifications, tool_get_notification_status, execute_tool,
  status_found, status_parsed, status_decoded, listed, tool_limit,
}
use nimbus_app.Ai.Compose.Rounds.{ids_of}

-- A new row for the tenant and the user of the request.
unfoldable pub IsOwn : ℕ → ℕ → Notification → Type 0
IsOwn tenant user n =
    (n.tenant_id ≡ tenant)
    × (n.user_id ≡ user)
    × (n.status ≡ status_pending)
    × (n.attempt ≡ 0)
    × (is_valid_channel n.channel ≡ true)

abbrev pub with_rows : Database → List Notification → Database
with_rows db added = record db { notifications = db.notifications ++ added }

module _ (F : Formats) (meets : ℕ → Meets) where
  -- The ids are those of the rows, in their order, without the rows whose INSERT got no answer.
  pub data Told : List String → List Notification → Type 0 where
    none_made : Told [] []
    told :
        {n : Notification} {ids : List String} {ns : List Notification}
        → Told ids ns
        → Told (F.uuid_string n.id ∷ ids) (n ∷ ns)
    unanswered :
        {n : Notification} {ids : List String} {ns : List Notification} (i : ℕ)
        → (meets i).outcome ≡ lost
        → (meets i).fresh ≡ n.id
        → Told ids ns
        → Told ids (n ∷ ns)

  Told-append :
      {ids more : List String} {ns ms : List Notification}
      → Told ids ns
      → Told more ms
      → Told (ids ++ more) (ns ++ ms)
  Told-append none_made u = u
  Told-append (told t) u = told (Told-append t u)
  Told-append (unanswered i l f t) u = unanswered i l f (Told-append t u)

module _ (F : Formats) (tenant user : ℕ) (meets : ℕ → Meets) where
  -- Own rows were added, and the ids are those that the caller is told.
  abbrev pub Grown : Database → Database → List String → Type 0
  Grown db db' ids =
      (added : List Notification) × (db' ≡ with_rows db added)
      × All (IsOwn tenant user) added
      × Told F meets ids added

  pub Grown-none : (db : Database) → Grown db db []
  Grown-none db = (
    [],
    ap (λ ns. record db { notifications = ns }) (sym (append-nil db.notifications)),
    tt,
    none_made,
  )

  pub Grown-append :
      (a b c : Database) (ids more : List String)
      → Grown a b ids
      → Grown b c more
      → Grown a c (ids ++ more)
  Grown-append a b c ids more (xs, e, own, s) (ys, e2, own2, s2) = (
    xs ++ ys,
    e2
        ∙ ap (λ d. with_rows d ys) e
        ∙ ap (λ ns. record a { notifications = ns }) (append_assoc a.notifications xs ys),
    All-append (IsOwn tenant user) xs ys own own2,
    Told-append F meets s s2,
  )

  -- What an insert of an own row leaves: nothing, or the row, stamped.
  abbrev stamped : ℕ → Notification → Notification
  stamped now n = record n { created_at = now; updated_at = now; error_message = none }

  Grown-one :
      (n : Notification) (db : Database)
      → IsOwn tenant user n
      → Grown db (with_rows db (n ∷ [])) (F.uuid_string n.id ∷ [])
  Grown-one n db own = (n ∷ [], refl, (own, tt), told none_made)

  Grown-untold :
      (i : ℕ) (n : Notification) (db : Database)
      → IsOwn tenant user n
      → (meets i).outcome ≡ lost
      → (meets i).fresh ≡ n.id
      → Grown db (with_rows db (n ∷ [])) []
  Grown-untold i n db own l f = (n ∷ [], refl, (own, tt), unanswered i l f none_made)

  module _ (T : Tooling) (a : CreateArgs) where
    accepted_grows :
        (i : ℕ) (out : Outcome) (now : ℕ) (n : Notification) (db : Database)
        → IsOwn tenant user n
        → (meets i).outcome ≡ out
        → (meets i).fresh ≡ n.id
        → row_accepted n db ≡ true
        → let r = created F T n.id a (create_notification out now n db) in Grown db r.1 (ids_of r.0)
    unfolding create_notification IsOwn
    accepted_grows i done now n db own o f h = rw h (Grown-one (stamped now n) db own)
    accepted_grows i refused now n db own o f h = rw h (Grown-none db)
    accepted_grows i lost now n db own o f h = rw h (Grown-untold i (stamped now n) db own o f)

    insert_grows :
        (i now : ℕ) (n : Notification) (db : Database)
        → IsOwn tenant user n
        → (meets i).fresh ≡ n.id
        → let r = created F T n.id a (create_notification (meets i).outcome now n db) in
          Grown db r.1 (ids_of r.0)
    unfolding create_notification
    insert_grows i now n db own f = elim (Bool-cases (row_accepted n db)) [
      | inl h ↦ accepted_grows i (meets i).outcome now n db own refl f h
      | inr h ↦ rw h (Grown-none db)
    ]

  payload_channel :
      (T : Tooling) (a : CreateArgs) (payload : String)
      → channel_payload F T a ≡ some payload
      → is_valid_channel a.channel ≡ true
  unfolding channel_payload is_valid_channel
  payload_channel T a payload h = ground arith

  create_grows :
      (T : Tooling) (i : ℕ) (args : Decoded CreateArgs) (db : Database)
      → let r = create_decoded F T (meets i) tenant user args db in Grown db r.1 (ids_of r.0)
  unfolding IsOwn
  create_grows T i (malformed e) db = Grown-none db
  create_grows T i (decoded a) db = elim (Option-cases (channel_payload F T a)) [
    | inl h ↦ rw h (Grown-none db)
    | inr (payload, h) ↦ rw h (
        insert_grows T a i (meets i).now
          (composed_row F T (meets i).fresh tenant user a.channel payload) db
          (refl, refl, refl, refl, payload_channel T a payload h) refl)
  ]

  found_untold : (T : Tooling) (r : Result Notification) → ids_of (status_found F T r) ≡ []
  found_untold T (ok n) = refl
  found_untold T (err e) = refl

  listed_untold : (T : Tooling) (r : Result (List Notification)) → ids_of (listed F T r) ≡ []
  listed_untold T (ok ns) = refl
  listed_untold T (err e) = refl

  parsed_untold :
      (T : Tooling) (m : Meets) (text : String) (id : Option ℕ) (db : Database)
      → ids_of (status_parsed F T m text id db) ≡ []
  parsed_untold T m text none db = refl
  parsed_untold T m text (some id) db = found_untold T _

  decoded_untold :
      (T : Tooling) (m : Meets) (text : Decoded String) (db : Database)
      → ids_of (status_decoded F T m text db) ≡ []
  decoded_untold T m (malformed e) db = refl
  decoded_untold T m (decoded text) db = parsed_untold T m text (F.parse_uuid text) db

  list_untold :
      (T : Tooling) (desc : Sorter Notification newest_first) (m : Meets) (args : String)
      (db : Database)
      → ids_of (tool_list_notifications F T desc m args tenant db) ≡ []
  unfolding tool_list_notifications
  list_untold T desc m args db =
      listed_untold T
        (list_notifications_by_tenant desc m.outcome tenant (tool_limit F T (T.limit_in args)) 0 db)

  status_untold :
      (T : Tooling) (m : Meets) (args : String) (db : Database)
      → ids_of (tool_get_notification_status F T m args db) ≡ []
  unfolding tool_get_notification_status
  status_untold T m args db = decoded_untold T m (T.decode_id args) db

  same_grows : (db : Database) (r : ToolResult) → ids_of r ≡ [] → Grown db db (ids_of r)
  same_grows db r h = subst (λ l. Grown db db l) (sym h) (Grown-none db)

  -- Each of the tools, whatever the model gives it.
  pub tool_grows :
      (T : Tooling) (desc : Sorter Notification newest_first) (i : ℕ) (name args : String)
      (db : Database)
      → let r = execute_tool F T desc (meets i) name args tenant user db in
        Grown db r.1 (ids_of r.0)
  unfolding execute_tool tool_create_notification
  tool_grows T desc i name args db = elim (Bool-cases (str_eq name "create_notification")) [
    | inl a ↦ rw a (create_grows T i (T.decode_create args) db)
    | inr a ↦ elim (Bool-cases (str_eq name "list_notifications")) [
      | inl b ↦
          rw (a, b)
            (same_grows db (tool_list_notifications F T desc (meets i) args tenant db)
              (list_untold T desc (meets i) args db))
      | inr b ↦ elim (Bool-cases (str_eq name "get_notification_status")) [
        | inl c ↦
            rw (a, b, c)
              (same_grows db (tool_get_notification_status F T (meets i) args db)
                (status_untold T (meets i) args db))
        | inr c ↦ rw (a, b, c) (Grown-none db)
      ]
    ]
  ]
