-- ===== src/Ai/Compose/Foreign.antt =====
-- Whose notifications the tools of internal/ai/compose.go read, beside internal/grpc/server.go.
use nimbus_app.Prelude.{ℕ, ◌≡◌, ◌≢◌, refl, String, some, [], str_eq_apart}
use nimbus_app.Prelude.Fallible.{value}
use nimbus_app.Db.{Notification, Database}
use nimbus_app.Db.Sorter.{Sorter}
use nimbus_app.Db.Statement.{done, ok}
use nimbus_app.Db.Repository.{newest_first, get_notification}
use nimbus_app.Api.{Formats, decoded}
use nimbus_app.Rpc.{get_call, status, plain, not_found}
use nimbus_app.Ai.Compose.{Tooling, Meets, status_json, execute_tool, tool_get_notification_status}

module _ (F : Formats) (T : Tooling) (desc : Sorter Notification newest_first) where
  -- A notification of another tenant: the gRPC call refuses its id as not found, and the tool
  -- `get_notification_status` on the same table gives the model its channel, status and attempt,
  -- whichever tenant and user the compose request is for.
  pub status_tool_shows_foreign_rows :
      (tenant id args : String) (i t u : ℕ) (n : Notification) (db : Database) (m : Meets)
      → tenant ≢ ""
      → F.uuid_string n.tenant_id ≢ tenant
      → T.decode_id args ≡ decoded id
      → F.parse_uuid id ≡ some i
      → get_notification done i db ≡ ok n
      → m.outcome ≡ done
      → (get_call F done tenant id db ≡ status (plain not_found "notification not found"))
        × (execute_tool F T desc m "get_notification_status" args t u db ≡ (
          value (T.marshal (status_json (F.uuid_string n.id) n.channel n.status n.attempt), []),
          db,
        ))
  unfolding get_call execute_tool tool_get_notification_status
  status_tool_shows_foreign_rows tenant id args i t u n db m named foreign a p g o = (
    rw (str_eq_apart tenant "" named, p, g, str_eq_apart (F.uuid_string n.tenant_id) tenant foreign)
        refl,
    rw (a, p, o, g) refl,
  )
