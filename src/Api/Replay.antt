-- ===== src/Api/Replay.antt =====
-- `CreateNotification` of internal/api/handler.go with the service of internal/redis/idempotency.go:
-- what a second request with the same key gets.
use nimbus_app.Prelude.{◌≡◌, String}
use nimbus_app.Redis.{IdempotencyResult, Server}
use nimbus_app.Redis.Idempotency.{store}
use nimbus_app.Api.{NotificationRequest, Response, Formats, created, json_response}
use nimbus_app.Api.Create.{Services, Meets, ttl_of}

module _ (R : Server) (F : Formats) (services : Services) where
  -- The result under the key of a request that has made the notification `fresh`.
  abbrev pub first_result : Meets → IdempotencyResult
  first_result m = record {
    notification_id = F.uuid_string m.fresh;
    status_code = 201;
    created_at = 0;
  }

  abbrev pub fresh_answer : Meets → Response
  fresh_answer m = json_response 201 (created (F.uuid_string m.fresh))

  abbrev Stored : Meets → String → NotificationRequest → String → R.Store → Type 0
  Stored m header req key s' =
      (s : R.Store) × (s'
        ≡ (store R m.store m.now_store m.unix req.tenant_id key (first_result m)
            (ttl_of R F services header) s).1)
