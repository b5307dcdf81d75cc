-- ===== src/Queue.antt =====
-- internal/sqs/producer.go: the batch of the producer, and the consumer. `Sqs` is what AWS does.
mod Examples
use Prim.Native.String.{◌++◌}
use nimbus_app.Prelude.{ℕ, String, Option, none, some, List, [], ◌∷◌, map}
use nimbus_app.Prelude.Fallible.{Fallible, value, failed}
use nimbus_app.Db.{Notification}
use nimbus_app.Api.{Message, Formats, Decoded, malformed, decoded}

-- A message that is received: its body and its receipt handle.
pub record Received : Type 0 where
  pub body : String
  pub receipt_handle : String

-- The calls answer an error's text or a result. `receive` gets the number of messages, the seconds
-- to wait and the seconds for which the messages are invisible.
pub record Sqs : Type 1 where
  pub Env : Type 0
  pub send_message : String → Env → Fallible String × Env
  pub receive : ℕ → ℕ → ℕ → Env → Fallible (List Received) × Env
  pub delete : String → Env → Fallible (Unit {0}) × Env
  pub change_visibility : String → ℕ → Env → Fallible (Unit {0}) × Env
  pub now : Env → ℕ
  pub encode : Message → Decoded String
  pub decode : String → Decoded Message

-- An error, with what the function puts in front of it.
abbrev pub wrapped : {A : Type 0} → String → Fallible A → Fallible A
wrapped what (failed e) = failed (what ++ e)
wrapped what (value a) = value a

module _ (F : Formats) (Q : Sqs) where
  abbrev message : Notification → ℕ → Message
  message notif now = record {
    notification_id = F.uuid_string notif.id;
    tenant_id = F.uuid_string notif.tenant_id;
    user_id = F.uuid_string notif.user_id;
    channel = notif.channel;
    payload = notif.payload;
    attempt = notif.attempt;
    enqueued_at = now;
  }

  abbrev sent : Decoded String → Q.Env → Fallible String × Q.Env
  sent (malformed e) env = (failed ("failed to marshal message: " ++ e), env)
  sent (decoded body) env =
      let r = Q.send_message body env in (wrapped "sqs send failed: " r.0, r.1)

  unfoldable pub enqueue : Notification → Q.Env → Fallible String × Q.Env
  enqueue notif env = sent (Q.encode (message notif (Q.now env))) env

  abbrev with_id : Fallible String → List String → List String
  with_id (failed e) ids = ids
  with_id (value id) ids = id ∷ ids

  -- A notification whose message fails is left out, and the batch has no error.
  unfoldable pub enqueue_batch : List Notification → Q.Env → List String × Q.Env
  enqueue_batch [] env = ([], env)
  enqueue_batch (n ∷ ns) env =
      let r = enqueue n env in let rest = enqueue_batch ns r.1 in (with_id r.0 rest.0, rest.1)

  abbrev in_body : Received → Decoded Message → Fallible (Option (Message × String))
  in_body m (malformed e) = failed ("invalid message format: " ++ e)
  in_body m (decoded msg) = value (some (msg, m.receipt_handle))

  abbrev first_of : Fallible (List Received) → Fallible (Option (Message × String))
  first_of (failed e) = failed ("sqs receive failed: " ++ e)
  first_of (value []) = value none
  first_of (value (m ∷ ms)) = in_body m (Q.decode m.body)

  -- No message is no error.
  unfoldable pub receive_message : Q.Env → Fallible (Option (Message × String)) × Q.Env
  receive_message env = let r = Q.receive 1 20 60 env in (first_of r.0, r.1)

  unfoldable pub delete_message : String → Q.Env → Fallible (Unit {0}) × Q.Env
  delete_message handle env =
      let r = Q.delete handle env in (wrapped "sqs delete failed: " r.0, r.1)

  unfoldable pub change_visibility : String → ℕ → Q.Env → Fallible (Unit {0}) × Q.Env
  change_visibility handle seconds env =
      let r = Q.change_visibility handle seconds env in
      (wrapped "sqs change visibility failed: " r.0, r.1)
