-- ===== src/Topic.antt =====
-- internal/sns/publisher.go: events for a topic. `Sns` is what AWS does.
use Prim.Native.String.{◌++◌}
use nimbus_app.Prelude.{ℕ, ◌+◌, String, List, [], ◌∷◌, length, ltb, if◌then◌else◌}
use nimbus_app.Prelude.Fallible.{Fallible, value, failed, decimal, ◌>>=◌}
use nimbus_app.Api.{Decoded, malformed, decoded}

pub record Message : Type 0 where
  pub notification_id : String
  pub tenant_id : String
  pub channel : String
  pub recipient : String
  pub subject : String
  pub body : String
  pub metadata : List (String × String)

pub record Entry : Type 0 where
  pub id : String
  pub message : String
  pub attributes : List (String × String)

-- The ids of the messages that went through, and of the entries that failed.
pub record BatchResult : Type 0 where
  pub successful : List String
  pub failures : List String

pub record Sns : Type 1 where
  pub Env : Type 0
  pub publish : String → String → List (String × String) → Env → Fallible String × Env
  pub publish_batch : String → List Entry → Env → Fallible BatchResult × Env
  pub encode : Message → Decoded String

abbrev pub attributes : Message → List (String × String)
attributes m = ("channel", m.channel) ∷ ("tenant_id", m.tenant_id) ∷ []

module _ (T : Sns) (topic_arn : String) where
  abbrev told : Fallible String → Fallible String
  told (failed e) = failed ("failed to publish to SNS: " ++ e)
  told (value id) = value id

  abbrev published : Message → Decoded String → T.Env → Fallible String × T.Env
  published m (malformed e) env = (failed ("failed to marshal message: " ++ e), env)
  published m (decoded payload) env =
      let r = T.publish topic_arn payload (attributes m) env in (told r.0, r.1)

  unfoldable pub publish : Message → T.Env → Fallible String × T.Env
  publish m env = published m (T.encode m) env

  abbrev entry : ℕ → Message → Decoded String → Fallible Entry
  entry i m (malformed e) = failed ("failed to marshal message " ++ decimal i ++ ": " ++ e)
  entry i m (decoded payload) =
      value (record { id = m.notification_id; message = payload; attributes = attributes m })

  -- The entries from the `i`-th on, up to the first that cannot be marshalled.
  unfoldable pub entries : ℕ → List Message → Fallible (List Entry)
  entries i [] = value []
  entries i (m ∷ ms) = entry i m (T.encode m) >>= λ e. entries (i + 1) ms >>= λ es. value (e ∷ es)

  abbrev complete : BatchResult → List String → Fallible (List String)
  complete r [] = value r.successful
  complete r (f ∷ fs) =
      failed ("partial batch failure: " ++ decimal (length (f ∷ fs)) ++ " messages failed")

  abbrev batch_told : Fallible BatchResult → Fallible (List String)
  batch_told (failed e) = failed ("failed to publish batch to SNS: " ++ e)
  batch_told (value r) = complete r r.failures

  abbrev batch_sent : Fallible (List Entry) → T.Env → Fallible (List String) × T.Env
  batch_sent (failed e) env = (failed e, env)
  batch_sent (value es) env = let r = T.publish_batch topic_arn es env in (batch_told r.0, r.1)

  unfoldable pub publish_batch : List Message → T.Env → Fallible (List String) × T.Env
  publish_batch [] env = (value [], env)
  publish_batch (m ∷ ms) env =
      if ltb 10 (length (m ∷ ms))
      then (failed "batch size exceeds SNS limit of 10", env)
      else batch_sent (entries 0 (m ∷ ms)) env
