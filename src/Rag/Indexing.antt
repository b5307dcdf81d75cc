-- ===== src/Rag/Indexing.antt =====
-- internal/rag/pipeline.go: the documents that the pipeline puts into the store.
use Prim.Native.String.{◌++◌}
use nimbus_app.Prelude.{ℕ, ◌+◌, String, Option, none, some, List, [], ◌∷◌, map, join}
use nimbus_app.Prelude.Fallible.{Fallible, value, failed}
use nimbus_app.Db.Statement.{Outcome}
use nimbus_app.Rag.{Document, Row}
use nimbus_app.Rag.Store.{upsert}
use nimbus_app.Rag.Embedder.{embed}
use nimbus_app.Rag.Pipeline.{Parts}

-- What the upsert meets: the driver's error, and the new UUID.
pub record Upserts : Type 0 where
  pub outcome : Outcome
  pub cause : String
  pub fresh : ℕ

pub record FaqEntry : Type 0 where
  pub question : String
  pub answer : String

module _ (G : Parts) where
  abbrev field_text : String × String → String
  field_text f = f.0 ++ "=" ++ f.1

  abbrev fields_text : String → Option (List (String × String)) → String
  fields_text raw none = raw
  fields_text raw (some fs) = join " " (map field_text fs)

  unfoldable pub payload_to_text : String → String
  payload_to_text raw = fields_text raw (G.fields raw)

  abbrev pub Indexed : Type 0
  Indexed = Fallible (Unit {0}) × List Row × G.model.Env

  -- The error in front of an embedder's.
  abbrev pub store_embedded :
      (String → String)
      → (String → String)
      → Upserts
      → (List G.floats.Single → Document G.floats)
      → List Row
      → Fallible (List G.floats.Single) × G.model.Env
      → Indexed
  store_embedded why_not why_lost m doc kb (failed e, env) = (failed (why_not e), kb, env)
  store_embedded why_not why_lost m doc kb (value v, env) =
      told why_lost (upsert G.floats G.engine m.outcome m.cause (doc v) v kb) env
    where
      told : (String → String) → Fallible (Unit {0}) × List Row → G.model.Env → Indexed
      told why (failed e, rows) env = (failed (why e), rows, env)
      told why (value u, rows) env = (value u, rows, env)

  abbrev document : ℕ → ℕ → String → String → Option ℕ → Document G.floats
  document id tenant content source_type source_id = record {
    id = id;
    tenant_id = tenant;
    content = content;
    source_type = source_type;
    source_id = source_id;
    score = G.floats.single G.floats.zero;
  }

  abbrev pub notification_text : ℕ → String → String → String
  notification_text id channel payload =
      "Notification "
      ++ G.formats.uuid_string id
      ++ ": channel="
      ++ channel
      ++ " payload="
      ++ payload_to_text payload

  unfoldable pub index_notification :
      Upserts → ℕ → ℕ → String → String → List Row → G.model.Env → Indexed
  index_notification m tenant id channel payload kb env =
      let content = notification_text id channel payload in
      store_embedded (λ e. e) (λ e. e) m
        (λ v. document m.fresh tenant content "notification" (some id)) kb
        (embed G.floats G.codec G.model G.embed_key content env)

  abbrev pub faq_text : FaqEntry → String
  faq_text f = "Q: " ++ f.question ++ "\nA: " ++ f.answer

  -- `next` goes on with the other entries, after an entry that is stored.
  abbrev pub on_stored : (List Row → G.model.Env → Indexed) → Indexed → Indexed
  on_stored next (failed e, kb, env) = (failed e, kb, env)
  on_stored next (value u, kb, env) = next kb env

  -- `meets i` is for the `i`-th entry.
  unfoldable pub seed_faq : (ℕ → Upserts) → ℕ → ℕ → List FaqEntry → List Row → G.model.Env → Indexed
  seed_faq meets i tenant [] kb env = (value tt, kb, env)
  seed_faq meets i tenant (f ∷ fs) kb env = on_stored (seed_faq meets (i + 1) tenant fs) (
      store_embedded (λ e. "embed FAQ: " ++ e) (λ e. "store FAQ: " ++ e) (meets i)
        (λ v. document (meets i).fresh tenant (faq_text f) "faq" none) kb
        (embed G.floats G.codec G.model G.embed_key (faq_text f) env))
