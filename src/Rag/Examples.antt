-- ===== src/Rag/Examples.antt =====
-- Questions to internal/rag/: floating point is counted in whole units, vectors are ordered by the
-- rows' ids.
use nimbus_app.Prelude.{
  ℕ, suc, ◌+◌, ◌≡◌, ◌⊎◌, refl, String, Bool, true, none, List, [], ◌∷◌, replicate, leb, ltb, arith,
  str_eq, if◌then◌else◌, replace_in,
}
use nimbus_app.Prelude.Fallible.{value, failed, decimal_in}
use nimbus_app.Db.Sorter.{sorter, Sorter}
use nimbus_app.Db.Statement.{any}
use nimbus_app.Api.{decoded}
use nimbus_app.Rpc.Examples.{digits}
use nimbus_app.Ai.{Model, body, said, chat_completion}
use nimbus_app.Rag.{Floats, Document, Row}
use nimbus_app.Rag.Guard.{
  Regex, kept, hit, new_guard, check_injection, mask_pii, mask_rules, mask_pieces, restore,
}
use nimbus_app.Rag.Store.{Engine, Fused, higher, rows_read, rank_from, hybrid_rows, hybrid_search}
use nimbus_app.Rag.Reranker.{by_score, rerank, tokenize, terms_from, occurrences, score_from}
use nimbus_app.Rag.Embedder.{embed}
use nimbus_app.Rag.Pipeline.{AskRequest, Parts, ask, context_parts}
use nimbus_app.Rag.Citations.{CitesWell, cites_own_documents}
use nimbus_app.Rag.Masked.{Same, blocked_error, question_stays_masked}

abbrev whole : Floats
whole = record {
  Double = ℕ;
  Single = ℕ;
  zero = 0;
  plus = λ a b. a + b;
  log_one_plus = λ f n. f;
  single = λ d. d;
  greater = λ a b. ltb b a;
  numeric = λ n. n;
  show = λ x. "1";
}

abbrev by_id : Row → Row → Bool
by_id a b = leb a.id b.id

any_sorter : Sorter Row (λ a b. true)
any_sorter = sorter (λ a b. true) (λ a b h. refl) (λ a b c h k. refl)

id_sorter : Sorter Row by_id
id_sorter = sorter by_id (λ a b h. ground arith) (λ a b c h k. ground arith)

fused_sorter : Sorter Fused higher
fused_sorter = sorter higher (λ f g h. ground arith) (λ f g k h i. ground arith)

score_sorter : Sorter (Document whole) (by_score whole)
score_sorter = sorter (by_score whole) (λ a b h. ground arith) (λ a b c h k. ground arith)

abbrev engine : Engine
engine = record {
  closer = λ v. by_id;
  nearest = λ v. id_sorter;
  matches = λ q r. true;
  better = λ q. by_id;
  ranked = λ q. id_sorter;
  unordered = λ q. any_sorter;
  fused = fused_sorter;
}

-- Two whole texts are taken for personal data.
abbrev regex : Regex
regex = record {
  matches = λ re s. str_eq s "jailbreak";
  pieces = λ re s.
      if str_eq s "a@b.c" then hit s ∷ [] else if str_eq s "x@y.z" then hit s ∷ [] else kept s ∷ [];
}

abbrev outside : Model
outside = record {
  Env = ℕ;
  post = λ r n. (body "{}", suc n);
  bad_url = λ u. none;
  encode_request = λ r. decoded "{}";
  decode_response = λ s. decoded (record {
    choices =
        record { message = said "assistant" "Mail to [EMAIL]_1 [1]."; finish_reason = "stop" } ∷ [];
    error = none;
  });
}

abbrev parts : Parts
parts = record {
  floats = whole;
  model = outside;
  codec = record {
    encode = λ t m. decoded t;
    decode = λ s. decoded (record { data_rows = replicate 1536 1 ∷ []; error = none });
  };
  engine = engine;
  regex = regex;
  formats = digits;
  by_rank = score_sorter;
  uuid_error = λ s. "invalid UUID length";
  fields = λ s. none;
  embed_key = "k";
  client = record { api_key = "k"; model = "m"; base_url = "https://api"; timeout = 30 };
  guard = new_guard;
}

abbrev row : ℕ → ℕ → String → Row
row id tenant content = record {
  id = id;
  tenant_id = tenant;
  content = content;
  source_type = "faq";
  source_id = none;
  embedding = "[1]";
}

abbrev knowledge : List Row
knowledge = row 1 7 "Mail bounced" ∷ row 8 8 "Of another tenant" ∷ row 7 7 "Mail sent" ∷ []

abbrev as_stored : List (String × String) → List (String × String)
as_stored ms = ms

abbrev question : String → AskRequest
question q = record { query = q; tenant_id = "7" }

-- Of three rows the two of the tenant are cited, and the address is put back.
answers_the_question :
    (ask parts rows_read as_stored (question "a@b.c") knowledge 0).0
    ≡ value (record {
      answer = "Mail to a@b.c [1].";
      citations =
          record { id = "1"; content = "Mail bounced"; source_type = "faq"; source_id = "" }
          ∷ record { id = "7"; content = "Mail sent"; source_type = "faq"; source_id = "" }
          ∷ [];
    })
unfolding ask check_injection mask_pii mask_rules mask_pieces decimal_in embed hybrid_search
    hybrid_rows rank_from any id_sorter any_sorter fused_sorter score_sorter sorter rerank tokenize
    terms_from occurrences score_from context_parts chat_completion restore replace_in
answers_the_question = refl

cites_own_documents_example :
    CitesWell parts 7 knowledge (ask parts rows_read as_stored (question "a@b.c") knowledge 0).0
cites_own_documents_example =
    cites_own_documents parts 7 knowledge rows_read as_stored (question "a@b.c") 0 refl

question_stays_masked_example :
    (ask parts rows_read as_stored (question "a@b.c") knowledge 0 ≡ (failed blocked_error, 0))
    ⊎ Same parts as_stored
        (ask parts rows_read as_stored (question "a@b.c") knowledge 0)
        (ask parts rows_read as_stored (question "x@y.z") knowledge 0)
unfolding check_injection mask_pii mask_rules mask_pieces decimal_in
question_stays_masked_example =
    question_stays_masked parts as_stored rows_read "7" "a@b.c" "x@y.z" knowledge 0 refl refl
