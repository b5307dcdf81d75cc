-- ===== src/Rag.antt =====
-- internal/rag/: questions that a language model answers from a tenant's documents. `Floats` is
-- Go's floating point; the database's order of vectors and texts and the regular expressions are
-- parameters where they are used.
pub mod Guard
pub mod Store
pub mod Reranker
pub mod Embedder
pub mod Pipeline
pub mod Indexing
pub mod Handler
pub mod Citations
pub mod Masked
mod Examples
use nimbus_app.Prelude.{ℕ, String, Bool, Option}

-- float64 and float32: `log_one_plus f n` is `math.Log(1 + f / n)`, `numeric` what the driver makes
-- of a NUMERIC in units of 10 ^ -20, `show` is `%g`.
pub record Floats : Type 1 where
  pub Double : Type 0
  pub Single : Type 0
  pub zero : Double
  pub plus : Double → Double → Double
  pub log_one_plus : ℕ → ℕ → Double
  pub single : Double → Single
  pub greater : Single → Single → Bool
  pub numeric : ℕ → Single
  pub show : Single → String

pub record Document (N : Floats) : Type 0 where
  pub id : ℕ
  pub tenant_id : ℕ
  pub content : String
  pub source_type : String
  pub source_id : Option ℕ
  pub score : N.Single

-- A row of `knowledge_base`.
pub record Row : Type 0 where
  pub id : ℕ
  pub tenant_id : ℕ
  pub content : String
  pub source_type : String
  pub source_id : Option ℕ
  pub embedding : String
