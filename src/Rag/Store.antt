-- ===== src/Rag/Store.antt =====
-- internal/rag/store.go: the documents in the database. `Engine` is the server's ORDER BY of vectors
-- and of texts, and its text search.
use Prim.Native.String.{◌++◌}
use nimbus_app.Prelude.{
  ℕ, ◌+◌, ◌/◌, ◌^◌, String, Bool, not, true, Option, none, some, List, [], ◌∷◌, ◌++◌ as ◌+++◌, map,
  take, keep, leb, ◌==◌, join, if◌then◌else◌,
}
use nimbus_app.Prelude.Fallible.{Fallible, value, failed}
use nimbus_app.Db.Sorter.{Sorter}
use nimbus_app.Db.Statement.{Outcome, done, refused, lost, any, update_where}
use nimbus_app.Rag.{Floats, Document, Row}

-- A document's place in the two lists, by `ROW_NUMBER`, where it is in them.
pub record Fused : Type 0 where
  pub row : Row
  pub semantic : Option ℕ
  pub fulltext : Option ℕ

-- 1.0 / (60.0 + rank), and 0 where there is no rank, in units of 10 ^ -20: the server rounds the
-- quotient to twenty places.
abbrev pub share : Option ℕ → ℕ
share none = 0
share (some rank) = (10 ^ 20 + (60 + rank) / 2) / (60 + rank)

abbrev pub rrf_score : Fused → ℕ
rrf_score f = share f.semantic + share f.fulltext

-- rrf_score DESC
abbrev pub higher : Fused → Fused → Bool
higher f g = leb (rrf_score g) (rrf_score f)

pub record Engine : Type 0 where
  pub closer : String → Row → Row → Bool
  pub nearest : (vec : String) → Sorter Row (closer vec)
  pub matches : String → Row → Bool
  pub better : String → Row → Row → Bool
  pub ranked : (query : String) → Sorter Row (better query)
  -- the order in which rows come where a query asks for none
  pub unordered : (query : String) → Sorter Row (λ r s. true)
  pub fused : Sorter Fused higher

-- What a query meets: its rows, an error of the query, of a row's scan, or behind the last row.
pub data Read : Type 0 where
  rows_read : Read
  query_failed scan_failed rows_failed : String → Read

-- A row's place in a list that is counted from `n`.
unfoldable pub rank_from : ℕ → ℕ → List Row → Option ℕ
rank_from n id [] = none
rank_from n id (r ∷ rs) = if r.id == id then some n else rank_from (n + 1) id rs

abbrev pub rank_in : List Row → ℕ → Option ℕ
rank_in rows id = rank_from 1 id rows

abbrev pub same_id : ℕ → Row → Bool
same_id id r = r.id == id

module _ (E : Engine) where
  -- One order gives both the ranks and the first twenty.
  abbrev pub semantic_search : String → List Row → List Row
  semantic_search vec rows = take 20 ((E.nearest vec).sort rows)

  -- The ranks are those among all rows that match, but LIMIT 20 without ORDER BY leaves any twenty of
  -- them.
  abbrev pub fulltext_ranks : String → List Row → List Row
  fulltext_ranks query rows = (E.ranked query).sort (keep (E.matches query) rows)

  abbrev pub fulltext_search : String → List Row → List Row
  fulltext_search query rows = take 20 ((E.unordered query).sort (keep (E.matches query) rows))

  abbrev pub fuse : List Row → List Row → List Row → Row → Fused
  fuse s f ranks r = record {
    row = r;
    semantic = rank_in s r.id;
    fulltext = if any (same_id r.id) f then rank_in ranks r.id else none;
  }

  -- FULL OUTER JOIN … ON s.id = f.id
  abbrev pub rrf : List Row → List Row → List Row → List Fused
  rrf s f ranks = map (fuse s f ranks) (s +++ keep (λ (r : Row). not (any (same_id r.id) s)) f)

  unfoldable pub hybrid_rows : ℕ → String → String → ℕ → List Row → List Fused
  hybrid_rows tenant vec query limit kb =
      let rows = keep (λ (r : Row). r.tenant_id == tenant) kb in
      take limit (
        E.fused.sort
          (rrf (semantic_search vec rows) (fulltext_search query rows) (fulltext_ranks query rows)))

-- `float32SliceToPgVector`
abbrev pub to_pg_vector : (N : Floats) → List N.Single → String
to_pg_vector N v = "[" ++ join "," (map N.show v) ++ "]"

module _ (N : Floats) (E : Engine) where
  abbrev pub scanned : ℕ → Fused → Document N
  scanned tenant f = record {
    id = f.row.id;
    tenant_id = tenant;
    content = f.row.content;
    source_type = f.row.source_type;
    source_id = f.row.source_id;
    score = N.numeric (rrf_score f);
  }

  unfoldable pub hybrid_search :
      Read → ℕ → List N.Single → String → ℕ → List Row → Fallible (List (Document N))
  hybrid_search (query_failed e) tenant v query limit kb =
      failed ("hybrid search query failed: " ++ e)
  hybrid_search (scan_failed e) tenant v query limit kb = failed ("scan document row: " ++ e)
  hybrid_search (rows_failed e) tenant v query limit kb = failed e
  hybrid_search rows_read tenant v query limit kb =
      value (map (scanned tenant) (hybrid_rows E tenant (to_pg_vector N v) query limit kb))

  abbrev row_of : Document N → String → Row
  row_of d vec = record {
    id = d.id;
    tenant_id = d.tenant_id;
    content = d.content;
    source_type = d.source_type;
    source_id = d.source_id;
    embedding = vec;
  }

  -- ON CONFLICT (id) DO UPDATE, which leaves the tenant as it is.
  abbrev upserted : Row → List Row → List Row
  upserted r kb =
      if any (same_id r.id) kb
      then update_where (same_id r.id)
          (λ (old : Row). record old {
            content = r.content;
            embedding = r.embedding;
            source_type = r.source_type;
            source_id = r.source_id;
          })
          kb
      else kb +++ r ∷ []

  unfoldable pub upsert :
      Outcome → String → Document N → List N.Single → List Row → Fallible (Unit {0}) × List Row
  upsert done cause d v kb = (value tt, upserted (row_of d (to_pg_vector N v)) kb)
  upsert refused cause d v kb = (failed ("upsert document: " ++ cause), kb)
  upsert lost cause d v kb =
      (failed ("upsert document: " ++ cause), upserted (row_of d (to_pg_vector N v)) kb)
