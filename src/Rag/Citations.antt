-- ===== src/Rag/Citations.antt =====
-- Which documents internal/rag/pipeline.go cites: rows of the store, through the search's joins and
-- the reranker's sort.
use nimbus_app.Prelude.{
  ℕ, ◌≤◌, ◌≡◌, refl, ◌∙◌, String, Bool, true, false, not, ◌&&◌, some, List, [], ◌∷◌, ◌++◌, map,
  keep, length, length-take, length-map, arith, ◌==◌, str_eq, str_eq_refl,
}
use nimbus_app.Prelude.Fallible.{Fallible, value, failed}
use nimbus_app.Db.Statement.{any}
use nimbus_app.Db.Rows.{any-append_none, any-map, any-sort, kept_found, any-take, any-keep}
use nimbus_app.Ai.{ChatMessage}
use nimbus_app.Rag.{Document, Row}
use nimbus_app.Rag.Guard.{MaskedInput, mask_pii}
use nimbus_app.Rag.Store.{
  Read, query_failed, scan_failed, rows_failed, rows_read, Fused, semantic_search, fulltext_search,
  fulltext_ranks, fuse, rrf, same_id, hybrid_rows, hybrid_search, scanned,
}
use nimbus_app.Rag.Reranker.{rerank, rescored, tokenize}
use nimbus_app.Rag.Pipeline.{
  AskRequest, AskResponse, Citation, Parts, ask, on_guard, on_embedding, on_candidates, answered,
  citation, source_text,
}

module _ (G : Parts) (t : ℕ) (kb : List Row) where
  abbrev cite_row : Row → Citation
  cite_row r = record {
    id = G.formats.uuid_string r.id;
    content = r.content;
    source_type = r.source_type;
    source_id = source_text G r.source_id;
  }

  -- A row of the tenant with the citation's id, text, type and source.
  abbrev pub is_source : Citation → Row → Bool
  is_source c r =
      r.tenant_id == t
      && str_eq (G.formats.uuid_string r.id) c.id
      && str_eq r.content c.content
      && str_eq r.source_type c.source_type
      && str_eq (source_text G r.source_id) c.source_id

  abbrev pub is_unfounded : Citation → Bool
  is_unfounded c = not (any (is_source c) kb)

  own_source : (r : Row) → r.tenant_id == t ≡ true → is_source (cite_row r) r ≡ true
  own_source r h =
      rw
        (
          h,
          str_eq_refl (G.formats.uuid_string r.id),
          str_eq_refl r.content,
          str_eq_refl r.source_type,
          str_eq_refl (source_text G r.source_id),
        )
        refl

  abbrev bad_row : Row → Bool
  bad_row r = is_unfounded (cite_row r)

  abbrev bad_document : Document G.floats → Bool
  bad_document d = is_unfounded (citation G d)

  rrf_founded :
      (s f ranks : List Row)
      → any bad_row s ≡ false
      → any bad_row f ≡ false
      → any (λ (g : Fused). bad_row g.row) (rrf G.engine s f ranks) ≡ false
  rrf_founded s f ranks h k =
      any-map (λ (g : Fused). bad_row g.row) (fuse G.engine s f ranks)
        (s ++ keep (λ (r : Row). not (any (same_id r.id) s)) f)
      ∙ any-append_none bad_row s _ h
          (any-keep bad_row (λ (r : Row). not (any (same_id r.id) s)) f k)

  own_founded : any bad_row (keep (λ (r : Row). r.tenant_id == t) kb) ≡ false
  own_founded =
      kept_found (λ r. is_source (cite_row r)) (λ (r : Row). r.tenant_id == t) kb own_source

  rows_founded :
      (vec query : String) (limit : ℕ)
      → any (λ (f : Fused). bad_row f.row) (hybrid_rows G.engine t vec query limit kb) ≡ false
  unfolding hybrid_rows
  rows_founded vec query limit =
      let own = keep (λ (r : Row). r.tenant_id == t) kb in
      any-take _ limit _ (
        any-sort G.engine.fused _ _ (
          rrf_founded (semantic_search G.engine vec own) (fulltext_search G.engine query own)
            (fulltext_ranks G.engine query own)
            (any-take bad_row 20 _ (any-sort (G.engine.nearest vec) bad_row own own_founded))
            (any-take bad_row 20 _ (
              any-sort (G.engine.unordered query) bad_row _
                (any-keep bad_row (G.engine.matches query) own own_founded)))))

  -- An error, or only founded documents.
  abbrev Founded : Fallible (List (Document G.floats)) → Type 0
  Founded (failed e) = Unit
  Founded (value ds) = any bad_document ds ≡ false

  hybrid_search-Founded :
      (read : Read) (v : List G.floats.Single) (query : String) (limit : ℕ)
      → Founded (hybrid_search G.floats G.engine read t v query limit kb)
  unfolding hybrid_search
  hybrid_search-Founded rows_read v query limit =
      any-map bad_document (scanned G.floats G.engine t) _ ∙ rows_founded _ query limit
  hybrid_search-Founded (query_failed e) v query limit = tt
  hybrid_search-Founded (scan_failed e) v query limit = tt
  hybrid_search-Founded (rows_failed e) v query limit = tt

  rerank_founded :
      (query : String) (ds : List (Document G.floats))
      → any bad_document ds ≡ false
      → any bad_document (rerank G.floats G.by_rank query ds 5) ≡ false
  unfolding rerank
  rerank_founded query [] h = h
  rerank_founded query (d ∷ ds) h = any-take bad_document 5 _ (
      any-sort G.by_rank bad_document _
        (any-map bad_document (rescored G.floats (tokenize query)) (d ∷ ds) ∙ h))

  rerank_at_most :
      (query : String) (ds : List (Document G.floats))
      → length (rerank G.floats G.by_rank query ds 5) ≤ 5
  unfolding rerank
  rerank_at_most query [] = omega arith
  rerank_at_most query (d ∷ ds) =
      omega
        (arith, length-take 5 (G.by_rank.sort (map (rescored G.floats (tokenize query)) (d ∷ ds))))

  abbrev pub CitesWell : Fallible AskResponse → Type 0
  CitesWell (failed e) = Unit
  CitesWell (value r) = (any is_unfounded r.citations ≡ false) × (length r.citations ≤ 5)

  module _ (read : Read) (order : List (String × String) → List (String × String)) where
    answer_cites :
        (m : MaskedInput) (ds : List (Document G.floats)) (r : Fallible ChatMessage × G.model.Env)
        → any bad_document ds ≡ false
        → length ds ≤ 5
        → CitesWell (answered G order m ds r).0
    answer_cites m ds (failed e, env) h k = tt
    answer_cites m ds (value msg, env) h k =
        (any-map is_unfounded (citation G) ds ∙ h, omega (arith, length-map (citation G) ds))

    candidates_cite :
        (m : MaskedInput) (c : Fallible (List (Document G.floats))) (env : G.model.Env)
        → Founded c
        → CitesWell (on_candidates G order m c env).0
    unfolding any
    candidates_cite m (failed e) env h = tt
    candidates_cite m (value []) env h = (refl, omega arith)
    candidates_cite m (value (d ∷ ds)) env h =
        answer_cites m (rerank G.floats G.by_rank m.sanitized (d ∷ ds) 5) _
          (rerank_founded m.sanitized (d ∷ ds) h) (rerank_at_most m.sanitized (d ∷ ds))

    embedding_cites :
        (m : MaskedInput) (r : Fallible (List G.floats.Single) × G.model.Env)
        → CitesWell (on_embedding G read order t kb m r).0
    embedding_cites m (failed e, env) = tt
    embedding_cites m (value v, env) =
        candidates_cite m _ env (hybrid_search-Founded read v m.sanitized 20)

    guard_cites :
        (req : AskRequest) (check : Fallible (Unit {0})) (env : G.model.Env)
        → G.formats.parse_uuid req.tenant_id ≡ some t
        → CitesWell (on_guard G read order req check kb env).0
    guard_cites req (failed e) env p = tt
    guard_cites req (value u) env p = rw p (embedding_cites (mask_pii G.regex G.guard req.query) _)

    -- A question of the tenant `t`, whatever the embeddings, the model and the search's orders are:
    -- where there is an answer it has at most five citations, and each of them is the id, the text,
    -- the type and the source of a row of the store that belongs to this tenant.
    pub cites_own_documents :
        (req : AskRequest) (env : G.model.Env)
        → G.formats.parse_uuid req.tenant_id ≡ some t
        → CitesWell (ask G read order req kb env).0
    unfolding ask
    cites_own_documents req env p = guard_cites req _ env p
