-- ===== src/Rag/Masked.antt =====
-- What internal/rag/pipeline.go lets out of a question: nothing of one that is blocked, and of any
-- other its masked text only.
use nimbus_app.Prelude.{
  ◌≡◌, refl, subst, ◌⊎◌, inl, inr, Bool-cases, String, Option, none, some, List, [], ◌∷◌, ℕ,
}
use nimbus_app.Prelude.Fallible.{Fallible, value, failed}
use nimbus_app.Ai.{ChatMessage}
use nimbus_app.Rag.{Document, Row}
use nimbus_app.Rag.Guard.{Regex, MaskedInput, check_injection, mask_pii}
use nimbus_app.Rag.Store.{Read}
use nimbus_app.Rag.Pipeline.{
  AskResponse, Citation, Parts, Asked, ask, on_tenant, on_embedding, on_candidates, answered,
}

abbrev pub blocked_error : String
blocked_error = "request blocked: query contains disallowed patterns and was blocked"

-- What a result shows besides the answer's text, in which the masks are put back.
abbrev pub shown : Fallible AskResponse → Fallible (List Citation)
shown (failed e) = failed e
shown (value r) = value r.citations

module _ (G : Parts) (order : List (String × String) → List (String × String)) where
  -- The two runs end in the same state of everything outside, and show the same.
  abbrev pub Same : Asked G → Asked G → Type 0
  Same a b = (a.1 ≡ b.1) × (shown a.0 ≡ shown b.0)

  module _ (sanitized : String) (xs ys : List (String × String)) where
    abbrev first : MaskedInput
    first = record { sanitized = sanitized; masks = xs }

    abbrev second : MaskedInput
    second = record { sanitized = sanitized; masks = ys }

    answered-Same :
        (ranked : List (Document G.floats)) (r : Fallible ChatMessage × G.model.Env)
        → Same (answered G order first ranked r) (answered G order second ranked r)
    answered-Same ranked (failed e, env) = (refl, refl)
    answered-Same ranked (value msg, env) = (refl, refl)

    on_candidates-Same :
        (c : Fallible (List (Document G.floats))) (env : G.model.Env)
        → Same (on_candidates G order first c env) (on_candidates G order second c env)
    on_candidates-Same (failed e) env = (refl, refl)
    on_candidates-Same (value []) env = (refl, refl)
    on_candidates-Same (value (d ∷ ds)) env = answered-Same _ _

    on_embedding-Same :
        (read : Read) (t : ℕ) (kb : List Row) (r : Fallible (List G.floats.Single) × G.model.Env)
        → Same (on_embedding G read order t kb first r) (on_embedding G read order t kb second r)
    on_embedding-Same read t kb (failed e, env) = (refl, refl)
    on_embedding-Same read t kb (value v, env) = on_candidates-Same _ env

    on_tenant-Same :
        (read : Read) (text : String) (t : Option ℕ) (kb : List Row) (env : G.model.Env)
        → Same
            (on_tenant G read order text t kb first env)
            (on_tenant G read order text t kb second env)
    on_tenant-Same read text none kb env = (refl, refl)
    on_tenant-Same read text (some t) kb env = on_embedding-Same read t kb _

  masked-Same :
      (read : Read) (text : String) (kb : List Row) (env : G.model.Env) (m k : MaskedInput)
      → m.sanitized ≡ k.sanitized
      → let t = G.formats.parse_uuid text in
        Same (on_tenant G read order text t kb m env) (on_tenant G read order text t kb k env)
  masked-Same read text kb env m k h =
      subst
        (λ s. Same (on_tenant G read order text (G.formats.parse_uuid text) kb m env) (
          on_tenant G read order text (G.formats.parse_uuid text) kb
            (record { sanitized = s; masks = k.masks }) env))
        h (on_tenant-Same m.sanitized m.masks k.masks read text (G.formats.parse_uuid text) kb env)

  check-cases :
      (X : Regex) (patterns : List String) (query : String)
      → (check_injection X patterns query ≡ value tt)
        ⊎ (check_injection X patterns query
            ≡ failed "query contains disallowed patterns and was blocked")
  unfolding check_injection
  check-cases X [] query = inl refl
  check-cases X (re ∷ more) query = elim (Bool-cases (X.matches re query)) [
    | inl h ↦ rw h (inr refl)
    | inr h ↦ rw h (check-cases X more query)
  ]

  -- Two questions of a tenant with the same masked text, the second of which passes the check: the
  -- first is blocked, and then nothing outside is called and no state changes; or both make the same
  -- calls with the same effects and get the same error or the same citations, whatever the personal
  -- data in the two is.
  pub question_stays_masked :
      (read : Read) (tenant q r : String) (kb : List Row) (env : G.model.Env)
      → check_injection G.regex G.guard.injection_patterns r ≡ value tt
      → (mask_pii G.regex G.guard q).sanitized ≡ (mask_pii G.regex G.guard r).sanitized
      → let ask_for = λ (query : String).
        ask G read order (record { query = query; tenant_id = tenant }) kb env in
        (ask_for q ≡ (failed blocked_error, env)) ⊎ Same (ask_for q) (ask_for r)
  unfolding ask
  question_stays_masked read tenant q r kb env pass h =
      elim (check-cases G.regex G.guard.injection_patterns q) [
        | inl p ↦
            rw (p, pass)
              (inr (
                masked-Same read tenant kb env (mask_pii G.regex G.guard q)
                  (mask_pii G.regex G.guard r) h))
        | inr b ↦ rw (b, pass) (inl refl)
      ]
