-- ===== src/Ai/Compose/Own.antt =====
-- Whose notifications the model's tool calls in internal/ai/compose.go make, and which of them the
-- caller is told of.
use nimbus_app.Prelude.{ℕ, zero, suc, ◌+◌, ◌≡◌, some, List, [], ◌∷◌, ◌++◌, All}
use nimbus_app.Prelude.Fallible.{Fallible, value, failed}
use nimbus_app.Db.{Notification, Database}
use nimbus_app.Db.Sorter.{Sorter}
use nimbus_app.Db.Repository.{newest_first}
use nimbus_app.Api.{Formats}
use nimbus_app.Ai.{ChatMessage, ToolCall, Client, Model}
use nimbus_app.Ai.Compose.{Tooling, Meets}
use nimbus_app.Ai.Compose.Grown.{
  IsOwn, with_rows, Told, Grown, Grown-none, Grown-append, tool_grows,
}
use nimbus_app.Ai.Compose.Rounds.{
  ComposeRequest, ComposeResponse, Progress, Composed, run_tools, rounds, on_reply, on_calls,
  compose,
}

module _ (F : Formats) (tenant user : ℕ) where
  module _ (T : Tooling) (L : Model) (desc : Sorter Notification newest_first) (meets : ℕ → Meets)
      (client : Client) (start : Database) where
    -- What a request has done so far.
    abbrev Kept : Progress L.Env → Type 0
    Kept p = Grown F tenant user meets start p.db p.created_ids

    tools_keep :
        (tcs : List ToolCall) (p : Progress L.Env)
        → Kept p
        → Kept (run_tools F T L desc meets client tenant user tcs p)
    unfolding run_tools
    tools_keep [] p h = h
    tools_keep (tc ∷ tcs) p h = tools_keep tcs _ (
        Grown-append F tenant user meets start p.db _ p.created_ids _ h (
          tool_grows F tenant user meets T desc p.calls tc.function.name tc.function.arguments
            p.db))

    -- At the end the answer names what was made; an error names nothing.
    abbrev pub Answered : Fallible ComposeResponse → List Notification → Type 0
    Answered (failed e) added = Unit
    Answered (value r) added = Told F meets r.notification_ids added

    abbrev pub Ended : Composed F T L desc meets client → Type 0
    Ended r =
        (added : List Notification) × (r.1.db ≡ with_rows start added)
        × All (IsOwn tenant user) added
        × Answered r.0 added

    reply_ends :
        (round : ℕ) (r : Fallible ChatMessage × L.Env)
        (next : Progress L.Env → Composed F T L desc meets client)
        → ((q : Progress L.Env) → Kept q → Ended (next q))
        → (p : Progress L.Env) → Kept p
        → Ended (on_reply F T L desc meets client round tenant user r next p)
    reply_ends round (failed e, env) next more p h = (h.0, h.1, h.2, tt)
    reply_ends round (value msg, env) next more p h = calls_end msg.tool_calls
      where
        calls_end :
            (tcs : List ToolCall)
            → Ended (
                on_calls F T L desc meets client tenant user msg.content tcs next
                  (record p { messages = p.messages ++ msg ∷ []; env = env }))
        calls_end [] = h
        calls_end (tc ∷ tcs) = more _ (tools_keep (tc ∷ tcs) _ h)

    rounds_end :
        (left round : ℕ) (p : Progress L.Env)
        → Kept p
        → Ended (rounds F T L desc meets client left round tenant user p)
    unfolding rounds
    rounds_end zero round p h = h
    rounds_end (suc left) round p h =
        reply_ends round _ _ (λ q k. rounds_end left (round + 1) q k) p h

    -- A request whose tenant and user are UUIDs, whatever the model answers and asks for, and
    -- whatever the statements meet: the table ends as it was with rows added at its end, each one
    -- pending, on a valid channel and of the request's own tenant and user; and the ids in the
    -- answer, where there is one, are the ids of these rows in the order in which they were made,
    -- without those rows whose INSERT took effect and got no answer.
    pub compose_adds_own_rows :
        (req : ComposeRequest) (env : L.Env)
        → F.parse_uuid req.tenant_id ≡ some tenant
        → F.parse_uuid req.user_id ≡ some user
        → Ended (compose F T L desc meets client req env start)
    unfolding compose
    compose_adds_own_rows req env pt pu =
        rw (pt, pu) (rounds_end 5 0 _ (Grown-none F tenant user meets start))
