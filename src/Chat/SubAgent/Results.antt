-- ===== src/Chat/SubAgent/Results.antt =====
-- The result of an agent call that open-bbcd/internal/chat/subagent.go runs, within its step.
use open_bbc.Base.{ℕ, String, ◌≡◌, refl, Bool-cases, inl, inr, Option, none, some, List, map}
use open_bbc.Llm.{Block, ToolUse, ToolResult}
use open_bbc.Chat.Env.{Error, Outcome, ok, err, panicked, Env, Config, State}
use open_bbc.Chat.Env.Run.{>>=-eq-ok, returned-injective}
use open_bbc.Chat.AgentTool
use open_bbc.Chat.AgentTool.{AgentResult, AgentToolError, agent_error_result, parse_agent_input}
use open_bbc.Chat.Stream.Answers.{id_of}
use open_bbc.Chat.Round.{Setting, execute_tools}
use open_bbc.Chat.Round.Results.{AnswersOwnId, Answers, execute_tools-Answers}
use open_bbc.Chat.SubAgent.{
  ChildTurn, dispatched, run_agent_call, acquired, run_one, answered, recovered, cancelled_result,
}

module _ {W : Type 0} (env : Env W) where
  answered-id : (tu : ToolUse) (r : AgentResult String) → (answered env tu r).tool_use_id ≡ tu.id
  unfolding answered agent_error_result
  answered-id tu (AgentTool.ok t) = refl
  answered-id tu (AgentTool.err e) = refl

  cancelled_result-id :
      (tu : ToolUse) (e : Option Error) → (cancelled_result env tu e).tool_use_id ≡ tu.id
  unfolding cancelled_result agent_error_result
  cancelled_result-id tu none = refl
  cancelled_result-id tu (some e) = refl

  module _ (config : Config) (child : ChildTurn W) (depth : ℕ) (root : String) where
    run_agent_call-AnswersOwnId : AnswersOwnId (run_agent_call env config child depth root)
    unfolding run_agent_call
    run_agent_call-AnswersOwnId at bs tu s t r h =
        let (x, u, _, h') =
          >>=-eq-ok
            (dispatched env config child depth root at bs tu (parse_agent_input env.codec tu.input))
            (λ x s. (ok (answered env tu x), s)) s h in
        rw (← returned-injective _ r _ _ h') (answered-id tu x)

    recovered-id :
        (tu : ToolUse) (o : Outcome ToolResult × State W) (t : State W) (r : ToolResult)
        → ((x : ToolResult) (u : State W) → o ≡ (ok x, u) → x.tool_use_id ≡ tu.id)
        → recovered env tu o ≡ (ok r, t)
        → r.tool_use_id ≡ tu.id
    unfolding recovered agent_error_result
    recovered-id tu (ok x, u) t r own h = own r t h
    recovered-id tu (err e, u) t r own h = own r t h
    recovered-id tu (panicked, u) t r own h = rw (← returned-injective _ r _ _ h)

    pub run_one-AnswersOwnId : AnswersOwnId (run_one env config child depth root)
    unfolding run_one acquired
    run_one-AnswersOwnId at bs tu s t r h = elim (Bool-cases (env.acquire s.world).0) [
      | inl e ↦
          recovered-id tu _ t r
            (λ x u.
              run_agent_call-AnswersOwnId at bs tu (record s { world = (env.acquire s.world).1 }) u
                x)
            (rw e at h)
      | inr e ↦
          rw (← returned-injective _ r _ _ (rw e at h))
            (cancelled_result-id tu (env.ctx_err (env.acquire s.world).1))
    ]

    -- Whatever the handler, the backends and the child turns do, a panic of theirs in an agent call
    -- included: when a step runs to its end, the tool message starts with one result for each
    -- pending call, under that call's id and in call order, and holds only artifact refs after
    -- them.
    pub step-Answers :
        (at : Setting) (invalid : List String) (pending : List ToolUse) (s t : State W)
        (blocks : List Block)
        → execute_tools env (run_one env config child depth root) at invalid pending s
          ≡ (ok blocks, t)
        → Answers (map id_of pending) blocks
    step-Answers at invalid pending s t blocks h =
        execute_tools-Answers env at (run_one env config child depth root) run_one-AnswersOwnId
          invalid pending s t blocks h
