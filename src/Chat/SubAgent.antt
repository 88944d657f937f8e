-- ===== src/Chat/SubAgent.antt =====
-- open-bbcd/internal/chat/subagent.go: agent calls run as child turns, and the events of a child on
-- its parent's stream. The lock of `lockedSink` orders the events of concurrent siblings; here
-- siblings run one after the other, and the parent's sink stands for it.
pub mod Depth
pub mod Keeps
pub mod Requests
pub mod Results
pub mod Tree
use Prim.Native.String
use open_bbc.Base.{
  ℕ, zero, suc, String, Bool, true, false, not, Option, none, some, List, [], ◌∷◌, ◌++◌, lookup,
  leb, ltb, ◌==◌, if◌then◌else◌,
}
use open_bbc.Llm
use open_bbc.Llm.{Bytes, Block, ToolUse, ToolResult}
use open_bbc.Llm.Surrogate.{itoa}
use open_bbc.Transport
use open_bbc.Chat.Env
use open_bbc.Chat.Env.{
  Error, Outcome, ok, err, panicked, ChatMessage, Content, blocks, malformed, SubAgentBinding,
  AgentInput, Env, Config, Effect, created_child, State, Io, ◌>>=◌, ◌>>◌, continue, pure, raise,
  lift, log, Sink, send,
}
use open_bbc.Chat.Stream.Text.{text_of}
use open_bbc.Chat.Stored.{parse_blocks}
use open_bbc.Chat.AgentTool
use open_bbc.Chat.AgentTool.{
  AgentErrorCode, AgentToolError, AgentResult, parse_agent_input, agent_error_result,
}
use open_bbc.Chat.Round.{Delegate, Setting}
use open_bbc.Chat.Turn.{turn_with}
use open_bbc.Chat.ChildSink.{child_sink}
use open_bbc.Chat.ChildResult.{
  SubAgentResult, no_result, refused, last_text, malformed_content, joined_text, after_ctx,
  spawn_failure, child_outcome, is_failure,
}

-- A turn for a child session: version, session, prompt, sink.
abbrev pub ChildTurn : Type 0 → Type 0
ChildTurn W = (version_id session_id prompt : String) → Sink → Io W String

-- The id of the parent's agent call as the client sees it.
abbrev pub wire_id : ℕ → String → String → String
wire_id zero session_id call_id = call_id
wire_id (suc d) session_id call_id = String.◌++◌ session_id (String.◌++◌ ":" call_id)

module _ {W : Type 0} (env : Env W) where
  last_assistant_text : String → Io W String
  unfolding joined_text last_text
  last_assistant_text session_id =
      lift (env.load_messages session_id) >>= λ rows. joined_text (last_text rows)

  -- The child's text is read only after a turn that returned.
  conclude :
      String → SubAgentResult → Outcome String × State W → Outcome (AgentResult String) × State W
  unfolding after_ctx child_outcome
  conclude stop res (ok text, s) = (
    ok (
        after_ctx (env.ctx_err s.world)
          (child_outcome none (record { text = text; stop_reason = stop }))),
    s,
  )
  conclude stop res (err e, s) =
      (ok (after_ctx (env.ctx_err s.world) (child_outcome (some e) res)), s)
  conclude stop res (panicked, s) = (panicked, s)

  after_turn : String → Outcome String × State W → Outcome (AgentResult String) × State W
  unfolding conclude last_assistant_text
  after_turn child_id (ok stop, s) = conclude stop (no_result stop) (last_assistant_text child_id s)
  after_turn child_id (err e, s) = conclude "" (no_result "") (err e, s)
  after_turn child_id (panicked, s) = (panicked, s)

  -- The step is closed on every way out, a panic included.
  closing_step :
      Sink
      → (Bool → Transport.Event)
      → Outcome (AgentResult String) × State W
      → Outcome (AgentResult String) × State W
  closing_step sink finished (ok r, s) =
      continue (send sink (finished (is_failure r)) s) (λ _. pure r)
  closing_step sink finished (err e, s) = continue (send sink (finished true) s) (λ _. raise e)
  closing_step sink finished (panicked, s) =
      continue (send sink (finished true) s) (λ _ t. (panicked, t))

  spawned :
      ChildTurn W
      → ℕ
      → Setting
      → SubAgentBinding
      → ToolUse
      → AgentInput
      → Outcome String × State W
      → Outcome (AgentResult String) × State W
  unfolding after_turn closing_step after_ctx spawn_failure
  spawned child depth at b tu input (ok child_id, s) =
      let call = wire_id depth at.session_id tu.id in
      let sink = child_sink at.sink child_id in
      continue
        ((log (created_child child_id b.target_version_id)
            >> send at.sink (Transport.step_started b.name call child_id input.description))
          s)
        (λ _ s'.
          closing_step at.sink (Transport.step_finished b.name call child_id)
            (after_turn child_id (child b.target_version_id child_id input.prompt sink s')))
  spawned child depth at b tu input (err e, s) =
      (ok (after_ctx (env.ctx_err s.world) (spawn_failure e)), s)
  spawned child depth at b tu input (panicked, s) = (panicked, s)

  -- `turnRunner.Run` for the root session of the tree.
  unfoldable pub run :
      Config
      → ChildTurn W
      → (depth : ℕ) → (root_id : String) → Setting
      → SubAgentBinding
      → ToolUse
      → AgentInput
      → Io W (AgentResult String)
  unfolding spawned
  run config child depth root_id at b tu input =
      if leb config.max_depth depth
      then pure (
          refused AgentTool.max_depth_exceeded
            (String.◌++◌ "sub-agent depth limit " (String.◌++◌ (itoa config.max_depth) " reached")))
      else (λ s.
          spawned child depth at b tu input
            (lift (env.create_child_session root_id at.session_id tu.id b.target_version_id) s))

  answered : ToolUse → AgentResult String → ToolResult
  answered tu (AgentTool.ok text) = record {
    tool_use_id = tu.id;
    result = env.codec.quote text;
    is_error = false;
  }
  answered tu (AgentTool.err e) = agent_error_result env.codec tu.id e

  delegated :
      Config
      → ChildTurn W
      → ℕ
      → String
      → Setting
      → ToolUse
      → AgentInput
      → Option SubAgentBinding
      → Io W (AgentResult String)
  delegated config child depth root_id at tu input none = pure (
      refused AgentTool.unknown_subagent
        (String.◌++◌ "no sub-agent named " (env.codec.quote_go input.subagent)))
  delegated config child depth root_id at tu input (some b) =
      run config child depth root_id at b tu input

  dispatched :
      Config
      → ChildTurn W
      → ℕ
      → String
      → Setting
      → List (String × SubAgentBinding)
      → ToolUse
      → AgentResult AgentInput
      → Io W (AgentResult String)
  unfolding delegated
  dispatched config child depth root_id at bindings tu (AgentTool.ok input) =
      delegated config child depth root_id at tu input (lookup input.subagent bindings)
  dispatched config child depth root_id at bindings tu (AgentTool.err e) = pure (AgentTool.err e)

  -- `runAgentCall`
  unfoldable pub run_agent_call : Config → ChildTurn W → ℕ → String → Delegate W
  unfolding dispatched answered
  run_agent_call config child depth root_id at bindings tu =
      dispatched config child depth root_id at bindings tu (parse_agent_input env.codec tu.input)
      >>= λ r. pure (answered tu r)

  recovered : ToolUse → Outcome ToolResult × State W → Outcome ToolResult × State W
  recovered tu (ok r, s) = (ok r, s)
  recovered tu (err e, s) = (err e, s)
  recovered tu (panicked, s) = (
    ok (
        agent_error_result env.codec tu.id
          (record { code = AgentTool.subagent_failed; details = "sub-agent panicked" })),
    s,
  )

  -- The wait for a slot: either it is taken, or the context is done first.
  acquired : Config → ChildTurn W → ℕ → String → Delegate W
  unfolding recovered
  acquired config child depth root_id at bindings tu s =
      recovered tu (run_agent_call config child depth root_id at bindings tu s)

  cancelled_result : ToolUse → Option Error → ToolResult
  cancelled_result tu none =
      agent_error_result env.codec tu.id (record { code = AgentTool.cancelled; details = "" })
  cancelled_result tu (some e) =
      agent_error_result env.codec tu.id
        (record { code = AgentTool.cancelled; details = e.message })

  -- One goroutine of `runAgentCalls`.
  unfoldable pub run_one : Config → ChildTurn W → ℕ → String → Delegate W
  unfolding acquired cancelled_result
  run_one config child depth root_id at bindings tu s =
      let (got, w) = env.acquire s.world in
      let s' = record s { world = w } in
      if got
      then acquired config child depth root_id at bindings tu s'
      else (ok (cancelled_result tu (env.ctx_err w)), s')

  -- A turn at a depth of the tree, with fuel for the levels below. The depth limit is reached before
  -- the fuel is, when `max_depth - depth` of it are given.
  unfoldable pub turn_at :
      ℕ
      → Config
      → (depth : ℕ) → (root_id agent_id session_id : String) → List Block
      → Sink
      → Io W String
  turn_at zero config depth root_id agent_id session_id input sink =
      turn_with env config (run_one config (λ _ _ _ _. raise malformed_content) depth root_id) sink
        agent_id session_id input
  turn_at (suc fuel) config depth root_id agent_id session_id input sink =
      turn_with env config
        (run_one config
          (λ version child prompt child_events.
            turn_at fuel config (suc depth) root_id version child (Llm.text prompt ∷ [])
              child_events)
          depth root_id)
        sink agent_id session_id input

  -- A root turn: the tree's root is its own session.
  unfoldable pub turn : Config → (agent_id session_id : String) → List Block → Sink → Io W String
  turn config agent_id session_id input sink =
      turn_at config.max_depth config 0 session_id agent_id session_id input sink
