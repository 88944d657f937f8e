-- ===== src/Chat/Round.antt =====
-- One round of the tool-use loop of `Turn` in open-bbcd/internal/chat/orchestrator.go: the provider
-- call, the assistant message, and the dispatch of its tool calls with the tool message. The agent
-- calls of a step run concurrently in the source; here they run one after the other, in slot order.
pub mod Keeps
pub mod KeepsTools
pub mod Results
pub mod Streams
use open_bbc.Base.{
  ℕ, String, Bool, true, false, not, ◌&&◌, ◌||◌, Option, none, some, List, [], ◌∷◌, ◌++◌, map,
  lookup, ◌==◌, if◌then◌else◌,
}
use open_bbc.Llm
use open_bbc.Llm.{Bytes, Block, Message, Request, ToolUse, ToolResult, ArtifactRef}
use open_bbc.Transport
use open_bbc.Chat.Render
use open_bbc.Chat.Render.{Cache, Pass, Rendering, render_artifacts}
use open_bbc.Chat.Stream
use open_bbc.Chat.Stream.{Round, new_round, on_events, drop_truncated, has}
use open_bbc.Chat.Env.{
  Error, Outcome, ok, err, panicked, Content, ChatMessage, SubAgentBinding, Agent, AgentVersion,
  Handler, ToolCallResult, Codec, Call, Env, Config, Effect, generated, appended_assistant,
  appended_tool, State, Io, ◌>>=◌, ◌>>◌, continue, pure, raise, run_call, lift, log, Sink, send,
  send_all, other,
}
use open_bbc.Chat.Normalise.{NormaliseResult, normalise_tool_result}
use open_bbc.Chat.Stored.{Encoded, encoded, failed, blocks_to_json}
use open_bbc.Chat.AgentTool.{AgentToolError, invalid_input, agent_tool_name, agent_error_result}

-- What stays fixed during the loop of a turn. `bindings` is none when the agent tool is not exposed.
pub record Setting : Type 0 where
  pub version_id : String
  pub architecture : Bytes
  pub session_id : String
  pub sink : Sink
  pub handler : Handler
  pub bindings : Option (List (String × SubAgentBinding))

-- Runs one agent call of a step.
abbrev pub Delegate : Type 0 → Type 0
Delegate W = Setting → List (String × SubAgentBinding) → ToolUse → Io W ToolResult

-- A round that has streamed: the variables of the stream, and the render cache and clock after it.
pub record Streamed : Type 0 where
  pub message_id : String
  pub round : Round
  pub cache : Cache
  pub clock : ℕ

-- A slot of `results`: a result with the refs of its call, or an agent call that is still to run.
pub data Slot : Type 0 where
  finished : ToolResult → List ArtifactRef → Slot
  deferred : ToolUse → Slot

module _ {W : Type 0} where
  abbrev pub encode : Encoded Content → Io W Content
  encode (encoded c) = pure c
  encode (failed e) = raise e

  report : {A : Type 0} → Sink → String → Outcome A × State W → Outcome A × State W
  report sink code (ok a, s) = (ok a, s)
  report sink code (err e, s) =
      continue (send sink (Transport.error code e.message) s) (λ _. raise e)
  report sink code (panicked, s) = (panicked, s)

  -- `failTurn`: an error is sent to the sink under its code, and ends the turn.
  unfoldable pub or_fail : {A : Type 0} → Sink → String → Io W A → Io W A
  unfolding report
  or_fail sink code m s = report sink code (m s)

module _ {W : Type 0} (env : Env W) where
  pub of_rendering : Rendering (List Message) → Io W (List Message × Pass)
  of_rendering (Render.ok ms p) = pure (ms, p)
  of_rendering Render.err = raise (record { kind = other; message = "artifact render failed" })

  -- The events until the stream ends or fails.
  drain : Sink → String → ℕ → ℕ → List Llm.Event × Option Error → Io W Round
  drain sink msg usage_in usage_out (events, failure) =
      let (round, sent) = on_events msg events (new_round usage_in usage_out) in
      send_all sink sent >> elim failure [ none ↦ pure round | some e ↦ raise e ]

  -- The start of the loop body, up to `TextEndEvent`.
  unfoldable pub stream_round : Sink → Request → Cache → ℕ → ℕ → ℕ → Io W Streamed
  unfolding of_rendering drain
  stream_round sink req cache clock usage_in usage_out = do
    (messages, pass) ←
        or_fail sink "artifact_render"
          (of_rendering (render_artifacts env.renderer req.messages cache clock))
    msg ← lift env.new_uuid
    send sink (Transport.text_start msg)
    log (generated (record req { messages = messages }))
    round ← or_fail sink "llm_error" (
        lift (env.generate (record req { messages = messages }))
        >>= drain sink msg usage_in usage_out)
    send sink (Transport.text_end msg)
    pure (record { message_id = msg; round = round; cache = pass.cache; clock = pass.clock })

  -- Encodes the blocks, takes the next sequence number and appends the message.
  unfoldable pub persist_assistant : Setting → String → List Block → Io W (Unit {0})
  persist_assistant at msg blocks = do
    content ← or_fail at.sink "encode_assistant_msg" (encode (blocks_to_json env.codec blocks))
    seq ← or_fail at.sink "seq_assign" (lift (env.next_seq at.session_id))
    let row : ChatMessage = record {
      id = msg;
      session_id = at.session_id;
      role = Llm.assistant;
      content = content;
      seq = seq;
    }
    or_fail at.sink "persist_assistant_msg" (lift (env.append_messages at.version_id row))
    log (appended_assistant row)

  is_agent_call : Setting → ToolUse → Bool
  is_agent_call at tu = elim at.bindings [ none ↦ false | some b ↦ tu.name == agent_tool_name ]

  abbrev not_an_object : String
  not_an_object = "tool input is not a JSON object"

  -- The answer to a call whose streamed input was no JSON object.
  invalid_result : Setting → ToolUse → ToolResult
  unfolding is_agent_call
  invalid_result at tu =
      if is_agent_call at tu
      then agent_error_result env.codec tu.id
          (record { code = invalid_input; details = not_an_object })
      else record {
        tool_use_id = tu.id;
        result = env.codec.error_object not_an_object;
        is_error = true;
      }

  -- An error of the handler becomes an error result; a panic goes on.
  caught : Outcome ToolCallResult × State W → Outcome ToolCallResult × State W
  caught (ok r, s) = (ok r, s)
  caught (err e, s) =
      (ok (record { output = env.codec.error_object e.message; is_error = true }), s)
  caught (panicked, s) = (panicked, s)

  -- The result with its inline media moved to the artifact store, if an uploader is wired.
  normalised : ToolCallResult → Io W (ToolCallResult × List ArtifactRef)
  normalised res = elim env.upload [
    | none ↦ pure (res, [])
    | some upload ↦ normalise_tool_result env.codec env.sniffer upload res.output >>= λ nr.
        pure (record { output = nr.output; is_error = res.is_error || nr.force_error }, nr.refs)
  ]

  unfoldable pub call_tool : Setting → ToolUse → Io W (ToolCallResult × List ArtifactRef)
  unfolding caught normalised
  call_tool at tu =
      (λ s. caught (lift (env.call at.handler at.architecture tu.id tu.name tu.input) s))
      >>= normalised

  answer : Setting → ToolUse → ToolCallResult × List ArtifactRef → Io W Slot
  answer at tu (res, refs) =
      send at.sink (Transport.tool_result tu.id res.output res.is_error "")
      >> pure (
          finished (record { tool_use_id = tu.id; result = res.output; is_error = res.is_error })
            refs)

  -- One pass of the loop over the pending tool uses.
  unfoldable pub dispatch_one : Setting → List String → ToolUse → Io W Slot
  unfolding is_agent_call invalid_result call_tool answer
  dispatch_one at invalid tu =
      let refused = invalid_result at tu in
      if has invalid tu.id
      then (send at.sink (Transport.tool_result tu.id refused.result true "")
          >> pure (finished refused []))
      else if is_agent_call at tu
      then pure (deferred tu)
      else (call_tool at tu >>= answer at tu)

  unfoldable pub dispatch_all : Setting → List String → List ToolUse → Io W (List Slot)
  dispatch_all at invalid [] = pure []
  dispatch_all at invalid (tu ∷ tus) = dispatch_one at invalid tu >>= λ slot.
      dispatch_all at invalid tus >>= λ slots. pure (slot ∷ slots)

  -- Runs the agent calls, each into its slot.
  unfoldable pub run_deferred :
      Delegate W → Setting → List (String × SubAgentBinding) → List Slot → Io W (List ToolResult)
  run_deferred delegate at bindings [] = pure []
  run_deferred delegate at bindings (finished r refs ∷ slots) =
      run_deferred delegate at bindings slots >>= λ rs. pure (r ∷ rs)
  run_deferred delegate at bindings (deferred tu ∷ slots) = delegate at bindings tu >>= λ r.
      send at.sink (Transport.tool_result tu.id r.result r.is_error "")
      >> (run_deferred delegate at bindings slots >>= λ rs. pure (r ∷ rs))

abbrev pub bindings_of : Setting → List (String × SubAgentBinding)
bindings_of at = elim at.bindings [ none ↦ [] | some b ↦ b ]

-- The refs of a step with the calls that they come from, in call order.
abbrev pub slot_refs : List Slot → List (String × ArtifactRef)
slot_refs [] = []
slot_refs (finished r refs ∷ slots) = map (λ ref. (r.tool_use_id, ref)) refs ++ slot_refs slots
slot_refs (deferred tu ∷ slots) = slot_refs slots

abbrev pub tool_blocks : List ToolResult → List (String × ArtifactRef) → List Block
tool_blocks results refs =
    map Llm.tool_result results ++ map (λ (r : String × ArtifactRef). Llm.artifact_ref r.1) refs

abbrev pub ref_events : List (String × ArtifactRef) → List Transport.Event
ref_events refs = map (λ (r : String × ArtifactRef). Transport.artifact_ref r.0 r.1) refs

module _ {W : Type 0} (env : Env W) where
  -- Appends the tool message with its refs; the ARTIFACT_REF events follow the commit.
  unfoldable pub persist_tool :
      Setting → List ToolResult → List (String × ArtifactRef) → Io W (Unit {0})
  persist_tool at results refs = do
    msg ← lift env.new_uuid
    content ←
        or_fail at.sink "encode_tool_msg"
          (encode (blocks_to_json env.codec (tool_blocks results refs)))
    seq ← or_fail at.sink "seq_assign" (lift (env.next_seq at.session_id))
    let row : ChatMessage = record {
      id = msg;
      session_id = at.session_id;
      role = Llm.tool;
      content = content;
      seq = seq;
    }
    or_fail at.sink "persist_tool_msg"
        (lift (env.append_tool_message at.version_id row (map (λ r. r.1) refs)))
    log (appended_tool row (map (λ r. r.1) refs))
    send_all at.sink (ref_events refs)

  -- The tools of a step, from the pending tool uses to the blocks of the tool message.
  unfoldable pub execute_tools :
      Delegate W → Setting → List String → List ToolUse → Io W (List Block)
  execute_tools delegate at invalid pending = do
    slots ← dispatch_all env at invalid pending
    results ← run_deferred env delegate at (bindings_of at) slots
    persist_tool at results (slot_refs slots)
    pure (tool_blocks results (slot_refs slots))
