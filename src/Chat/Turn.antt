-- ===== src/Chat/Turn.antt =====
-- `Turn` of open-bbcd/internal/chat/orchestrator.go, around its loop. A child turn is run by a
-- `Delegate`, which Chat/SubAgent.antt ties back to the turn itself. Log lines are left out.
pub mod Keeps
use Prim.Native.Nat.{Ordering}
use Prim.Native.String
use open_bbc.Base.{
  String, Bool, true, false, ◌||◌, Option, none, some, List, [], ◌∷◌, ◌++◌, map, insert,
  if◌then◌else◌,
}
use open_bbc.Llm
use open_bbc.Llm.{Bytes, Block, Message, Request, ToolDef, ArtifactRef}
use open_bbc.Transport
use open_bbc.Chat.Render.{new_render_cache}
use open_bbc.Chat.Stream.{is_empty}
use open_bbc.Chat.Env
use open_bbc.Chat.Env.{
  Error, ErrorKind, Outcome, ok, err, panicked, ChatMessage, SubAgentBinding, Agent, AgentVersion,
  Handler, Env, Config, Effect, appended_user, closed, State, Io, ◌>>=◌, ◌>>◌, continue, pure,
  raise, lift, log, Sink, send, Codec,
}
use open_bbc.Chat.Stored.{blocks_to_json, history_to_llm}
use open_bbc.Chat.AgentTool.{
  agent_tool_name, agent_tool_def, insert_agent_tool_def, architecture_has_endpoint_tool,
}
use open_bbc.Chat.Round.{Delegate, or_fail, encode}
use open_bbc.Chat.Loop.{loop}

abbrev agent_not_runnable_error : Error
agent_not_runnable_error = record {
  kind = Env.agent_not_runnable;
  message = "agent: no bundle generated";
}

-- The code under which a failed user message is reported.
pub user_turn_code : ErrorKind → String
user_turn_code Env.empty_turn = "empty_turn"
user_turn_code Env.session_locked = "session_locked"
user_turn_code k = "persist_user_msg"

-- Only text comes from the caller.
unfoldable pub text_input : List Block → List Block
text_input [] = []
text_input (Llm.text t ∷ bs) = Llm.text t ∷ text_input bs
text_input (b ∷ bs) = text_input bs

-- The byte order of Go texts.
abbrev text_less : String → String → Bool
text_less a b = elim (String.compare a b) [ Ordering.lt ↦ true | _ ↦ false ]

-- A later binding of the same name replaces the earlier.
by_name : List (String × SubAgentBinding) → List SubAgentBinding → List (String × SubAgentBinding)
by_name m [] = m
by_name m (b ∷ bs) = by_name (insert b.name b m) bs

-- The tools of the turn, and its bindings if the agent tool is exposed.
abbrev pub Exposed : Type 0
Exposed = List ToolDef × Option (List (String × SubAgentBinding))

unfoldable pub expose :
    Codec → (String → String) → Bytes → List ToolDef → List SubAgentBinding → Exposed
unfolding by_name
expose codec sanitize architecture defs [] = (defs, none)
expose codec sanitize architecture defs (b ∷ bs) =
    if architecture_has_endpoint_tool codec sanitize architecture agent_tool_name
    then (defs, none)
    else (
      insert_agent_tool_def defs (agent_tool_def codec text_less (b ∷ bs)),
      some (by_name [] (b ∷ bs)),
    )

module _ {W : Type 0} where
  report_user_turn : {A : Type 0} → Sink → Outcome A × State W → Outcome A × State W
  report_user_turn sink (ok a, s) = (ok a, s)
  report_user_turn sink (err e, s) =
      continue (send sink (Transport.error (user_turn_code e.kind) e.message) s) (λ _. raise e)
  report_user_turn sink (panicked, s) = (panicked, s)

module _ {W : Type 0} (env : Env W) where
  -- The deferred close: it runs however the turn ends, and its error is only logged.
  after_close : {A : Type 0} → Outcome A → Outcome (Unit {0}) × State W → Outcome A × State W
  after_close r (c, s) = (r, s)

  closing : {A : Type 0} → Handler → Outcome A × State W → Outcome A × State W
  unfolding after_close
  closing handler (r, s) =
      if handler.is_closer
      then after_close r ((log (closed handler) >> lift (env.close handler)) s)
      else (r, s)

  unfoldable pub with_handler : {A : Type 0} → Handler → Io W A → Io W A
  unfolding closing
  with_handler handler m s = closing handler (m s)

  -- The bindings are read only if the version enables the tool.
  expose_tools : Sink → AgentVersion → Agent → List ToolDef → Io W Exposed
  expose_tools sink version agent defs =
      if version.agent_tool_enabled
      then (or_fail sink "tools_init" (lift (env.list_sub_agent_bindings version.id))
          >>= λ bindings.
              pure (expose env.codec env.sanitize_tool_name agent.architecture defs bindings))
      else pure (defs, none)

  -- Appends the user message and claims the pending artifacts; the result is its blocks.
  persist_user : Sink → AgentVersion → String → List Block → Io W (List Block)
  unfolding report_user_turn
  persist_user sink version session_id input = do
    let texts = text_input input
    msg ← lift env.new_uuid
    content ← or_fail sink "encode_user_msg" (encode (blocks_to_json env.codec texts))
    seq ← or_fail sink "seq_assign" (lift (env.next_seq session_id))
    let row : ChatMessage = record {
      id = msg;
      session_id = session_id;
      role = Llm.user;
      content = content;
      seq = seq;
    }
    claimed ← (λ s. report_user_turn sink (lift (env.append_user_turn version.id row) s))
    log (appended_user row claimed)
    pure (texts ++ map Llm.artifact_ref claimed)

  -- The turn from the tool definitions on, with the handler open.
  unfoldable pub converse :
      Config
      → Delegate W
      → Sink
      → (agent_id session_id : String) → AgentVersion
      → Agent
      → List ChatMessage
      → (main_prompt : String) → Handler
      → List Block
      → Io W String
  unfolding expose_tools persist_user
  converse config delegate sink agent_id session_id version agent history main_prompt handler
        input =
      do
        defs ← or_fail sink "tools_init" (lift (env.tools handler agent.architecture))
        (tools, bindings) ← expose_tools sink version agent defs
        user_blocks ← persist_user sink version session_id input
        send sink (Transport.session_start session_id agent_id)
        result ←
            loop env config.max_tool_rounds delegate
              (record {
                version_id = version.id;
                architecture = agent.architecture;
                session_id = session_id;
                sink = sink;
                handler = handler;
                bindings = bindings;
              })
              (record {
                model = config.model;
                system = main_prompt;
                messages = [];
                tools = tools;
                max_tokens = config.max_tokens;
              })
              (record {
                messages =
                    history_to_llm history
                    ++ record { role = Llm.user; content = user_blocks } ∷ [];
                cache = new_render_cache;
                clock = 0;
                usage_in = 0;
                usage_out = 0;
              })
        send sink (Transport.turn_end result.stop_reason result.usage_in result.usage_out)
        pure result.stop_reason

  -- The whole turn.
  unfoldable pub turn_with :
      Config → Delegate W → Sink → (agent_id session_id : String) → List Block → Io W String
  turn_with config delegate sink agent_id session_id input = do
    (version, agent) ← or_fail sink "agent_load" (lift (env.get_with_agent agent_id))
    or_fail sink "agent_not_runnable" (
        if is_empty agent.architecture || is_empty version.prompts
        then raise agent_not_runnable_error
        else pure tt)
    or_fail sink "session_error" (lift (env.ensure_session session_id agent_id))
    history ← or_fail sink "history_load" (lift (env.load_messages session_id))
    main_prompt ←
        or_fail sink "prompts_parse" (lift (λ w. (env.codec.main_prompt version.prompts, w)))
    handler ←
        or_fail sink "tool_handler_init" (lift (env.build agent.id version.id agent.architecture))
    with_handler handler (
        converse config delegate sink agent_id session_id version agent history main_prompt handler
          input)
