-- ===== src/Chat/ChildResult.antt =====
-- What becomes of a child turn in open-bbcd/internal/chat/subagent.go: its last text, and the error
-- that its caller is told.
use open_bbc.Base.{
  String, Bool, true, false, Option, none, some, List, [], ◌∷◌, ◌==◌, if◌then◌else◌,
}
use open_bbc.Llm
use open_bbc.Llm.{Bytes, Block, ToolUse, ToolResult}
use open_bbc.Chat.Env
use open_bbc.Chat.Env.{
  Error, Outcome, ok, err, panicked, ChatMessage, Content, blocks, malformed, SubAgentBinding,
  AgentInput, Env, Config, Effect, created_child, State, Io, ◌>>=◌, ◌>>◌, continue, pure, raise,
  lift, log, Sink, send,
}
use open_bbc.Chat.Stream.Text.{text_of}
use open_bbc.Chat.Stored.{parse_blocks}
use open_bbc.Chat.AgentTool
use open_bbc.Chat.AgentTool.{
  AgentErrorCode, AgentToolError, AgentResult, parse_agent_input, agent_error_result,
}

pub record SubAgentResult : Type 0 where
  pub text : String
  pub stop_reason : String

abbrev pub no_result : String → SubAgentResult
no_result stop = record { text = ""; stop_reason = stop }

-- What a run tells its caller.
abbrev pub refused : AgentErrorCode → String → AgentResult String
refused code details = AgentTool.err (record { code = code; details = details })

-- The text of the last assistant message, of rows in their order.
unfoldable pub last_text : List ChatMessage → Option Content
last_text [] = none
last_text (m ∷ ms) = or_this m.role (last_text ms)
  where
    or_this : Llm.Role → Option Content → Option Content
    or_this role (some c) = some c
    or_this Llm.assistant none = some m.content
    or_this role none = none

abbrev pub malformed_content : Error
malformed_content = record { kind = Env.other; message = "json: cannot unmarshal" }

unfoldable pub joined_text : {W : Type 0} → Option Content → Io W String
joined_text none = pure ""
joined_text (some (blocks bs)) = pure (text_of (parse_blocks bs))
joined_text (some malformed) = raise malformed_content

-- An error of the context comes before any other.
unfoldable pub after_ctx : Option Error → AgentResult String → AgentResult String
after_ctx (some e) r = refused AgentTool.cancelled e.message
after_ctx none r = r

unfoldable pub spawn_failure : Error → AgentResult String
spawn_failure e = elim e.kind [
  | Env.session_locked ↦ refused AgentTool.session_locked e.message
  | _ ↦ refused AgentTool.subagent_failed e.message
]

-- What `classifyChildError` makes of a child's outcome, the context aside.
unfoldable pub child_outcome : Option Error → SubAgentResult → AgentResult String
unfolding spawn_failure
child_outcome (some e) res = spawn_failure e
child_outcome none res =
    if res.stop_reason == "max_tool_rounds"
    then refused AgentTool.subagent_max_tool_rounds res.text
    else AgentTool.ok res.text

abbrev pub is_failure : AgentResult String → Bool
is_failure (AgentTool.ok t) = false
is_failure (AgentTool.err e) = true
