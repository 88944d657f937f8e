-- ===== src/Chat/AgentTool.antt =====
-- open-bbcd/internal/chat/agent_tool.go: the built-in agent tool. Also `ArchitectureHasEndpointTool`
-- of open-bbcd/internal/llm/tools/names.go.
use Prim.Native.String
use open_bbc.Base.{
  String, Bool, true, false, none, some, List, [], ◌∷◌, map, any, ◌==◌, if◌then◌else◌,
}
use open_bbc.Json
use open_bbc.Llm.{Bytes, ToolDef, ToolResult}
use open_bbc.Artifacts.Label.{trim_space, is_blank}
use open_bbc.Chat.Env.{
  Codec, AgentInput, AgentDecode, decode_error, trailing_data, decoded, SubAgentBinding,
}
use open_bbc.Chat.Stream.{starts_object}

abbrev pub skill_tool_name : String
skill_tool_name = "Skill"

abbrev pub agent_tool_name : String
agent_tool_name = "agent"

-- The codes that the agent tool reports, with their details.
pub data AgentErrorCode : Type 0 where
  max_depth_exceeded unknown_subagent invalid_input session_locked subagent_max_tool_rounds :
      AgentErrorCode
  subagent_failed cancelled : AgentErrorCode

pub record AgentToolError : Type 0 where
  pub code : AgentErrorCode
  pub details : String

code_text : AgentErrorCode → String
code_text max_depth_exceeded = "max_depth_exceeded"
code_text unknown_subagent = "unknown_subagent"
code_text invalid_input = "invalid_input"
code_text session_locked = "session_locked"
code_text subagent_max_tool_rounds = "subagent_max_tool_rounds"
code_text subagent_failed = "subagent_failed"
code_text cancelled = "cancelled"

pub data AgentResult (A : Type 0) : Type 0 where
  ok : A → AgentResult A
  err : AgentToolError → AgentResult A

abbrev invalid : String → AgentResult AgentInput
invalid details = err (record { code = invalid_input; details = details })

-- The loop over the required fields.
require_fields : AgentInput → AgentResult AgentInput
require_fields input =
    if is_blank input.subagent
    then invalid "subagent is required"
    else if is_blank input.description
    then invalid "description is required"
    else if is_blank input.prompt
    then invalid "prompt is required"
    else ok input

checked : AgentDecode → AgentResult AgentInput
unfolding require_fields
checked (decode_error details) = invalid details
checked trailing_data = invalid "trailing data after input object"
checked (decoded input) = require_fields input

unfoldable pub parse_agent_input : Codec → Bytes → AgentResult AgentInput
unfolding checked
parse_agent_input codec raw =
    let trimmed = Json.trim_space raw in
    if starts_object trimmed
    then checked (codec.decode_agent_input trimmed)
    else invalid "input must be a JSON object"

-- The is_error result of a failed agent call: the JSON string "<code>: <details>".
unfoldable pub agent_error_result : Codec → String → AgentToolError → ToolResult
unfolding code_text
agent_error_result codec id e = record {
  tool_use_id = id;
  result = codec.quote (String.◌++◌ (code_text e.code) (String.◌++◌ ": " e.details));
  is_error = true;
}

-- `sort.SliceStable` by name, given the order of texts.
insert_by_name :
    (String → String → Bool) → SubAgentBinding → List SubAgentBinding → List SubAgentBinding
insert_by_name less b [] = b ∷ []
insert_by_name less b (c ∷ cs) =
    let rest = insert_by_name less b cs in if less c.name b.name then c ∷ rest else b ∷ c ∷ cs

pub sort_by_name : (String → String → Bool) → List SubAgentBinding → List SubAgentBinding
unfolding insert_by_name
sort_by_name less [] = []
sort_by_name less (b ∷ bs) = insert_by_name less b (sort_by_name less bs)

description_head : String
description_head =
    "Delegate a self-contained task to a specialised sub-agent. The sub-agent starts with NO access to this conversation or its files — put everything it needs in `prompt`. It returns its final answer as text.\n\nAvailable sub-agents:\n"

binding_line : SubAgentBinding → String
binding_line b =
    let note = trim_space b.note in
    let named = String.◌++◌ "- " b.name in
    if note == "" then named else String.◌++◌ named (String.◌++◌ ": " note)

binding_lines : List SubAgentBinding → String
unfolding binding_line
binding_lines [] = ""
binding_lines (b ∷ []) = binding_line b
binding_lines (b ∷ c ∷ bs) =
    String.◌++◌ (binding_line b) (String.◌++◌ "\n" (binding_lines (c ∷ bs)))

unfoldable pub agent_tool_def : Codec → (String → String → Bool) → List SubAgentBinding → ToolDef
unfolding sort_by_name description_head binding_lines
agent_tool_def codec less bindings =
    let sorted = sort_by_name less bindings in
    record {
      name = agent_tool_name;
      description = String.◌++◌ description_head (binding_lines sorted);
      input_schema = codec.agent_schema (map (λ b. b.name) sorted);
    }

-- Whether a Skill tool is among the definitions.
abbrev has_skill : List ToolDef → Bool
has_skill defs = any (λ d. d.name == skill_tool_name) defs

insert_after_skill : List ToolDef → ToolDef → List ToolDef
insert_after_skill [] d = d ∷ []
insert_after_skill (e ∷ es) d =
    let rest = insert_after_skill es d in if e.name == skill_tool_name then e ∷ d ∷ es else e ∷ rest

-- The new definition stands right after the first Skill tool, or first.
unfoldable pub insert_agent_tool_def : List ToolDef → ToolDef → List ToolDef
unfolding insert_after_skill
insert_agent_tool_def defs d = if has_skill defs then insert_after_skill defs d else d ∷ defs

-- Whether an endpoint tool has the name after sanitising; an architecture that does not parse has
-- no tools.
unfoldable pub architecture_has_endpoint_tool : Codec → (String → String) → Bytes → String → Bool
architecture_has_endpoint_tool codec sanitize architecture name =
    elim (codec.tool_names architecture) [
      | none ↦ false
      | some names ↦ any (λ n. sanitize n == name) names
    ]
