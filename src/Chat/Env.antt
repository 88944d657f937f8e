-- ===== src/Chat/Env.antt =====
-- What a turn of open-bbcd/internal/chat/orchestrator.go works with: the rows it reads and writes,
-- its error values, and the collaborators that the `Orchestrator` holds as interfaces. These are
-- parameters: each of their calls is a function of a world `W`, which it may change.
pub mod Run
pub mod Keeps
use open_bbc.Base.{ℕ, String, Bool, Option, none, some, List, [], ◌∷◌}
use open_bbc.Llm
use open_bbc.Llm.{Bytes, Role, Block, ArtifactRef, Request, ToolDef}
use open_bbc.Transport
use open_bbc.Artifacts.Mime.{Sniffer}
use open_bbc.Chat.Render.{Renderer}

-- The errors that the turn tells apart by `errors.Is`, with their texts.
pub data ErrorKind : Type 0 where
  not_found session_locked empty_turn agent_not_runnable inline_media other : ErrorKind

pub record Error : Type 0 where
  pub kind : ErrorKind
  pub message : String

-- A Go call returns, fails, or panics.
pub data Outcome {ℓ} (A : Type ℓ) : Type ℓ where
  ok : A → Outcome A
  err : Error → Outcome A
  panicked : Outcome A

-- A block of a `chat_messages.content` array; `other` has an unknown type.
pub data StoredBlock : Type 0 where
  text : String → StoredBlock
  tool_use : (id name : String) (input : Bytes) → StoredBlock
  tool_result : (tool_use_id : String) (content : Bytes) (is_error : Bool) → StoredBlock
  artifact_ref : ArtifactRef → StoredBlock
  other : StoredBlock

pub data Content : Type 0 where
  blocks : List StoredBlock → Content
  malformed : Content

pub record ChatMessage : Type 0 where
  pub id : String
  pub session_id : String
  pub role : Role
  pub content : Content
  pub seq : ℕ

pub record SubAgentBinding : Type 0 where
  pub caller_version_id : String
  pub target_version_id : String
  pub name : String
  pub note : String

-- `prompts` and `architecture` are JSON texts, empty when they have not landed.
pub record AgentVersion : Type 0 where
  pub id : String
  pub prompts : Bytes
  pub agent_tool_enabled : Bool

pub record Agent : Type 0 where
  pub id : String
  pub architecture : Bytes

-- A session's tool handler; `is_closer` is the type assertion to `io.Closer`.
pub record Handler : Type 0 where
  pub handle : ℕ
  pub is_closer : Bool

pub record ToolCallResult : Type 0 where
  pub output : Bytes
  pub is_error : Bool

-- A content item of an MCP tool result, as `mcpContentItem` decodes it.
pub record McpResource : Type 0 where
  pub uri : String
  pub mime_type : String
  pub blob : String
  pub text : String

pub record McpContentItem : Type 0 where
  pub kind : String
  pub text : String
  pub base64 : String
  pub mime_type : String
  pub resource : Option McpResource

-- The decoded input of an agent call.
pub record AgentInput : Type 0 where
  pub subagent : String
  pub description : String
  pub prompt : String

-- What a strict `json.Decoder` makes of an agent call's input.
pub data AgentDecode : Type 0 where
  decode_error : (details : String) → AgentDecode
  trailing_data : AgentDecode
  decoded : AgentInput → AgentDecode

-- Go's encoding/json, as far as a turn uses it beyond `json.Valid`.
pub record Codec : Type 0 where
  pub main_prompt : Bytes → Outcome String
  -- the text that a valid raw value has in a stored array: `json.Marshal` compacts it and escapes
  -- HTML, and the JSONB column may lay it out anew
  pub stored_raw : Bytes → Bytes
  pub quote : String → Bytes
  pub error_object : String → Bytes
  pub decode_agent_input : Bytes → AgentDecode
  -- the `name` fields of the `tools` array of an architecture, none if it does not parse
  pub tool_names : Bytes → Option (List String)
  pub agent_schema : List String → Bytes
  -- `%q` of fmt
  pub quote_go : String → String
  -- the items of the top-level `content` array; none if the payload is not of that shape
  pub content_items : Bytes → Option (List Bytes)
  -- the payload with another `content` array; none if it does not serialise
  pub with_content : Bytes → List Bytes → Option Bytes
  pub decode_item : Bytes → Option McpContentItem
  pub members : Bytes → Option (List (String × Bytes))
  pub decode_text : Bytes → Option String
  pub text_item : String → Bytes
  -- encoding/base64 and the bytes of a text
  pub decode_base64 : String → Option Bytes
  pub text_bytes : String → Bytes

abbrev pub Call : Type 0 → Type 0 → Type 0
Call W A = W → Outcome A × W

pub record Env (W : Type 0) : Type 0 where
  pub codec : Codec
  pub renderer : Option Renderer
  pub sanitize_tool_name : String → String
  pub get_with_agent : String → Call W (AgentVersion × Agent)
  pub list_sub_agent_bindings : String → Call W (List SubAgentBinding)
  pub ensure_session : (session_id scope_id : String) → Call W (Unit {0})
  pub load_messages : String → Call W (List ChatMessage)
  pub append_messages : (version_id : String) → ChatMessage → Call W (Unit {0})
  pub append_user_turn : (version_id : String) → ChatMessage → Call W (List ArtifactRef)
  pub append_tool_message :
      (version_id : String) → ChatMessage → List ArtifactRef → Call W (Unit {0})
  pub next_seq : String → Call W ℕ
  pub create_child_session :
      (root_id parent_id parent_tool_call_id target_version_id : String) → Call W String
  pub build : (agent_id version_id : String) → Bytes → Call W Handler
  pub tools : Handler → Bytes → Call W (List ToolDef)
  pub call : Handler → Bytes → (id name : String) → Bytes → Call W ToolCallResult
  pub close : Handler → Call W (Unit {0})
  -- the events of the stream, and the error that ended it, if one did
  pub generate : Request → Call W (List Llm.Event × Option Error)
  pub sniffer : Sniffer
  -- the artifact uploader, if one is wired
  pub upload : Option ((mime : String) → Bytes → Call W ArtifactRef)
  pub new_uuid : Call W String
  pub ctx_err : W → Option Error
  -- whether a waiting agent call gets its slot before the context is done
  pub acquire : W → Bool × W

pub record Config : Type 0 where
  pub model : String
  pub max_tokens : ℕ
  pub max_tool_rounds : ℕ
  pub max_depth : ℕ

-- What a turn does that others can see, the latest first in a trace.
pub data Effect : Type 0 where
  sent : Transport.Event → Effect
  appended_user : ChatMessage → List ArtifactRef → Effect
  appended_assistant : ChatMessage → Effect
  appended_tool : ChatMessage → List ArtifactRef → Effect
  generated : Request → Effect
  created_child : (child_id target_version_id : String) → Effect
  closed : Handler → Effect

pub record State (W : Type 0) : Type 0 where
  pub world : W
  pub trace : List Effect

abbrev pub Io : Type 0 → Type 0 → Type 0
Io W A = State W → Outcome A × State W

module _ {W : Type 0} where
  abbrev pub continue : {A B : Type 0} → Outcome A × State W → (A → Io W B) → Outcome B × State W
  continue (ok a, s) f = f a s
  continue (err e, s) f = (err e, s)
  continue (panicked, s) f = (panicked, s)

  infixl 5 ◌>>=◌ ◌>>◌
  abbrev pub ◌>>=◌ : {A B : Type 0} → Io W A → (A → Io W B) → Io W B
  ◌>>=◌ m f s = continue (m s) f

  abbrev pub ◌>>◌ : {A B : Type 0} → Io W A → Io W B → Io W B
  m >> n = m >>= λ _. n

  abbrev pub pure : {A : Type 0} → A → Io W A
  pure a s = (ok a, s)

  abbrev pub raise : {A : Type 0} → Error → Io W A
  raise e s = (err e, s)

  abbrev pub run_call : {A : Type 0} → Outcome A × W → List Effect → Outcome A × State W
  run_call (r, w) t = (r, record { world = w; trace = t })

  abbrev pub lift : {A : Type 0} → Call W A → Io W A
  lift c s = run_call (c s.world) s.trace

  abbrev pub log : Effect → Io W (Unit {0})
  log e s = (ok tt, record s { trace = e ∷ s.trace })

-- Where a sink forwards an event to on the root's stream; none drops it. Errors of `Send` are
-- ignored by the turn, and are left out.
abbrev pub Sink : Type 0
Sink = Transport.Event → Option Transport.Event

abbrev pub root_sink : Sink
root_sink ev = some ev

module _ {W : Type 0} where
  abbrev emit : Option Transport.Event → Io W (Unit {0})
  emit none = pure tt
  emit (some ev) = log (sent ev)

  abbrev pub send : Sink → Transport.Event → Io W (Unit {0})
  send sink ev = emit (sink ev)

  abbrev pub send_all : Sink → List Transport.Event → Io W (Unit {0})
  send_all sink [] = pure tt
  send_all sink (ev ∷ evs) = send sink ev >> send_all sink evs
