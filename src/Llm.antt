-- ===== src/Llm.antt =====
-- open-bbcd/internal/llm/llm.go: content blocks, messages, requests and streaming events.
-- JSON payloads and blobs are byte lists. `SizeBytes` is a natural number: sizes come from the
-- store's own byte counts, which are not negative.
pub mod Surrogate
use open_bbc.Base.{ℕ, String, Bool, List}

abbrev pub Bytes : Type 0
Bytes = List ℕ

pub data Role : Type 0 where
  user assistant tool : Role

pub record ArtifactRef : Type 0 where
  pub store_id : String
  pub uri : String
  pub mime : String
  pub size_bytes : ℕ
  pub sha256 : String
  pub filename : String

pub record ToolUse : Type 0 where
  pub id : String
  pub name : String
  pub input : Bytes

pub record ToolResult : Type 0 where
  pub tool_use_id : String
  pub result : Bytes
  pub is_error : Bool

pub record InlineMedia : Type 0 where
  pub mime : String
  pub bytes : Bytes

pub data Block : Type 0 where
  text : String → Block
  tool_use : ToolUse → Block
  tool_result : ToolResult → Block
  artifact_ref : ArtifactRef → Block
  inline_media : InlineMedia → Block

pub record Message : Type 0 where
  pub role : Role
  pub content : List Block

pub record ToolDef : Type 0 where
  pub name : String
  pub description : String
  pub input_schema : Bytes

-- `Temperature` is never set by the orchestrator and is left out.
pub record Request : Type 0 where
  pub model : String
  pub system : String
  pub messages : List Message
  pub tools : List ToolDef
  pub max_tokens : ℕ

-- What a provider streams during one model turn.
pub data Event : Type 0 where
  text_delta : String → Event
  tool_use_start : (id name : String) → Event
  tool_use_input : (id : String) (fragment : Bytes) → Event
  tool_use_end : (id : String) → Event
  message_stop : (stop_reason : String) → Event
  usage : (input_tokens output_tokens : ℕ) → Event

-- Caps on natively rendered media in one request; 0 means no cap on that axis.
pub record RenderBudget : Type 0 where
  pub max_bytes : ℕ
  pub max_blocks : ℕ
