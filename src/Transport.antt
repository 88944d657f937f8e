-- ===== src/Transport.antt =====
-- open-bbcd/internal/transport/transport.go: the events that a turn sends to its sink. The fields of
-- an ArtifactRefEvent are those of the ref. `child` is `ChildSessionID`, empty for own events.
pub mod Agui
use open_bbc.Base.{ℕ, String, Bool}
use open_bbc.Llm.{Bytes, ArtifactRef}

pub data Event : Type 0 where
  session_start : (session_id agent_id : String) → Event
  text_start : (message_id : String) → Event
  text_delta : (message_id delta : String) → Event
  text_end : (message_id : String) → Event
  tool_call_start : (tool_call_id name child : String) → Event
  tool_call_args : (tool_call_id : String) (args_json : Bytes) (child : String) → Event
  tool_call_end : (tool_call_id child : String) → Event
  tool_result : (tool_call_id : String) (result : Bytes) (is_error : Bool) (child : String) → Event
  step_started : (step_name tool_call_id child description : String) → Event
  step_finished : (step_name tool_call_id child : String) (is_error : Bool) → Event
  artifact_ref : (tool_call_id : String) (ref : ArtifactRef) → Event
  turn_end : (stop_reason : String) (usage_in usage_out : ℕ) → Event
  error : (code message : String) → Event
