-- ===== src/Transport/Agui.antt =====
-- open-bbcd/internal/transport/agui/agui.go: the sink that writes a turn's events to an AG-UI stream.
-- The SDK's writer, the flusher and encoding/json are parameters. `AguiEvent` has one constructor for
-- each constructor of the SDK's events that the source calls, with its arguments.
pub mod Ids
pub mod Runs
use Prim.Native.String
use open_bbc.Base.{
  String, Bool, true, false, Option, none, some, List, [], ◌∷◌, ◌==◌, if◌then◌else◌,
}
use open_bbc.Llm.{Bytes, ArtifactRef}
use open_bbc.Transport.{
  Event, session_start, text_start, text_delta, text_end, tool_call_start, tool_call_args,
  tool_call_end, tool_result, step_started, step_finished, artifact_ref, turn_end, error,
}

-- `RawEvent` of an event.
pub data Raw : Type 0 where
  no_raw : Raw
  child_session : String → Raw
  step_start : (child parent description : String) → Raw
  step_end : (child : String) (is_error : Bool) → Raw

pub data AguiEvent : Type 0 where
  run_started run_finished : (thread_id run_id : String) → AguiEvent
  run_error : (message code run_id : String) → AguiEvent
  text_message_start text_message_end : (message_id : String) → AguiEvent
  text_message_content : (message_id delta : String) → AguiEvent
  call_start : (tool_call_id name : String) (raw : Raw) → AguiEvent
  call_args : (tool_call_id : String) (args : Bytes) (raw : Raw) → AguiEvent
  call_end : (tool_call_id : String) (raw : Raw) → AguiEvent
  call_result : (message_id tool_call_id : String) (content : Bytes) (raw : Raw) → AguiEvent
  step_begun step_done : (name : String) (raw : Raw) → AguiEvent
  custom_artifact_ref :
      (tool_call_id : String) (ref : ArtifactRef) (filename : Option String) → AguiEvent

-- `sink`, without its writer.
pub record Sink : Type 0 where
  pub closed : Bool
  pub run_id : String
  pub thread_id : String

-- What `Send` uses of other packages, on a stream `W`: the writer answers false for an error, and the
-- payload of a result that does not serialise is empty.
pub record Wire (W : Type 0) : Type 0 where
  pub write_event : W → AguiEvent → Bool × W
  pub flush : W → W
  pub payload : (result : Bytes) (is_error : Bool) → Bytes

pub data Sent : Type 0 where
  delivered sink_closed write_failed : Sent

-- `childToolCallID`
unfoldable pub child_tool_call_id : (child tool_call_id : String) → String
child_tool_call_id child id = if child == "" then id else String.◌++◌ child (String.◌++◌ ":" id)

-- `withChildRaw`
unfoldable pub child_raw : String → Raw
child_raw child = if child == "" then no_raw else child_session child

abbrev pub step_name_of : (name tool_call_id : String) → String
step_name_of name id = String.◌++◌ name (String.◌++◌ ":" id)

-- `translate`: the event of the stream, and the sink's state after it.
unfoldable pub translate : (Bytes → Bool → Bytes) → Sink → Event → AguiEvent × Sink
unfolding child_tool_call_id child_raw
translate payload s (session_start session_id agent_id) =
    (run_started session_id s.run_id, record s { thread_id = session_id })
translate payload s (text_start id) = (text_message_start id, s)
translate payload s (text_delta id delta) = (text_message_content id delta, s)
translate payload s (text_end id) = (text_message_end id, s)
translate payload s (tool_call_start id name child) =
    (call_start (child_tool_call_id child id) name (child_raw child), s)
translate payload s (tool_call_args id args child) =
    (call_args (child_tool_call_id child id) args (child_raw child), s)
translate payload s (tool_call_end id child) =
    (call_end (child_tool_call_id child id) (child_raw child), s)
translate payload s (tool_result id result is_error child) =
    let wire = child_tool_call_id child id in
    (call_result wire wire (payload result is_error) (child_raw child), s)
translate payload s (step_started name id child description) =
    (step_begun (step_name_of name id) (step_start child id description), s)
translate payload s (step_finished name id child is_error) =
    (step_done (step_name_of name id) (step_end child is_error), s)
translate payload s (artifact_ref id ref) =
    (custom_artifact_ref id ref (if ref.filename == "" then none else some ref.filename), s)
translate payload s (turn_end reason usage_in usage_out) = (run_finished s.thread_id s.run_id, s)
translate payload s (error code message) = (run_error message code s.run_id, s)

module _ {W : Type 0} (wire : Wire W) where
  -- `Send`
  unfoldable pub send : Sink → W → Event → Sent × Sink × W
  unfolding translate
  send s w ev =
      let (out, next) = translate wire.payload s ev in
      let (ok, after) = wire.write_event w out in
      if s.closed
      then (sink_closed, s, w)
      else if ok
      then (delivered, next, wire.flush after)
      else (write_failed, next, after)

  -- The events of a turn, which ignores what `Send` answers.
  unfoldable pub send_all : Sink → W → List Event → Sink × W
  unfolding send
  send_all s w [] = (s, w)
  send_all s w (ev ∷ evs) = let (r, next, after) = send s w ev in send_all next after evs

-- `Close`
unfoldable pub close : Sink → Sink
close s = record s { closed = true }
