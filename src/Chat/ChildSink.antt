-- ===== src/Chat/ChildSink.antt =====
-- `childSink` of open-bbcd/internal/chat/subagent.go: the events of a child on its parent's stream.
pub mod Events
use open_bbc.Base.{String, Option, none, some, ◌==◌, if◌then◌else◌}
use open_bbc.Transport
use open_bbc.Chat.Env.{Sink}

-- The child's id on an event that carries none yet.
abbrev pub tag : String → String → String
tag child_id child = if child == "" then child_id else child

-- `childSink.Send`: the child's own tool events are tagged, deeper events pass, the rest is dropped.
unfoldable pub relabel : String → Transport.Event → Option Transport.Event
relabel id (Transport.tool_call_start call name child) =
    some (Transport.tool_call_start call name (tag id child))
relabel id (Transport.tool_call_args call args child) =
    some (Transport.tool_call_args call args (tag id child))
relabel id (Transport.tool_call_end call child) = some (Transport.tool_call_end call (tag id child))
relabel id (Transport.tool_result call result is_error child) =
    some (Transport.tool_result call result is_error (tag id child))
relabel id (Transport.step_started name call child description) =
    some (Transport.step_started name call child description)
relabel id (Transport.step_finished name call child is_error) =
    some (Transport.step_finished name call child is_error)
relabel id ev = none

unfoldable pub forward : Sink → Option Transport.Event → Option Transport.Event
forward parent none = none
forward parent (some ev) = parent ev

unfoldable pub child_sink : Sink → String → Sink
unfolding forward
child_sink parent child_id ev = forward parent (relabel child_id ev)
