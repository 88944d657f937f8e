-- ===== src/Chat/Stream.antt =====
-- The streaming part of one round of `Turn` in open-bbcd/internal/chat/orchestrator.go: the loop
-- over the provider's events, and the removal of truncated tool calls after it.
pub mod Answers
pub mod Text
pub mod Inputs
use Prim.Native.String
use open_bbc.Base.{
  ℕ, String, Bool, true, false, not, ◌||◌, Option, none, some, List, [], ◌∷◌, ◌++◌, lookup, insert,
  any, keep, nat_eq, ltb, ◌==◌, if◌then◌else◌,
}
use open_bbc.Json.{valid, trim_space, empty_object}
use open_bbc.Llm
use open_bbc.Llm.{Bytes, Block, text, tool_use, ToolUse}
use open_bbc.Transport
use open_bbc.Transport.{text_delta, tool_call_start, tool_call_args, tool_call_end}

-- The variables of one round. The usage counts outlive the round.
pub record Round : Type 0 where
  pub blocks : List Block
  pub pending : List ToolUse
  pub buffers : List (String × Bytes)
  pub stop_reason : String
  pub invalid : List String
  pub usage_in : ℕ
  pub usage_out : ℕ

abbrev pub new_round : ℕ → ℕ → Round
new_round usage_in usage_out = record {
  blocks = [];
  pending = [];
  buffers = [];
  stop_reason = "";
  invalid = [];
  usage_in = usage_in;
  usage_out = usage_out;
}

-- A delta goes into the last block if that is text, and opens a text block otherwise.
unfoldable pub append_text : List Block → String → List Block
append_text [] d = text d ∷ []
append_text (text t ∷ []) d = text (String.◌++◌ t d) ∷ []
append_text (b ∷ []) d = b ∷ text d ∷ []
append_text (b ∷ c ∷ bs) d = b ∷ append_text (c ∷ bs) d

abbrev pub starts_object : Bytes → Bool
starts_object [] = false
starts_object (c ∷ bs) = nat_eq c b'{'

abbrev pub is_empty : Bytes → Bool
is_empty [] = true
is_empty (c ∷ bs) = false

-- The input that a finished call gets, and whether what was streamed is invalid.
unfoldable pub finish_input : Bytes → Bytes × Bool
finish_input raw =
    let trimmed = trim_space raw in
    if is_empty trimmed
    then (empty_object, false)
    else if not (starts_object trimmed) || not (valid trimmed)
    then (empty_object, true)
    else (raw, false)

-- The first tool call of the id gets the input.
unfoldable pub set_input : String → Bytes → List Block → List Block
set_input id input [] = []
set_input id input (tool_use u ∷ bs) =
    if u.id == id
    then tool_use (record u { input = input }) ∷ bs
    else tool_use u ∷ set_input id input bs
set_input id input (b ∷ bs) = b ∷ set_input id input bs

unfoldable pub find_use : String → List Block → Option ToolUse
find_use id [] = none
find_use id (tool_use u ∷ bs) = if u.id == id then some u else find_use id bs
find_use id (b ∷ bs) = find_use id bs

pub queue : Bytes → Option ToolUse → List ToolUse → List ToolUse
queue input none pending = pending
queue input (some u) pending = pending ++ record u { input = input } ∷ []

flag : Bool → String → List String → List String
flag true id ids = id ∷ ids
flag false id ids = ids

pub end_use : String → Option Bytes → Round → Round
unfolding queue flag
end_use id none s = s
end_use id (some raw) s =
    let (input, bad) = finish_input raw in
    record s {
      blocks = set_input id input s.blocks;
      pending = queue input (find_use id s.blocks) s.pending;
      invalid = flag bad id s.invalid;
    }

pub write_fragment : String → Bytes → Option Bytes → List (String × Bytes) → List (String × Bytes)
write_fragment id fragment none buffers = buffers
write_fragment id fragment (some raw) buffers = insert id (raw ++ fragment) buffers

-- The usage counter keeps its value on a count of 0.
pub update_usage : ℕ → ℕ → ℕ
update_usage n old = if ltb 0 n then n else old

-- One event: the round after it, and what is sent to the sink.
unfoldable pub on_event : String → Llm.Event → Round → Round × List Transport.Event
unfolding end_use write_fragment update_usage
on_event msg (Llm.text_delta d) s =
    (record s { blocks = append_text s.blocks d }, text_delta msg d ∷ [])
on_event msg (Llm.tool_use_start id name) s =
    let started = tool_use (record { id = id; name = name; input = [] }) in
    (
      record s { blocks = s.blocks ++ started ∷ []; buffers = insert id [] s.buffers },
      tool_call_start id name "" ∷ [],
    )
on_event msg (Llm.tool_use_input id fragment) s = (
  record s { buffers = write_fragment id fragment (lookup id s.buffers) s.buffers },
  tool_call_args id fragment "" ∷ [],
)
on_event msg (Llm.tool_use_end id) s =
    (end_use id (lookup id s.buffers) s, tool_call_end id "" ∷ [])
on_event msg (Llm.message_stop reason) s = (record s { stop_reason = reason }, [])
on_event msg (Llm.usage input output) s = (
  record s {
    usage_in = update_usage input s.usage_in;
    usage_out = update_usage output s.usage_out;
  },
  [],
)

-- The loop over the stream, and all that it sends.
unfoldable pub on_events : String → List Llm.Event → Round → Round × List Transport.Event
on_events msg [] s = (s, [])
on_events msg (e ∷ es) s =
    let (s', sent) = on_event msg e s in
    let (s'', more) = on_events msg es s' in (s'', sent ++ more)

abbrev pub has : List String → String → Bool
has ids id = any (λ i. i == id) ids

abbrev pub is_invalid_use : List String → Block → Bool
is_invalid_use invalid (tool_use u) = has invalid u.id
is_invalid_use invalid b = false

abbrev is_nil : List String → Bool
is_nil [] = true
is_nil (i ∷ is) = false

-- After the stream: a round that did not stop for its tools drops the invalid calls. `none` means
-- that nothing is left to persist, and the turn ends here.
unfoldable pub drop_truncated : Round → Option (List Block)
drop_truncated s =
    let kept = keep (λ b. not (is_invalid_use s.invalid b)) s.blocks in
    if s.stop_reason == "tool_use" || is_nil s.invalid then some s.blocks else unless_empty kept
  where
    unless_empty : List Block → Option (List Block)
    unless_empty [] = none
    unless_empty (b ∷ bs) = some (b ∷ bs)
