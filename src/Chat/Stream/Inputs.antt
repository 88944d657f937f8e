-- ===== src/Chat/Stream/Inputs.antt =====
-- What a finished tool call gets as its input.
use open_bbc.Base.{
  ℕ, String, ◌≡◌, refl, true, false, Option, none, some, List, [], ◌∷◌, arith, All, All-append,
  lookup,
}
use open_bbc.Json.{valid, trim_space, empty_object}
use open_bbc.Llm
use open_bbc.Llm.{Bytes, ToolUse}
use open_bbc.Chat.Stream.{
  Round, new_round, starts_object, finish_input, find_use, queue, end_use, on_event, on_events,
}

-- The text of a JSON object, white space around it allowed.
abbrev pub IsObject : Bytes → Type 0
IsObject raw = (starts_object (trim_space raw) ≡ true) × (valid (trim_space raw) ≡ true)

empty_object-IsObject : IsObject empty_object
unfolding valid trim_space
empty_object-IsObject = (refl, refl)

finish_input-IsObject : (raw : Bytes) → IsObject (finish_input raw).0
unfolding finish_input
finish_input-IsObject raw = ground (arith, empty_object-IsObject)

abbrev pub HasObject : ToolUse → Type 0
HasObject u = IsObject u.input

queue-HasObject :
    (raw : Bytes) (o : Option ToolUse) (us : List ToolUse)
    → IsObject raw
    → All HasObject us
    → All HasObject (queue raw o us)
unfolding queue
queue-HasObject raw none us h k = k
queue-HasObject raw (some u) us h k = All-append HasObject us _ k (h, tt)

on_event-HasObject :
    (msg : String) (e : Llm.Event) (s : Round)
    → All HasObject s.pending
    → All HasObject (on_event msg e s).0.pending
unfolding on_event
on_event-HasObject msg (Llm.tool_use_end id) s h = ended (lookup id s.buffers)
  where
    ended : (o : Option Bytes) → All HasObject (end_use id o s).pending
    ended none = h
    ended (some raw) =
        queue-HasObject _ (find_use id s.blocks) s.pending (finish_input-IsObject raw) h
on_event-HasObject msg (Llm.text_delta d) s h = h
on_event-HasObject msg (Llm.tool_use_start id name) s h = h
on_event-HasObject msg (Llm.tool_use_input id f) s h = h
on_event-HasObject msg (Llm.message_stop r) s h = h
on_event-HasObject msg (Llm.usage i o) s h = h

on_events-HasObject :
    (msg : String) (es : List Llm.Event) (s : Round)
    → All HasObject s.pending
    → All HasObject (on_events msg es s).0.pending
unfolding on_events
on_events-HasObject msg [] s h = h
on_events-HasObject msg (e ∷ es) s h =
    on_events-HasObject msg es (on_event msg e s).0 (on_event-HasObject msg e s h)

-- Whatever fragments are streamed, every call queued for dispatch has an input that is, trimmed, the
-- text of a JSON object.
pub queued_inputs_are_objects :
    (msg : String) (es : List Llm.Event) (usage_in usage_out : ℕ)
    → All HasObject (on_events msg es (new_round usage_in usage_out)).0.pending
queued_inputs_are_objects msg es usage_in usage_out =
    on_events-HasObject msg es (new_round usage_in usage_out) tt

form_feed-trimmed : (raw : Bytes) → trim_space (0x0c ∷ raw) ≡ trim_space raw
unfolding trim_space
form_feed-trimmed raw = refl

form_feed-valid : (raw : Bytes) → valid (0x0c ∷ raw) ≡ false
unfolding valid
form_feed-valid raw = ground arith

-- An object with a form feed in front passes as valid input, since `bytes.TrimSpace` drops a byte
-- that is no white space of JSON; what is stored is the untrimmed text, which `json.Valid` refuses.
pub form_feed_passes :
    (raw : Bytes)
    → IsObject raw
    → (finish_input (0x0c ∷ raw) ≡ (0x0c ∷ raw, false)) × (valid (0x0c ∷ raw) ≡ false)
unfolding finish_input
form_feed_passes raw (starts, ok) = (rw form_feed-trimmed (ground arith), form_feed-valid raw)
