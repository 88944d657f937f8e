-- ===== src/Chat/Stream/Answers.antt =====
-- The tool calls that a streamed round leaves for dispatch.
use open_bbc.Base.{
  ℕ, String, ◌≡◌, refl, Option, none, some, List, [], ◌∷◌, ◌++◌, map, ◌⊎◌, inl, inr, arith,
  Bool-cases, lookup, lookup-insert, eq_iff, ◌==◌,
}
use open_bbc.Llm
use open_bbc.Llm.{Bytes, Block, text, tool_use, tool_result, artifact_ref, inline_media, ToolUse}
use open_bbc.Chat.Stream.{
  Round, new_round, append_text, set_input, find_use, queue, end_use, write_fragment, on_event,
  on_events,
}

abbrev pub id_of : ToolUse → String
id_of u = u.id

-- The ids of the tool calls among the blocks, in order.
abbrev pub use_ids : List Block → List String
use_ids [] = []
use_ids (tool_use u ∷ bs) = u.id ∷ use_ids bs
use_ids (b ∷ bs) = use_ids bs

-- A provider streams its blocks one after the other: the input and the end of a call follow its
-- start, before any other block. The first argument is the call that is open.
abbrev pub WellFormed : Option String → List Llm.Event → Type 0
WellFormed none [] = Unit
WellFormed (some id) [] = ⊥
WellFormed none (Llm.text_delta d ∷ es) = WellFormed none es
WellFormed (some id) (Llm.text_delta d ∷ es) = ⊥
WellFormed none (Llm.tool_use_start id name ∷ es) = WellFormed (some id) es
WellFormed (some j) (Llm.tool_use_start id name ∷ es) = ⊥
WellFormed none (Llm.tool_use_input id fragment ∷ es) = ⊥
WellFormed (some j) (Llm.tool_use_input id fragment ∷ es) = (j ≡ id) × WellFormed (some j) es
WellFormed none (Llm.tool_use_end id ∷ es) = ⊥
WellFormed (some j) (Llm.tool_use_end id ∷ es) = (j ≡ id) × WellFormed none es
WellFormed open_id (Llm.message_stop reason ∷ es) = WellFormed open_id es
WellFormed open_id (Llm.usage input output ∷ es) = WellFormed open_id es

use_ids-append_text : (bs : List Block) (d : String) → use_ids (append_text bs d) ≡ use_ids bs
unfolding append_text
use_ids-append_text [] d = refl
use_ids-append_text (text t ∷ []) d = refl
use_ids-append_text (tool_use u ∷ []) d = refl
use_ids-append_text (tool_result u ∷ []) d = refl
use_ids-append_text (artifact_ref u ∷ []) d = refl
use_ids-append_text (inline_media u ∷ []) d = refl
use_ids-append_text (text t ∷ c ∷ bs) d = use_ids-append_text (c ∷ bs) d
use_ids-append_text (tool_use u ∷ c ∷ bs) d = rw (use_ids-append_text (c ∷ bs) d)
use_ids-append_text (tool_result u ∷ c ∷ bs) d = use_ids-append_text (c ∷ bs) d
use_ids-append_text (artifact_ref u ∷ c ∷ bs) d = use_ids-append_text (c ∷ bs) d
use_ids-append_text (inline_media u ∷ c ∷ bs) d = use_ids-append_text (c ∷ bs) d

use_ids-append : (bs cs : List Block) → use_ids (bs ++ cs) ≡ use_ids bs ++ use_ids cs
use_ids-append [] cs = refl
use_ids-append (tool_use u ∷ bs) cs = rw (use_ids-append bs cs)
use_ids-append (text u ∷ bs) cs = use_ids-append bs cs
use_ids-append (tool_result u ∷ bs) cs = use_ids-append bs cs
use_ids-append (artifact_ref u ∷ bs) cs = use_ids-append bs cs
use_ids-append (inline_media u ∷ bs) cs = use_ids-append bs cs

use_ids-set_input :
    (id : String) (input : Bytes) (bs : List Block) → use_ids (set_input id input bs) ≡ use_ids bs
unfolding set_input
use_ids-set_input id input [] = refl
use_ids-set_input id input (tool_use u ∷ bs) = ground (arith, use_ids-set_input id input bs)
use_ids-set_input id input (text u ∷ bs) = use_ids-set_input id input bs
use_ids-set_input id input (tool_result u ∷ bs) = use_ids-set_input id input bs
use_ids-set_input id input (artifact_ref u ∷ bs) = use_ids-set_input id input bs
use_ids-set_input id input (inline_media u ∷ bs) = use_ids-set_input id input bs

abbrev In : String → List String → Type 0
In id [] = ⊥
In id (j ∷ js) = (j ≡ id) ⊎ In id js

In-last : (id : String) (ids : List String) → In id (ids ++ id ∷ [])
In-last id [] = inl refl
In-last id (j ∷ js) = inr (In-last id js)

-- A call whose id stands among the blocks is found.
find_use-In :
    (id : String) (bs : List Block)
    → In id (use_ids bs)
    → (u : ToolUse) × (find_use id bs ≡ some u) × (u.id ≡ id)
unfolding find_use
find_use-In id [] h = elim h [ ]
find_use-In id (tool_use u ∷ bs) h = elim (Bool-cases (u.id == id)) [
  | inl e ↦ (u, rw e, (eq_iff u.id id).0 e)
  | inr e ↦ rw e (find_use-In id bs (ground (arith, eq_iff u.id id)))
]
find_use-In id (text u ∷ bs) h = find_use-In id bs h
find_use-In id (tool_result u ∷ bs) h = find_use-In id bs h
find_use-In id (artifact_ref u ∷ bs) h = find_use-In id bs h
find_use-In id (inline_media u ∷ bs) h = find_use-In id bs h

-- The round while the call `open_id` is open: the calls among the blocks are those queued, and the
-- open one, whose buffer is there.
abbrev Matches : Option String → Round → Type 0
Matches none s = use_ids s.blocks ≡ map id_of s.pending
Matches (some id) s =
    (use_ids s.blocks ≡ map id_of s.pending ++ id ∷ [])
    × ((raw : Bytes) × (lookup id s.buffers ≡ some raw))

ids-queue :
    (input : Bytes) (u : ToolUse) (us : List ToolUse)
    → map id_of (queue input (some u) us) ≡ map id_of us ++ u.id ∷ []
unfolding queue
ids-queue input u [] = refl
ids-queue input u (v ∷ us) = rw (ids-queue input u us)

end_use-Matches :
    (id : String) (raw : Bytes) (s : Round)
    → use_ids s.blocks ≡ map id_of s.pending ++ id ∷ []
    → Matches none (end_use id (some raw) s)
unfolding end_use
end_use-Matches id raw s h =
    let (u, found, same) = find_use-In id s.blocks (rw h (In-last id (map id_of s.pending))) in
    rw (use_ids-set_input, found, ids-queue, same) h

-- The buffer of an open call is there after a fragment is written to it.
write_fragment-open :
    (id : String) (fragment raw : Bytes) (buffers : List (String × Bytes))
    → lookup id buffers ≡ some raw
    → lookup id (write_fragment id fragment (lookup id buffers) buffers) ≡ some (raw ++ fragment)
unfolding write_fragment
write_fragment-open id fragment raw buffers h =
    rw (h, write_fragment) (rw lookup-insert (ground (arith, eq_iff id id)))

on_events-Matches :
    (msg : String) (open_id : Option String) (es : List Llm.Event) (s : Round)
    → WellFormed open_id es
    → Matches open_id s
    → Matches none (on_events msg es s).0
unfolding on_events on_event
on_events-Matches msg none [] s w m = m
on_events-Matches msg (some id) [] s w m = elim w [ ]
on_events-Matches msg none (Llm.text_delta d ∷ es) s w m =
    on_events-Matches msg none es (on_event msg (Llm.text_delta d) s).0 w (rw use_ids-append_text m)
on_events-Matches msg (some id) (Llm.text_delta d ∷ es) s w m = elim w [ ]
on_events-Matches msg none (Llm.tool_use_start id name ∷ es) s w m =
    on_events-Matches msg (some id) es (on_event msg (Llm.tool_use_start id name) s).0 w
      (rw (use_ids-append, m) refl, ([], rw lookup-insert (ground (arith, eq_iff id id))))
on_events-Matches msg (some j) (Llm.tool_use_start id name ∷ es) s w m = elim w [ ]
on_events-Matches msg none (Llm.tool_use_input id fragment ∷ es) s w m = elim w [ ]
on_events-Matches msg (some j) (Llm.tool_use_input id fragment ∷ es) s (e, w) (ids, (raw, h)) =
    on_events-Matches msg (some j) es (on_event msg (Llm.tool_use_input id fragment) s).0 w
      (ids, (raw ++ fragment, rw (← e) (write_fragment-open j fragment raw s.buffers h)))
on_events-Matches msg none (Llm.tool_use_end id ∷ es) s w m = elim w [ ]
on_events-Matches msg (some j) (Llm.tool_use_end id ∷ es) s (e, w) (ids, (raw, h)) =
    on_events-Matches msg none es (on_event msg (Llm.tool_use_end id) s).0 w
      (rw (← e, h) (end_use-Matches j raw s ids))
on_events-Matches msg none (Llm.message_stop reason ∷ es) s w m =
    on_events-Matches msg none es (on_event msg (Llm.message_stop reason) s).0 w m
on_events-Matches msg (some j) (Llm.message_stop reason ∷ es) s w m =
    on_events-Matches msg (some j) es (on_event msg (Llm.message_stop reason) s).0 w m
on_events-Matches msg none (Llm.usage input output ∷ es) s w m =
    on_events-Matches msg none es (on_event msg (Llm.usage input output) s).0 w m
on_events-Matches msg (some j) (Llm.usage input output ∷ es) s w m =
    on_events-Matches msg (some j) es (on_event msg (Llm.usage input output) s).0 w m

-- After a stream that sends its blocks one after the other, the calls queued for dispatch are the
-- tool calls of the assistant message: the same ids, in the same order.
pub stream_queues_every_call :
    (msg : String) (es : List Llm.Event) (usage_in usage_out : ℕ)
    → WellFormed none es
    → let s = (on_events msg es (new_round usage_in usage_out)).0 in
      use_ids s.blocks ≡ map id_of s.pending
stream_queues_every_call msg es usage_in usage_out w =
    on_events-Matches msg none es (new_round usage_in usage_out) w refl
