-- ===== src/Chat/Stream/Text.antt =====
-- The text that a streamed round accumulates.
use Prim.Native.String
use package.text.Mathlib.TextLemmas.{nil-append, append-nil, append_assoc}
use open_bbc.Base.{
  ℕ, String, ◌≡◌, refl, sym, Option, none, some, List, [], ◌∷◌, ◌++◌, arith, lookup,
}
use open_bbc.Llm
use open_bbc.Llm.{Bytes, Block, text, tool_use, tool_result, artifact_ref, inline_media, ToolUse}
use open_bbc.Chat.Stream.{Round, new_round, append_text, set_input, end_use, on_event, on_events}

infixr 65 ◌⊕◌
abbrev ◌⊕◌ : String → String → String
a ⊕ b = String.◌++◌ a b

-- The text blocks, joined.
abbrev pub text_of : List Block → String
text_of [] = ""
text_of (text t ∷ bs) = t ⊕ text_of bs
text_of (b ∷ bs) = text_of bs

-- The text deltas of a stream, joined.
abbrev pub deltas : List Llm.Event → String
deltas [] = ""
deltas (Llm.text_delta d ∷ es) = d ⊕ deltas es
deltas (e ∷ es) = deltas es

text_of-append_text : (bs : List Block) (d : String) → text_of (append_text bs d) ≡ text_of bs ⊕ d
unfolding append_text
text_of-append_text [] d = rw (append-nil, nil-append)
text_of-append_text (text t ∷ []) d = rw (append-nil, append-nil)
text_of-append_text (tool_use u ∷ []) d = rw (append-nil, nil-append)
text_of-append_text (tool_result u ∷ []) d = rw (append-nil, nil-append)
text_of-append_text (artifact_ref u ∷ []) d = rw (append-nil, nil-append)
text_of-append_text (inline_media u ∷ []) d = rw (append-nil, nil-append)
text_of-append_text (text t ∷ c ∷ bs) d =
    rw (text_of-append_text (c ∷ bs) d) (sym (append_assoc t (text_of (c ∷ bs)) d))
text_of-append_text (tool_use u ∷ c ∷ bs) d = text_of-append_text (c ∷ bs) d
text_of-append_text (tool_result u ∷ c ∷ bs) d = text_of-append_text (c ∷ bs) d
text_of-append_text (artifact_ref u ∷ c ∷ bs) d = text_of-append_text (c ∷ bs) d
text_of-append_text (inline_media u ∷ c ∷ bs) d = text_of-append_text (c ∷ bs) d

text_of-start : (bs : List Block) (u : ToolUse) → text_of (bs ++ tool_use u ∷ []) ≡ text_of bs
text_of-start [] u = refl
text_of-start (text t ∷ bs) u = rw (text_of-start bs u)
text_of-start (tool_use v ∷ bs) u = text_of-start bs u
text_of-start (tool_result v ∷ bs) u = text_of-start bs u
text_of-start (artifact_ref v ∷ bs) u = text_of-start bs u
text_of-start (inline_media v ∷ bs) u = text_of-start bs u

text_of-set_input :
    (id : String) (input : Bytes) (bs : List Block) → text_of (set_input id input bs) ≡ text_of bs
unfolding set_input
text_of-set_input id input [] = refl
text_of-set_input id input (tool_use u ∷ bs) = ground (arith, text_of-set_input id input bs)
text_of-set_input id input (text t ∷ bs) = rw (text_of-set_input id input bs)
text_of-set_input id input (tool_result u ∷ bs) = text_of-set_input id input bs
text_of-set_input id input (artifact_ref u ∷ bs) = text_of-set_input id input bs
text_of-set_input id input (inline_media u ∷ bs) = text_of-set_input id input bs

text_of-end_use :
    (id : String) (o : Option Bytes) (s : Round)
    → text_of (end_use id o s).blocks ≡ text_of s.blocks
unfolding end_use
text_of-end_use id none s = refl
text_of-end_use id (some raw) s = text_of-set_input id _ s.blocks

text_of-on_events :
    (msg : String) (es : List Llm.Event) (s : Round)
    → text_of (on_events msg es s).0.blocks ≡ text_of s.blocks ⊕ deltas es
unfolding on_events on_event
text_of-on_events msg [] s = sym (append-nil _)
text_of-on_events msg (Llm.text_delta d ∷ es) s =
    rw
      (
        text_of-on_events msg es (on_event msg (Llm.text_delta d) s).0,
        text_of-append_text s.blocks d,
      )
      (append_assoc _ _ _)
text_of-on_events msg (Llm.tool_use_start id name ∷ es) s =
    rw (text_of-on_events msg es (on_event msg (Llm.tool_use_start id name) s).0, text_of-start)
text_of-on_events msg (Llm.tool_use_input id f ∷ es) s =
    rw (text_of-on_events msg es (on_event msg (Llm.tool_use_input id f) s).0)
text_of-on_events msg (Llm.tool_use_end id ∷ es) s = rw (
  text_of-on_events msg es (on_event msg (Llm.tool_use_end id) s).0,
  text_of-end_use id (lookup id s.buffers) s,
)
text_of-on_events msg (Llm.message_stop reason ∷ es) s =
    rw (text_of-on_events msg es (on_event msg (Llm.message_stop reason) s).0)
text_of-on_events msg (Llm.usage input output ∷ es) s =
    rw (text_of-on_events msg es (on_event msg (Llm.usage input output) s).0)

-- The text blocks of the accumulated message, joined, are the streamed deltas, joined.
pub accumulated_text :
    (msg : String) (es : List Llm.Event) (usage_in usage_out : ℕ)
    → text_of (on_events msg es (new_round usage_in usage_out)).0.blocks ≡ deltas es
accumulated_text msg es usage_in usage_out =
    rw (text_of-on_events msg es (new_round usage_in usage_out)) (nil-append _)
