-- ===== src/Chat/Loop/Requests.antt =====
-- The requests of the tool-use loop of `Turn` (open-bbcd/internal/chat/orchestrator.go): a provider
-- rejects a tool call that the next message does not answer.
use open_bbc.Base.{String, ◌≡◌, refl, sym, ◌∙◌, inl, inr, true, List, [], ◌∷◌, ◌++◌, map}
use open_bbc.Llm.{
  Block, text, tool_use, tool_result, artifact_ref, inline_media, Message, ToolResult, ArtifactRef,
}
use open_bbc.Chat.Render.Shape.{is_ref, is_shown, BlocksFollow, MessagesFollow}
use open_bbc.Chat.Round.{tool_blocks}
use open_bbc.Chat.Round.Results.{Answers, result_id}
use open_bbc.Chat.Stream.Answers.{use_ids}

-- The blocks begin with a result for each of the calls, in order.
abbrev pub Begins : List String → List Block → Type 0
Begins [] bs = Unit
Begins (i ∷ is) (tool_result r ∷ bs) = (r.tool_use_id ≡ i) × Begins is bs
Begins (i ∷ is) bs = ⊥

-- The next message, if there are calls, answers them.
abbrev pub AnsweredBy : List String → List Message → Type 0
AnsweredBy [] ms = Unit
AnsweredBy (i ∷ is) [] = ⊥
AnsweredBy (i ∷ is) (m ∷ ms) = Begins (i ∷ is) m.content

-- Every message with tool calls is followed by a message that answers them.
abbrev pub IsPaired : List Message → Type 0
IsPaired [] = Unit
IsPaired (m ∷ ms) = AnsweredBy (use_ids m.content) ms × IsPaired ms

Begins-results :
    (results : List ToolResult) (bs : List Block)
    → Begins (map result_id results) (map tool_result results ++ bs)
Begins-results [] bs = tt
Begins-results (r ∷ rs) bs = (refl, Begins-results rs bs)

Answers-Begins : (ids : List String) (bs : List Block) → Answers ids bs → Begins ids bs
Answers-Begins ids bs (results, refs, same, eq) = rw (eq, ← same) (Begins-results results _)

use_ids-refs :
    (refs : List (String × ArtifactRef)) → use_ids (map (λ r. artifact_ref r.1) refs) ≡ []
use_ids-refs [] = refl
use_ids-refs (r ∷ rs) = use_ids-refs rs

use_ids-tool_blocks :
    (results : List ToolResult) (refs : List (String × ArtifactRef))
    → use_ids (tool_blocks results refs) ≡ []
use_ids-tool_blocks [] refs = use_ids-refs refs
use_ids-tool_blocks (r ∷ rs) refs = use_ids-tool_blocks rs refs

Answers-use_ids : (ids : List String) (bs : List Block) → Answers ids bs → use_ids bs ≡ []
Answers-use_ids ids bs (results, refs, same, eq) = rw eq (use_ids-tool_blocks results refs)

AnsweredBy-append :
    (ids : List String) (ms ns : List Message) → AnsweredBy ids ms → AnsweredBy ids (ms ++ ns)
AnsweredBy-append [] ms ns h = tt
AnsweredBy-append (i ∷ is) [] ns h = elim h [ ]
AnsweredBy-append (i ∷ is) (m ∷ ms) ns h = h

pub IsPaired-append : (ms ns : List Message) → IsPaired ms → IsPaired ns → IsPaired (ms ++ ns)
IsPaired-append [] ns h k = k
IsPaired-append (m ∷ ms) ns (h, hs) k =
    (AnsweredBy-append (use_ids m.content) ms ns h, IsPaired-append ms ns hs k)

AnsweredBy-Answers :
    (ids : List String) (m : Message) → Answers ids m.content → AnsweredBy ids (m ∷ [])
AnsweredBy-Answers [] m h = tt
AnsweredBy-Answers (i ∷ is) m h = Answers-Begins (i ∷ is) m.content h

-- A round's assistant message and its tool message are paired.
pub IsPaired-round : (a t : Message) → Answers (use_ids a.content) t.content → IsPaired (a ∷ t ∷ [])
IsPaired-round a t h = (
  AnsweredBy-Answers (use_ids a.content) t h,
  (rw (Answers-use_ids (use_ids a.content) t.content h) tt, tt),
)

-- A rendered block has the calls of its original.
use_ids-is_ref : (b : Block) (bs : List Block) → is_ref b ≡ true → use_ids (b ∷ bs) ≡ use_ids bs
use_ids-is_ref (artifact_ref r) bs h = refl
use_ids-is_ref (text t) bs h = refl
use_ids-is_ref (tool_use u) bs h = cc
use_ids-is_ref (tool_result r) bs h = refl
use_ids-is_ref (inline_media m) bs h = refl

use_ids-is_shown : (b : Block) (bs : List Block) → is_shown b ≡ true → use_ids (b ∷ bs) ≡ use_ids bs
use_ids-is_shown (artifact_ref r) bs h = refl
use_ids-is_shown (text t) bs h = refl
use_ids-is_shown (tool_use u) bs h = cc
use_ids-is_shown (tool_result r) bs h = refl
use_ids-is_shown (inline_media m) bs h = refl

use_ids-cons :
    (b : Block) (bs cs : List Block) → use_ids bs ≡ use_ids cs → use_ids (b ∷ bs) ≡ use_ids (b ∷ cs)
use_ids-cons (artifact_ref r) bs cs h = h
use_ids-cons (text t) bs cs h = h
use_ids-cons (tool_use u) bs cs h = rw h
use_ids-cons (tool_result r) bs cs h = h
use_ids-cons (inline_media m) bs cs h = h

use_ids-BlocksFollow : (bs cs : List Block) → BlocksFollow bs cs → use_ids cs ≡ use_ids bs
use_ids-BlocksFollow [] [] h = refl
use_ids-BlocksFollow [] (c ∷ cs) h = elim h [ ]
use_ids-BlocksFollow (b ∷ bs) [] h = elim h [ ]
use_ids-BlocksFollow (b ∷ bs) (c ∷ cs) (inl (r, s), fs) =
    use_ids-is_shown c cs s ∙ use_ids-BlocksFollow bs cs fs ∙ sym (use_ids-is_ref b bs r)
use_ids-BlocksFollow (b ∷ bs) (c ∷ cs) (inr (r, e), fs) =
    rw e (use_ids-cons b cs bs (use_ids-BlocksFollow bs cs fs))

Begins-BlocksFollow :
    (ids : List String) (bs cs : List Block) → BlocksFollow bs cs → Begins ids bs → Begins ids cs
Begins-BlocksFollow [] bs cs f h = tt
Begins-BlocksFollow (i ∷ is) [] cs f h = elim h [ ]
Begins-BlocksFollow (i ∷ is) (tool_result r ∷ bs) [] f h = elim f [ ]
Begins-BlocksFollow (i ∷ is) (tool_result r ∷ bs) (c ∷ cs) (inl (n, s), fs) h = cc
Begins-BlocksFollow (i ∷ is) (tool_result r ∷ bs) (c ∷ cs) (inr (n, e), fs) (same, hs) =
    rw e (same, Begins-BlocksFollow is bs cs fs hs)
Begins-BlocksFollow (i ∷ is) (text t ∷ bs) cs f h = elim h [ ]
Begins-BlocksFollow (i ∷ is) (tool_use u ∷ bs) cs f h = elim h [ ]
Begins-BlocksFollow (i ∷ is) (artifact_ref r ∷ bs) cs f h = elim h [ ]
Begins-BlocksFollow (i ∷ is) (inline_media m ∷ bs) cs f h = elim h [ ]

AnsweredBy-MessagesFollow :
    (ids : List String) (ms ns : List Message)
    → MessagesFollow ms ns
    → AnsweredBy ids ms
    → AnsweredBy ids ns
AnsweredBy-MessagesFollow [] ms ns f h = tt
AnsweredBy-MessagesFollow (i ∷ is) [] ns f h = elim h [ ]
AnsweredBy-MessagesFollow (i ∷ is) (m ∷ ms) [] f h = elim f [ ]
AnsweredBy-MessagesFollow (i ∷ is) (m ∷ ms) (n ∷ ns) (_, f, _) h =
    Begins-BlocksFollow (i ∷ is) m.content n.content f h

-- Rendering keeps a conversation paired.
pub IsPaired-MessagesFollow :
    (ms ns : List Message) → MessagesFollow ms ns → IsPaired ms → IsPaired ns
IsPaired-MessagesFollow [] [] f h = tt
IsPaired-MessagesFollow [] (n ∷ ns) f h = elim f [ ]
IsPaired-MessagesFollow (m ∷ ms) [] f h = elim f [ ]
IsPaired-MessagesFollow (m ∷ ms) (n ∷ ns) (r, f, fs) (h, hs) = (
  rw (use_ids-BlocksFollow m.content n.content f)
      (AnsweredBy-MessagesFollow (use_ids m.content) ms ns fs h),
  IsPaired-MessagesFollow ms ns fs hs,
)
