-- ===== src/Chat/SubAgent/Requests.antt =====
-- The requests of a turn with its whole tree of child turns (open-bbcd/internal/chat/orchestrator.go
-- and subagent.go).
use mathlib.Core.Path.{subst}
use open_bbc.Base.{
  String, ◌≡◌, refl, sym, ◌∙◌, ap, true, none, some, List, [], ◌∷◌, ◌++◌, map, All, ◌==◌,
}
use open_bbc.Llm
use open_bbc.Llm.{Block, Message, Request, ArtifactRef}
use open_bbc.Chat.Render
use open_bbc.Chat.Render.{Pass, render_artifacts}
use open_bbc.Chat.Render.Shape.{AnswersNative, IsClean, render-Follows}
use open_bbc.Chat.Stream.{Round, drop_truncated}
use open_bbc.Chat.Stream.Answers.{WellFormed, use_ids, id_of, stream_queues_every_call}
use open_bbc.Chat.Stored.{history_to_llm}
use open_bbc.Chat.Env.{ok, ChatMessage, Env, Config, root_sink}
use open_bbc.Chat.Env.Keeps.{Allowed}
use open_bbc.Chat.Round.{Delegate, Setting, Streamed}
use open_bbc.Chat.Round.Results.{AnswersOwnId, Answers, execute_tools-Answers}
use open_bbc.Chat.Round.Streams.{IsStreamed, stream_round-IsStreamed}
use open_bbc.Chat.Loop.{LoopState, stream}
use open_bbc.Chat.Loop.Keeps.{IsInvariant}
use open_bbc.Chat.Loop.Requests.{IsPaired, IsPaired-append, IsPaired-round, IsPaired-MessagesFollow}
use open_bbc.Chat.Turn.{text_input}
use open_bbc.Chat.Turn.Keeps.{opening}
use open_bbc.Chat.SubAgent.{turn}
use open_bbc.Chat.SubAgent.Tree.{turn_at-Keeps}

-- The provider streams its blocks one after the other, in every stream that it ends.
abbrev pub StreamsInOrder : {W : Type 0} → Env W → Type 0
StreamsInOrder {W} env =
    (req : Request) (w : W) (events : List Llm.Event)
    → (env.generate req w).0 ≡ ok (events, none)
    → WellFormed none events

-- Every history that is loaded answers its tool calls.
abbrev pub LoadsPaired : {W : Type 0} → Env W → Type 0
LoadsPaired {W} env =
    (session : String) (w : W) (history : List ChatMessage)
    → (env.load_messages session w).0 ≡ ok history
    → IsPaired (history_to_llm history)

use_ids-text_input :
    (input : List Block) (claimed : List ArtifactRef)
    → use_ids (text_input input ++ map Llm.artifact_ref claimed) ≡ []
unfolding text_input
use_ids-text_input [] [] = refl
use_ids-text_input [] (r ∷ rs) = use_ids-text_input [] rs
use_ids-text_input (Llm.text t ∷ bs) claimed = use_ids-text_input bs claimed
use_ids-text_input (Llm.tool_use u ∷ bs) claimed = use_ids-text_input bs claimed
use_ids-text_input (Llm.tool_result r ∷ bs) claimed = use_ids-text_input bs claimed
use_ids-text_input (Llm.artifact_ref r ∷ bs) claimed = use_ids-text_input bs claimed
use_ids-text_input (Llm.inline_media m ∷ bs) claimed = use_ids-text_input bs claimed

opening-IsPaired :
    (history : List ChatMessage) (input : List Block) (claimed : List ArtifactRef)
    → IsPaired (history_to_llm history)
    → IsPaired (opening history input claimed)
opening-IsPaired history input claimed h =
    IsPaired-append (history_to_llm history) _ h (rw (use_ids-text_input input claimed) (tt, tt))

drop_truncated-tool_use :
    (r : Round) (bs : List Block)
    → drop_truncated r ≡ some bs
    → (r.stop_reason == "tool_use") ≡ true
    → r.blocks ≡ bs
unfolding drop_truncated
drop_truncated-tool_use r bs h e = let h' = rw e at h in cc

-- The loop's conversation is paired, and its cache holds text and media.
abbrev IsGood : LoopState → Type 0
IsGood st = IsPaired st.messages × IsClean st.cache

abbrev HasPaired : Request → Type 0
HasPaired req = IsPaired req.messages

module _ {W : Type 0} (env : Env W) (native : AnswersNative env.renderer)
    (ordered : StreamsInOrder env) where
  rendered-IsPaired :
      (st : LoopState) (ms : List Message) (pass : Pass)
      → IsGood st
      → render_artifacts env.renderer st.messages st.cache st.clock ≡ Render.ok ms pass
      → IsClean pass.cache × IsPaired ms
  rendered-IsPaired st ms pass (paired, clean) h =
      let (clean', follow) =
        render-Follows env.renderer st.messages ms st.cache st.clock pass native clean h in
      (clean', IsPaired-MessagesFollow st.messages ms follow paired)

  streamed-ids :
      (req : Request) (st : LoopState) (r : Streamed)
      → IsStreamed env
          (record req { messages = st.messages })
          st.cache
          st.clock
          st.usage_in
          st.usage_out
          r
      → use_ids r.round.blocks ≡ map id_of r.round.pending
  streamed-ids req st r x =
      subst (λ (q : Round). use_ids q.blocks ≡ map id_of q.pending) (sym x.same_round)
        (stream_queues_every_call r.message_id x.events st.usage_in st.usage_out
          (ordered _ x.world x.events x.is_generated))

  IsGood-IsInvariant :
      (delegate : Delegate W)
      → AnswersOwnId delegate
      → (at : Setting) (req : Request) → IsInvariant env HasPaired delegate at req IsGood
  unfolding stream
  IsGood-IsInvariant delegate own at req = record {
    good = λ st i ms pass h. (rendered-IsPaired st ms pass i h).1;
    next = λ st i r s t h bs kept stopped answers u v e.
        let x =
          stream_round-IsStreamed env at.sink (record req { messages = st.messages }) st.cache
            st.clock st.usage_in st.usage_out s t r h in
        let answered =
          execute_tools-Answers env at delegate own r.round.invalid r.round.pending u v answers e in
        let same = drop_truncated-tool_use r.round bs kept stopped in
        (
          IsPaired-append st.messages _ i.0 (
              IsPaired-round (record { role = Llm.assistant; content = bs })
                (record { role = Llm.tool; content = answers })
                (subst (λ ids. Answers ids answers)
                  (sym (streamed-ids req st r x) ∙ ap use_ids same) answered)),
          rw x.same_cache (rendered-IsPaired st x.messages x.pass i x.is_rendered).0,
        );
  }

-- In every request that a turn and its tree of child turns send to the provider, each message with
-- tool calls is followed by a message that begins with their results, in call order: whatever the
-- handlers, the stores and the uploader do, whether calls fail or panic, and however many rounds
-- and children there are. (The loaded histories are so, the provider streams its blocks one after
-- the other, and it renders references as text or media.)
pub every_request_is_answered :
    {W : Type 0} (env : Env W)
    → AnswersNative env.renderer
    → StreamsInOrder env
    → LoadsPaired env
    → (config : Config) (agent session : String) (input : List Block) (w : W)
    → All
        (Allowed (λ _. Unit) (λ (req : Request). IsPaired req.messages))
        (turn env config agent session input root_sink (record { world = w; trace = [] })).1.trace
unfolding turn
every_request_is_answered env native ordered loads config agent session input w =
    (turn_at-Keeps env (λ _. Unit) HasPaired config IsGood (IsGood-IsInvariant env native ordered)
        (λ session w history input claimed h.
          (opening-IsPaired history input claimed (loads session w history h), tt))
        config.max_depth 0 session agent session input root_sink (λ _. tt)).kept
      (record { world = w; trace = [] }) tt
