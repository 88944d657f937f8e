-- ===== src/Tests/Trees.antt =====
-- A turn that calls a tool, and a child turn (open-bbcd/internal/chat).
use mathlib.Core.Path.{subst}
use open_bbc.Base.{◌≡◌, refl, List, [], ◌∷◌, All, none, arith, eq_iff}
use open_bbc.Llm
use open_bbc.Llm.{Message, Request, Block}
use open_bbc.Chat.Stream.Answers.{WellFormed}
use open_bbc.Chat.Stored.{history_to_llm}
use open_bbc.Chat.Render.Shape.{RendersNative}
use open_bbc.Chat.Env.{root_sink}
use open_bbc.Chat.Env.Keeps.{Allowed}
use open_bbc.Chat.Loop.Requests.{IsPaired}
use open_bbc.Chat.SubAgent.{turn, turn_at}
use open_bbc.Chat.ChildSink.{child_sink}
use open_bbc.Chat.ChildSink.Events.{sink_under}
use open_bbc.Chat.SubAgent.Requests.{StreamsInOrder, LoadsPaired, every_request_is_answered}
use open_bbc.Chat.SubAgent.Tree.{IsChildEvent, OnlySends, child_turn-IsChildEvent}
use open_bbc.Tests.Fixtures.{env, config, renderer, answer_to}

renderer-RendersNative : RendersNative renderer
renderer-RendersNative clock ref b h = ground arith

answer_to-WellFormed : (ms : List Message) → WellFormed none (answer_to ms)
answer_to-WellFormed [] = tt
answer_to-WellFormed (m ∷ []) = (refl, (refl, tt))
answer_to-WellFormed (m ∷ n ∷ ms) = tt

env-StreamsInOrder : StreamsInOrder env
env-StreamsInOrder req w events h =
    let same : answer_to req.messages ≡ events = cc in
    subst (WellFormed none) same (answer_to-WellFormed req.messages)

env-LoadsPaired : LoadsPaired env
unfolding history_to_llm
env-LoadsPaired session w history h =
    let same : [] ≡ history = cc in subst (λ rows. IsPaired (history_to_llm rows)) same tt

every_request_is_answered_example :
    All
      (Allowed (λ _. Unit) (λ (req : Request). IsPaired req.messages))
      (turn env config "a1" "root"
        (Llm.text "find it" ∷ [])
        root_sink
        (record { world = 0; trace = [] })).1.trace
every_request_is_answered_example =
    every_request_is_answered env renderer-RendersNative env-StreamsInOrder env-LoadsPaired config
      "a1" "root" (Llm.text "find it" ∷ []) 0

child_turn-IsChildEvent_example :
    OnlySends IsChildEvent
      (turn_at env 1 config 1 "root" "v2" "child"
        (Llm.text "find it" ∷ [])
        (child_sink (sink_under root_sink ("outer" ∷ [])) "child")
        (record { world = 0; trace = [] })).1
child_turn-IsChildEvent_example =
    child_turn-IsChildEvent env config 1 1 ("outer" ∷ []) "root" "v2" "child"
      (λ h. ground (arith, (eq_iff "child" "").1 h)) (Llm.text "find it" ∷ []) 0
