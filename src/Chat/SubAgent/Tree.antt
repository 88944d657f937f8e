-- ===== src/Chat/SubAgent/Tree.antt =====
-- The effects of a turn with its whole tree of child turns (open-bbcd/internal/chat/subagent.go).
use mathlib.Core.Path.{subst}
use open_bbc.Base.{ℕ, zero, suc, String, ◌≡◌, ◌≢◌, sym, false, List, [], ◌∷◌, All, ◌==◌}
use open_bbc.Llm
use open_bbc.Llm.{Block, Request, ArtifactRef}
use open_bbc.Transport
use open_bbc.Chat.Env.{ok, ChatMessage, Env, Config, State, Sink, root_sink}
use open_bbc.Chat.Env.Keeps.{Allowed, IsAllowed, Passes, Keeps, raise-Keeps}
use open_bbc.Chat.Loop.{LoopState}
use open_bbc.Chat.Loop.Keeps.{IsInvariant}
use open_bbc.Chat.Round.{Delegate, Setting}
use open_bbc.Chat.Round.Results.{AnswersOwnId}
use open_bbc.Chat.Turn
use open_bbc.Chat.Turn.Keeps.{opening, started, turn_with-Keeps}
use open_bbc.Chat.SubAgent.{ChildTurn, run_one, turn_at}
use open_bbc.Chat.ChildSink.{child_sink, relabel, forward}
use open_bbc.Chat.ChildResult.{malformed_content}
use open_bbc.Chat.ChildSink.Events.{sink_under, nested-child_sink, tag-filled}
use open_bbc.Chat.SubAgent.Keeps.{run_one-Keeps}
use open_bbc.Chat.SubAgent.Results.{run_one-AnswersOwnId}

module _ {W : Type 0} (env : Env W) (S : Transport.Event → Type 0) (G : Request → Type 0)
    (config : Config) (I : LoopState → Type 0)
    (inv : (delegate : Delegate W)
      → AnswersOwnId delegate
      → (at : Setting) (req : Request) → IsInvariant env G delegate at req I)
    (start : (session : String) (w : W) (history : List ChatMessage) (input : List Block)
        (claimed : List ArtifactRef)
      → (env.load_messages session w).0 ≡ ok history
      → I (started (opening history input claimed))) where
  turn-Keeps :
      (child : ChildTurn W)
      → ((version session prompt : String) (sink : Sink)
          → Passes S sink
          → Keeps S G (child version session prompt sink))
      → (depth : ℕ) (root agent session : String) (input : List Block) (sink : Sink) → Passes S sink
      → Keeps S G
          (Turn.turn_with env config (run_one env config child depth root) sink agent session input)
  turn-Keeps child c depth root agent session input sink p =
      turn_with-Keeps env S G sink p config (run_one env config child depth root)
        (run_one-Keeps env S G config child c depth root) I
        (inv _ (run_one-AnswersOwnId env config child depth root)) agent session input
        (λ w history claimed. start session w history input claimed)

  pub turn_at-Keeps :
      (fuel depth : ℕ) (root agent session : String) (input : List Block) (sink : Sink)
      → Passes S sink
      → Keeps S G (turn_at env fuel config depth root agent session input sink)
  unfolding turn_at
  turn_at-Keeps zero depth root agent session input sink p =
      turn-Keeps _ (λ _ _ _ _ _. raise-Keeps S G malformed_content) depth root agent session input
        sink p
  turn_at-Keeps (suc fuel) depth root agent session input sink p =
      turn-Keeps _
        (λ version child prompt events q.
          turn_at-Keeps fuel (suc depth) root version child (Llm.text prompt ∷ []) events q)
        depth root agent session input sink p

-- The events that a client sees of a child: tool calls and results under a child's id, and the
-- steps of deeper children.
abbrev pub IsChildEvent : Transport.Event → Type 0
IsChildEvent (Transport.tool_call_start call name child) = (child == "") ≡ false
IsChildEvent (Transport.tool_call_args call args child) = (child == "") ≡ false
IsChildEvent (Transport.tool_call_end call child) = (child == "") ≡ false
IsChildEvent (Transport.tool_result call result is_error child) = (child == "") ≡ false
IsChildEvent (Transport.step_started name call child description) = Unit
IsChildEvent (Transport.step_finished name call child is_error) = Unit
IsChildEvent ev = ⊥

child_sink-IsChildEvent : (id : String) → id ≢ "" → Passes IsChildEvent (child_sink root_sink id)
unfolding child_sink relabel forward
child_sink-IsChildEvent id f (Transport.tool_call_start call name child) = tag-filled id child f
child_sink-IsChildEvent id f (Transport.tool_call_args call args child) = tag-filled id child f
child_sink-IsChildEvent id f (Transport.tool_call_end call child) = tag-filled id child f
child_sink-IsChildEvent id f (Transport.tool_result call result e child) = tag-filled id child f
child_sink-IsChildEvent id f (Transport.step_started name call child description) = tt
child_sink-IsChildEvent id f (Transport.step_finished name call child is_error) = tt
child_sink-IsChildEvent id f (Transport.session_start session agent) = tt
child_sink-IsChildEvent id f (Transport.text_start msg) = tt
child_sink-IsChildEvent id f (Transport.text_delta msg d) = tt
child_sink-IsChildEvent id f (Transport.text_end msg) = tt
child_sink-IsChildEvent id f (Transport.artifact_ref call ref) = tt
child_sink-IsChildEvent id f (Transport.turn_end reason i o) = tt
child_sink-IsChildEvent id f (Transport.error code message) = tt

-- The events that a trace holds.
abbrev pub OnlySends : {W : Type 0} → (Transport.Event → Type 0) → State W → Type 0
OnlySends S s = All (Allowed S (λ _. Unit)) s.trace

-- Whatever a child turn and the turns below it do, however deep the child is and whether they
-- succeed, fail or panic: all that reaches the root's stream is tool calls and results under a
-- child's id, and steps. No text, artifact, error, start or end of a child does. (The child's own
-- id is not empty.)
pub child_turn-IsChildEvent :
    {W : Type 0} (env : Env W) (config : Config) (fuel depth : ℕ) (ids : List String)
    (root agent id : String)
    → id ≢ ""
    → (input : List Block) (w : W)
    → OnlySends IsChildEvent
        (turn_at env fuel config depth root agent id input
          (child_sink (sink_under root_sink ids) id)
          (record { world = w; trace = [] })).1
child_turn-IsChildEvent env config fuel depth ids root agent id f input w =
    (turn_at-Keeps env IsChildEvent (λ _. Unit) config (λ _. Unit)
        (λ delegate own at req. record {
          good = λ _ _ _ _ _. tt;
          next = λ _ _ _ _ _ _ _ _ _ _ _ _ _. tt;
        })
        (λ _ _ _ _ _ _. tt) fuel depth root agent id input
        (child_sink (sink_under root_sink ids) id)
        (λ ev.
          subst (IsAllowed IsChildEvent) (sym (nested-child_sink ids root_sink id f ev))
            (child_sink-IsChildEvent id f ev))).kept
      (record { world = w; trace = [] }) tt
