-- ===== src/Chat/Loop/Keeps.antt =====
-- The effects of the tool-use loop of `Turn` (open-bbcd/internal/chat/orchestrator.go), with an
-- invariant of the loop's variables.
use open_bbc.Base.{ℕ, zero, suc, ◌≡◌, Bool-cases, inl, inr, true, Option, none, some, List, ◌==◌}
use open_bbc.Llm.{Block, Message, Request}
use open_bbc.Transport
use open_bbc.Chat.Render
use open_bbc.Chat.Render.{Pass, render_artifacts}
use open_bbc.Chat.Stream.{drop_truncated}
use open_bbc.Chat.Env.{ok, Env, State, Io}
use open_bbc.Chat.Env.Run.{>>=-eq-ok, returned-injective}
use open_bbc.Chat.Env.Keeps.{Passes, Keeps, >>=-Keeps, >>-Keeps, pure-Keeps}
use open_bbc.Chat.Round.{Delegate, Setting, Streamed, persist_assistant, execute_tools}
use open_bbc.Chat.Round.Keeps.{stream_round-Keeps}
use open_bbc.Chat.Round.KeepsTools.{DelegateKeeps, persist_assistant-Keeps, execute_tools-Keeps}
use open_bbc.Chat.Loop.{
  LoopState, TurnResult, Next, stops, calls, request_of, extended, persist_kept, close_round,
  stream, at_cap, go_on, loop,
}

-- What an invariant of the loop gives and keeps: its requests are good once rendered, and a round
-- with its tools leads to the next state.
pub record IsInvariant {W : Type 0} (env : Env W) (G : Request → Type 0) (delegate : Delegate W)
    (at : Setting) (req : Request) (I : LoopState → Type 0) : Type 0 where
  pub good :
      (st : LoopState)
      → I st
      → (ms : List Message) (pass : Pass)
      → render_artifacts env.renderer st.messages st.cache st.clock ≡ Render.ok ms pass
      → G (record req { messages = ms })
  pub next :
      (st : LoopState)
      → I st
      → (r : Streamed) (s t : State W) → stream env at req st s ≡ (ok r, t)
      → (bs : List Block) → drop_truncated r.round ≡ some bs
      → (r.round.stop_reason == "tool_use") ≡ true
      → (answers : List Block) (u v : State W)
      → execute_tools env delegate at r.round.invalid r.round.pending u ≡ (ok answers, v)
      → I (extended st r bs answers)

module _ {W : Type 0} (env : Env W) (S : Transport.Event → Type 0) (G : Request → Type 0)
    (at : Setting) (p : Passes S at.sink) where
  persist_kept-Keeps :
      (r : Streamed) (o : Option (List Block)) → Keeps S G (persist_kept env at r o)
  unfolding persist_kept
  persist_kept-Keeps r none = pure-Keeps S G stops
  persist_kept-Keeps r (some bs) =
      >>-Keeps S G (persist_assistant env at r.message_id bs) _
        (persist_assistant-Keeps env S G at p r.message_id bs) (pure-Keeps S G _)

  at_cap-Keeps : (r : Streamed) (n : Next) → Keeps S G (at_cap env r n)
  unfolding at_cap
  at_cap-Keeps r stops = pure-Keeps S G _
  at_cap-Keeps r (calls bs) = pure-Keeps S G _

  persist_kept-eq-calls :
      (r : Streamed) (o : Option (List Block)) (bs : List Block) (s t : State W)
      → persist_kept env at r o s ≡ (ok (calls bs), t)
      → (o ≡ some bs) × ((r.round.stop_reason == "tool_use") ≡ true)
  unfolding persist_kept
  persist_kept-eq-calls r none bs s t h = cc
  persist_kept-eq-calls r (some cs) bs s t h =
      let (_, u, _, h') = >>=-eq-ok (persist_assistant env at r.message_id cs) _ s h in
      elim (Bool-cases (r.round.stop_reason == "tool_use")) [
        | inl e ↦
            let same = returned-injective _ (calls bs) _ _ (rw e at h') in
            let eq : cs ≡ bs = cc in (rw eq, e)
        | inr e ↦ let bad = returned-injective _ (calls bs) _ _ (rw e at h') in absurd cc
      ]

  -- A round goes on with its calls only if it stopped for them.
  close_round-eq-calls :
      (r : Streamed) (bs : List Block) (s t : State W)
      → close_round env at r s ≡ (ok (calls bs), t)
      → (drop_truncated r.round ≡ some bs) × ((r.round.stop_reason == "tool_use") ≡ true)
  unfolding close_round
  close_round-eq-calls r bs s t h = persist_kept-eq-calls r (drop_truncated r.round) bs s t h

  close_round-Keeps : (r : Streamed) → Keeps S G (close_round env at r)
  unfolding close_round
  close_round-Keeps r = persist_kept-Keeps r (drop_truncated r.round)

  module _ (delegate : Delegate W) (d : DelegateKeeps S G delegate) (req : Request)
      (I : LoopState → Type 0) (inv : IsInvariant env G delegate at req I) where
    stream-Keeps : (st : LoopState) → I st → Keeps S G (stream env at req st)
    unfolding stream
    stream-Keeps st i =
        stream_round-Keeps env S G at.sink p (request_of req st.messages) st.cache st.clock
          st.usage_in st.usage_out (λ ms pass. inv.good st i ms pass)

    go_on-Keeps :
        (again : LoopState → Io W TurnResult)
        → ((st : LoopState) → I st → Keeps S G (again st))
        → (st : LoopState) → I st
        → (r : Streamed) (s t : State W) → stream env at req st s ≡ (ok r, t)
        → (n : Next) (u v : State W) → close_round env at r u ≡ (ok n, v)
        → Keeps S G (go_on env delegate at again st r n)
    unfolding go_on
    go_on-Keeps again a st i r s t h stops u v h' = pure-Keeps S G _
    go_on-Keeps again a st i r s t h (calls bs) u v h' =
        let (kept, stopped) = close_round-eq-calls r bs u v h' in
        >>=-Keeps S G (execute_tools env delegate at r.round.invalid r.round.pending) _
          (execute_tools-Keeps env S G at p delegate d r.round.invalid r.round.pending)
          (λ answers x y e.
            a (extended st r bs answers) (inv.next st i r s t h bs kept stopped answers x y e))

    pub loop-Keeps : (k : ℕ) (st : LoopState) → I st → Keeps S G (loop env k delegate at req st)
    unfolding loop
    loop-Keeps zero st i = >>=-Keeps S G (stream env at req st) _ (stream-Keeps st i) (λ r _ _ _.
        >>=-Keeps S G (close_round env at r) _ (close_round-Keeps r) (λ n _ _ _. at_cap-Keeps r n))
    loop-Keeps (suc k) st i = >>=-Keeps S G (stream env at req st) _ (stream-Keeps st i) (λ r s t h.
        >>=-Keeps S G (close_round env at r) _ (close_round-Keeps r) (λ n u v h'.
          go_on-Keeps (λ st'. loop env k delegate at req st') (loop-Keeps k) st i r s t h n u v h'))
