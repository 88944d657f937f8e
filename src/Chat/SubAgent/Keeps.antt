-- ===== src/Chat/SubAgent/Keeps.antt =====
-- The effects of the child turns that open-bbcd/internal/chat/subagent.go runs.
use open_bbc.Base.{
  ℕ, String, Bool-cases, inl, inr, Bool, true, Option, none, some, List, lookup, leb,
}
use open_bbc.Llm.{Request, ToolUse, ToolResult}
use open_bbc.Transport
use open_bbc.Chat.Env
use open_bbc.Chat.Env.{
  Error, Outcome, ok, err, panicked, ChatMessage, Content, SubAgentBinding, AgentInput, Env, Config,
  Effect, created_child, State, Io, ◌>>=◌, ◌>>◌, continue, pure, raise, lift, log, Sink, send,
}
use open_bbc.Chat.Env.Keeps.{
  IsAllowed, Passes, Traced, Keeps, >>=-Keeps, >>-Keeps, pure-Keeps, raise-Keeps, lift-Keeps,
  log-Keeps, send-Keeps, continue-Traced,
}
use open_bbc.Chat.AgentTool
use open_bbc.Chat.AgentTool.{AgentResult, parse_agent_input}
use open_bbc.Chat.Round.{Setting}
use open_bbc.Chat.Round.KeepsTools.{DelegateKeeps}
use open_bbc.Chat.SubAgent.{
  ChildTurn, wire_id, last_assistant_text, conclude, after_turn, closing_step, spawned, run,
  delegated, dispatched, run_agent_call, recovered, acquired, run_one,
}
use open_bbc.Chat.ChildSink.{relabel, forward, child_sink}
use open_bbc.Chat.ChildResult.{SubAgentResult, joined_text, last_text, is_failure, no_result}

-- A child's sink sends only what its parent's does.
child_sink-Passes :
    (S : Transport.Event → Type 0) (sink : Sink)
    → Passes S sink
    → (id : String) → Passes S (child_sink sink id)
unfolding child_sink forward
child_sink-Passes S sink p id ev = by_label (relabel id ev)
  where
    by_label : (o : Option Transport.Event) → IsAllowed S (forward sink o)
    by_label none = tt
    by_label (some e) = p e

module _ {W : Type 0} (env : Env W) (S : Transport.Event → Type 0) (G : Request → Type 0) where
  joined_text-Keeps : (o : Option Content) → Keeps {W = W} S G (joined_text o)
  unfolding joined_text
  joined_text-Keeps none = pure-Keeps S G _
  joined_text-Keeps (some (Env.blocks bs)) = pure-Keeps S G _
  joined_text-Keeps (some Env.malformed) = raise-Keeps S G _

  last_assistant_text-Keeps : (session : String) → Keeps S G (last_assistant_text env session)
  unfolding last_assistant_text
  last_assistant_text-Keeps session =
      >>=-Keeps S G (lift (env.load_messages session)) _
        (lift-Keeps S G (env.load_messages session))
        (λ rows _ _ _. joined_text-Keeps (last_text rows))

  conclude-Traced :
      (stop : String) (res : SubAgentResult) (r : Outcome String × State W)
      → Traced S G r.1
      → Traced S G (conclude env stop res r).1
  unfolding conclude
  conclude-Traced stop res (ok text, s) h = h
  conclude-Traced stop res (err e, s) h = h
  conclude-Traced stop res (panicked, s) h = h

  after_turn-Traced :
      (child_id : String) (r : Outcome String × State W)
      → Traced S G r.1
      → Traced S G (after_turn env child_id r).1
  unfolding after_turn
  after_turn-Traced child_id (ok stop, s) h =
      conclude-Traced stop (no_result stop) (last_assistant_text env child_id s)
        ((last_assistant_text-Keeps child_id).kept s h)
  after_turn-Traced child_id (err e, s) h = conclude-Traced "" (no_result "") (err e, s) h
  after_turn-Traced child_id (panicked, s) h = h

  closing_step-Traced :
      (sink : Sink)
      → Passes S sink
      → (finished : Bool → Transport.Event) → (r : Outcome (AgentResult String) × State W)
      → Traced S G r.1
      → Traced S G (closing_step env sink finished r).1
  unfolding closing_step
  closing_step-Traced sink p finished (ok r, s) h =
      continue-Traced S G (send sink (finished (is_failure r)) s) _
        ((send-Keeps S G sink p (finished (is_failure r))).kept s h) (λ _ _ _. pure-Keeps S G r)
  closing_step-Traced sink p finished (err e, s) h =
      continue-Traced S G (send sink (finished true) s) _
        ((send-Keeps S G sink p (finished true)).kept s h) (λ _ _ _. raise-Keeps S G e)
  closing_step-Traced sink p finished (panicked, s) h =
      continue-Traced S G (send sink (finished true) s) _
        ((send-Keeps S G sink p (finished true)).kept s h) (λ _ _ _. record { kept = λ _ k. k })

  recovered-Traced :
      (tu : ToolUse) (r : Outcome ToolResult × State W)
      → Traced S G r.1
      → Traced S G (recovered env tu r).1
  unfolding recovered
  recovered-Traced tu (ok r, s) h = h
  recovered-Traced tu (err e, s) h = h
  recovered-Traced tu (panicked, s) h = h

  -- The child turn has allowed effects only, for every sink that sends allowed events.
  abbrev pub ChildKeeps : ChildTurn W → Type 0
  ChildKeeps child =
      (version session prompt : String) (sink : Sink)
      → Passes S sink
      → Keeps S G (child version session prompt sink)

  module _ (config : Config) (child : ChildTurn W) (c : ChildKeeps child) (depth : ℕ)
      (root : String) where
    spawned-Traced :
        (at : Setting)
        → Passes S at.sink
        → (b : SubAgentBinding) (tu : ToolUse) (input : AgentInput) (r : Outcome String × State W)
        → Traced S G r.1
        → Traced S G (spawned env child depth at b tu input r).1
    unfolding spawned
    spawned-Traced at p b tu input (ok id, s) h =
        let call = wire_id depth at.session_id tu.id in
        let sink = child_sink at.sink id in
        let start = Transport.step_started b.name call id input.description in
        let announce = log (created_child id b.target_version_id) >> send at.sink start in
        continue-Traced S G (announce s) _
          ((>>-Keeps S G (log (created_child id b.target_version_id)) (send at.sink start)
              (log-Keeps S G _ tt) (send-Keeps S G at.sink p start)).kept
            s h)
          (λ _ _ _. record {
            kept = λ t k.
                closing_step-Traced at.sink p (Transport.step_finished b.name call id)
                  (after_turn env id (child b.target_version_id id input.prompt sink t))
                  (after_turn-Traced id (child b.target_version_id id input.prompt sink t) (
                    (c b.target_version_id id input.prompt sink
                        (child_sink-Passes S at.sink p id)).kept
                      t k));
          })
    spawned-Traced at p b tu input (err e, s) h = h
    spawned-Traced at p b tu input (panicked, s) h = h

    run-Keeps :
        (at : Setting)
        → Passes S at.sink
        → (b : SubAgentBinding) (tu : ToolUse) (input : AgentInput)
        → Keeps S G (run env config child depth root at b tu input)
    unfolding run
    run-Keeps at p b tu input = elim (Bool-cases (leb config.max_depth depth)) [
      | inl e ↦ rw e (pure-Keeps S G _)
      | inr e ↦ rw e (record {
        kept = λ s h.
            spawned-Traced at p b tu input
              (lift (env.create_child_session root at.session_id tu.id b.target_version_id) s) h;
      })
    ]

    delegated-Keeps :
        (at : Setting)
        → Passes S at.sink
        → (tu : ToolUse) (input : AgentInput) (o : Option SubAgentBinding)
        → Keeps S G (delegated env config child depth root at tu input o)
    unfolding delegated
    delegated-Keeps at p tu input none = pure-Keeps S G _
    delegated-Keeps at p tu input (some b) = run-Keeps at p b tu input

    dispatched-Keeps :
        (at : Setting)
        → Passes S at.sink
        → (bs : List (String × SubAgentBinding)) (tu : ToolUse) (r : AgentResult AgentInput)
        → Keeps S G (dispatched env config child depth root at bs tu r)
    unfolding dispatched
    dispatched-Keeps at p bs tu (AgentTool.err e) = pure-Keeps S G _
    dispatched-Keeps at p bs tu (AgentTool.ok input) =
        delegated-Keeps at p tu input (lookup input.subagent bs)

    run_agent_call-Keeps : DelegateKeeps S G (run_agent_call env config child depth root)
    unfolding run_agent_call
    run_agent_call-Keeps at p bs tu =
        let parsed = parse_agent_input env.codec tu.input in
        >>=-Keeps S G (dispatched env config child depth root at bs tu parsed) _
          (dispatched-Keeps at p bs tu parsed) (λ _ _ _ _. pure-Keeps S G _)

    pub run_one-Keeps : DelegateKeeps S G (run_one env config child depth root)
    unfolding run_one acquired
    run_one-Keeps at p bs tu = record {
      kept = λ s h. elim (Bool-cases (env.acquire s.world).0) [
        | inl e ↦
            let s' = record s { world = (env.acquire s.world).1 } in
            rw e (
              recovered-Traced tu (run_agent_call env config child depth root at bs tu s')
                ((run_agent_call-Keeps at p bs tu).kept s' h))
        | inr e ↦ rw e h
      ];
    }
