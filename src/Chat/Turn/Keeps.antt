-- ===== src/Chat/Turn/Keeps.antt =====
-- The effects of a whole `Turn` (open-bbcd/internal/chat/orchestrator.go).
use open_bbc.Base.{
  if◌then◌else◌, ◌||◌, String, ◌≡◌, Bool-cases, inl, inr, none, List, [], ◌∷◌, ◌++◌, map,
}
use open_bbc.Llm
use open_bbc.Llm.{Bytes, Block, Message, Request, ToolDef, ArtifactRef}
use open_bbc.Transport
use open_bbc.Chat.Render.{new_render_cache}
use open_bbc.Chat.Stream.{is_empty}
use open_bbc.Chat.Env.{
  raise, pure, Outcome, ok, err, panicked, ChatMessage, Agent, AgentVersion, Handler, Env, Config,
  Call, appended_user, closed, State, Io, ◌>>◌, lift, log, Sink, send,
}
use open_bbc.Chat.Env.Run.{>>=-eq-ok, returned-injective, lift-eq-ok}
use open_bbc.Chat.Env.Keeps.{
  Passes, Traced, Keeps, >>=-Keeps, >>-Keeps, pure-Keeps, raise-Keeps, lift-Keeps, log-Keeps,
  send-Keeps, continue-Traced,
}
use open_bbc.Chat.Stored.{blocks_to_json, history_to_llm}
use open_bbc.Chat.Round.{Delegate, Setting, or_fail, encode}
use open_bbc.Chat.Round.Keeps.{or_fail-eq-ok, or_fail-Keeps, encode-Keeps}
use open_bbc.Chat.Round.KeepsTools.{DelegateKeeps}
use open_bbc.Chat.Loop.{LoopState, loop}
use open_bbc.Chat.Loop.Keeps.{IsInvariant, loop-Keeps}
use open_bbc.Chat.Turn.{
  turn_with, agent_not_runnable_error, user_turn_code, text_input, report_user_turn, after_close,
  closing, with_handler, expose_tools, persist_user, converse,
}

-- The messages that a turn starts with.
abbrev pub opening : List ChatMessage → List Block → List ArtifactRef → List Message
opening history input claimed =
    history_to_llm history
    ++ record { role = Llm.user; content = text_input input ++ map Llm.artifact_ref claimed } ∷ []

abbrev pub started : List Message → LoopState
started ms = record {
  messages = ms;
  cache = new_render_cache;
  clock = 0;
  usage_in = 0;
  usage_out = 0;
}

module _ {W : Type 0} (S : Transport.Event → Type 0) (G : Request → Type 0) where
  report_user_turn-Traced :
      {A : Type 0} (sink : Sink)
      → Passes S sink
      → (r : Outcome A × State W) → Traced S G r.1
      → Traced S G (report_user_turn sink r).1
  unfolding report_user_turn
  report_user_turn-Traced sink p (ok a, s) h = h
  report_user_turn-Traced sink p (err e, s) h =
      continue-Traced S G (send sink (Transport.error (user_turn_code e.kind) e.message) s) _
        ((send-Keeps S G sink p (Transport.error (user_turn_code e.kind) e.message)).kept s h)
        (λ _ _ _. raise-Keeps S G e)
  report_user_turn-Traced sink p (panicked, s) h = h

module _ {W : Type 0} (env : Env W) (S : Transport.Event → Type 0) (G : Request → Type 0)
    (sink : Sink) (p : Passes S sink) where
  after_close-Traced :
      {A : Type 0} (r : Outcome A) (q : Outcome (Unit {0}) × State W)
      → Traced S G q.1
      → Traced S G (after_close env r q).1
  unfolding after_close
  after_close-Traced r (c, s) h = h

  closing-Traced :
      {A : Type 0} (handler : Handler) (r : Outcome A × State W)
      → Traced S G r.1
      → Traced S G (closing env handler r).1
  unfolding closing
  closing-Traced handler (r, s) h = elim (Bool-cases handler.is_closer) [
    | inl e ↦
        rw e (after_close-Traced r ((log (closed handler) >> lift (env.close handler)) s) (tt, h))
    | inr e ↦ rw e h
  ]

  with_handler-Keeps :
      {A : Type 0} (handler : Handler) (m : Io W A)
      → Keeps S G m
      → Keeps S G (with_handler env handler m)
  unfolding with_handler
  with_handler-Keeps handler m k = record {
    kept = λ s h. closing-Traced handler (m s) (k.kept s h);
  }

  call-Keeps : {A : Type 0} (code : String) (c : Call W A) → Keeps S G (or_fail sink code (lift c))
  call-Keeps code c = or_fail-Keeps S G sink p code (lift c) (lift-Keeps S G c)

  expose_tools-Keeps :
      (version : AgentVersion) (agent : Agent) (defs : List ToolDef)
      → Keeps S G (expose_tools env sink version agent defs)
  unfolding expose_tools
  expose_tools-Keeps version agent defs = elim (Bool-cases version.agent_tool_enabled) [
    | inl e ↦ rw e (
        >>=-Keeps S G (or_fail sink "tools_init" (lift (env.list_sub_agent_bindings version.id))) _
          (call-Keeps "tools_init" (env.list_sub_agent_bindings version.id))
          (λ _ _ _ _. pure-Keeps S G _))
    | inr e ↦ rw e (pure-Keeps S G (defs, none))
  ]

  persist_user-Keeps :
      (version : AgentVersion) (session : String) (input : List Block)
      → Keeps S G (persist_user env sink version session input)
  unfolding persist_user
  persist_user-Keeps version session input =
      >>=-Keeps S G (lift env.new_uuid) _ (lift-Keeps S G env.new_uuid) (λ msg _ _ _.
        >>=-Keeps S G
          (or_fail sink "encode_user_msg" (encode (blocks_to_json env.codec (text_input input)))) _
          (or_fail-Keeps S G sink p _ _
            (encode-Keeps S G (blocks_to_json env.codec (text_input input))))
          (λ content _ _ _.
            >>=-Keeps S G (or_fail sink "seq_assign" (lift (env.next_seq session))) _
              (call-Keeps "seq_assign" (env.next_seq session))
              (λ seq _ _ _.
                let row : ChatMessage = record {
                  id = msg;
                  session_id = session;
                  role = Llm.user;
                  content = content;
                  seq = seq;
                } in
                let append = lift (env.append_user_turn version.id row) in
                >>=-Keeps S G (λ s. report_user_turn sink (append s)) _
                  (record { kept = λ s h. report_user_turn-Traced S G sink p (append s) h })
                  (λ claimed _ _ _.
                    >>-Keeps S G (log (appended_user row claimed)) _ (log-Keeps S G _ tt)
                      (pure-Keeps S G _)))))

  persist_user-eq-ok :
      (version : AgentVersion) (session : String) (input bs : List Block) (s t : State W)
      → persist_user env sink version session input s ≡ (ok bs, t)
      → (claimed : List ArtifactRef) × (text_input input ++ map Llm.artifact_ref claimed ≡ bs)
  unfolding persist_user
  persist_user-eq-ok version session input bs s t h =
      let (msg, u, _, h1) = >>=-eq-ok (lift env.new_uuid) _ s h in
      let (content, v, _, h2) =
        >>=-eq-ok
          (or_fail sink "encode_user_msg" (encode (blocks_to_json env.codec (text_input input)))) _
          u h1 in
      let (seq, w, _, h3) =
        >>=-eq-ok (or_fail sink "seq_assign" (lift (env.next_seq session))) _ v h2 in
      let row : ChatMessage = record {
        id = msg;
        session_id = session;
        role = Llm.user;
        content = content;
        seq = seq;
      } in
      let (claimed, x, _, h4) =
        >>=-eq-ok (λ s. report_user_turn sink (lift (env.append_user_turn version.id row) s)) _ w
          h3 in
      (
        claimed,
        returned-injective (text_input input ++ map Llm.artifact_ref claimed) bs
            (record x { trace = appended_user row claimed ∷ x.trace }) t h4,
      )

  -- The check that the agent can run.
  abbrev runnable : AgentVersion → Agent → Io W (Unit {0})
  runnable version agent =
      if is_empty agent.architecture || is_empty version.prompts
      then raise agent_not_runnable_error
      else pure tt

  runnable-Keeps : (version : AgentVersion) (agent : Agent) → Keeps S G (runnable version agent)
  runnable-Keeps version agent =
      elim (Bool-cases (is_empty agent.architecture || is_empty version.prompts)) [
        | inl e ↦ rw e (raise-Keeps S G agent_not_runnable_error)
        | inr e ↦ rw e (pure-Keeps S G tt)
      ]

  module _ (config : Config) (delegate : Delegate W) (d : DelegateKeeps S G delegate)
      (I : LoopState → Type 0)
      (inv : (at : Setting) (req : Request) → IsInvariant env G delegate at req I) where
    converse-Keeps :
        (agent_id session : String) (version : AgentVersion) (agent : Agent)
        (history : List ChatMessage) (main_prompt : String) (handler : Handler) (input : List Block)
        → ((claimed : List ArtifactRef) → I (started (opening history input claimed)))
        → Keeps S G (
            converse env config delegate sink agent_id session version agent history main_prompt
              handler input)
    unfolding converse
    converse-Keeps agent_id session version agent history main_prompt handler input i =
        >>=-Keeps S G (or_fail sink "tools_init" (lift (env.tools handler agent.architecture))) _
          (call-Keeps "tools_init" (env.tools handler agent.architecture))
          (λ defs _ _ _.
            >>=-Keeps S G (expose_tools env sink version agent defs) _
              (expose_tools-Keeps version agent defs)
              (λ exposed _ _ _.
                >>=-Keeps S G (persist_user env sink version session input) _
                  (persist_user-Keeps version session input)
                  (λ bs s t h.
                    let (claimed, same) = persist_user-eq-ok version session input bs s t h in
                    >>-Keeps S G (send sink (Transport.session_start session agent_id)) _
                      (send-Keeps S G sink p _)
                      (>>=-Keeps S G (loop env config.max_tool_rounds delegate _ _ _) _
                        (loop-Keeps env S G _ p delegate d _ I (inv _ _) config.max_tool_rounds _
                          (rw (← same) (i claimed)))
                        (λ r _ _ _.
                          >>-Keeps S G
                            (send sink (Transport.turn_end r.stop_reason r.usage_in r.usage_out)) _
                            (send-Keeps S G sink p _) (pure-Keeps S G _))))))

    -- A turn whose invariant holds of the messages that it starts with.
    pub turn_with-Keeps :
        (agent_id session : String) (input : List Block)
        → ((w : W) (history : List ChatMessage) (claimed : List ArtifactRef)
            → (env.load_messages session w).0 ≡ ok history
            → I (started (opening history input claimed)))
        → Keeps S G (turn_with env config delegate sink agent_id session input)
    unfolding turn_with
    turn_with-Keeps agent_id session input i =
        >>=-Keeps S G (or_fail sink "agent_load" (lift (env.get_with_agent agent_id))) _
          (call-Keeps "agent_load" (env.get_with_agent agent_id))
          (λ va _ _ _.
            >>-Keeps S G (or_fail sink "agent_not_runnable" (runnable va.0 va.1)) _
              (or_fail-Keeps S G sink p _ (runnable va.0 va.1) (runnable-Keeps va.0 va.1))
              (>>-Keeps S G
                (or_fail sink "session_error" (lift (env.ensure_session session agent_id))) _
                (call-Keeps "session_error" (env.ensure_session session agent_id))
                (>>=-Keeps S G (or_fail sink "history_load" (lift (env.load_messages session))) _
                  (call-Keeps "history_load" (env.load_messages session))
                  (λ history s t h.
                    >>=-Keeps S G
                      (or_fail sink "prompts_parse"
                        (lift (λ w. (env.codec.main_prompt va.0.prompts, w))))
                      _ (call-Keeps "prompts_parse" (λ w. (env.codec.main_prompt va.0.prompts, w)))
                      (λ prompt _ _ _.
                        >>=-Keeps S G
                          (or_fail sink "tool_handler_init"
                            (lift (env.build va.1.id va.0.id va.1.architecture)))
                          _
                          (call-Keeps "tool_handler_init"
                            (env.build va.1.id va.0.id va.1.architecture))
                          (λ handler _ _ _. with_handler-Keeps handler _ (
                            converse-Keeps agent_id session va.0 va.1 history prompt handler input
                              (λ claimed. i s.world history claimed (
                                lift-eq-ok (env.load_messages session) s t history (
                                  or_fail-eq-ok S G sink "history_load"
                                    (lift (env.load_messages session)) s t history h))))))))))
