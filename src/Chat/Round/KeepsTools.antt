-- ===== src/Chat/Round/KeepsTools.antt =====
-- The effects of the tools and of the persisted messages of one round of `Turn`
-- (open-bbcd/internal/chat/orchestrator.go).
use open_bbc.Base.{String, Bool-cases, inl, inr, true, Option, none, some, List, [], ◌∷◌, map, ◌||◌}
use open_bbc.Llm
use open_bbc.Llm.{Bytes, Block, Request, ToolUse, ToolResult, ArtifactRef}
use open_bbc.Transport
use open_bbc.Chat.Stream.{has}
use open_bbc.Chat.Env.{
  Outcome, ok, err, panicked, ChatMessage, SubAgentBinding, ToolCallResult, Call, Env,
  appended_assistant, appended_tool, State, Io, ◌>>=◌, pure, lift, log, send,
}
use open_bbc.Chat.Env.Keeps.{
  Passes, Traced, Keeps, >>=-Keeps, >>-Keeps, pure-Keeps, lift-Keeps, log-Keeps, send-Keeps,
  send_all-Keeps,
}
use open_bbc.Chat.Normalise.{normalise_tool_result}
use open_bbc.Chat.Normalise.Keeps.{normalise_tool_result-Keeps}
use open_bbc.Chat.Stored.{blocks_to_json}
use open_bbc.Chat.Round.{
  Setting, Delegate, Slot, finished, deferred, encode, or_fail, persist_assistant, is_agent_call,
  invalid_result, caught, normalised, call_tool, answer, dispatch_one, dispatch_all, run_deferred,
  bindings_of, slot_refs, tool_blocks, ref_events, persist_tool, execute_tools,
}
use open_bbc.Chat.Round.Keeps.{or_fail-Keeps, encode-Keeps}

-- The delegate has allowed effects only, wherever the events it sends are allowed.
abbrev pub DelegateKeeps :
    {W : Type 0} → (Transport.Event → Type 0) → (Request → Type 0) → Delegate W → Type 0
DelegateKeeps S G delegate =
    (at : Setting)
    → Passes S at.sink
    → (bindings : List (String × SubAgentBinding)) (tu : ToolUse)
    → Keeps S G (delegate at bindings tu)

module _ {W : Type 0} (env : Env W) (S : Transport.Event → Type 0) (G : Request → Type 0)
    (at : Setting) (p : Passes S at.sink) where
  pub persist_assistant-Keeps :
      (msg : String) (bs : List Block) → Keeps S G (persist_assistant env at msg bs)
  unfolding persist_assistant
  persist_assistant-Keeps msg bs =
      >>=-Keeps S G (or_fail at.sink "encode_assistant_msg" (encode (blocks_to_json env.codec bs)))
        _ (or_fail-Keeps S G at.sink p _ _ (encode-Keeps S G (blocks_to_json env.codec bs)))
        (λ content _ _ _.
          >>=-Keeps S G (or_fail at.sink "seq_assign" (lift (env.next_seq at.session_id))) _
            (or_fail-Keeps S G at.sink p _ _ (lift-Keeps S G (env.next_seq at.session_id)))
            (λ seq _ _ _.
              let row : ChatMessage = record {
                id = msg;
                session_id = at.session_id;
                role = Llm.assistant;
                content = content;
                seq = seq;
              } in
              >>-Keeps S G
                (or_fail at.sink "persist_assistant_msg"
                  (lift (env.append_messages at.version_id row)))
                _
                (or_fail-Keeps S G at.sink p _ _
                  (lift-Keeps S G (env.append_messages at.version_id row)))
                (log-Keeps S G (appended_assistant row) tt)))

  caught-Traced :
      (r : Outcome ToolCallResult × State W) → Traced S G r.1 → Traced S G (caught env r).1
  unfolding caught
  caught-Traced (ok r, s) h = h
  caught-Traced (err e, s) h = h
  caught-Traced (panicked, s) h = h

  normalised-Keeps : (res : ToolCallResult) → Keeps S G (normalised env res)
  unfolding normalised
  normalised-Keeps res = by_uploader env.upload
    where
      by_uploader :
          (o : Option (String → Bytes → Call W ArtifactRef))
          → Keeps S G (elim o as (λ _. Io W (ToolCallResult × List ArtifactRef)) [
            | none ↦ pure (res, [])
            | some upload ↦ normalise_tool_result env.codec env.sniffer upload res.output >>= λ nr.
                pure (
                  record { output = nr.output; is_error = res.is_error || nr.force_error },
                  nr.refs,
                )
          ])
      by_uploader none = pure-Keeps S G _
      by_uploader (some upload) =
          >>=-Keeps S G (normalise_tool_result env.codec env.sniffer upload res.output) _
            (normalise_tool_result-Keeps S G env.codec env.sniffer upload res.output)
            (λ _ _ _ _. pure-Keeps S G _)

  call_tool-Keeps : (tu : ToolUse) → Keeps S G (call_tool env at tu)
  unfolding call_tool
  call_tool-Keeps tu =
      let call = lift (env.call at.handler at.architecture tu.id tu.name tu.input) in
      >>=-Keeps S G (λ s. caught env (call s)) (normalised env)
        (record { kept = λ s h. caught-Traced (call s) h }) (λ res _ _ _. normalised-Keeps res)

  dispatch_one-Keeps :
      (invalid : List String) (tu : ToolUse) → Keeps S G (dispatch_one env at invalid tu)
  unfolding dispatch_one answer
  dispatch_one-Keeps invalid tu = elim (Bool-cases (has invalid tu.id)) [
    | inl e ↦ rw e (
        >>-Keeps S G
          (send at.sink (Transport.tool_result tu.id (invalid_result env at tu).result true "")) _
          (send-Keeps S G at.sink p _) (pure-Keeps S G _))
    | inr e ↦ elim (Bool-cases (is_agent_call env at tu)) [
      | inl a ↦ rw (e, a) (pure-Keeps S G (deferred tu))
      | inr a ↦
          rw (e, a)
            (>>=-Keeps S G (call_tool env at tu) (answer env at tu) (call_tool-Keeps tu) (λ r _ _ _.
              >>-Keeps S G (send at.sink (Transport.tool_result tu.id r.0.output r.0.is_error "")) _
                (send-Keeps S G at.sink p _) (pure-Keeps S G _)))
    ]
  ]

  dispatch_all-Keeps :
      (invalid : List String) (tus : List ToolUse) → Keeps S G (dispatch_all env at invalid tus)
  unfolding dispatch_all
  dispatch_all-Keeps invalid [] = pure-Keeps S G []
  dispatch_all-Keeps invalid (tu ∷ tus) =
      >>=-Keeps S G (dispatch_one env at invalid tu) _ (dispatch_one-Keeps invalid tu)
        (λ slot _ _ _.
          >>=-Keeps S G (dispatch_all env at invalid tus) _ (dispatch_all-Keeps invalid tus)
            (λ _ _ _ _. pure-Keeps S G _))

  run_deferred-Keeps :
      (delegate : Delegate W)
      → DelegateKeeps S G delegate
      → (bs : List (String × SubAgentBinding)) (slots : List Slot)
      → Keeps S G (run_deferred env delegate at bs slots)
  unfolding run_deferred
  run_deferred-Keeps delegate d bs [] = pure-Keeps S G []
  run_deferred-Keeps delegate d bs (finished r refs ∷ slots) =
      >>=-Keeps S G (run_deferred env delegate at bs slots) _
        (run_deferred-Keeps delegate d bs slots) (λ _ _ _ _. pure-Keeps S G _)
  run_deferred-Keeps delegate d bs (deferred tu ∷ slots) =
      >>=-Keeps S G (delegate at bs tu) _ (d at p bs tu) (λ r _ _ _.
        >>-Keeps S G (send at.sink (Transport.tool_result tu.id r.result r.is_error "")) _
          (send-Keeps S G at.sink p _)
          (>>=-Keeps S G (run_deferred env delegate at bs slots) _
            (run_deferred-Keeps delegate d bs slots) (λ _ _ _ _. pure-Keeps S G _)))

  persist_tool-Keeps :
      (results : List ToolResult) (refs : List (String × ArtifactRef))
      → Keeps S G (persist_tool env at results refs)
  unfolding persist_tool
  persist_tool-Keeps results refs =
      let stored = blocks_to_json env.codec (tool_blocks results refs) in
      >>=-Keeps S G (lift env.new_uuid) _ (lift-Keeps S G env.new_uuid) (λ msg _ _ _.
        >>=-Keeps S G (or_fail at.sink "encode_tool_msg" (encode stored)) _
          (or_fail-Keeps S G at.sink p _ _ (encode-Keeps S G stored))
          (λ content _ _ _.
            >>=-Keeps S G (or_fail at.sink "seq_assign" (lift (env.next_seq at.session_id))) _
              (or_fail-Keeps S G at.sink p _ _ (lift-Keeps S G (env.next_seq at.session_id)))
              (λ seq _ _ _.
                let row : ChatMessage = record {
                  id = msg;
                  session_id = at.session_id;
                  role = Llm.tool;
                  content = content;
                  seq = seq;
                } in
                let append = env.append_tool_message at.version_id row (map (λ r. r.1) refs) in
                >>-Keeps S G (or_fail at.sink "persist_tool_msg" (lift append)) _
                  (or_fail-Keeps S G at.sink p _ _ (lift-Keeps S G append))
                  (>>-Keeps S G (log (appended_tool row (map (λ r. r.1) refs))) _
                    (log-Keeps S G _ tt) (send_all-Keeps S G at.sink p (ref_events refs))))))

  pub execute_tools-Keeps :
      (delegate : Delegate W)
      → DelegateKeeps S G delegate
      → (invalid : List String) (pending : List ToolUse)
      → Keeps S G (execute_tools env delegate at invalid pending)
  unfolding execute_tools
  execute_tools-Keeps delegate d invalid pending =
      >>=-Keeps S G (dispatch_all env at invalid pending) _ (dispatch_all-Keeps invalid pending)
        (λ slots _ _ _.
          >>=-Keeps S G (run_deferred env delegate at (bindings_of at) slots) _
            (run_deferred-Keeps delegate d (bindings_of at) slots)
            (λ results _ _ _.
              >>-Keeps S G (persist_tool env at results (slot_refs slots)) _
                (persist_tool-Keeps results (slot_refs slots)) (pure-Keeps S G _)))
