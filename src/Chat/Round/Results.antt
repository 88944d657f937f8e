-- ===== src/Chat/Round/Results.antt =====
-- The results of a step against its tool calls.
use open_bbc.Base.{String, ◌≡◌, sym, ◌∙◌, Bool-cases, inl, inr, List, [], ◌∷◌, map, arith}
use open_bbc.Llm.{Block, ToolUse, ToolResult, ArtifactRef}
use open_bbc.Transport
use open_bbc.Chat.Env.{ok, SubAgentBinding, ToolCallResult, Env, State, send}
use open_bbc.Chat.Env.Run.{>>=-eq-ok, returned-injective}
use open_bbc.Chat.Stream.{has}
use open_bbc.Chat.AgentTool.{agent_error_result}
use open_bbc.Chat.Stream.Answers.{id_of}
use open_bbc.Chat.Round.{
  Setting, Delegate, Slot, finished, deferred, dispatch_one, call_tool, dispatch_all, run_deferred,
  execute_tools, tool_blocks, slot_refs, bindings_of, answer, invalid_result, is_agent_call,
  persist_tool,
}

abbrev pub result_id : ToolResult → String
result_id r = r.tool_use_id

abbrev slot_id : Slot → String
slot_id (finished r refs) = r.tool_use_id
slot_id (deferred tu) = tu.id

-- The delegate answers each call under the id of the call.
abbrev pub AnswersOwnId : {W : Type 0} → Delegate W → Type 0
AnswersOwnId {W} delegate =
    (at : Setting) (bindings : List (String × SubAgentBinding)) (tu : ToolUse) (s t : State W)
    (r : ToolResult)
    → delegate at bindings tu s ≡ (ok r, t)
    → r.tool_use_id ≡ tu.id

module _ {W : Type 0} (env : Env W) (at : Setting) where
  invalid_result-id : (tu : ToolUse) → (invalid_result env at tu).tool_use_id ≡ tu.id
  unfolding invalid_result agent_error_result
  invalid_result-id tu = ground arith

  answer-id :
      (tu : ToolUse) (p : ToolCallResult × List ArtifactRef) (s t : State W) (slot : Slot)
      → answer env at tu p s ≡ (ok slot, t)
      → slot_id slot ≡ tu.id
  unfolding answer
  answer-id tu (res, refs) s t slot h =
      let (_, u, _, h') =
        >>=-eq-ok (send at.sink (Transport.tool_result tu.id res.output res.is_error "")) _ s h in
      rw (← returned-injective _ slot _ _ h')

  dispatch_one-id :
      (invalid : List String) (tu : ToolUse) (s t : State W) (slot : Slot)
      → dispatch_one env at invalid tu s ≡ (ok slot, t)
      → slot_id slot ≡ tu.id
  unfolding dispatch_one
  dispatch_one-id invalid tu s t slot h = elim (Bool-cases (has invalid tu.id)) [
    | inl e ↦
        let (_, u, _, h') = >>=-eq-ok (send at.sink _) _ s (rw e at h) in
        rw (← returned-injective _ slot _ _ h') (invalid_result-id tu)
    | inr e ↦ elim (Bool-cases (is_agent_call env at tu)) [
      | inl a ↦ rw (← returned-injective _ slot _ _ (rw (e, a) at h))
      | inr a ↦
          let (p, u, _, h') =
            >>=-eq-ok (call_tool env at tu) (answer env at tu) s (rw (e, a) at h) in
          answer-id tu p u t slot h'
    ]
  ]

  dispatch_all-ids :
      (invalid : List String) (tus : List ToolUse) (s t : State W) (slots : List Slot)
      → dispatch_all env at invalid tus s ≡ (ok slots, t)
      → map slot_id slots ≡ map id_of tus
  unfolding dispatch_all
  dispatch_all-ids invalid [] s t slots h = rw (← returned-injective _ slots _ _ h)
  dispatch_all-ids invalid (tu ∷ tus) s t slots h =
      let (slot, u, e, h') = >>=-eq-ok (dispatch_one env at invalid tu) _ s h in
      let (rest, v, e', h'') = >>=-eq-ok (dispatch_all env at invalid tus) _ u h' in
      rw (
        ← returned-injective _ slots _ _ h'',
        dispatch_one-id invalid tu s u slot e,
        dispatch_all-ids invalid tus u v rest e',
      )

  run_deferred-ids :
      (delegate : Delegate W)
      → AnswersOwnId delegate
      → (bindings : List (String × SubAgentBinding)) (slots : List Slot) (s t : State W)
        (results : List ToolResult)
      → run_deferred env delegate at bindings slots s ≡ (ok results, t)
      → map result_id results ≡ map slot_id slots
  unfolding run_deferred
  run_deferred-ids delegate own bindings [] s t results h =
      rw (← returned-injective _ results _ _ h)
  run_deferred-ids delegate own bindings (finished r refs ∷ slots) s t results h =
      let (rs, u, e, h') = >>=-eq-ok (run_deferred env delegate at bindings slots) _ s h in
      rw (
        ← returned-injective _ results _ _ h',
        run_deferred-ids delegate own bindings slots s u rs e,
      )
  run_deferred-ids delegate own bindings (deferred tu ∷ slots) s t results h =
      let (r, u, e, h') = >>=-eq-ok (delegate at bindings tu) _ s h in
      let (_, v, _, h2) = >>=-eq-ok (send at.sink _) _ u h' in
      let (rs, w, e', h3) = >>=-eq-ok (run_deferred env delegate at bindings slots) _ v h2 in
      rw (
        ← returned-injective _ results _ _ h3,
        own at bindings tu s u r e,
        run_deferred-ids delegate own bindings slots v w rs e',
      )

-- The blocks of a tool message that answers these calls: a result for each, in their order, and
-- then refs only.
abbrev pub Answers : List String → List Block → Type 0
Answers ids blocks =
    (results : List ToolResult) × (refs : List (String × ArtifactRef)) × (map result_id results
      ≡ ids)
    × (blocks ≡ tool_blocks results refs)

-- Whatever the handler, the backends and the children return: when a step runs to its end, the tool
-- message starts with one result for each pending call, under that call's id and in call order, and
-- holds only artifact refs after them. (The delegate answers under the call's own id.)
pub execute_tools-Answers :
    {W : Type 0} (env : Env W) (at : Setting) (delegate : Delegate W)
    → AnswersOwnId delegate
    → (invalid : List String) (pending : List ToolUse) (s t : State W) (blocks : List Block)
    → execute_tools env delegate at invalid pending s ≡ (ok blocks, t)
    → Answers (map id_of pending) blocks
unfolding execute_tools
execute_tools-Answers env at delegate own invalid pending s t blocks h =
    let (slots, u, e, h') = >>=-eq-ok (dispatch_all env at invalid pending) _ s h in
    let (results, v, e', h2) =
      >>=-eq-ok (run_deferred env delegate at (bindings_of at) slots) _ u h' in
    let (_, w, _, h3) = >>=-eq-ok (persist_tool env at results (slot_refs slots)) _ v h2 in
    (
      results,
      slot_refs slots,
      run_deferred-ids env at delegate own (bindings_of at) slots u v results e'
          ∙ dispatch_all-ids env at invalid pending s u slots e,
      sym (returned-injective _ blocks _ _ h3),
    )
