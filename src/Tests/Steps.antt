-- ===== src/Tests/Steps.antt =====
-- A step with a tool call and an agent call (open-bbcd/internal/chat).
use open_bbc.Base.{false, lookup, ℕ, ◌≡◌, refl, List, [], ◌∷◌}
use open_bbc.Llm
use open_bbc.Llm.{Bytes, Block}
use open_bbc.Json.{valid, trim_space}
use open_bbc.Tests.Fixtures.{
  photo, object_bytes, search_call, agent_call, env, config, start, setting,
}
use open_bbc.Artifacts.Label.{is_blank, trim_left, trim_right, cons_trimmed}
use open_bbc.Chat.Env.{Outcome, ok, State}
use open_bbc.Chat.AgentTool.{parse_agent_input}
use open_bbc.Chat.Stored.{blocks_to_json, store_blocks, store_block, marshal_raw}
use open_bbc.Chat.Normalise.{
  normalise_tool_result, normalise_items, normalise_item, inline_media, carries_inline_bytes,
}
use open_bbc.Chat.Round.{
  execute_tools, dispatch_all, dispatch_one, run_deferred, persist_tool, or_fail, call_tool,
}
use open_bbc.Chat.Round.Results.{Answers}
use open_bbc.Chat.SubAgent.{ChildTurn, run_one, run_agent_call, run}
use open_bbc.Chat.SubAgent.Results.{step-Answers}

-- A child that ends its turn at once.
abbrev child : ChildTurn ℕ
child version session prompt sink s = (ok "end_turn", s)

abbrev step : Outcome (List Block) × State ℕ
step =
    execute_tools env (run_one env config child 0 "root") setting [] (search_call ∷ agent_call ∷ [])
      start

abbrev step_blocks : List Block
step_blocks =
    Llm.tool_result (record { tool_use_id = "t1"; result = object_bytes; is_error = false })
    ∷ Llm.tool_result (record { tool_use_id = "t2"; result = b'"' ∷ b'"' ∷ []; is_error = false })
    ∷ Llm.artifact_ref photo
    ∷ []

step_run : step ≡ (ok step_blocks, step.1)
unfolding lookup execute_tools dispatch_all dispatch_one run_deferred persist_tool or_fail call_tool
    run_one run_agent_call run blocks_to_json store_blocks store_block marshal_raw
    normalise_tool_result normalise_items normalise_item inline_media carries_inline_bytes
    parse_agent_input is_blank trim_left trim_right cons_trimmed valid trim_space
step_run = refl

step-Answers_example : Answers ("t1" ∷ "t2" ∷ []) step_blocks
step-Answers_example =
    step-Answers env config child 0 "root" setting [] (search_call ∷ agent_call ∷ []) start step.1
      step_blocks step_run
