-- ===== src/Tests/Caps.antt =====
-- A turn that reaches its cap on tool rounds (open-bbcd/internal/chat/orchestrator.go).
use open_bbc.Base.{ℕ, zero, ◌≡◌, refl, lookup, insert, List, [], ◌∷◌, ◌++◌}
use open_bbc.Json.{valid, trim_space}
use open_bbc.Llm
use open_bbc.Llm.{Block, Message, Request}
use open_bbc.Chat.Render.{
  render_artifacts, visit_messages, visit_blocks, visit, prune, new_render_cache,
}
use open_bbc.Chat.Stream.{
  on_events, on_event, append_text, finish_input, set_input, find_use, drop_truncated,
}
use open_bbc.Chat.Stored.{blocks_to_json, store_blocks, store_block, marshal_raw, history_to_llm}
use open_bbc.Chat.Env.{ok, ChatMessage, Effect, appended_assistant, State}
use open_bbc.Chat.Round.{Streamed, stream_round, persist_assistant, or_fail}
use open_bbc.Chat.Loop.{LoopState, calls, result_of, close_round, stream, loop}
use open_bbc.Chat.Loop.Requests.{IsPaired}
use open_bbc.Chat.Loop.Cap.{cap_leaves_calls_unanswered}
use open_bbc.Chat.SubAgent.{run_one}
use open_bbc.Tests.Fixtures.{env, config, start, setting, object_bytes, search_call}

abbrev question : Message
question = record { role = Llm.user; content = Llm.text "find it" ∷ [] }

abbrev req : Request
req = record { model = "m"; system = "You help."; messages = []; tools = []; max_tokens = 100 }

abbrev at_start : LoopState
at_start = record {
  messages = question ∷ [];
  cache = new_render_cache;
  clock = 0;
  usage_in = 0;
  usage_out = 0;
}

abbrev called : List Block
called = Llm.tool_use search_call ∷ []

abbrev streamed : Streamed
streamed = record {
  message_id = "id";
  round = record {
    blocks = called;
    pending = search_call ∷ [];
    buffers = ("t1", object_bytes) ∷ [];
    stop_reason = "tool_use";
    invalid = [];
    usage_in = 0;
    usage_out = 0;
  };
  cache = new_render_cache;
  clock = 0;
}

abbrev after_stream : State ℕ
after_stream = (stream env setting req at_start start).1

streamed_run : stream env setting req at_start start ≡ (ok streamed, after_stream)
unfolding stream stream_round or_fail render_artifacts visit_messages visit_blocks visit prune
    on_events on_event append_text finish_input set_input find_use lookup insert valid trim_space
streamed_run = refl

abbrev after_close : State ℕ
after_close = (close_round env setting streamed after_stream).1

closed_run : close_round env setting streamed after_stream ≡ (ok (calls called), after_close)
unfolding close_round drop_truncated persist_assistant or_fail blocks_to_json store_blocks
    store_block marshal_raw valid
closed_run = refl

cap_leaves_calls_unanswered_example :
    (loop env zero
        (run_one env config (λ _ _ _ _ s. (ok "end_turn", s)) 0 "root")
        setting
        req
        at_start
        start
      ≡ (ok (result_of "max_tool_rounds" streamed), after_close))
    × ((row : ChatMessage) × (rest : List Effect) × (after_close.trace
          ≡ appended_assistant row ∷ rest)
        × (¬ IsPaired ((question ∷ []) ++ history_to_llm (row ∷ []))))
cap_leaves_calls_unanswered_example =
    cap_leaves_calls_unanswered env setting
      (run_one env config (λ _ _ _ _ s. (ok "end_turn", s)) 0 "root") req at_start start
      after_stream after_close streamed called "t1" [] streamed_run closed_run refl (question ∷ [])
