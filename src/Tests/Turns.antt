-- ===== src/Tests/Turns.antt =====
-- Stored messages, tool results, the steps of a turn and sub-agents (open-bbcd/internal/chat).
use open_bbc.Base.{keep, not, nat_eq, lookup, ◌≡◌, refl, false, List, [], ◌∷◌, ◌+◌, arith, eq_iff}
use open_bbc.Llm
use open_bbc.Llm.{Bytes, Block, Message}
use open_bbc.Json.{valid, trim_space}
use open_bbc.Transport
use open_bbc.Tests.Fixtures.{
  photo, object_bytes, search_call, env, codec, sniffer, upload, config, start,
}
use open_bbc.Chat.Env
use open_bbc.Chat.Env.{Codec, ok, blocks, ChatMessage, root_sink, State, AgentInput, decoded}
use open_bbc.Chat.Stored.{
  encoded, blocks_to_json, history_to_llm, store_blocks, store_block, marshal_raw,
}
use open_bbc.Chat.Stored.RoundTrip.{reloaded_blocks, history-blocks_to_json}
use open_bbc.Chat.Normalise.{
  NormaliseResult, normalise_tool_result, normalise_items, normalise_item, inline_media,
  carries_inline_bytes,
}
use open_bbc.Chat.Normalise.Safe.{IsNormalised, normalise-IsNormalised}
use open_bbc.Chat.AgentTool
use open_bbc.Chat.AgentTool.{parse_agent_input}
use open_bbc.Artifacts.Label.{is_blank, trim_left, trim_right, cons_trimmed}
use open_bbc.Chat.SubAgent.{turn, turn_at}
use open_bbc.Chat.ChildSink.{child_sink}
use open_bbc.Chat.ChildSink.Events.{sink_under, SeenAtRoot, nested_sinks}
use open_bbc.Chat.SubAgent.Depth.{turn-enough_fuel}

-- A codec that compacts raw values by leaving out spaces.
abbrev compacting : Codec
compacting = record codec { stored_raw = λ raw. keep (λ c. not (nat_eq c 0x20)) raw }

abbrev spoken : List Block
spoken =
    Llm.text "Found it."
    ∷ Llm.tool_use (record search_call { input = b'{' ∷ 0x20 ∷ b'}' ∷ [] })
    ∷ Llm.artifact_ref photo
    ∷ []

abbrev row : ChatMessage
row = record {
  id = "m1";
  session_id = "root";
  role = Llm.assistant;
  content = blocks (
      Env.text "Found it." ∷ Env.tool_use "t1" "search" object_bytes ∷ Env.artifact_ref photo ∷ []);
  seq = 4;
}

spoken-stored : blocks_to_json compacting spoken ≡ encoded row.content
unfolding blocks_to_json store_blocks store_block marshal_raw valid
spoken-stored = refl

history-blocks_to_json_example :
    history_to_llm (row ∷ [])
    ≡ record { role = Llm.assistant; content = reloaded_blocks compacting spoken } ∷ []
history-blocks_to_json_example = history-blocks_to_json compacting spoken row spoken-stored

nested_sinks_example :
    SeenAtRoot root_sink "inner"
      (Transport.tool_call_end "t1" "")
      (child_sink (sink_under root_sink ("outer" ∷ [])) "inner" (Transport.tool_call_end "t1" ""))
nested_sinks_example =
    nested_sinks ("outer" ∷ []) root_sink "inner" (λ h. ground (arith, (eq_iff "inner" "").1 h))
      (Transport.tool_call_end "t1" "")

turn-enough_fuel_example :
    turn env config "a1" "root" (Llm.text "hi" ∷ []) root_sink
    ≡ turn_at env (2 + 3) config 0 "root" "a1" "root" (Llm.text "hi" ∷ []) root_sink
turn-enough_fuel_example = turn-enough_fuel env config 3 "a1" "root" (Llm.text "hi" ∷ []) root_sink

abbrev input : AgentInput
input = record { subagent = "helper"; description = "look"; prompt = "find it" }

input-parsed : parse_agent_input codec object_bytes ≡ AgentTool.ok input
unfolding parse_agent_input is_blank trim_left trim_right cons_trimmed trim_space
input-parsed = refl

abbrev media_result : NormaliseResult
media_result = record { refs = photo ∷ []; output = object_bytes; force_error = false }

media_run :
    normalise_tool_result codec sniffer upload object_bytes start
    ≡ (ok media_result, record { world = 1; trace = [] })
unfolding normalise_tool_result normalise_items normalise_item inline_media carries_inline_bytes
    lookup
media_run = refl

normalise-IsNormalised_example :
    IsNormalised codec sniffer upload object_bytes ((1 ∷ []) ∷ (2 ∷ []) ∷ []) media_result
normalise-IsNormalised_example =
    normalise-IsNormalised codec sniffer upload object_bytes ((1 ∷ []) ∷ (2 ∷ []) ∷ []) start
      (record { world = 1; trace = [] }) media_result refl media_run
