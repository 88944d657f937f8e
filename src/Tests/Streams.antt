-- ===== src/Tests/Streams.antt =====
-- Streamed rounds, rendered conversations and stored messages (open-bbcd/internal/chat).
use open_bbc.Base.{◌≡◌, refl, arith, true, false, some, List, [], ◌∷◌, All, map}
use open_bbc.Llm
use open_bbc.Llm.{Bytes, Block, Message}
use open_bbc.Llm.Surrogate.{text_surrogate, attachment_note}
use open_bbc.Json.{valid, trim_space}
use open_bbc.Tests.Fixtures.{photo, renderer, object_bytes}
use open_bbc.Chat.Stream.{new_round, on_events, finish_input}
use open_bbc.Chat.Stream.Answers.{use_ids, id_of, stream_queues_every_call}
use open_bbc.Chat.Stream.Inputs.{HasObject, queued_inputs_are_objects, form_feed_passes}
use open_bbc.Chat.Stream.Text.{text_of, deltas, accumulated_text}
use open_bbc.Chat.Render
use open_bbc.Chat.Render.{
  new_render_cache, render_artifacts, Pass, visit_messages, visit_blocks, visit, visit_ref,
  render_one, place, base64_len, prune,
}
use open_bbc.Chat.Render.Budget.{
  IsWithin, sum_messages, media_bytes, media_count, render-IsWithin_budget,
}
use open_bbc.Chat.Render.Shape.{IsClean, MessagesFollow, RendersNative, render-Follows}

abbrev events : List Llm.Event
events =
    Llm.text_delta "Let me "
    ∷ Llm.text_delta "look."
    ∷ Llm.tool_use_start "t1" "search"
    ∷ Llm.tool_use_input "t1" (b'{' ∷ [])
    ∷ Llm.tool_use_input "t1" (b'}' ∷ [])
    ∷ Llm.tool_use_end "t1"
    ∷ Llm.usage 10 5
    ∷ Llm.message_stop "tool_use"
    ∷ []

stream_queues_every_call_example :
    let s = (on_events "m1" events (new_round 0 0)).0 in use_ids s.blocks ≡ map id_of s.pending
stream_queues_every_call_example =
    stream_queues_every_call "m1" events 0 0 (refl, (refl, (refl, tt)))

queued_inputs_are_objects_example : All HasObject (on_events "m1" events (new_round 0 0)).0.pending
queued_inputs_are_objects_example = queued_inputs_are_objects "m1" events 0 0

accumulated_text_example : text_of (on_events "m1" events (new_round 0 0)).0.blocks ≡ deltas events
accumulated_text_example = accumulated_text "m1" events 0 0

object_bytes-valid : valid object_bytes ≡ true
unfolding valid
object_bytes-valid = refl

form_feed_passes_example :
    (finish_input (0x0c ∷ object_bytes) ≡ (0x0c ∷ object_bytes, false))
    × (valid (0x0c ∷ object_bytes) ≡ false)
form_feed_passes_example =
    form_feed_passes object_bytes
      (unfold trim_space in refl, unfold trim_space in object_bytes-valid)

-- Three images of three bytes: the budget has room for one of them.
abbrev conversation : List Message
conversation =
    record { role = Llm.user; content = Llm.text "see" ∷ Llm.artifact_ref photo ∷ [] }
    ∷ record { role = Llm.tool; content = Llm.artifact_ref photo ∷ Llm.artifact_ref photo ∷ [] }
    ∷ []

abbrev shown : Block
shown = Llm.inline_media (record { mime = "image/png"; bytes = 1 ∷ 2 ∷ 3 ∷ [] })

abbrev noted : Block
noted = text_surrogate photo

abbrev rendered_conversation : List Message
rendered_conversation =
    record { role = Llm.user; content = Llm.text "see" ∷ noted ∷ [] }
    ∷ record { role = Llm.tool; content = noted ∷ shown ∷ [] }
    ∷ []

abbrev pass_after : Pass
pass_after = record {
  cache = record { rendered = (Render.key_of photo, shown) ∷ []; not_native = [] };
  used_bytes = 4;
  used_blocks = 1;
  exhausted = true;
  placed = Render.key_of photo ∷ [];
  clock = 1;
}

rendered_run :
    render_artifacts (some renderer) conversation new_render_cache 0
    ≡ Render.ok rendered_conversation pass_after
unfolding render_artifacts visit_messages visit_blocks visit visit_ref render_one place base64_len
    prune
rendered_run = refl

renderer-RendersNative : RendersNative renderer
renderer-RendersNative clock ref b h = ground arith

-- The surrogate is a text that says what is attached.
noted-text : noted ≡ Llm.text "[Attachment: cat.png (image/png, 3 B)]"
unfolding attachment_note
noted-text = refl

render-IsWithin_budget_example :
    IsWithin 6 (sum_messages media_bytes rendered_conversation)
    × IsWithin 2 (sum_messages media_count rendered_conversation)
render-IsWithin_budget_example =
    render-IsWithin_budget renderer conversation rendered_conversation new_render_cache 0 pass_after
      refl rendered_run

render-Follows_example :
    IsClean pass_after.cache × MessagesFollow conversation rendered_conversation
render-Follows_example =
    render-Follows (some renderer) conversation rendered_conversation new_render_cache 0 pass_after
      renderer-RendersNative tt rendered_run

-- A no-break space in front of an object is trimmed for the test, and kept.
no_break_space_passes :
    finish_input (0xc2 ∷ 0xa0 ∷ object_bytes) ≡ (0xc2 ∷ 0xa0 ∷ object_bytes, false)
unfolding finish_input trim_space valid
no_break_space_passes = refl
