-- ===== src/Chat/Loop/Cap.antt =====
-- The cap on tool rounds of `Turn` (open-bbcd/internal/chat/orchestrator.go).
use mathlib.Core.Path.{subst}
use open_bbc.Chat.Stream.{drop_truncated}
use open_bbc.Base.{
  ◌==◌, Bool-cases, inl, inr, zero, String, ◌≡◌, refl, sym, ap, Option, none, some, List, [], ◌∷◌,
  ◌++◌,
}
use open_bbc.Llm
use open_bbc.Llm.{Block, text, tool_use, tool_result, artifact_ref, inline_media, Message, Request}
use open_bbc.Chat.Env.{
  Codec, ok, ChatMessage, Content, Env, Effect, appended_assistant, State, lift,
}
use open_bbc.Chat.Env.Run.{>>=-eq-ok, returned-injective}
use open_bbc.Chat.Stored.{Encoded, encoded, failed, blocks_to_json, history_to_llm}
use open_bbc.Chat.Stored.RoundTrip.{reloaded_blocks, history-blocks_to_json}
use open_bbc.Chat.Stream.Answers.{use_ids}
use open_bbc.Chat.Round.{Delegate, Setting, Streamed, encode, or_fail, persist_assistant}
use open_bbc.Chat.Round.Keeps.{or_fail-eq-ok}
use open_bbc.Chat.Loop.{
  LoopState, calls, result_of, persist_kept, close_round, stream, at_cap, loop,
}
use open_bbc.Chat.Loop.Requests.{IsPaired}

encode-eq-ok :
    {W : Type 0} (e : Encoded Content) (s t : State W) (c : Content)
    → encode e s ≡ (ok c, t)
    → e ≡ encoded c
encode-eq-ok (encoded d) s t c h = cc
encode-eq-ok (failed e) s t c h = cc

use_ids-reloaded_blocks :
    (codec : Codec) (bs : List Block) → use_ids (reloaded_blocks codec bs) ≡ use_ids bs
use_ids-reloaded_blocks codec [] = refl
use_ids-reloaded_blocks codec (tool_use u ∷ bs) = rw (use_ids-reloaded_blocks codec bs)
use_ids-reloaded_blocks codec (text u ∷ bs) = use_ids-reloaded_blocks codec bs
use_ids-reloaded_blocks codec (tool_result u ∷ bs) = use_ids-reloaded_blocks codec bs
use_ids-reloaded_blocks codec (artifact_ref u ∷ bs) = use_ids-reloaded_blocks codec bs
use_ids-reloaded_blocks codec (inline_media u ∷ bs) = use_ids-reloaded_blocks codec bs

IsPaired-tail : (ms ns : List Message) → IsPaired (ms ++ ns) → IsPaired ns
IsPaired-tail [] ns h = h
IsPaired-tail (m ∷ ms) ns h = IsPaired-tail ms ns h.1

-- The latest effect is a stored assistant message with these blocks.
abbrev pub EndsWith : {W : Type 0} → Codec → List Block → State W → Type 0
EndsWith codec bs t =
    (row : ChatMessage) × (earlier : List Effect) × (t.trace ≡ appended_assistant row ∷ earlier)
    × (blocks_to_json codec bs ≡ encoded row.content)

module _ {W : Type 0} (env : Env W) (at : Setting) where
  persist_assistant-EndsWith :
      (msg : String) (bs : List Block) (s t : State W) (x : Unit {0})
      → persist_assistant env at msg bs s ≡ (ok x, t)
      → EndsWith env.codec bs t
  unfolding persist_assistant
  persist_assistant-EndsWith msg bs s t x h =
      let (content, s1, e1, h1) =
        >>=-eq-ok (or_fail at.sink "encode_assistant_msg" (encode (blocks_to_json env.codec bs))) _
          s h in
      let (seq, s2, e2, h2) =
        >>=-eq-ok (or_fail at.sink "seq_assign" (lift (env.next_seq at.session_id))) _ s1 h1 in
      let row : ChatMessage = record {
        id = msg;
        session_id = at.session_id;
        role = Llm.assistant;
        content = content;
        seq = seq;
      } in
      let (_, s3, e3, h3) =
        >>=-eq-ok
          (or_fail at.sink "persist_assistant_msg" (lift (env.append_messages at.version_id row))) _
          s2 h2 in
      (
        row,
        s3.trace,
        sym (ap (λ r. r.1.trace) h3),
        encode-eq-ok (blocks_to_json env.codec bs) s s1 content (
            or_fail-eq-ok (λ _. Unit) (λ _. Unit) at.sink "encode_assistant_msg"
              (encode (blocks_to_json env.codec bs)) s s1 content e1),
      )

  persist_kept-EndsWith :
      (r : Streamed) (o : Option (List Block)) (bs : List Block) (s t : State W)
      → persist_kept env at r o s ≡ (ok (calls bs), t)
      → EndsWith env.codec bs t
  unfolding persist_kept
  persist_kept-EndsWith r none bs s t h = cc
  persist_kept-EndsWith r (some cs) bs s t h =
      let (x, u, e, h') = >>=-eq-ok (persist_assistant env at r.message_id cs) _ s h in
      elim (Bool-cases (r.round.stop_reason == "tool_use")) [
        | inl stopped ↦
            let there = rw stopped at h' in
            let kept = returned-injective (calls cs) (calls bs) u t there in
            let same : cs ≡ bs = cc in
            subst (λ v. EndsWith env.codec bs v) (ap (λ p. p.1) there)
              (subst (λ ds. EndsWith env.codec ds u) same
                (persist_assistant-EndsWith r.message_id cs s u x e))
        | inr other ↦ let bad = returned-injective _ (calls bs) u t (rw other at h') in absurd cc
      ]

row-unanswered :
    (codec : Codec) (row : ChatMessage) (bs : List Block) (i : String) (is : List String)
    (earlier : List Message)
    → blocks_to_json codec bs ≡ encoded row.content
    → use_ids bs ≡ i ∷ is
    → ¬ IsPaired (earlier ++ history_to_llm (row ∷ []))
row-unanswered codec row bs i is earlier stored ids paired =
    let tail =
      subst IsPaired (history-blocks_to_json codec bs row stored)
        (IsPaired-tail earlier _ paired) in
    (rw (use_ids-reloaded_blocks codec bs, ids) at tail).0

-- At the cap on tool rounds, a round that stopped for its tools is stored, none of its calls is
-- executed, and the turn returns `max_tool_rounds`. If the stored message has a tool call, then the
-- history that ends with it leaves that call unanswered.
pub cap_leaves_calls_unanswered :
    {W : Type 0} (env : Env W) (at : Setting) (delegate : Delegate W) (req : Request)
    (st : LoopState) (s t u : State W) (r : Streamed) (bs : List Block) (i : String)
    (is : List String)
    → stream env at req st s ≡ (ok r, t)
    → close_round env at r t ≡ (ok (calls bs), u)
    → use_ids bs ≡ i ∷ is
    → (earlier : List Message)
    → (loop env zero delegate at req st s ≡ (ok (result_of "max_tool_rounds" r), u))
      × ((row : ChatMessage) × (rest : List Effect) × (u.trace ≡ appended_assistant row ∷ rest)
          × (¬ IsPaired (earlier ++ history_to_llm (row ∷ []))))
unfolding loop at_cap close_round
cap_leaves_calls_unanswered env at delegate req st s t u r bs i is streamed closed ids earlier =
    let (row, rest, last, stored) =
      persist_kept-EndsWith env at r (drop_truncated r.round) bs t u closed in
    (
      rw (streamed, closed) refl,
      (row, rest, last, row-unanswered env.codec row bs i is earlier stored ids),
    )
