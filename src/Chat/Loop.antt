-- ===== src/Chat/Loop.antt =====
-- The tool-use loop of `Turn` in open-bbcd/internal/chat/orchestrator.go. The loop recurs on the
-- tool rounds that are left, `MaxToolRounds - toolRounds`, so it ends by itself.
pub mod Cap
pub mod Keeps
pub mod Requests
use open_bbc.Base.{
  ℕ, zero, suc, String, Option, none, some, List, [], ◌∷◌, ◌++◌, ◌==◌, if◌then◌else◌,
}
use open_bbc.Llm
use open_bbc.Llm.{Bytes, Block, Message, Request, ToolDef, ToolUse}
use open_bbc.Chat.Render.{Cache}
use open_bbc.Chat.Stream.{drop_truncated}
use open_bbc.Chat.Env.{Env, Io, ◌>>=◌, ◌>>◌, pure}
use open_bbc.Chat.Round.{
  Delegate, Setting, Streamed, stream_round, persist_assistant, execute_tools,
}

-- What changes from round to round.
pub record LoopState : Type 0 where
  pub messages : List Message
  pub cache : Cache
  pub clock : ℕ
  pub usage_in : ℕ
  pub usage_out : ℕ

pub record TurnResult : Type 0 where
  pub stop_reason : String
  pub usage_in : ℕ
  pub usage_out : ℕ

-- What follows the stream of a round: the turn stops, or the calls of this message are executed.
pub data Next : Type 0 where
  stops : Next
  calls : List Block → Next

-- The parts of a request that do not change.
abbrev request_of : Request → List Message → Request
request_of req ms = record req { messages = ms }

abbrev pub result_of : String → Streamed → TurnResult
result_of reason r = record {
  stop_reason = reason;
  usage_in = r.round.usage_in;
  usage_out = r.round.usage_out;
}

-- The request of the next round: both messages are added.
abbrev pub extended : LoopState → Streamed → List Block → List Block → LoopState
extended st r assistant_blocks tool_blocks = record {
  messages =
      st.messages
      ++ record { role = Llm.assistant; content = assistant_blocks }
        ∷ record { role = Llm.tool; content = tool_blocks }
        ∷ [];
  cache = r.cache;
  clock = r.clock;
  usage_in = r.round.usage_in;
  usage_out = r.round.usage_out;
}

module _ {W : Type 0} (env : Env W) where
  -- Persists what is left of the round, and reads the stop reason.
  persist_kept : Setting → Streamed → Option (List Block) → Io W Next
  persist_kept at r none = pure stops
  persist_kept at r (some blocks) =
      persist_assistant env at r.message_id blocks
      >> pure (if r.round.stop_reason == "tool_use" then calls blocks else stops)

  unfoldable pub close_round : Setting → Streamed → Io W Next
  unfolding persist_kept
  close_round at r = persist_kept at r (drop_truncated r.round)

  unfoldable pub stream : Setting → Request → LoopState → Io W Streamed
  stream at req st =
      stream_round env at.sink (request_of req st.messages) st.cache st.clock st.usage_in
        st.usage_out

  -- At the cap the round's message is persisted, and its calls are not executed.
  at_cap : Streamed → Next → Io W TurnResult
  at_cap r stops = pure (result_of r.round.stop_reason r)
  at_cap r (calls blocks) = pure (result_of "max_tool_rounds" r)

  go_on :
      Delegate W
      → Setting
      → (LoopState → Io W TurnResult)
      → LoopState
      → Streamed
      → Next
      → Io W TurnResult
  go_on delegate at again st r stops = pure (result_of r.round.stop_reason r)
  go_on delegate at again st r (calls blocks) =
      execute_tools env delegate at r.round.invalid r.round.pending >>= λ answers.
      again (extended st r blocks answers)

  unfoldable pub loop : ℕ → Delegate W → Setting → Request → LoopState → Io W TurnResult
  unfolding at_cap go_on
  loop zero delegate at req st = stream at req st >>= λ r. close_round at r >>= at_cap r
  loop (suc k) delegate at req st = stream at req st >>= λ r.
      close_round at r >>= go_on delegate at (λ st'. loop k delegate at req st') st r
