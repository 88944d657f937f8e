-- ===== src/Chat/SubAgent/Depth.antt =====
-- The depth limit of the tree of sub-agents that open-bbcd/internal/chat/subagent.go runs.
use open_bbc.Base.{
  ℕ, zero, suc, String, ◌≡◌, ◌∙◌, refl, ap, ◌+◌, ◌≤◌, true, Option, none, some, List, [], ◌∷◌, leb,
  lookup, arith,
}
use open_bbc.Chat.Turn.{turn_with}
use open_bbc.Llm.{text, Block, ToolUse}
use open_bbc.Chat.Env.{SubAgentBinding, AgentInput, Env, Config, State, Sink}
use open_bbc.Chat.AgentTool
use open_bbc.Chat.AgentTool.{AgentResult, parse_agent_input}
use open_bbc.Chat.Round.{Setting}
use open_bbc.Chat.SubAgent.{
  ChildTurn, run, delegated, dispatched, run_agent_call, acquired, run_one, turn_at, turn,
}

leb-le : (a b : ℕ) → a ≤ b → leb a b ≡ true
leb-le a b h = ground arith

module _ {W : Type 0} (env : Env W) (config : Config) (c d : ChildTurn W) (depth : ℕ)
    (deep : config.max_depth ≤ depth) (root : String) where
  run-at_limit :
      (at : Setting) (b : SubAgentBinding) (tu : ToolUse) (input : AgentInput)
      → run env config c depth root at b tu input ≡ run env config d depth root at b tu input
  unfolding run
  run-at_limit at b tu input = rw (leb-le config.max_depth depth deep)

  delegated-at_limit :
      (at : Setting) (tu : ToolUse) (input : AgentInput) (b : Option SubAgentBinding)
      → delegated env config c depth root at tu input b
        ≡ delegated env config d depth root at tu input b
  unfolding delegated
  delegated-at_limit at tu input none = refl
  delegated-at_limit at tu input (some b) = run-at_limit at b tu input

  dispatched-at_limit :
      (at : Setting) (bs : List (String × SubAgentBinding)) (tu : ToolUse)
      (r : AgentResult AgentInput)
      → dispatched env config c depth root at bs tu r
        ≡ dispatched env config d depth root at bs tu r
  unfolding dispatched
  dispatched-at_limit at bs tu (AgentTool.err e) = refl
  dispatched-at_limit at bs tu (AgentTool.ok input) =
      delegated-at_limit at tu input (lookup input.subagent bs)

  run_one-here :
      (at : Setting) (bs : List (String × SubAgentBinding)) (tu : ToolUse) (s : State W)
      → run_one env config c depth root at bs tu s ≡ run_one env config d depth root at bs tu s
  unfolding run_one acquired run_agent_call
  run_one-here at bs tu s = rw (dispatched-at_limit at bs tu (parse_agent_input env.codec tu.input))

  run_one-at_limit : run_one env config c depth root ≡ run_one env config d depth root
  run_one-at_limit i at bs tu s = run_one-here at bs tu s i

-- A turn's outcome does not depend on the fuel, once it covers the levels down to the depth limit:
-- the level that has none left is never entered.
pub turn_at-enough_fuel :
    {W : Type 0} (env : Env W) (config : Config) (fuel depth : ℕ)
    → config.max_depth ≤ depth + fuel
    → (root agent session : String) (input : List Block) (sink : Sink)
    → turn_at env fuel config depth root agent session input sink
      ≡ turn_at env (suc fuel) config depth root agent session input sink
unfolding turn_at
turn_at-enough_fuel env config zero depth enough root agent session input sink =
    ap (λ x. turn_with env config x sink agent session input)
      (run_one-at_limit env config _ _ depth (ground arith) root)
turn_at-enough_fuel env config (suc fuel) depth enough root agent session input sink =
    ap (λ x. turn_with env config (run_one env config x depth root) sink agent session input)
      (λ i version child prompt events.
        turn_at-enough_fuel env config fuel (suc depth) (ground arith) root version child
          (text prompt ∷ []) events i)

plus_suc : (a b : ℕ) → a + suc b ≡ suc (a + b)
plus_suc a b = omega arith

more_fuel :
    {W : Type 0} (env : Env W) (config : Config) (agent session : String) (input : List Block)
    (sink : Sink) (extra : ℕ)
    → turn_at env config.max_depth config 0 session agent session input sink
      ≡ turn_at env (config.max_depth + extra) config 0 session agent session input sink
more_fuel env config agent session input sink zero = grind arith
more_fuel env config agent session input sink (suc k) =
    more_fuel env config agent session input sink k
    ∙ rw (plus_suc config.max_depth k) (
        turn_at-enough_fuel env config (config.max_depth + k) 0 (ground arith) session agent session
          input sink)

-- A turn runs with fuel for its whole tree: any more gives the same outcome and trace.
pub turn-enough_fuel :
    {W : Type 0} (env : Env W) (config : Config) (extra : ℕ) (agent session : String)
    (input : List Block) (sink : Sink)
    → turn env config agent session input sink
      ≡ turn_at env (config.max_depth + extra) config 0 session agent session input sink
unfolding turn
turn-enough_fuel env config extra agent session input sink =
    more_fuel env config agent session input sink extra
