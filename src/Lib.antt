-- ===== src/Lib.antt =====
-- OpenBBC (open-bbcd): its chat service, which is one conversational turn of an agent with its tools,
-- artifacts and sub-agents; the store of agent versions, their sub-agent bindings, evals and training
-- sessions; and, around these, the sink that writes a turn's events to an AG-UI stream, the routing
-- of tool calls to backends, the ids of skills and the parallel nodes of their workflows, and the
-- pages of lists.
--
-- A turn (open-bbcd/internal/chat/orchestrator.go, `Turn`) loads the agent version and the history,
-- exposes the tools, persists the user message, and then loops: it renders the conversation's
-- artifact references for the provider, streams the provider's answer into an assistant message,
-- persists that, executes the tool calls into a tool message, and asks again. Agent calls are run as
-- child turns, whose events go through a relabelling sink to the root's stream.
--
-- The store keeps the versions of each agent, of which Deploy makes one serve. A version names the
-- versions that its agent tool may call (its bindings), which a turn reads; evals and training
-- sessions run on versions, and a finished training forks a new one.
--
-- The AG-UI sink is one implementation of the sink that a turn sends its events to, and the composite
-- handler one of the tool handler that it calls; each is modelled by itself.
--
-- Files, each with the source that it models:
--   Llm.antt, Llm/Surrogate.antt   open-bbcd/internal/llm/llm.go: blocks, messages, events, `itoa`,
--     `HumanBytes`, `TextSurrogate`
--   Transport.antt                 open-bbcd/internal/transport/transport.go: events
--   Artifacts/Label.antt, Mime.antt  open-bbcd/internal/artifacts/mime.go: `CleanText`, `ResolveMIME`
--   Chat/Render.antt               open-bbcd/internal/chat/artifacts.go: `renderArtifactsForLLM`
--   Chat/Normalise.antt            the same file: `normaliseToolResult`
--   Chat/Stream.antt               orchestrator.go: the loop over the provider's events
--   Chat/Stored.antt               orchestrator.go: `blocksToJSON`, `parseBlocks`, `historyToLLM`
--   Chat/AgentTool.antt            open-bbcd/internal/chat/agent_tool.go, and `tools/names.go`
--   Chat/Env.antt                  the rows, the errors, and the interfaces that the orchestrator
--     holds (`AgentReader`, `ChatStore`, `LLM`, `ToolHandlerBuilder`, uploader)
--   Chat/Round.antt, Loop.antt, Turn.antt  orchestrator.go: `Turn`
--   Chat/ChildSink.antt, ChildResult.antt, SubAgent.antt  open-bbcd/internal/chat/subagent.go
--   The modules Keeps follow the effects of each of these through a turn; Chat/SubAgent/Tree.antt and
--     Chat/SubAgent/Requests.antt put them together for the whole tree of child turns
--   Store.antt                     the tables of open-bbcd/migrations, the errors, transactions
--   Store/Rows.antt                the SQL statements on one table
--   Store/Versions.antt, Removal.antt  open-bbcd/internal/repository/agent_version.go, and
--     `CreateFromWizard` of agent.go
--   Store/Bindings.antt, Bindings/Name.antt, Bindings/Reach.antt  repository/subagent.go
--   Store/Evals.antt, Evals/Races.antt, Trainings.antt  repository/eval.go, training_session.go
--   Store/Steps.antt               the transactions that the handlers ask for, in sequence
--   Store/Effects.antt and below   what each transaction can do to versions, bindings and evals;
--     Store/Invariant, Store/Reached.antt and Store/Slots.antt build on these effects
--   Tools/Composite.antt           open-bbcd/internal/llm/tools/composite.go, one session's tool handler
--   Handler/Pagination.antt        open-bbcd/internal/handler/pagination.go, `slicePage` of ui.go
--   Transport/Agui.antt            open-bbcd/internal/transport/agui/agui.go, the AG-UI sink
--   Flowmap/Id.antt                open-bbcd/internal/flowmap/id.go
--   Flowmap/Bypass.antt            `bypassParallel` of flowmap/normalize.go
--   Json.antt                      `json.Valid` and `bytes.TrimSpace` of Go's library
--   Base.antt                      shared names and lemmas; Tests.antt: concrete runs
--
-- A turn is a function of a state: a world `W`, which only the collaborators read and change, and a
-- trace of what it did (events, requests, appended rows, child sessions). Each collaborator call
-- returns, fails or panics, as its parameter says. A failed call ends the turn as `failTurn` does.
--
-- A transaction is a function of all tables that commits new ones or rolls back with an error, and
-- a run is a sequence of them. Some transactions lock the rows that they read, which keeps them apart
-- where they touch the same rows. Those that do not may also interleave, which runs leave out: `Submit`
-- and `Fail` of an eval read its status without a lock and write by its id alone, so their two halves
-- are definitions of their own, which Store/Evals/Races.antt runs out of step.
-- A repository call that Go makes without a transaction is one step as well. New ids are arguments.
-- Failures of the connection are not modelled. `land_bundle` starts from the two parts of the bundle.
--
-- Fuel: the tool loop recurs on the tool rounds left (`MaxToolRounds`), so it ends by itself. The
-- tree of child turns has fuel `MaxDepth`, since a call at that depth is refused. `itoa` has the 20
-- places of its buffer. The recursive query has as many rounds as there are bindings, and the cascade
-- over chat sessions as many as there are sessions; a round that adds nothing is the last.
--
-- Not modelled: log lines; errors of `Sink.Send`, which the source ignores; the concurrency of the
-- agent calls of one step, which run here one after the other in slot order (so `MaxParallel` and
-- the lock of `lockedSink` have no part); Go's encoding/json beyond `json.Valid`, which is the
-- parameter `Codec`; the repositories of chats,
-- datasets, artifacts and backends and the deletion of an agent, columns of times, the tool backends,
-- the other HTTP handlers, cloud stores, and the Python tools.
pub mod Base
pub mod Llm
pub mod Json
pub mod Transport
pub mod Chat
pub mod Artifacts
pub mod Store
pub mod Tools
pub mod Handler
pub mod Flowmap
pub mod Tests
