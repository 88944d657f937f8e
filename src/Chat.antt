-- ===== src/Chat.antt =====
-- open-bbcd/internal/chat: the per-turn orchestrator and its parts.
pub mod Render
pub mod Stream
pub mod Env
pub mod Normalise
pub mod Stored
pub mod AgentTool
pub mod Round
pub mod Loop
pub mod Turn
pub mod ChildSink
pub mod ChildResult
pub mod SubAgent
