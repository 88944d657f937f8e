-- ===== src/Store/Removal.antt =====
-- `Delete` of AgentVersionRepository (open-bbcd/internal/repository/agent_version.go), with what the
-- foreign keys of open-bbcd/migrations do to the rows that name the version.
use open_bbc.Base.{
  ℕ, zero, suc, String, Bool, false, not, ◌&&◌, ◌||◌, Option, none, some, List, map, any, keep,
  length, ◌==◌,
}
use open_bbc.Chat.Env.{SubAgentBinding}
use open_bbc.Store.{
  deployed, ChatSessionRow, DeployedSessionRow, EvalRow, EvalSessionRow, TrainingRow, McpAttachment,
  Db, restricted, not_found, version_in_use, version_has_children, session_in_dataset,
  version_referenced, violates, ok, ◌>>=◌, ◌>>◌, or_err, check, Tx, is_status, version_of,
}
use open_bbc.Store.Rows.{update_where, delete_where}
use open_bbc.Store.Versions.{is_version, is_text}

abbrev is_among : List String → String → Bool
is_among ids id = any (λ i. i == id) ids

abbrev is_among? : List String → Option String → Bool
is_among? ids none = false
is_among? ids (some id) = is_among ids id

-- The chat sessions that a delete takes along: each round adds the children of those so far.
unfoldable pub doomed_sessions : (rounds : ℕ) → List ChatSessionRow → List String → List String
doomed_sessions zero rows ids = ids
doomed_sessions (suc n) rows ids = doomed_sessions n rows (
    map (λ (s : ChatSessionRow). s.id)
      (keep (λ s. is_among ids s.id || is_among? ids s.parent_session_id) rows))

-- ON DELETE CASCADE from the version to its chat sessions and their children.
unfoldable pub chat_cascade : String → Db → List String
unfolding doomed_sessions
chat_cascade id db =
    doomed_sessions (length db.chat_sessions) db.chat_sessions
      (map (λ (s : ChatSessionRow). s.id) (keep (λ s. s.agent_version_id == id) db.chat_sessions))

abbrev evals_of : String → Db → List String
evals_of id db =
    map (λ (e : EvalRow). e.id) (keep (λ (e : EvalRow). e.agent_version_id == id) db.evals)

-- ON DELETE RESTRICT: a dataset or an eval names a session that would go, a training session the
-- version or one of its evals.
unfoldable pub is_restricted : String → Db → Bool
unfolding chat_cascade
is_restricted id db =
    let sessions = chat_cascade id db in
    any (is_among sessions) db.dataset_sessions
    || any (λ (s : EvalSessionRow). is_among sessions s.session_id) db.eval_sessions
    || any
        (λ (t : TrainingRow).
          t.parent_version_id == id || is_among (evals_of id db) t.source_eval_id)
        db.trainings

-- DELETE FROM agent_versions, with its cascades and SET NULL.
unfoldable pub remove_version : String → Db → Db
unfolding chat_cascade
remove_version id db = record db {
  versions = delete_where (is_version id) db.versions;
  bindings = delete_where (λ (b : SubAgentBinding). b.caller_version_id == id) db.bindings;
  mcp = delete_where (λ (m : McpAttachment). m.agent_version_id == id) db.mcp;
  chat_sessions =
      delete_where (λ (s : ChatSessionRow). is_among (chat_cascade id db) s.id) db.chat_sessions;
  evals = delete_where (λ (e : EvalRow). e.agent_version_id == id) db.evals;
  eval_sessions =
      delete_where (λ (s : EvalSessionRow). is_among (evals_of id db) s.eval_id) db.eval_sessions;
  trainings =
      update_where (λ (t : TrainingRow). is_text id t.new_version_id)
        (λ t. record t { new_version_id = none }) db.trainings;
}

-- A session that is pinned to the version stands in a dataset.
abbrev pub is_pinned : String → Db → Bool
is_pinned id db =
    any (λ (s : ChatSessionRow). s.agent_version_id == id && is_among db.dataset_sessions s.id)
      db.chat_sessions

-- A binding's target, a deployed child's version or a locked session's version.
abbrev pub is_referenced : String → Db → Bool
is_referenced id db =
    any (λ (b : SubAgentBinding). b.target_version_id == id) db.bindings
    || any (λ (s : DeployedSessionRow). is_text id s.agent_version_id) db.deployed_sessions
    || any (λ (s : ChatSessionRow). s.agent_version_id == id && s.locked) db.chat_sessions

-- `Delete`
unfoldable pub delete_version : String → Tx (Unit {0})
unfolding is_restricted remove_version
delete_version id db = do
  v ← or_err not_found (version_of db id)
  check (not (is_status v.status deployed)) version_in_use
  check (not (any (λ w. is_text id w.parent_version_id) db.versions)) version_has_children
  check (not (is_pinned id db)) session_in_dataset
  check (not (is_referenced id db)) version_referenced
  check (not (is_restricted id db)) (violates restricted)
  ok (tt, remove_version id db)
