-- ===== src/Store/Evals.antt =====
-- EvalRepository (open-bbcd/internal/repository/eval.go), with the temporary gate that refuses evals
-- of versions whose agent tool is enabled.
pub mod Races
use open_bbc.Base.{
  ℕ, String, Bool, true, false, not, ◌&&◌, none, some, List, [], ◌∷◌, any, ◌==◌, if◌then◌else◌,
}
use open_bbc.Llm.{Bytes}
use open_bbc.Store.{
  RunStatus, in_progress, done, failed, ChatSessionRow, EvalRow, EvalSessionRow, TrainingRow, Db,
  primary_key, foreign_key, session_once_per_eval, not_found, multi_agent_eval_unsupported,
  eval_not_pending, eval_already_final, violates, Result, ok, err, ◌>>=◌, ◌>>◌, or_err, check, Tx,
  is_final, version_of, eval_of,
}
use open_bbc.Store.Rows.{update_where}

-- `ErrMultiAgentEvalUnsupported.Error()`
abbrev pub multi_agent_text : String
multi_agent_text =
    "multi-agent eval unsupported: evaluating or training versions with the agent tool enabled is not supported yet"

abbrev pub is_pending : RunStatus → Bool
is_pending RunStatus.pending = true
is_pending s = false

-- The columns that a failure sets.
abbrev pub failed_eval : String → EvalRow → EvalRow
failed_eval message e = record e { status = failed; error_message = message }

abbrev pub is_eval : String → EvalRow → Bool
is_eval id e = e.id == id

-- `versionAgentToolEnabledTx`
unfoldable pub agent_tool_enabled : Db → String → Result Bool
agent_tool_enabled db id = do v ← or_err not_found (version_of db id); ok v.agent_tool_enabled

-- `Create`; `dataset_ok` is the foreign key on the dataset version.
unfoldable pub create_eval :
    (new_id version_id dataset_version_id : String)
    → (dataset_ok mock_mcp : Bool) → (headers : Bytes) → Tx EvalRow
unfolding agent_tool_enabled
create_eval new_id version_id dataset_version_id dataset_ok mock_mcp headers db =
    let e : EvalRow = record {
      id = new_id;
      agent_version_id = version_id;
      dataset_version_id = dataset_version_id;
      status = RunStatus.pending;
      mock_mcp_tools = mock_mcp;
      header_overrides = headers;
      score = none;
      total_criteria = none;
      passed_criteria = none;
      error_message = "";
      aikdm_meta = b'{' ∷ b'}' ∷ [];
    } in
    do
      enabled ← agent_tool_enabled db version_id
      check (not enabled) multi_agent_eval_unsupported
      check (not (any (is_eval new_id) db.evals)) (violates primary_key)
      check dataset_ok (violates foreign_key)
      ok (e, record db { evals = e ∷ db.evals })

-- `lockEvalGateTx`: the eval and its version's flag, by the JOIN.
unfoldable pub lock_eval_gate : Db → String → Result (RunStatus × Bool)
lock_eval_gate db id = do
  e ← or_err not_found (eval_of db id)
  v ← or_err not_found (version_of db e.agent_version_id)
  ok (e.status, v.agent_tool_enabled)

-- `failEvalMultiAgentTx`
unfoldable pub fail_eval_multi_agent : String → Db → Db
fail_eval_multi_agent id db = record db {
  evals =
      update_where (λ (e : EvalRow). e.id == id && is_pending e.status)
        (failed_eval multi_agent_text) db.evals;
}

-- `Start`. The gate commits the failure and answers with its error.
unfoldable pub start_eval : String → Tx (Result (Unit {0}))
unfolding lock_eval_gate fail_eval_multi_agent
start_eval id db = do
  g ← lock_eval_gate db id
  if g.1
      then (if is_pending g.0
          then ok (err multi_agent_eval_unsupported, fail_eval_multi_agent id db)
          else err multi_agent_eval_unsupported)
      else if is_pending g.0
      then ok (
        ok tt,
        record db {
          evals =
              update_where (λ (e : EvalRow). e.id == id && is_pending e.status)
                (λ e. record e { status = in_progress }) db.evals;
        },
      )
      else err eval_not_pending

-- `trainingFailSQL` with its WHERE.
unfoldable pub fail_trainings : (TrainingRow → Bool) → String → Db → Db
fail_trainings p message db = record db {
  trainings =
      update_where p (λ t. record t { status = failed; error_message = message }) db.trainings;
}

-- `FailIfMultiAgent`, with `failTrainingsFromEvalMultiAgentTx`.
unfoldable pub fail_if_multi_agent : String → Tx (Result (Unit {0}))
unfolding lock_eval_gate fail_eval_multi_agent fail_trainings
fail_if_multi_agent id db = do
  g ← lock_eval_gate db id
  let gated = if is_pending g.0 then fail_eval_multi_agent id db else db
  if g.1
      then ok (
        err multi_agent_eval_unsupported,
        fail_trainings (λ t. t.source_eval_id == id && is_pending t.status) multi_agent_text gated,
      )
      else ok (ok tt, db)

-- `EvalResultSession` and `EvalResult` of open-bbcd/internal/types/eval.go.
pub record EvalResultSession : Type 0 where
  pub session_id : String
  pub score : String
  pub total_criteria : ℕ
  pub passed_criteria : ℕ
  pub transcript : Bytes
  pub judgments : Bytes

pub record EvalResult : Type 0 where
  pub status : RunStatus
  pub error_message : String
  pub score : String
  pub total_criteria : ℕ
  pub passed_criteria : ℕ
  pub aikdm_meta : Bytes
  pub sessions : List EvalResultSession

-- `marshalOrEmpty`
abbrev pub marshal_or_empty : Bytes → Bytes
marshal_or_empty [] = b'{' ∷ b'}' ∷ []
marshal_or_empty (b ∷ bs) = b ∷ bs

-- The INSERTs into eval_sessions, in order, with the constraints of the table.
unfoldable pub insert_sessions :
    (id : String)
    → (sessions : List EvalResultSession) → List ChatSessionRow
    → List EvalSessionRow
    → Result (List EvalSessionRow)
insert_sessions id [] chats rows = ok rows
insert_sessions id (s ∷ sessions) chats rows =
    let rest = insert_sessions id sessions chats (
      record {
        eval_id = id;
        session_id = s.session_id;
        score = s.score;
        total_criteria = s.total_criteria;
        passed_criteria = s.passed_criteria;
        transcript = marshal_or_empty s.transcript;
        judgments = marshal_or_empty s.judgments;
      }
      ∷ rows) in
    do
      check (any (λ (c : ChatSessionRow). c.id == s.session_id) chats) (violates foreign_key)
      check
          (not (any (λ (r : EvalSessionRow). r.eval_id == id && r.session_id == s.session_id) rows))
          (violates session_once_per_eval)
      rest

abbrev pub is_failure : RunStatus → Bool
is_failure failed = true
is_failure s = false

-- The first half of `Submit` and of `Fail`: a SELECT that takes no lock.
unfoldable pub refuse_final : Db → String → Result (Unit {0})
refuse_final db id = do
  e ← or_err not_found (eval_of db id)
  check (not (is_final e.status)) eval_already_final

-- The second half of `Submit`, by the eval's id alone.
unfoldable pub write_result : String → EvalResult → Tx (Unit {0})
unfolding insert_sessions
write_result id result db =
    if is_failure result.status
    then ok (
      tt,
      record db {
        evals =
            update_where (is_eval id)
              (λ r. record r {
                status = failed;
                error_message = result.error_message;
                aikdm_meta = marshal_or_empty result.aikdm_meta;
              })
              db.evals;
      },
    )
    else do
      rows ← insert_sessions id result.sessions db.chat_sessions db.eval_sessions
      ok (
        tt,
        record db {
          eval_sessions = rows;
          evals =
              update_where (is_eval id)
                (λ r. record r {
                  status = done;
                  score = some result.score;
                  total_criteria = some result.total_criteria;
                  passed_criteria = some result.passed_criteria;
                  aikdm_meta = marshal_or_empty result.aikdm_meta;
                })
                db.evals;
        },
      )

-- `Submit`, where no other transaction commits between its halves.
unfoldable pub submit_eval : String → EvalResult → Tx (Unit {0})
unfolding refuse_final write_result
submit_eval id result db = do refuse_final db id; write_result id result db

-- The second half of `Fail`.
unfoldable pub write_failure : (id message : String) → Tx (Unit {0})
write_failure id message db =
    ok (tt, record db { evals = update_where (is_eval id) (failed_eval message) db.evals })

-- `Fail`, likewise.
unfoldable pub fail_eval : (id message : String) → Tx (Unit {0})
unfolding refuse_final write_failure
fail_eval id message db = do refuse_final db id; write_failure id message db
