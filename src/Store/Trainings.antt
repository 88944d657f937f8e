-- ===== src/Store/Trainings.antt =====
-- TrainingSessionRepository (open-bbcd/internal/repository/training_session.go).
use open_bbc.Base.{
  ℕ, String, Bool, true, false, not, ◌&&◌, ◌||◌, Option, none, some, [], ◌∷◌, any, ◌==◌,
  if◌then◌else◌,
}
use open_bbc.Llm.{Bytes}
use open_bbc.Store.{
  RunStatus, in_progress, done, ready, TrainingRow, Db, foreign_key, not_found,
  multi_agent_eval_unsupported, training_session_conflict, violates, Result, ok, err, ◌>>=◌, ◌>>◌,
  or_err, check, Tx, is_active, version_of, eval_of, training_of,
}
use open_bbc.Store.Rows.{first, update_where}
use open_bbc.Store.Versions.{is_version, insert_version_from_prompts}
use open_bbc.Store.Evals.{is_pending, agent_tool_enabled, fail_trainings, multi_agent_text}

abbrev pub is_training : String → TrainingRow → Bool
is_training id t = t.id == id

abbrev pub is_active_of : String → TrainingRow → Bool
is_active_of eval_id t = t.source_eval_id == eval_id && is_active t.status

-- `Create`; the partial unique index allows one active session of an eval.
unfoldable pub create_training : (new_id eval_id parent_id : String) → Tx String
unfolding agent_tool_enabled
create_training new_id eval_id parent_id db =
    let t : TrainingRow = record {
      id = new_id;
      source_eval_id = eval_id;
      parent_version_id = parent_id;
      new_version_id = none;
      status = RunStatus.pending;
      error_message = "";
      epochs = none;
      patience = none;
      initial_score = none;
      final_score = none;
      total_epochs_run = none;
      stopped_reason = none;
      training_report = [];
    } in
    do
      e ← or_err not_found (eval_of db eval_id)
      enabled ← agent_tool_enabled db e.agent_version_id
      check (not enabled) multi_agent_eval_unsupported
      check (not (any (is_training new_id) db.trainings || any (is_active_of eval_id) db.trainings))
          training_session_conflict
      check (any (is_version parent_id) db.versions) (violates foreign_key)
      ok (new_id, record db { trainings = t ∷ db.trainings })

-- `GetActiveByEval`
unfoldable pub active_by_eval : Db → String → Option TrainingRow
active_by_eval db eval_id = first (is_active_of eval_id) db.trainings

-- `Start`, with `failTrainingMultiAgentTx`.
unfoldable pub start_training : String → (epochs patience : ℕ) → Tx (Result (Unit {0}))
unfolding fail_trainings
start_training id epochs patience db =
    let p = λ (t : TrainingRow). t.id == id && is_pending t.status in
    do
      t ← or_err not_found (training_of db id)
      e ← or_err not_found (eval_of db t.source_eval_id)
      v ← or_err not_found (version_of db e.agent_version_id)
      if v.agent_tool_enabled
          then (if is_pending t.status
              then ok (err multi_agent_eval_unsupported, fail_trainings p multi_agent_text db)
              else err multi_agent_eval_unsupported)
          else if is_pending t.status
          then ok (
            ok tt,
            record db {
              trainings =
                  update_where p
                    (λ r. record r {
                      status = in_progress;
                      epochs = some epochs;
                      patience = some patience;
                    })
                    db.trainings;
            },
          )
          else err training_session_conflict

-- `CompleteSummary` of open-bbcd/internal/types.
pub record CompleteSummary : Type 0 where
  pub initial_score : String
  pub final_score : String
  pub total_epochs_run : ℕ
  pub stopped_reason : String

abbrev pub is_running : RunStatus → Bool
is_running in_progress = true
is_running s = false

-- `Complete`: the fork of the READY version and the session's end, in one transaction.
unfoldable pub complete_training :
    (new_id id : String) → (prompts report : Bytes) → CompleteSummary → Tx String
unfolding insert_version_from_prompts
complete_training new_id id prompts report summary db = do
  t ← or_err not_found (training_of db id)
  check (is_running t.status) training_session_conflict
  forked ← insert_version_from_prompts new_id t.parent_version_id prompts ready db
  let next = forked.1
  ok (
    new_id,
    record next {
      trainings =
          update_where (is_training id)
            (λ r. record r {
              status = done;
              new_version_id = some new_id;
              initial_score = some summary.initial_score;
              final_score = some summary.final_score;
              total_epochs_run = some summary.total_epochs_run;
              stopped_reason = some summary.stopped_reason;
              training_report = report;
            })
            next.trainings;
    },
  )

-- `Fail`, with `classifyMissingOrConflict`.
unfoldable pub fail_training : (id message : String) → Tx (Unit {0})
unfolding fail_trainings
fail_training id message db =
    let p = λ (t : TrainingRow). t.id == id && is_active t.status in
    do
      check (any p db.trainings)
          (if any (is_training id) db.trainings then training_session_conflict else not_found)
      ok (tt, fail_trainings p message db)
