-- ===== src/Store.antt =====
-- The tables of open-bbcd/migrations that the repositories of open-bbcd/internal/repository write,
-- as one value, the newest row of each table first. A transaction is a function of it that either
-- commits a new one or rolls back with an error; transactions run one at a time. The columns of
-- times are left out: a table's order stands for `created_at`.
pub mod Rows
pub mod Versions
pub mod Removal
pub mod Bindings
pub mod Evals
pub mod Trainings
pub mod Rules
pub mod Effects
pub mod Steps
pub mod Invariant
pub mod Slots
pub mod Forks
pub mod Reached
use open_bbc.Base.{ℕ, String, Bool, true, false, Option, none, some, List, [], ◌∷◌, ◌==◌}
use open_bbc.Llm.{Bytes}
use open_bbc.Chat.Env.{SubAgentBinding}
use open_bbc.Store.Rows.{first}

pub data AgentStatus : Type 0 where
  initializing pending draft training ready deployed : AgentStatus

-- The statuses of an eval, and the same four of a training session.
pub data RunStatus : Type 0 where
  pending in_progress done failed : RunStatus

pub record AgentRow : Type 0 where
  pub id : String
  pub name : String
  pub architecture : Bytes
  pub finalized : Bool

pub record VersionRow : Type 0 where
  pub id : String
  pub agent_id : String
  pub parent_version_id : Option String
  pub status : AgentStatus
  pub prompts : Bytes
  pub flow_map_config : Bytes
  pub flow_map_parse_error : String
  pub agent_tool_enabled : Bool

pub record McpAttachment : Type 0 where
  pub agent_version_id : String
  pub backend_id : String
  pub note : String

-- What the operations below read of chat sessions, of dataset_version_sessions (`session_id`s) and
-- of deployed sessions.
pub record ChatSessionRow : Type 0 where
  pub id : String
  pub agent_version_id : String
  pub parent_session_id : Option String
  pub locked : Bool

pub record DeployedSessionRow : Type 0 where
  pub id : String
  pub agent_id : String
  pub agent_version_id : Option String

-- Scores are carried as the texts of the numbers, counts as natural numbers.
pub record EvalRow : Type 0 where
  pub id : String
  pub agent_version_id : String
  pub dataset_version_id : String
  pub status : RunStatus
  pub mock_mcp_tools : Bool
  pub header_overrides : Bytes
  pub score : Option String
  pub total_criteria : Option ℕ
  pub passed_criteria : Option ℕ
  pub error_message : String
  pub aikdm_meta : Bytes

pub record EvalSessionRow : Type 0 where
  pub eval_id : String
  pub session_id : String
  pub score : String
  pub total_criteria : ℕ
  pub passed_criteria : ℕ
  pub transcript : Bytes
  pub judgments : Bytes

pub record TrainingRow : Type 0 where
  pub id : String
  pub source_eval_id : String
  pub parent_version_id : String
  pub new_version_id : Option String
  pub status : RunStatus
  pub error_message : String
  pub epochs : Option ℕ
  pub patience : Option ℕ
  pub initial_score : Option String
  pub final_score : Option String
  pub total_epochs_run : Option ℕ
  pub stopped_reason : Option String
  pub training_report : Bytes

pub record Db : Type 0 where
  pub agents : List AgentRow
  pub versions : List VersionRow
  pub bindings : List SubAgentBinding
  pub mcp : List McpAttachment
  pub chat_sessions : List ChatSessionRow
  pub dataset_sessions : List String
  pub deployed_sessions : List DeployedSessionRow
  pub evals : List EvalRow
  pub eval_sessions : List EvalSessionRow
  pub trainings : List TrainingRow

-- The constraints whose violations reach the caller as they are.
pub data Constraint : Type 0 where
  primary_key one_deployed_per_agent one_child_per_version foreign_key restricted : Constraint
  session_once_per_eval : Constraint

pub data StoreError : Type 0 where
  not_found agent_in_use version_in_use version_has_children session_in_dataset version_referenced :
      StoreError
  agent_not_deployable agent_not_deployed invalid_agent_status bundle_already_set : StoreError
  bad_bundle version_locked eval_or_training_active tool_name_collision name_required : StoreError
  invalid_binding_name topology_cycle target_not_runnable binding_conflict : StoreError
  multi_agent_eval_unsupported eval_not_pending eval_already_final : StoreError
  training_session_conflict : StoreError
  violates : Constraint → StoreError

pub data Result {ℓ} (A : Type ℓ) : Type ℓ where
  ok : A → Result A
  err : StoreError → Result A

infixl 5 ◌>>=◌
unfoldable pub ◌>>=◌ {ℓ κ} : {A : Type ℓ} {B : Type κ} → Result A → (A → Result B) → Result B
ok a >>= f = f a
err e >>= f = err e

infixl 5 ◌>>◌
unfoldable pub ◌>>◌ {ℓ} : {B : Type ℓ} → Result (Unit {0}) → Result B → Result B
ok u >> r = r
err e >> r = err e

unfoldable pub or_err {ℓ} : {A : Type ℓ} → StoreError → Option A → Result A
or_err e none = err e
or_err e (some a) = ok a

-- An error unless the test is passed.
unfoldable pub check : Bool → StoreError → Result (Unit {0})
check true e = ok tt
check false e = err e

-- `err` rolls back; `ok` commits, with an answer that may itself be an error.
abbrev pub Tx : Type 0 → Type 0
Tx A = Db → Result (A × Db)

-- The tables after a transaction.
abbrev pub after : {A : Type 0} → Db → Result (A × Db) → Db
after db (ok (a, next)) = next
after db (err e) = db

abbrev pub is_status : AgentStatus → AgentStatus → Bool
is_status initializing initializing = true
is_status AgentStatus.pending AgentStatus.pending = true
is_status draft draft = true
is_status training training = true
is_status ready ready = true
is_status deployed deployed = true
is_status s t = false

abbrev pub is_active : RunStatus → Bool
is_active RunStatus.pending = true
is_active in_progress = true
is_active s = false

abbrev pub is_final : RunStatus → Bool
is_final done = true
is_final failed = true
is_final s = false

-- SELECT … WHERE id = $1
abbrev pub version_of : Db → String → Option VersionRow
version_of db id = first (λ v. v.id == id) db.versions

abbrev pub eval_of : Db → String → Option EvalRow
eval_of db id = first (λ e. e.id == id) db.evals

abbrev pub training_of : Db → String → Option TrainingRow
training_of db id = first (λ t. t.id == id) db.trainings
