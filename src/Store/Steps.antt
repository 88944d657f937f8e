-- ===== src/Store/Steps.antt =====
-- The transactions as the handlers of open-bbcd/internal/handler ask for them, one after another.
-- `UpdateStatus` is asked for by `FinalizeArchitecture` alone, from INITIALIZING to PENDING; forks
-- are DRAFT or READY. `others` stands for what other repositories do to the tables read here.
pub mod OfCalls
use open_bbc.Base.{ℕ, String, Bool, Option, List, [], ◌∷◌}
use open_bbc.Llm.{Bytes}
use open_bbc.Chat.Env.{Codec}
use open_bbc.Store.{
  initializing, draft, ready, AgentStatus, McpAttachment, ChatSessionRow, DeployedSessionRow, Db,
  after,
}
use open_bbc.Store.Versions.{
  create_from_wizard, deploy, undeploy, update_status, set_prompts, land_bundle,
  insert_version_from_prompts,
}
use open_bbc.Store.Removal.{delete_version}
use open_bbc.Store.Bindings.{set_agent_tool_enabled, add_binding, update_notes, delete_binding}
use open_bbc.Store.Evals.{
  EvalResult, create_eval, start_eval, fail_if_multi_agent, submit_eval, fail_eval,
}
use open_bbc.Store.Trainings.{
  CompleteSummary, create_training, start_training, complete_training, fail_training,
}

pub data Call : Type 0 where
  creates_from_wizard :
      (fresh version_id given name : String) (flow_map : Bytes) (parse_error : String) → Call
  deploys undeploys finalizes deletes : (id : String) → Call
  sets_prompts : (id : String) (prompts : Bytes) → Call
  lands : (id : String) (bundle : Option (Bytes × Bytes)) (force : Bool) → Call
  saves_prompts lands_prompts : (new_id parent_id : String) (prompts : Bytes) → Call
  toggles : (caller : String) (enabled : Bool) → Call
  binds : (caller name target note : String) → Call
  notes : (caller : String) (entries : List (String × String)) → Call
  unbinds : (caller name : String) → Call
  creates_eval :
      (new_id version_id dataset_version_id : String)
      → (dataset_ok mock_mcp : Bool) → (headers : Bytes) → Call
  starts_eval gates_eval : (id : String) → Call
  submits : (id : String) (result : EvalResult) → Call
  fails_eval : (id message : String) → Call
  creates_training : (new_id eval_id parent_id : String) → Call
  starts_training : (id : String) (epochs patience : ℕ) → Call
  completes : (new_id id : String) (prompts report : Bytes) (summary : CompleteSummary) → Call
  fails_training : (id message : String) → Call
  others : List McpAttachment → List ChatSessionRow → List String → List DeployedSessionRow → Call

module _ (codec : Codec) (sanitize : String → String) where
  unfoldable pub step : Db → Call → Db
  step db (creates_from_wizard fresh version_id given name flow_map parse_error) =
      after db (create_from_wizard fresh version_id given name flow_map parse_error db)
  step db (deploys id) = after db (deploy id db)
  step db (undeploys id) = after db (undeploy id db)
  step db (finalizes id) = after db (update_status id initializing AgentStatus.pending db)
  step db (deletes id) = after db (delete_version id db)
  step db (sets_prompts id prompts) = after db (set_prompts id prompts db)
  step db (lands id bundle force) = after db (land_bundle id bundle force db)
  step db (saves_prompts new_id parent_id prompts) =
      after db (insert_version_from_prompts new_id parent_id prompts draft db)
  step db (lands_prompts new_id parent_id prompts) =
      after db (insert_version_from_prompts new_id parent_id prompts ready db)
  step db (toggles caller enabled) =
      after db (set_agent_tool_enabled codec sanitize caller enabled db)
  step db (binds caller name target note) =
      after db (add_binding codec sanitize caller name target note db)
  step db (notes caller entries) = after db (update_notes caller entries db)
  step db (unbinds caller name) = after db (delete_binding caller name db)
  step db (creates_eval new_id version_id dataset_version_id dataset_ok mock_mcp headers) =
      after db (create_eval new_id version_id dataset_version_id dataset_ok mock_mcp headers db)
  step db (starts_eval id) = after db (start_eval id db)
  step db (gates_eval id) = after db (fail_if_multi_agent id db)
  step db (submits id result) = after db (submit_eval id result db)
  step db (fails_eval id message) = after db (fail_eval id message db)
  step db (creates_training new_id eval_id parent_id) =
      after db (create_training new_id eval_id parent_id db)
  step db (starts_training id epochs patience) = after db (start_training id epochs patience db)
  step db (completes new_id id prompts report summary) =
      after db (complete_training new_id id prompts report summary db)
  step db (fails_training id message) = after db (fail_training id message db)
  step db (others mcp chats datasets deployments) = record db {
    mcp = mcp;
    chat_sessions = chats;
    dataset_sessions = datasets;
    deployed_sessions = deployments;
  }

  unfoldable pub run : Db → List Call → Db
  unfolding step
  run db [] = db
  run db (c ∷ cs) = run (step db c) cs

-- The tables of a fresh database.
abbrev pub empty : Db
empty = record {
  agents = [];
  versions = [];
  bindings = [];
  mcp = [];
  chat_sessions = [];
  dataset_sessions = [];
  deployed_sessions = [];
  evals = [];
  eval_sessions = [];
  trainings = [];
}
