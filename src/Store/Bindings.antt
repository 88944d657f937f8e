-- ===== src/Store/Bindings.antt =====
-- SubAgentRepository (open-bbcd/internal/repository/subagent.go). The locks that its transactions
-- take make them run one after another, which is how transactions run here.
pub mod Reach
pub mod Name
use open_bbc.Base.{
  ℕ, ◌-◌, String, Bool, true, false, not, ◌&&◌, ◌||◌, Option, none, some, List, [], ◌∷◌, any, keep,
  length, map, ltb, leb, nat_eq, ◌==◌, if◌then◌else◌,
}
use open_bbc.Llm.{Bytes}
use open_bbc.Chat.Env.{SubAgentBinding, Codec}
use open_bbc.Chat.AgentTool.{agent_tool_name, architecture_has_endpoint_tool}
use open_bbc.Store.{
  AgentStatus, initializing, draft, ready, deployed, AgentRow, VersionRow, EvalRow, TrainingRow, Db,
  not_found, version_locked, eval_or_training_active, tool_name_collision, name_required,
  invalid_binding_name, topology_cycle, target_not_runnable, binding_conflict, Result, ok, err,
  ◌>>=◌, ◌>>◌, or_err, check, Tx, is_status, is_active, version_of,
}
use open_bbc.Store.Rows.{first, update_where, delete_where}
use open_bbc.Store.Versions.{is_version, update_versions}
use open_bbc.Store.Bindings.Name.{is_binding_name}
use open_bbc.Store.Bindings.Reach.{reach}

-- An eval or a training session of the version is pending or running.
abbrev pub has_active : Db → String → Bool
has_active db id =
    any (λ (e : EvalRow). e.agent_version_id == id && is_active e.status) db.evals
    || any (λ (t : TrainingRow). t.parent_version_id == id && is_active t.status) db.trainings

abbrev pub is_editable : AgentStatus → Bool
is_editable s = is_status s initializing || is_status s draft

abbrev pub is_runnable : AgentStatus → Bool
is_runnable s = is_status s ready || is_status s deployed

-- `checkCallerWritable`
unfoldable pub check_caller_writable : Db → (caller : String) → AgentStatus → Result (Unit {0})
check_caller_writable db caller status = do
  check (is_editable status) version_locked
  check (not (has_active db caller)) eval_or_training_active

-- `beginCallerWrite` of the caller alone: the locked row.
unfoldable pub begin_caller_write : Db → String → Result VersionRow
unfolding check_caller_writable
begin_caller_write db caller = do
  v ← or_err not_found (version_of db caller)
  check_caller_writable db caller v.status
  ok v

-- `checkNoCollision`; `sanitize` is `SanitizeToolName`.
unfoldable pub check_no_collision : Codec → (String → String) → Db → VersionRow → Result (Unit {0})
check_no_collision codec sanitize db v = do
  a ← or_err not_found (first (λ (a : AgentRow). a.id == v.agent_id) db.agents)
  check (not (architecture_has_endpoint_tool codec sanitize a.architecture agent_tool_name))
      tool_name_collision

-- `SetAgentToolEnabled`
unfoldable pub set_agent_tool_enabled :
    Codec → (String → String) → (caller : String) (enabled : Bool) → Tx (Unit {0})
unfolding begin_caller_write check_no_collision
set_agent_tool_enabled codec sanitize caller enabled db = do
  v ← begin_caller_write db caller
  if enabled then check_no_collision codec sanitize db v else ok tt
  ok (tt, update_versions (is_version caller) (λ w. record w { agent_tool_enabled = enabled }) db)

-- `AddBinding`. The CHECKs on the name and on the two
-- ids repeat tests that were made before.
unfoldable pub add_binding :
    Codec → (sanitize : String → String) → (caller name target note : String) → Tx (Unit {0})
unfolding begin_caller_write check_no_collision reach is_binding_name
add_binding codec sanitize caller name target note db = do
  check (not (name == "")) name_required
  check (is_binding_name name) invalid_binding_name
  check (not (caller == target)) topology_cycle
  t ← or_err not_found (version_of db target)
  v ← begin_caller_write db caller
  check_no_collision codec sanitize db v
  check (is_runnable t.status) target_not_runnable
  check (not (any (λ id. id == caller) (reach db.bindings target))) topology_cycle
  check
      (not (
        any
          (λ (b : SubAgentBinding).
            b.caller_version_id == caller && (b.name == name || b.target_version_id == target))
          db.bindings))
      binding_conflict
  let row : SubAgentBinding = record {
    caller_version_id = caller;
    target_version_id = target;
    name = name;
    note = note;
  }
  ok (tt, record db { bindings = row ∷ db.bindings })

-- The UPDATE of `UpdateNotes` for each entry of the form.
unfoldable pub set_notes :
    String → List (String × String) → List SubAgentBinding → List SubAgentBinding
set_notes caller [] rows = rows
set_notes caller (entry ∷ notes) rows = set_notes caller notes (
    update_where (λ (b : SubAgentBinding). b.caller_version_id == caller && b.name == entry.0)
      (λ b. record b { note = entry.1 }) rows)

-- `UpdateNotes`
unfoldable pub update_notes : (caller : String) → List (String × String) → Tx (Unit {0})
unfolding begin_caller_write set_notes
update_notes caller notes db = do
  v ← begin_caller_write db caller
  ok (tt, record db { bindings = set_notes caller notes db.bindings })

-- `DeleteBinding`
unfoldable pub delete_binding : (caller name : String) → Tx (Unit {0})
unfolding begin_caller_write
delete_binding caller name db =
    let p = λ (b : SubAgentBinding). b.caller_version_id == caller && b.name == name in
    do
      v ← begin_caller_write db caller
      check (any p db.bindings) not_found
      ok (tt, record db { bindings = delete_where p db.bindings })

-- The rows of `listBindings`, before its ORDER BY name.
unfoldable pub bindings_of : Db → String → List SubAgentBinding
bindings_of db caller = keep (λ b. b.caller_version_id == caller) db.bindings

-- `ConfigWriteBlock`
unfoldable pub config_write_block : Db → String → Result (Unit {0})
unfolding check_caller_writable
config_write_block db id = do
  v ← or_err not_found (version_of db id)
  check_caller_writable db id v.status
