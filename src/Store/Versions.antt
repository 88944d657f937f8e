-- ===== src/Store/Versions.antt =====
-- AgentVersionRepository (open-bbcd/internal/repository/agent_version.go), and the version that
-- `CreateFromWizard` of agent.go inserts. New ids are arguments, since Postgres draws them.
use open_bbc.Base.{
  String, nat_eq, Bool, true, false, not, ◌&&◌, ◌||◌, Option, none, some, [], ◌∷◌, ◌++◌, map, any,
  keep, ◌==◌, if◌then◌else◌,
}
use open_bbc.Llm.{Bytes}
use open_bbc.Chat.Env.{SubAgentBinding}
use open_bbc.Store.{
  AgentStatus, initializing, ready, deployed, AgentRow, VersionRow, McpAttachment, Db, primary_key,
  one_deployed_per_agent, one_child_per_version, not_found, agent_not_deployable,
  agent_not_deployed, invalid_agent_status, bundle_already_set, bad_bundle, name_required, violates,
  Result, ok, err, ◌>>=◌, ◌>>◌, or_err, check, Tx, is_status, version_of,
}
use open_bbc.Store.Rows.{first, update_where}

abbrev pub is_version : String → VersionRow → Bool
is_version id v = v.id == id

abbrev pub is_text : String → Option String → Bool
is_text id none = false
is_text id (some t) = t == id

abbrev pub map_id : Option VersionRow → Option String
map_id none = none
map_id (some v) = some v.id

-- `UPDATE agent_versions SET … WHERE p`.
abbrev pub update_versions : (VersionRow → Bool) → (VersionRow → VersionRow) → Db → Db
update_versions p f db = record db { versions = update_where p f db.versions }

abbrev pub with_status : AgentStatus → VersionRow → VersionRow
with_status s v = record v { status = s }

-- The partial unique index on (agent_id) of the DEPLOYED versions refuses to add this version.
abbrev pub deployed_taken : Db → String → String → Bool
deployed_taken db agent_id id =
    any (λ v. v.agent_id == agent_id && is_status v.status deployed && not (v.id == id)) db.versions

-- INSERT INTO agent_versions, with the primary key and the unique indexes of the table.
unfoldable pub insert_version : VersionRow → Db → Result Db
insert_version v db = do
  check (not (any (is_version v.id) db.versions)) (violates primary_key)
  check (not (is_status v.status deployed && deployed_taken db v.agent_id v.id))
      (violates one_deployed_per_agent)
  check
      (elim v.parent_version_id [
        | none ↦ true
        | some parent ↦ not (any (λ w. is_text parent w.parent_version_id) db.versions)
      ])
      (violates one_child_per_version)
  ok (record db { versions = v ∷ db.versions })

-- `CreateFromWizard`: `fresh` is the id of the agent where the caller gives none.
unfoldable pub create_from_wizard :
    (fresh version_id given name : String) (flow_map : Bytes) (parse_error : String)
    → Tx (AgentRow × VersionRow)
unfolding insert_version
create_from_wizard fresh version_id given name flow_map parse_error db =
    let agent_id = if given == "" then fresh else given in
    let agent : AgentRow = record {
      id = agent_id;
      name = name;
      architecture = [];
      finalized = false;
    } in
    let version : VersionRow = record {
      id = version_id;
      agent_id = agent_id;
      parent_version_id = none;
      status = initializing;
      prompts = [];
      flow_map_config = flow_map;
      flow_map_parse_error = parse_error;
      agent_tool_enabled = false;
    } in
    do
      check (not (name == "")) name_required
      check (not (any (λ (a : AgentRow). a.id == agent_id) db.agents)) (violates primary_key)
      next ← insert_version version (record db { agents = agent ∷ db.agents })
      ok ((agent, version), next)

-- `Deploy`: answers the version that was deployed before.
unfoldable pub deploy : String → Tx (Option String)
deploy id db = do
  v ← or_err not_found (version_of db id)
  let others = λ (w : VersionRow).
      w.agent_id == v.agent_id && is_status w.status deployed && not (w.id == id)
  let previous = map_id (first others db.versions)
  let demoted = update_versions others (with_status ready) db
  if is_status v.status deployed
      then ok (none, db)
      else if is_status v.status ready
      then ok (previous, update_versions (is_version id) (with_status deployed) demoted)
      else err agent_not_deployable

-- `Undeploy`
unfoldable pub undeploy : String → Tx (Unit {0})
undeploy id db =
    let p = λ (v : VersionRow). v.id == id && is_status v.status deployed in
    do
      check (any p db.versions)
          (if any (is_version id) db.versions then agent_not_deployed else not_found)
      ok (tt, update_versions p (with_status ready) db)

-- `CurrentDeployedID`, none for the empty text.
unfoldable pub current_deployed_id : Db → String → Option String
current_deployed_id db agent_id =
    map_id (
      first (λ (v : VersionRow). v.agent_id == agent_id && is_status v.status deployed) db.versions)

-- `UpdateStatus`
unfoldable pub update_status : (id : String) (expected to : AgentStatus) → Tx (Unit {0})
update_status id expected to db =
    let p = λ (v : VersionRow). v.id == id && is_status v.status expected in
    do
      v ← or_err invalid_agent_status (first p db.versions)
      check (not (is_status to deployed && deployed_taken db v.agent_id id))
          (violates one_deployed_per_agent)
      ok (tt, update_versions p (with_status to) db)

-- `SetPrompts`
unfoldable pub set_prompts : (id : String) → Bytes → Tx (Unit {0})
set_prompts id prompts db = do
  check (any (is_version id) db.versions) not_found
  ok (tt, update_versions (is_version id) (λ v. record v { prompts = prompts }) db)

-- `prompts IS NULL OR prompts = '{}'`, on the text of the JSON.
abbrev pub prompts_empty : Bytes → Bool
prompts_empty [] = true
prompts_empty (a ∷ []) = false
prompts_empty (a ∷ b ∷ []) = nat_eq a b'{' && nat_eq b b'}'
prompts_empty (a ∷ b ∷ c ∷ cs) = false

-- `LandBundle` from the bundle's two parts, none if it did not parse.
unfoldable pub land_bundle : (id : String) → Option (Bytes × Bytes) → (force : Bool) → Tx (Unit {0})
land_bundle id bundle force db = do
  parts ← or_err bad_bundle bundle
  v ← or_err not_found (version_of db id)
  check (force || prompts_empty v.prompts) bundle_already_set
  let agents =
      update_where (λ (a : AgentRow). a.id == v.agent_id)
        (λ a. record a { architecture = parts.0; finalized = true }) db.agents
  ok (
    tt,
    update_versions (is_version id) (λ w. record w { prompts = parts.1; status = ready })
        (record db { agents = agents }),
  )

-- `insertVersionFromPromptsTx`. No constraint can refuse the copied rows, since by the foreign keys
-- no row names the new version yet.
unfoldable pub insert_version_from_prompts :
    (new_id parent_id : String) → Bytes → AgentStatus → Tx String
unfolding insert_version
insert_version_from_prompts new_id parent_id prompts status db = do
  parent ← or_err not_found (version_of db parent_id)
  next ←
      insert_version
        (record {
          id = new_id;
          agent_id = parent.agent_id;
          parent_version_id = some parent_id;
          status = status;
          prompts = prompts;
          flow_map_config = [];
          flow_map_parse_error = "";
          agent_tool_enabled = parent.agent_tool_enabled;
        })
        db
  let copied_mcp =
      map (λ (m : McpAttachment). record m { agent_version_id = new_id })
        (keep (λ m. m.agent_version_id == parent_id) db.mcp)
  let copied_bindings =
      map (λ (b : SubAgentBinding). record b { caller_version_id = new_id })
        (keep (λ b. b.caller_version_id == parent_id) db.bindings)
  ok (new_id, record next { mcp = copied_mcp ++ db.mcp; bindings = copied_bindings ++ db.bindings })
