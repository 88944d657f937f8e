-- ===== src/Tests/Stores.antt =====
-- A database with a bound version, and runs of open-bbcd/internal/repository on it.
use mathlib.Core.List.{Memᴰ}
use mathlib.Core.List.Memᴰ.{head, tail}
use open_bbc.Base.{
  String, ◌≡◌, ◌≢◌, ◌↔◌, refl, true, false, some, none, List, [], ◌∷◌, ◌++◌, map, eq_iff,
}
use open_bbc.Chat.Env.{SubAgentBinding}
use open_bbc.Chat.AgentTool.{architecture_has_endpoint_tool}
use open_bbc.Tests.Fixtures.{codec}
use open_bbc.Store.{
  ready, deployed, in_progress, done, failed, RunStatus, VersionRow, EvalRow, TrainingRow, Db, ok,
  err, topology_cycle, ◌>>=◌, ◌>>◌, or_err, check, after, version_of, eval_of, training_of,
}
use open_bbc.Store.Versions.{
  insert_version, create_from_wizard, deploy, undeploy, current_deployed_id, land_bundle,
  insert_version_from_prompts,
}
use open_bbc.Store.Bindings.{
  begin_caller_write, check_caller_writable, check_no_collision, add_binding, bindings_of,
}
use open_bbc.Store.Bindings.Name.{is_binding_name}
use open_bbc.Store.Bindings.Reach.{follow, reach}
use open_bbc.Store.Bindings.Reach.Walks.{reach-Walk}
use open_bbc.Store.Evals.{
  EvalResult, failed_eval, agent_tool_enabled, create_eval, start_eval, fail_eval, refuse_final,
  write_failure, write_result, insert_sessions, submit_eval,
}
use open_bbc.Store.Trainings.{
  CompleteSummary, create_training, start_training, complete_training, is_running,
}
use open_bbc.Store.Steps.{
  Call, creates_from_wizard, deploys, lands, binds, creates_eval, starts_eval, fails_eval,
  creates_training, starts_training, step, run, empty,
}
use open_bbc.Store.Invariant.Topology.{IsAcyclic, HasRunnableTargets, Walk}
use open_bbc.Store.Invariant.Final.{Unchanged, final_eval-step}
use open_bbc.Store.Evals.Races.{scored, submit_eval-write_failure}
use open_bbc.Store.Slots.{put, clear}
use open_bbc.Store.Slots.Deploy.{deploy-put}
use open_bbc.Store.Slots.Undeploy.{undeploy-clear}
use open_bbc.Store.Forks.{rebound, forked_row, fork-copies, complete_training-forks}
use open_bbc.Store.Reached.{one_deployed-run, run-IsAcyclic, run-Sound, empty-Sound}
use open_bbc.Store.Reached.Starts.{start_eval-pending}
use open_bbc.Store.Reached.Binds.{add_binding-no_cycle}

abbrev plain : String → String
plain s = s

-- One agent's version is READY, another's is bound to it while INITIALIZING.
abbrev bound_calls : List Call
bound_calls =
    creates_from_wizard "a1" "v1" "" "one" [] ""
    ∷ lands "v1" (some ([], [])) false
    ∷ creates_from_wizard "a2" "w1" "" "two" [] ""
    ∷ binds "w1" "helper" "v1" "ask it"
    ∷ creates_eval "e1" "v1" "d1" true true []
    ∷ []

abbrev bound_db : Db
bound_db = run codec plain empty bound_calls

abbrev deployed_calls : List Call
deployed_calls = bound_calls ++ (deploys "v1" ∷ [])

abbrev deployed_db : Db
deployed_db = run codec plain empty deployed_calls

abbrev v1 : VersionRow
v1 = record {
  id = "v1";
  agent_id = "a1";
  parent_version_id = none;
  status = ready;
  prompts = [];
  flow_map_config = [];
  flow_map_parse_error = "";
  agent_tool_enabled = false;
}

abbrev e1 : EvalRow
e1 = record {
  id = "e1";
  agent_version_id = "v1";
  dataset_version_id = "d1";
  status = RunStatus.pending;
  mock_mcp_tools = true;
  header_overrides = [];
  score = none;
  total_criteria = none;
  passed_criteria = none;
  error_message = "";
  aikdm_meta = b'{' ∷ b'}' ∷ [];
}

v1_deployed : Memᴰ (record v1 { status = deployed }) deployed_db.versions
unfolding run step create_from_wizard insert_version land_bundle add_binding begin_caller_write
    check_caller_writable check_no_collision architecture_has_endpoint_tool is_binding_name reach
    follow create_eval agent_tool_enabled ◌>>=◌ ◌>>◌ or_err check deploy
v1_deployed = tail (head refl)

one_deployed-run_example :
    ◌≡◌ {A = VersionRow} (record v1 { status = deployed }) (record v1 { status = deployed })
one_deployed-run_example =
    one_deployed-run codec plain deployed_calls (record v1 { status = deployed })
      (record v1 { status = deployed }) v1_deployed v1_deployed refl refl refl

run-IsAcyclic_example :
    IsAcyclic bound_db.bindings × HasRunnableTargets bound_db.versions bound_db.bindings
run-IsAcyclic_example = run-IsAcyclic codec plain bound_calls

e1_pending : eval_of bound_db "e1" ≡ some e1
unfolding run step create_from_wizard insert_version land_bundle add_binding begin_caller_write
    check_caller_writable check_no_collision architecture_has_endpoint_tool is_binding_name reach
    follow create_eval agent_tool_enabled ◌>>=◌ ◌>>◌ or_err check
e1_pending = refl

start_eval-pending_example :
    (next : Db) × (start_eval "e1" bound_db ≡ ok (ok tt, next))
    × (eval_of next "e1" ≡ some (record e1 { status = in_progress }))
start_eval-pending_example = start_eval-pending codec plain bound_calls "e1" e1 e1_pending refl

other_ids : ◌≢◌ {A = String} "w1" "v1"
other_ids h = cc ((eq_iff "w1" "v1").1 h)

add_binding-no_cycle_example :
    add_binding codec plain "w1" "other" "v1" "" bound_db ≢ err topology_cycle
add_binding-no_cycle_example =
    add_binding-no_cycle codec plain bound_calls "w1" "other" "v1" ""
      (λ h. cc ((eq_iff "w1" "v1").1 h))

v1_deploys : deploy "v1" bound_db ≡ ok (none, deployed_db)
unfolding run step create_from_wizard insert_version land_bundle add_binding begin_caller_write
    check_caller_writable check_no_collision architecture_has_endpoint_tool is_binding_name reach
    follow create_eval agent_tool_enabled ◌>>=◌ ◌>>◌ or_err check deploy
v1_deploys = refl

deploy-put_example :
    (v : VersionRow) × (version_of bound_db "v1" ≡ some v)
    × ((a : String)
        → current_deployed_id deployed_db a ≡ put v.agent_id "v1" (current_deployed_id bound_db) a)
deploy-put_example =
    deploy-put bound_db deployed_db "v1" none
      (run-Sound codec plain empty bound_calls empty-Sound).keyed v1_deploys

abbrev undeployed_db : Db
undeployed_db = after deployed_db (undeploy "v1" deployed_db)

v1_undeploys : undeploy "v1" deployed_db ≡ ok (tt, undeployed_db)
unfolding run step create_from_wizard insert_version land_bundle add_binding begin_caller_write
    check_caller_writable check_no_collision architecture_has_endpoint_tool is_binding_name reach
    follow create_eval agent_tool_enabled ◌>>=◌ ◌>>◌ or_err check deploy undeploy
v1_undeploys = refl

undeploy-clear_example :
    (v : VersionRow) × Memᴰ v deployed_db.versions
    × (v.id ≡ "v1")
    × ((a : String)
        → current_deployed_id undeployed_db a
          ≡ clear v.agent_id (current_deployed_id deployed_db) a)
undeploy-clear_example =
    undeploy-clear deployed_db undeployed_db "v1" tt
      (run-Sound codec plain empty deployed_calls empty-Sound).keyed v1_undeploys

abbrev failed_db : Db
failed_db = run codec plain empty (bound_calls ++ (fails_eval "e1" "broken" ∷ []))

abbrev e1_failed : EvalRow
e1_failed = record e1 { status = failed; error_message = "broken" }

e1_fails : eval_of failed_db "e1" ≡ some e1_failed
unfolding run step create_from_wizard insert_version land_bundle add_binding begin_caller_write
    check_caller_writable check_no_collision architecture_has_endpoint_tool is_binding_name reach
    follow create_eval agent_tool_enabled ◌>>=◌ ◌>>◌ or_err check fail_eval refuse_final
    write_failure
e1_fails = refl

final_eval-step_example : Unchanged "e1" e1_failed (step codec plain failed_db (starts_eval "e1"))
final_eval-step_example =
    final_eval-step codec plain failed_db (starts_eval "e1") "e1" e1_failed e1_fails refl

abbrev perfect : EvalResult
perfect = record {
  status = RunStatus.done;
  error_message = "";
  score = "1.0";
  total_criteria = 2;
  passed_criteria = 2;
  aikdm_meta = [];
  sessions = [];
}

abbrev submitted_db : Db
submitted_db = after bound_db (submit_eval "e1" perfect bound_db)

e1_read : refuse_final bound_db "e1" ≡ ok tt
unfolding run step create_from_wizard insert_version land_bundle add_binding begin_caller_write
    check_caller_writable check_no_collision architecture_has_endpoint_tool is_binding_name reach
    follow create_eval agent_tool_enabled ◌>>=◌ ◌>>◌ or_err check refuse_final
e1_read = refl

e1_submitted : submit_eval "e1" perfect bound_db ≡ ok (tt, submitted_db)
unfolding run step create_from_wizard insert_version land_bundle add_binding begin_caller_write
    check_caller_writable check_no_collision architecture_has_endpoint_tool is_binding_name reach
    follow create_eval agent_tool_enabled ◌>>=◌ ◌>>◌ or_err check submit_eval refuse_final
    write_result insert_sessions
e1_submitted = refl

submit_eval-write_failure_example :
    (eval_of submitted_db "e1" ≡ some (scored perfect e1))
    × ((last : Db) × (write_failure "e1" "late" submitted_db ≡ ok (tt, last))
        × (eval_of last "e1" ≡ some (failed_eval "late" (scored perfect e1))))
submit_eval-write_failure_example =
    submit_eval-write_failure bound_db submitted_db "e1" "late" perfect e1 e1_pending e1_read refl
      e1_submitted

abbrev chain : List SubAgentBinding
chain =
    record { caller_version_id = "u"; target_version_id = "v"; name = "n"; note = "" }
    ∷ record { caller_version_id = "v"; target_version_id = "w"; name = "m"; note = "" }
    ∷ []

reach-Walk_example : Memᴰ "w" (reach chain "u") ↔ Walk chain "u" "w"
reach-Walk_example = reach-Walk chain "u" "w"

reaches : reach chain "u" ≡ "v" ∷ "w" ∷ []
unfolding reach follow
reaches = refl

abbrev forked_db : Db
forked_db = after bound_db (insert_version_from_prompts "w2" "w1" (b'{' ∷ b'}' ∷ []) ready bound_db)

w1_forks :
    insert_version_from_prompts "w2" "w1" (b'{' ∷ b'}' ∷ []) ready bound_db ≡ ok ("w2", forked_db)
unfolding run step create_from_wizard insert_version land_bundle add_binding begin_caller_write
    check_caller_writable check_no_collision architecture_has_endpoint_tool is_binding_name reach
    follow create_eval agent_tool_enabled ◌>>=◌ ◌>>◌ or_err check insert_version_from_prompts
w1_forks = refl

fork-copies_example :
    (parent : VersionRow) × (version_of bound_db "w1" ≡ some parent)
    × (version_of forked_db "w2" ≡ some (forked_row "w2" "w1" (b'{' ∷ b'}' ∷ []) ready parent))
    × (bindings_of forked_db "w2"
        ≡ map (rebound "w2") (bindings_of bound_db "w1") ++ bindings_of bound_db "w2")
    × ((other : String) → other ≢ "w2" → bindings_of forked_db other ≡ bindings_of bound_db other)
fork-copies_example =
    fork-copies bound_db forked_db "w2" "w1" "w2" (b'{' ∷ b'}' ∷ []) ready w1_forks

abbrev training_db : Db
training_db =
    run codec plain empty
      (bound_calls ++ (creates_training "t1" "e1" "v1" ∷ starts_training "t1" 3 1 ∷ []))

abbrev summary : CompleteSummary
summary = record {
  initial_score = "0.5";
  final_score = "0.9";
  total_epochs_run = 3;
  stopped_reason = "target reached";
}

abbrev trained_db : Db
trained_db = after training_db (complete_training "v2" "t1" [] [] summary training_db)

t1_completes : complete_training "v2" "t1" [] [] summary training_db ≡ ok ("v2", trained_db)
unfolding run step create_from_wizard insert_version land_bundle add_binding begin_caller_write
    check_caller_writable check_no_collision architecture_has_endpoint_tool is_binding_name reach
    follow create_eval agent_tool_enabled ◌>>=◌ ◌>>◌ or_err check create_training start_training
    complete_training insert_version_from_prompts
t1_completes = refl

complete_training-forks_example :
    (t u : TrainingRow) × (parent v : VersionRow) × (training_of training_db "t1" ≡ some t)
    × (is_running t.status ≡ true)
    × (training_of trained_db "t1" ≡ some u)
    × (u.status ≡ done)
    × (u.new_version_id ≡ some "v2")
    × (version_of training_db t.parent_version_id ≡ some parent)
    × (version_of trained_db "v2" ≡ some v)
    × (v.status ≡ ready)
    × (v.prompts ≡ [])
    × (v.agent_id ≡ parent.agent_id)
complete_training-forks_example =
    complete_training-forks training_db trained_db "v2" "t1" "v2" [] [] summary t1_completes
