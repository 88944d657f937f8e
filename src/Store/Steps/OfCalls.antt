-- ===== src/Store/Steps/OfCalls.antt =====
-- Each step has one of the effects.
use open_bbc.Base.{String, refl}
use open_bbc.Chat.Env.{Codec}
use open_bbc.Store.{draft, ready, Db}
use open_bbc.Store.Effects.{Effect, quiet}
use open_bbc.Store.Effects.OfVersions.{
  deploy-Effect, undeploy-Effect, finalize-Effect, set_prompts-Effect, land_bundle-Effect,
  create_from_wizard-Effect, delete_version-Effect, insert_version_from_prompts-Effect,
}
use open_bbc.Store.Effects.OfBindings.{
  set_agent_tool_enabled-Effect, add_binding-Effect, update_notes-Effect, delete_binding-Effect,
}
use open_bbc.Store.Effects.OfEvals.{
  create_eval-Effect, start_eval-Effect, fail_if_multi_agent-Effect, submit_eval-Effect,
  fail_eval-Effect, create_training-Effect, start_training-Effect, complete_training-Effect,
  fail_training-Effect,
}
use open_bbc.Store.Steps.{
  Call, creates_from_wizard, deploys, undeploys, finalizes, deletes, sets_prompts, lands,
  saves_prompts, lands_prompts, toggles, binds, notes, unbinds, creates_eval, starts_eval,
  gates_eval, submits, fails_eval, creates_training, starts_training, completes, fails_training,
  others, step,
}

module _ (codec : Codec) (sanitize : String → String) (db : Db) where
  pub step-Effect : (c : Call) → Effect db (step codec sanitize db c)
  unfolding step
  step-Effect (creates_from_wizard f v g n m e) = (create_from_wizard-Effect f v g n m e db).holds
  step-Effect (deploys id) = (deploy-Effect id db).holds
  step-Effect (undeploys id) = (undeploy-Effect id db).holds
  step-Effect (finalizes id) = (finalize-Effect id db).holds
  step-Effect (deletes id) = (delete_version-Effect id db).holds
  step-Effect (sets_prompts id p) = (set_prompts-Effect id p db).holds
  step-Effect (lands id b f) = (land_bundle-Effect id b f db).holds
  step-Effect (saves_prompts n i p) = (insert_version_from_prompts-Effect n i p draft db refl).holds
  step-Effect (lands_prompts n i p) = (insert_version_from_prompts-Effect n i p ready db refl).holds
  step-Effect (toggles i b) = (set_agent_tool_enabled-Effect codec sanitize i b db).holds
  step-Effect (binds c n t o) = (add_binding-Effect codec sanitize c n t o db).holds
  step-Effect (notes c es) = (update_notes-Effect c es db).holds
  step-Effect (unbinds c n) = (delete_binding-Effect c n db).holds
  step-Effect (creates_eval n v d o m h) = (create_eval-Effect n v d o m h db).holds
  step-Effect (starts_eval id) = (start_eval-Effect id db).holds
  step-Effect (gates_eval id) = (fail_if_multi_agent-Effect id db).holds
  step-Effect (submits id r) = (submit_eval-Effect id r db).holds
  step-Effect (fails_eval id m) = (fail_eval-Effect id m db).holds
  step-Effect (creates_training n e p) = (create_training-Effect n e p db).holds
  step-Effect (starts_training id e p) = (start_training-Effect id e p db).holds
  step-Effect (completes n id p r s) = (complete_training-Effect n id p r s db).holds
  step-Effect (fails_training id m) = (fail_training-Effect id m db).holds
  step-Effect (others m c d s) = quiet refl refl refl
