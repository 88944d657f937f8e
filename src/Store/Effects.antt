-- ===== src/Store/Effects.antt =====
-- What a transaction can do to the versions, the bindings and the evals. The invariants are proved
-- of these effects, and each transaction is shown to have one of them.
pub mod OfVersions
pub mod OfBindings
pub mod OfEvals
use mathlib.Core.List.{Memᴰ}
use open_bbc.Base.{String, ◌≡◌, ◌≢◌, Bool, true, false, not, ◌&&◌, some, List, ◌∷◌, ◌++◌, any, ◌==◌}
use open_bbc.Chat.Env.{SubAgentBinding}
use open_bbc.Store.{
  AgentStatus, ready, deployed, VersionRow, EvalRow, Db, is_status, is_active, is_final, version_of,
  eval_of,
}
use open_bbc.Store.Rows.{update_where, delete_where}
use open_bbc.Store.Versions.{is_version, with_status}
use open_bbc.Store.Evals.{is_eval}
use open_bbc.Store.Bindings.{has_active, is_editable, is_runnable}

-- Another version of this agent that is DEPLOYED.
abbrev pub other_deployed : String → String → VersionRow → Bool
other_deployed agent_id id w =
    w.agent_id == agent_id && is_status w.status deployed && not (w.id == id)

-- What an edit of a version leaves alone.
pub record Mild (v w : VersionRow) : Type 0 where
  pub id : w.id ≡ v.id
  pub agent : w.agent_id ≡ v.agent_id
  pub runnable : is_runnable v.status ≡ true → is_runnable w.status ≡ true
  pub deployed :
      is_status w.status AgentStatus.deployed ≡ true
      → is_status v.status AgentStatus.deployed ≡ true

pub data Effect (db next : Db) : Type 0 where
  quiet :
      next.versions ≡ db.versions
      → next.bindings ≡ db.bindings
      → next.evals ≡ db.evals
      → Effect db next
  edits :
      (p : VersionRow → Bool) (f : VersionRow → VersionRow)
      → ((v : VersionRow) → p v ≡ true → Mild v (f v))
      → ((v : VersionRow) → (f v).agent_tool_enabled ≡ v.agent_tool_enabled)
      → next.versions ≡ update_where p f db.versions
      → next.bindings ≡ db.bindings
      → next.evals ≡ db.evals
      → Effect db next
  deploys :
      (id : String) (v : VersionRow)
      → version_of db id ≡ some v
      → is_status v.status ready ≡ true
      → next.versions
        ≡ update_where
            (is_version id)
            (with_status deployed)
            (update_where (other_deployed v.agent_id id) (with_status ready) db.versions)
      → next.bindings ≡ db.bindings
      → next.evals ≡ db.evals
      → Effect db next
  toggles :
      (id : String) (enabled : Bool)
      → has_active db id ≡ false
      → next.versions
        ≡ update_where (is_version id) (λ w. record w { agent_tool_enabled = enabled }) db.versions
      → next.bindings ≡ db.bindings
      → next.evals ≡ db.evals
      → Effect db next
  inserts :
      (v : VersionRow) (copies : List SubAgentBinding)
      → any (is_version v.id) db.versions ≡ false
      → is_status v.status deployed ≡ false
      → ((b : SubAgentBinding)
          → Memᴰ b copies
          → (b.caller_version_id ≡ v.id)
            × (a : SubAgentBinding) × Memᴰ a db.bindings
            × (b.target_version_id ≡ a.target_version_id))
      → next.versions ≡ v ∷ db.versions
      → next.bindings ≡ copies ++ db.bindings
      → next.evals ≡ db.evals
      → Effect db next
  binds :
      (b : SubAgentBinding) (v t : VersionRow)
      → version_of db b.caller_version_id ≡ some v
      → is_editable v.status ≡ true
      → version_of db b.target_version_id ≡ some t
      → is_runnable t.status ≡ true
      → next.versions ≡ db.versions
      → next.bindings ≡ b ∷ db.bindings
      → next.evals ≡ db.evals
      → Effect db next
  rebinds :
      ((b : SubAgentBinding)
        → Memᴰ b next.bindings
        → (a : SubAgentBinding) × Memᴰ a db.bindings
          × (b.caller_version_id ≡ a.caller_version_id)
          × (b.target_version_id ≡ a.target_version_id))
      → next.versions ≡ db.versions
      → next.evals ≡ db.evals
      → Effect db next
  evaluates :
      (e : EvalRow) (v : VersionRow)
      → version_of db e.agent_version_id ≡ some v
      → v.agent_tool_enabled ≡ false
      → any (is_eval e.id) db.evals ≡ false
      → next.versions ≡ db.versions
      → next.bindings ≡ db.bindings
      → next.evals ≡ e ∷ db.evals
      → Effect db next
  runs :
      ((e : EvalRow)
        → Memᴰ e next.evals
        → (d : EvalRow) × Memᴰ d db.evals
          × (e.agent_version_id ≡ d.agent_version_id)
          × (is_active e.status ≡ true → is_active d.status ≡ true))
      → ((id : String) (e : EvalRow)
          → eval_of db id ≡ some e
          → is_final e.status ≡ true
          → eval_of next id ≡ some e)
      → next.versions ≡ db.versions
      → next.bindings ≡ db.bindings
      → Effect db next
  removes :
      (id : String)
      → any (λ (b : SubAgentBinding). b.target_version_id == id) db.bindings ≡ false
      → next.versions ≡ delete_where (is_version id) db.versions
      → next.bindings
        ≡ delete_where (λ (b : SubAgentBinding). b.caller_version_id == id) db.bindings
      → next.evals ≡ delete_where (λ (e : EvalRow). e.agent_version_id == id) db.evals
      → Effect db next
