-- ===== src/Store/Effects/OfVersions.antt =====
-- The effects of the transactions of Store/Versions and Store/Removal.
use mathlib.Core.List.Memᴰ.{of_map}
use open_bbc.Base.{
  String, ◌≡◌, refl, sym, ap, inl, inr, Bool, true, false, ◌&&◌, Bool-cases, Option, none, [], ◌∷◌,
  any, ◌==◌, arith,
}
use open_bbc.Llm.{Bytes}
use open_bbc.Store.{
  AgentStatus, initializing, ready, deployed, VersionRow, Db, ok, ◌>>◌, check, is_status,
}
use open_bbc.Store.Rows.{mem-keep}
use open_bbc.Store.Rules.{Leaves, committed, refused, bound, found, checked}
use open_bbc.Store.Versions.{
  is_version, with_status, insert_version, create_from_wizard, deploy, undeploy, update_status,
  set_prompts, land_bundle, insert_version_from_prompts,
}
use open_bbc.Store.Removal.{delete_version, remove_version}
use open_bbc.Store.Effects.{Effect, quiet, edits, deploys, inserts, removes, Mild}

pub quiet_refl : (db : Db) → Effect db db
quiet_refl db = quiet refl refl refl

pub deploy-Effect : (id : String) (db : Db) → Leaves (Effect db) db (deploy id db)
unfolding deploy
deploy-Effect id db = found (quiet_refl db) _ _ _ (λ v e.
    elim (Bool-cases (is_status v.status deployed)) [
      | inl d ↦ rw d (committed (quiet_refl db) none (quiet_refl db))
      | inr d ↦ rw d (elim (Bool-cases (is_status v.status ready)) [
        | inl r ↦ rw r (committed (quiet_refl db) _ (deploys id v e r refl refl refl))
        | inr r ↦ rw r (refused (quiet_refl db) _)
      ])
    ])

pub undeploy-Effect : (id : String) (db : Db) → Leaves (Effect db) db (undeploy id db)
unfolding undeploy
undeploy-Effect id db = checked (quiet_refl db) _ _ _ (λ _.
    committed (quiet_refl db) _
      (edits _ (with_status ready) (λ v _. mild v) (λ v. refl) refl refl refl))
  where
    mild : (v : VersionRow) → Mild v (with_status ready v)
    mild v = record { id = refl; agent = refl; runnable = λ _. refl; deployed = λ k. absurd (cc k) }

-- From INITIALIZING to PENDING, a version that is not runnable stays so.
pub finalize-Effect :
    (id : String) (db : Db)
    → Leaves (Effect db) db (update_status id initializing AgentStatus.pending db)
unfolding update_status
finalize-Effect id db = found (quiet_refl db) _ _ _ (λ _ _. checked (quiet_refl db) _ _ _ (λ _.
    committed (quiet_refl db) _
      (edits _ (with_status AgentStatus.pending) mild (λ v. refl) refl refl refl)))
  where
    mild :
        (v : VersionRow)
        → (v.id == id && is_status v.status initializing) ≡ true
        → Mild v (with_status AgentStatus.pending v)
    mild v h = record {
      id = refl;
      agent = refl;
      runnable = λ k. ground arith;
      deployed = λ k. absurd (cc k);
    }

pub set_prompts-Effect :
    (id : String) (prompts : Bytes) (db : Db) → Leaves (Effect db) db (set_prompts id prompts db)
unfolding set_prompts
set_prompts-Effect id prompts db = checked (quiet_refl db) _ _ _ (λ _. committed (quiet_refl db) _ (
    edits _ _ (λ v _. record { id = refl; agent = refl; runnable = λ k. k; deployed = λ k. k })
      (λ v. refl) refl refl refl))

pub land_bundle-Effect :
    (id : String) (bundle : Option (Bytes × Bytes)) (force : Bool) (db : Db)
    → Leaves (Effect db) db (land_bundle id bundle force db)
unfolding land_bundle
land_bundle-Effect id bundle force db = found (quiet_refl db) _ _ _ (λ parts _.
    found (quiet_refl db) _ _ _ (λ _ _. checked (quiet_refl db) _ _ _ (λ _.
      committed (quiet_refl db) _ (
        edits _ _
          (λ v _. record {
            id = refl;
            agent = refl;
            runnable = λ _. refl;
            deployed = λ k. absurd (cc k);
          })
          (λ v. refl) refl refl refl))))

pub insert_version-ok :
    (v : VersionRow) (db next : Db)
    → insert_version v db ≡ ok next
    → (any (is_version v.id) db.versions ≡ false)
      × (next ≡ record db { versions = v ∷ db.versions })
unfolding insert_version ◌>>◌ check
insert_version-ok v db next h = ground arith

pub create_from_wizard-Effect :
    (fresh version_id given name : String) (flow_map : Bytes) (parse_error : String) (db : Db)
    → Leaves (Effect db) db (create_from_wizard fresh version_id given name flow_map parse_error db)
unfolding create_from_wizard
create_from_wizard-Effect fresh version_id given name flow_map parse_error db =
    checked (quiet_refl db) _ _ _ (λ _. checked (quiet_refl db) _ _ _ (λ _.
      bound (quiet_refl db) _ _ (λ next e. committed (quiet_refl db) _ (
        let (free, added) = insert_version-ok _ _ next e in
        inserts _ [] free refl (λ b m. elim m [ ]) (ap (λ d. d.versions) added)
          (ap (λ d. d.bindings) added) (ap (λ d. d.evals) added)))))

pub delete_version-Effect : (id : String) (db : Db) → Leaves (Effect db) db (delete_version id db)
unfolding delete_version remove_version
delete_version-Effect id db = found (quiet_refl db) _ _ _ (λ v e.
    checked (quiet_refl db) _ _ _ (λ _. checked (quiet_refl db) _ _ _ (λ _.
      checked (quiet_refl db) _ _ _ (λ _. checked (quiet_refl db) _ _ _ (λ r.
        checked (quiet_refl db) _ _ _
          (λ _. committed (quiet_refl db) _ (removes id (ground arith) refl refl refl)))))))

pub insert_version_from_prompts-Effect :
    (new_id parent_id : String) (prompts : Bytes) (status : AgentStatus) (db : Db)
    → is_status status deployed ≡ false
    → Leaves (Effect db) db (insert_version_from_prompts new_id parent_id prompts status db)
unfolding insert_version_from_prompts
insert_version_from_prompts-Effect new_id parent_id prompts status db low =
    found (quiet_refl db) _ _ _ (λ parent _. bound (quiet_refl db) _ _ (λ next e.
      committed (quiet_refl db) _ (
        let (free, added) = insert_version-ok _ _ next e in
        inserts _ _ free low
          (λ b m.
            let (a, n, k) = of_map _ _ m in
            let (i, _) = mem-keep _ _ a n in
            (ap (λ c. c.caller_version_id) (sym k), a, i, ap (λ c. c.target_version_id) (sym k)))
          (ap (λ d. d.versions) added) refl (ap (λ d. d.evals) added))))
