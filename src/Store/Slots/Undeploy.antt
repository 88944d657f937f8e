-- ===== src/Store/Slots/Undeploy.antt =====
-- `Undeploy` of open-bbcd/internal/repository/agent_version.go on the slots.
use mathlib.Core.List.{Memᴰ}
use open_bbc.Base.{
  String, ◌≡◌, ◌≢◌, sym, ap, ◌∙◌, inl, inr, ◌↔◌, Bool, true, ◌&&◌, Bool-cases, some, any, ◌==◌,
  eq_iff, arith, if◌then◌else◌,
}
use open_bbc.Store.{ready, deployed, VersionRow, Db, ok, ◌>>◌, check, is_status}
use open_bbc.Store.Rows.{mem-update_where, update_where-mem, mem-of-any}
use open_bbc.Store.Versions.{with_status, update_versions, undeploy, current_deployed_id}
use open_bbc.Store.Effects.OfVersions.{undeploy-Effect}
use open_bbc.Store.Invariant.Keys.{Keyed, Keyed-Effect}
use open_bbc.Store.Slots.{clear, Serves, Serves-of-current, current-of-Serves, current-eq}

-- The tables after `Undeploy` demoted the version.
abbrev demoted : String → Db → Db
demoted id db =
    update_versions (λ v. v.id == id && is_status v.status deployed) (with_status ready) db

undeploy-ok :
    (db next : Db) (id : String) (x : Unit {0})
    → undeploy id db ≡ ok (x, next)
    → (v : VersionRow) × Memᴰ v db.versions
      × (v.id ≡ id)
      × (is_status v.status deployed ≡ true)
      × (next ≡ demoted id db)
unfolding undeploy ◌>>◌ check
undeploy-ok db next id x h =
    let p = λ (v : VersionRow). v.id == id && is_status v.status deployed in
    elim (Bool-cases (any p db.versions)) [
      | inl e ↦
          let (v, m, k) = mem-of-any p db.versions e in
          (v, m, ground (arith, eq_iff v.id id), ground arith, cc (rw e at h))
      | inr e ↦ absurd (cc (rw e at h))
    ]

module _ (db : Db) (id : String) (v : VersionRow) (keyed : Keyed db) where
  demote_one : VersionRow → VersionRow
  demote_one w = if w.id == id && is_status w.status deployed then with_status ready w else w

  demote_one-id : (w : VersionRow) → (demote_one w).id ≡ w.id
  unfolding demote_one
  demote_one-id w = ground arith

  demote_one-agent : (w : VersionRow) → (demote_one w).agent_id ≡ w.agent_id
  unfolding demote_one
  demote_one-agent w = ground arith

  -- What is still DEPLOYED was, and is another version.
  demote_one-deployed :
      (w : VersionRow)
      → (is_status (demote_one w).status deployed ≡ true)
        ↔ ((is_status w.status deployed ≡ true) × (w.id ≢ id))
  unfolding demote_one
  demote_one-deployed w = (
    λ h. (ground arith, λ k. ground (arith, eq_iff w.id id)),
    λ (d, far). ground (arith, eq_iff w.id id),
  )

  cleared_slot :
      Memᴰ v db.versions
      → v.id ≡ id
      → is_status v.status deployed ≡ true
      → Keyed (demoted id db)
      → (a : String)
      → current_deployed_id (demoted id db) a ≡ clear v.agent_id (current_deployed_id db) a
  unfolding Serves demote_one
  cleared_slot mv named dv next_keyed a = current-eq (demoted id db) a _ next_keyed to from
    where
      p : VersionRow → Bool
      p w = w.id == id && is_status w.status deployed

      to :
          (i : String)
          → Serves (demoted id db) a i
          → clear v.agent_id (current_deployed_id db) a ≡ some i
      to i (x, m, k, ag, d) =
          let (b, n, l) = mem-update_where p (with_status ready) db.versions x m in
          let (db', far) =
            (demote_one-deployed b).0 (ap (λ r. is_status r.status deployed) (sym l) ∙ d) in
          let agent = sym (demote_one-agent b) ∙ ap (λ r. r.agent_id) (sym l) ∙ ag in
          elim (Bool-cases (v.agent_id == a)) [
            | inl e ↦ absurd (
                far (
                  keyed.one_deployed b v n mv db' dv (agent ∙ sym ((eq_iff v.agent_id a).0 e))
                  ∙ named))
            | inr e ↦ rw e (
                current-of-Serves db a i keyed
                  (b, n, sym (demote_one-id b) ∙ ap (λ r. r.id) (sym l) ∙ k, agent, db'))
          ]

      from :
          (i : String)
          → clear v.agent_id (current_deployed_id db) a ≡ some i
          → Serves (demoted id db) a i
      from i o = elim (Bool-cases (v.agent_id == a)) [
        | inl e ↦ absurd (cc (rw e at o))
        | inr e ↦
            let (w, m, k, ag, d) = Serves-of-current db a i (rw e at o) in
            (
              demote_one w,
              update_where-mem p (with_status ready) db.versions w m,
              demote_one-id w ∙ k,
              demote_one-agent w ∙ ag,
              (demote_one-deployed w).1 (
                d,
                λ l.
                    let s = ap (λ r. r.agent_id) (keyed.ids w v m mv (l ∙ sym named)) in
                    ground (arith, eq_iff v.agent_id a),
              ),
            )
      ]

-- When `Undeploy` succeeds, the version exists, and no version serves its agent any more; what serves
-- the other agents is unchanged. The database has unique version ids and one DEPLOYED version per
-- agent at most.
pub undeploy-clear :
    (db next : Db) (id : String) (x : Unit {0})
    → Keyed db
    → undeploy id db ≡ ok (x, next)
    → (v : VersionRow) × Memᴰ v db.versions
      × (v.id ≡ id)
      × ((a : String) → current_deployed_id next a ≡ clear v.agent_id (current_deployed_id db) a)
undeploy-clear db next id x keyed h =
    let later = Keyed-Effect db next (rw h at (undeploy-Effect id db).holds) keyed in
    let (v, m, k, d, made) = undeploy-ok db next id x h in
    (
      v,
      m,
      k,
      λ a.
          ap (λ (t : Db). current_deployed_id t a) made
          ∙ cleared_slot db id v keyed m k d (rw made at later) a,
    )
