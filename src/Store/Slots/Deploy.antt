-- ===== src/Store/Slots/Deploy.antt =====
-- `Deploy` of open-bbcd/internal/repository/agent_version.go on the slots.
use mathlib.Core.List.{Memᴰ}
use open_bbc.Base.{
  String, ◌≡◌, ◌≢◌, refl, sym, ap, ◌∙◌, ◌⊎◌, inl, inr, true, Bool-cases, Option, some, Option-cases,
  ◌==◌, eq_iff, arith,
}
use open_bbc.Store.{ready, deployed, VersionRow, Db, ok, ◌>>=◌, or_err, is_status, version_of}
use open_bbc.Store.Rows.{mem-first, update_where-mem}
use open_bbc.Store.Versions.{is_version, with_status, update_versions, deploy, current_deployed_id}
use open_bbc.Store.Effects.{other_deployed, deploys}
use open_bbc.Store.Invariant.Keys.{
  Keyed, Keyed-Effect, promote, promoted, demote, mem-promoted, promote-id, promote-agent,
  promote-deployed,
}
use open_bbc.Store.Slots.{put, Serves, Serves-of-current, current-of-Serves, current-eq}

deploy-ok :
    (db next : Db) (id : String) (previous : Option String)
    → deploy id db ≡ ok (previous, next)
    → (v : VersionRow) × (version_of db id ≡ some v)
      × (((is_status v.status deployed ≡ true) × (next ≡ db))
          ⊎ ((is_status v.status ready ≡ true)
              × (next
                  ≡ update_versions
                      (is_version id)
                      (with_status deployed)
                      (update_versions (other_deployed v.agent_id id) (with_status ready) db))))
unfolding deploy ◌>>=◌ or_err
deploy-ok db next id previous h = elim (Option-cases (version_of db id)) [
  | inl e ↦ absurd (cc (rw e at h))
  | inr (v, e) ↦ elim (Bool-cases (is_status v.status deployed)) [
    | inl d ↦ (v, e, inl (d, cc (rw (e, d) at h)))
    | inr d ↦ elim (Bool-cases (is_status v.status ready)) [
      | inl r ↦ (v, e, inr (r, cc (rw (e, d, r) at h)))
      | inr r ↦ absurd (cc (rw (e, d, r) at h))
    ]
  ]
]

module _ (db : Db) (id : String) (v : VersionRow) (keyed : Keyed db) where
  after_promotion : Db
  after_promotion =
      update_versions (is_version id) (with_status deployed)
        (update_versions (other_deployed v.agent_id id) (with_status ready) db)

  to_slot :
      (a i : String) (b : VersionRow)
      → Memᴰ v db.versions
      → v.id ≡ id
      → Memᴰ b db.versions
      → b.id ≡ i
      → b.agent_id ≡ a
      → (b.id ≡ id) ⊎ ((is_status b.status deployed ≡ true) × (b.agent_id ≢ v.agent_id))
      → put v.agent_id id (current_deployed_id db) a ≡ some i
  unfolding Serves
  to_slot a i b mv named mb k ag (inl same) =
      let e = ap (λ r. r.agent_id) (keyed.ids b v mb mv (same ∙ sym named)) in
      rw ((eq_iff v.agent_id a).1 (sym e ∙ ag)) (ap some (sym same ∙ k))
  to_slot a i b mv named mb k ag (inr (d, far)) = elim (Bool-cases (v.agent_id == a)) [
    | inl e ↦ absurd (far (ag ∙ sym ((eq_iff v.agent_id a).0 e)))
    | inr e ↦ rw e (current-of-Serves db a i keyed (b, mb, k, ag, d))
  ]

  promote-live :
      (w : VersionRow)
      → (w.id ≡ id) ⊎ ((is_status w.status deployed ≡ true) × (w.agent_id ≢ v.agent_id))
      → is_status (promote id v db.versions keyed w).status deployed ≡ true
  unfolding promote demote
  promote-live w (inl e) = ground (arith, eq_iff w.id id)
  promote-live w (inr (d, far)) = ground (arith, eq_iff w.agent_id v.agent_id)

  mem-after_promotion :
      (w : VersionRow)
      → Memᴰ w db.versions
      → Memᴰ (promote id v db.versions keyed w) after_promotion.versions
  unfolding promote demote after_promotion
  mem-after_promotion w m =
      update_where-mem (is_version id) (with_status deployed) _ _
        (update_where-mem (other_deployed v.agent_id id) (with_status ready) db.versions w m)

  serves :
      (a i : String) (w : VersionRow)
      → Memᴰ w db.versions
      → w.id ≡ i
      → w.agent_id ≡ a
      → (w.id ≡ id) ⊎ ((is_status w.status deployed ≡ true) × (w.agent_id ≢ v.agent_id))
      → Serves after_promotion a i
  unfolding Serves
  serves a i w m k ag c = (
    promote id v db.versions keyed w,
    mem-after_promotion w m,
    promote-id id v db.versions keyed w ∙ k,
    promote-agent id v db.versions keyed w ∙ ag,
    promote-live w c,
  )

  of_slot :
      (a i : String)
      → Memᴰ v db.versions
      → v.id ≡ id
      → put v.agent_id id (current_deployed_id db) a ≡ some i
      → Serves after_promotion a i
  unfolding Serves
  of_slot a i mv named o = elim (Bool-cases (v.agent_id == a)) [
    | inl e ↦
        let h : some id ≡ some i = rw e at o in
        serves a i v mv (cc (h, named)) ((eq_iff v.agent_id a).0 e) (inl named)
    | inr e ↦
        let (w, m, k, ag, d) = Serves-of-current db a i (rw e at o) in
        serves a i w m k ag (inr (d, λ l. ground (arith, eq_iff v.agent_id a)))
  ]

  promoted_slot :
      version_of db id ≡ some v
      → is_status v.status ready ≡ true
      → (a : String)
      → current_deployed_id after_promotion a ≡ put v.agent_id id (current_deployed_id db) a
  unfolding after_promotion Serves promoted
  promoted_slot e r a =
      let (mv, kv) = mem-first (λ (w : VersionRow). w.id == id) db.versions v e in
      let named = (eq_iff v.id id).0 kv in
      let next_keyed = Keyed-Effect db after_promotion (deploys id v e r refl refl refl) keyed in
      current-eq after_promotion a _ next_keyed
        (λ i (x, m, k, ag, d).
          let (b, n, l) = mem-promoted id v db.versions keyed x m in
          to_slot a i b mv named n
            (sym (promote-id id v db.versions keyed b) ∙ ap (λ r. r.id) (sym l) ∙ k)
            (sym (promote-agent id v db.versions keyed b) ∙ ap (λ r. r.agent_id) (sym l) ∙ ag)
            (promote-deployed id v db.versions keyed b
              (ap (λ r. is_status r.status deployed) (sym l) ∙ d)))
        (λ i o. of_slot a i mv named o)

kept_slot :
    (db : Db) (id : String) (v : VersionRow)
    → Keyed db
    → version_of db id ≡ some v
    → is_status v.status deployed ≡ true
    → (a : String) → current_deployed_id db a ≡ put v.agent_id id (current_deployed_id db) a
unfolding Serves
kept_slot db id v keyed e d a =
    let (mv, kv) = mem-first (λ (w : VersionRow). w.id == id) db.versions v e in
    elim (Bool-cases (v.agent_id == a)) [
      | inl k ↦ rw k (
          current-of-Serves db a id keyed
            (v, mv, (eq_iff v.id id).0 kv, (eq_iff v.agent_id a).0 k, d))
      | inr k ↦ rw k refl
    ]

-- When `Deploy` succeeds, the version exists, and afterwards it alone serves its agent; what serves
-- the other agents is unchanged. The database has unique version ids and one DEPLOYED version per
-- agent at most.
pub deploy-put :
    (db next : Db) (id : String) (previous : Option String)
    → Keyed db
    → deploy id db ≡ ok (previous, next)
    → (v : VersionRow) × (version_of db id ≡ some v)
      × ((a : String) → current_deployed_id next a ≡ put v.agent_id id (current_deployed_id db) a)
unfolding after_promotion
deploy-put db next id previous keyed h =
    let (v, e, c) = deploy-ok db next id previous h in
    (
      v,
      e,
      λ a. elim c [
        | inl (d, same) ↦ rw same (kept_slot db id v keyed e d a)
        | inr (r, made) ↦
            ap (λ (t : Db). current_deployed_id t a) made ∙ promoted_slot db id v keyed e r a
      ],
    )
