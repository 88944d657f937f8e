-- ===== src/Store/Effects/OfEvals.antt =====
-- The effects of the transactions of Store/Evals and Store/Trainings.
use open_bbc.Base.{
  ℕ, String, ◌≡◌, refl, sym, ap, ◌∙◌, inl, inr, Bool, true, false, not, ◌&&◌, Bool-cases,
  Option-cases, List, ◌==◌, arith, eq_iff, if◌then◌else◌, some,
}
use open_bbc.Llm.{Bytes}
use open_bbc.Store.{
  in_progress, EvalRow, TrainingRow, ready, Db, VersionRow, ok, ◌>>=◌, check, or_err, is_active,
  is_final, eval_of, version_of,
}
use open_bbc.Store.Rows.{update_where, first-update_where, mem-first, mem-update_where}
use open_bbc.Store.Rules.{Leaves, committed, refused, bound, found, checked, granted}
use open_bbc.Store.Evals.{
  EvalResult, is_eval, is_pending, failed_eval, is_failure, multi_agent_text, agent_tool_enabled,
  create_eval, fail_eval_multi_agent, start_eval, fail_trainings, fail_if_multi_agent, submit_eval,
  fail_eval, refuse_final, write_result, write_failure,
}
use open_bbc.Store.Trainings.{
  CompleteSummary, create_training, start_training, complete_training, fail_training,
}
use open_bbc.Store.Effects.{
  Effect, quiet, edits, deploys, toggles, inserts, binds, rebinds, evaluates, runs, removes,
}
use open_bbc.Store.Effects.OfVersions.{quiet_refl, insert_version_from_prompts-Effect}

agent_tool_enabled-ok :
    (db : Db) (id : String) (enabled : Bool)
    → agent_tool_enabled db id ≡ ok enabled
    → not enabled ≡ true
    → (v : VersionRow) × (version_of db id ≡ some v) × (v.agent_tool_enabled ≡ false)
unfolding agent_tool_enabled ◌>>=◌ or_err
agent_tool_enabled-ok db id enabled h off = elim (Option-cases (version_of db id)) [
  | inl e ↦ ground arith
  | inr (v, e) ↦ (v, e, ground arith)
]

not-true : {b : Bool} → not b ≡ true → b ≡ false
not-true {b} h = ground arith

pub create_eval-Effect :
    (new_id version_id dataset_version_id : String) (dataset_ok mock_mcp : Bool) (headers : Bytes)
    → (db : Db)
    → Leaves
        (Effect db)
        db
        (create_eval new_id version_id dataset_version_id dataset_ok mock_mcp headers db)
unfolding create_eval
create_eval-Effect new_id version_id dataset_version_id dataset_ok mock_mcp headers db =
    let q = quiet_refl db in
    bound q _ _ (λ enabled e. checked q _ _ _ (λ off. checked q _ _ _ (λ free. checked q _ _ _ (λ _.
      let (v, ve, low) = agent_tool_enabled-ok db version_id enabled e off in
      committed q _ (evaluates _ v ve low (not-true free) refl refl refl)))))

kept_version :
    (b : Bool) (c d : EvalRow)
    → d.agent_version_id ≡ c.agent_version_id
    → (if b then d else c).agent_version_id ≡ c.agent_version_id
kept_version true c d e = e
kept_version false c d e = refl

kept_calm :
    (b : Bool) (c d : EvalRow)
    → (b ≡ true → is_active d.status ≡ true → is_active c.status ≡ true)
    → is_active (if b then d else c).status ≡ true
    → is_active c.status ≡ true
kept_calm true c d h k = h refl k
kept_calm false c d h k = k

-- An UPDATE of evals that leaves their versions alone and makes none active.
updated :
    (db next : Db) (p : EvalRow → Bool) (f : EvalRow → EvalRow)
    → ((e : EvalRow) → (f e).agent_version_id ≡ e.agent_version_id)
    → ((e : EvalRow) → (f e).id ≡ e.id)
    → ((id : String) (e : EvalRow)
        → eval_of db id ≡ some e
        → is_final e.status ≡ true
        → p e ≡ false)
    → ((e : EvalRow) → p e ≡ true → is_active (f e).status ≡ true → is_active e.status ≡ true)
    → next.versions ≡ db.versions
    → next.bindings ≡ db.bindings
    → next.evals ≡ update_where p f db.evals
    → Effect db next
updated db next p f same key spared calm v b e =
    runs
      (λ d m.
        let (c, n, k) = mem-update_where p f db.evals d (rw e at m) in
        (
          c,
          n,
          ap (λ r. r.agent_version_id) k ∙ kept_version (p c) c (f c) (same c),
          λ h. kept_calm (p c) c (f c) (calm c) (sym (ap (λ r. is_active r.status) k) ∙ h),
        ))
      (λ id d found final. rw e (
        first-update_where (λ (r : EvalRow). r.id == id) p f db.evals
          (λ r. ap (λ i. i == id) (key r)) d found
        ∙ rw (spared id d found final) refl))
      v b

-- An UPDATE of the eval that was checked not to be final.
spared_checked :
    (db : Db) (i : String) (r : EvalRow)
    → eval_of db i ≡ some r
    → not (is_final r.status) ≡ true
    → (id : String) (e : EvalRow) → eval_of db id ≡ some e
    → is_final e.status ≡ true
    → is_eval i e ≡ false
spared_checked db i r row unfinished id e h final = elim (Bool-cases (e.id == i)) [
  | inr k ↦ k
  | inl k ↦
      let (_, l) = mem-first (λ (d : EvalRow). d.id == id) db.evals e h in
      let same : id ≡ i = sym ((eq_iff e.id id).0 l) ∙ (eq_iff e.id i).0 k in
      let h' : eval_of db i ≡ some e = rw (← same) h in absurd (ground (arith, h', row))
]

-- An UPDATE of an eval that is PENDING.
spared_pending :
    (db : Db) (i : String) (id : String) (e : EvalRow)
    → eval_of db id ≡ some e
    → is_final e.status ≡ true
    → (e.id == i && is_pending e.status) ≡ false
spared_pending db i id e h final = ground arith

-- The end of an eval is not active.
not_active : {P : Type 0} → false ≡ true → P
not_active h = absurd (cc h)

started :
    (id : String) (e : EvalRow)
    → (e.id == id && is_pending e.status) ≡ true
    → is_active e.status ≡ true
started id e h = ground arith

pub start_eval-Effect : (id : String) (db : Db) → Leaves (Effect db) db (start_eval id db)
unfolding start_eval fail_eval_multi_agent
start_eval-Effect id db =
    let q = quiet_refl db in
    let pending = λ (e : EvalRow). e.id == id && is_pending e.status in
    bound q _ _ (λ g _. elim (Bool-cases g.1) [
      | inl on ↦ rw on (elim (Bool-cases (is_pending g.0)) [
        | inl w ↦ rw w (
            committed q _ (
              updated db _ pending (failed_eval multi_agent_text) (λ e. refl) (λ e. refl)
                (spared_pending db id) (λ e _ h. not_active h) refl refl refl))
        | inr w ↦ rw w (refused q _)
      ])
      | inr off ↦ rw off (elim (Bool-cases (is_pending g.0)) [
        | inl w ↦ rw w (
            committed q _ (
              updated db _ pending (λ e. record e { status = in_progress }) (λ e. refl) (λ e. refl)
                (spared_pending db id) (λ e h _. started id e h) refl refl refl))
        | inr w ↦ rw w (refused q _)
      ])
    ])

pub fail_if_multi_agent-Effect :
    (id : String) (db : Db) → Leaves (Effect db) db (fail_if_multi_agent id db)
unfolding fail_if_multi_agent fail_eval_multi_agent fail_trainings
fail_if_multi_agent-Effect id db =
    let q = quiet_refl db in
    let pending = λ (e : EvalRow). e.id == id && is_pending e.status in
    bound q _ _ (λ g _. elim (Bool-cases g.1) [
      | inl on ↦ rw on (elim (Bool-cases (is_pending g.0)) [
        | inl w ↦ rw w (
            committed q _ (
              updated db _ pending (failed_eval multi_agent_text) (λ e. refl) (λ e. refl)
                (spared_pending db id) (λ e _ h. not_active h) refl refl refl))
        | inr w ↦ rw w (committed q _ (quiet refl refl refl))
      ])
      | inr off ↦ rw off (committed q _ q)
    ])

refuse_final-ok :
    (db : Db) (id : String)
    → refuse_final db id ≡ ok tt
    → (e : EvalRow) × (eval_of db id ≡ some e) × (not (is_final e.status) ≡ true)
unfolding refuse_final ◌>>=◌ or_err check
refuse_final-ok db id h = elim (Option-cases (eval_of db id)) [
  | inl none_there ↦ absurd (cc (rw none_there at h))
  | inr (e, there) ↦ elim (Bool-cases (not (is_final e.status))) [
    | inl k ↦ (e, there, k)
    | inr k ↦ absurd (cc (rw (there, k) at h))
  ]
]

-- An UPDATE of the eval, after `refuse_final`, that ends it.
ended :
    (db next : Db) (id : String) (f : EvalRow → EvalRow)
    → refuse_final db id ≡ ok tt
    → ((e : EvalRow) → (f e).agent_version_id ≡ e.agent_version_id)
    → ((e : EvalRow) → (f e).id ≡ e.id)
    → ((e : EvalRow) → is_active (f e).status ≡ false)
    → next.versions ≡ db.versions
    → next.bindings ≡ db.bindings
    → next.evals ≡ update_where (is_eval id) f db.evals
    → Effect db next
ended db next id f read same key calm v b e =
    let (r, re, unfinished) = refuse_final-ok db id read in
    updated db next (is_eval id) f same key (spared_checked db id r re unfinished)
      (λ c _ h. not_active (sym (calm c) ∙ h)) v b e

pub submit_eval-Effect :
    (id : String) (result : EvalResult) (db : Db) → Leaves (Effect db) db (submit_eval id result db)
unfolding submit_eval write_result
submit_eval-Effect id result db =
    let q = quiet_refl db in
    granted q _ _ (λ read. elim (Bool-cases (is_failure result.status)) [
      | inl w ↦
          rw w (
            committed q _ (ended db _ id _ read (λ e. refl) (λ e. refl) (λ e. refl) refl refl refl))
      | inr w ↦ rw w (
          bound q _ _ (λ rows _.
            committed q _
              (ended db _ id _ read (λ e. refl) (λ e. refl) (λ e. refl) refl refl refl)))
    ])

pub fail_eval-Effect :
    (id message : String) (db : Db) → Leaves (Effect db) db (fail_eval id message db)
unfolding fail_eval write_failure
fail_eval-Effect id message db =
    let q = quiet_refl db in
    granted q _ _ (λ read.
      committed q _ (
        ended db _ id (failed_eval message) read (λ e. refl) (λ e. refl) (λ e. refl) refl refl
          refl))

pub create_training-Effect :
    (new_id eval_id parent_id : String) (db : Db)
    → Leaves (Effect db) db (create_training new_id eval_id parent_id db)
unfolding create_training
create_training-Effect new_id eval_id parent_id db =
    let q = quiet_refl db in
    found q _ _ _ (λ _ _. bound q _ _ (λ _ _.
      checked q _ _ _
        (λ _. checked q _ _ _ (λ _. checked q _ _ _ (λ _. committed q _ (quiet refl refl refl))))))

pub start_training-Effect :
    (id : String) (epochs patience : ℕ) (db : Db)
    → Leaves (Effect db) db (start_training id epochs patience db)
unfolding start_training fail_trainings
start_training-Effect id epochs patience db =
    let q = quiet_refl db in
    found q _ _ _ (λ t _. found q _ _ _ (λ e _. found q _ _ _ (λ v _.
      elim (Bool-cases v.agent_tool_enabled) [
        | inl on ↦ rw on (elim (Bool-cases (is_pending t.status)) [
          | inl w ↦ rw w (committed q _ (quiet refl refl refl))
          | inr w ↦ rw w (refused q _)
        ])
        | inr off ↦ rw off (elim (Bool-cases (is_pending t.status)) [
          | inl w ↦ rw w (committed q _ (quiet refl refl refl))
          | inr w ↦ rw w (refused q _)
        ])
      ])))

pub fail_training-Effect :
    (id message : String) (db : Db) → Leaves (Effect db) db (fail_training id message db)
unfolding fail_training fail_trainings
fail_training-Effect id message db =
    let q = quiet_refl db in checked q _ _ _ (λ _. committed q _ (quiet refl refl refl))

-- The effect says nothing of the training sessions.
Effect-trainings :
    (db next : Db) (rows : List TrainingRow)
    → Effect db next
    → Effect db (record next { trainings = rows })
Effect-trainings db next rows (quiet a b c) = quiet a b c
Effect-trainings db next rows (edits p f a b c d e) = edits p f a b c d e
Effect-trainings db next rows (deploys i v a b c d e) = deploys i v a b c d e
Effect-trainings db next rows (toggles i x a b c d) = toggles i x a b c d
Effect-trainings db next rows (inserts v x a b c d e f) = inserts v x a b c d e f
Effect-trainings db next rows (binds x v t a b c d e f g) = binds x v t a b c d e f g
Effect-trainings db next rows (rebinds a b c) = rebinds a b c
Effect-trainings db next rows (evaluates e v a b c d f g) = evaluates e v a b c d f g
Effect-trainings db next rows (runs a b c d) = runs a b c d
Effect-trainings db next rows (removes i a b c d) = removes i a b c d

pub complete_training-Effect :
    (new_id id : String) (prompts report : Bytes) (summary : CompleteSummary) (db : Db)
    → Leaves (Effect db) db (complete_training new_id id prompts report summary db)
unfolding complete_training
complete_training-Effect new_id id prompts report summary db =
    let q = quiet_refl db in
    found q _ _ _ (λ t _. checked q _ _ _ (λ _. bound q _ _ (λ forked e. committed q _ (
      Effect-trainings db forked.1 _ (
        rw e at (
          (insert_version_from_prompts-Effect new_id t.parent_version_id prompts ready db
            refl).holds))))))
