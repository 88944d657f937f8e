-- ===== src/Store/Invariant/Final.antt =====
-- The status of an eval: DONE and FAILED are final.
use open_bbc.Base.{
  refl, any, keep, [], ◌∷◌, Bool, String, ◌≡◌, ◌⊎◌, inl, inr, true, false, not, Bool-cases, some,
  List, ◌==◌, eq_iff, arith,
}
use open_bbc.Chat.Env.{Codec}
use open_bbc.Store.{EvalRow, Db, is_final, eval_of}
use open_bbc.Store.Rows.{mem-first, not-any, first-keep}
use open_bbc.Store.Versions.{is_version}
use open_bbc.Store.Evals.{is_eval}
use open_bbc.Store.Effects.{
  Effect, quiet, edits, deploys, toggles, inserts, binds, rebinds, evaluates, runs, removes,
}
use open_bbc.Store.Steps.{Call, step}
use open_bbc.Store.Steps.OfCalls.{step-Effect}

-- The row is found as it was, or its version is gone and every eval of that version with it.
abbrev pub Unchanged : String → EvalRow → Db → Type 0
Unchanged id e db =
    (eval_of db id ≡ some e)
    ⊎ ((any (is_version e.agent_version_id) db.versions ≡ false)
        × (any (λ (r : EvalRow). r.agent_version_id == e.agent_version_id) db.evals ≡ false))

any-keep :
    {A : Type 0} (p q : A → Bool) (xs : List A)
    → ((x : A) → q x ≡ true → p x ≡ false)
    → any p (keep q xs) ≡ false
any-keep p q [] h = refl
any-keep p q (x ∷ xs) h = elim (Bool-cases (q x)) [
  | inl e ↦ rw e (rw (h x e) (any-keep p q xs h))
  | inr e ↦ rw e (any-keep p q xs h)
]

Unchanged-Effect :
    (db next : Db) (id : String) (e : EvalRow)
    → Effect db next
    → eval_of db id ≡ some e
    → is_final e.status ≡ true
    → Unchanged id e next
Unchanged-Effect db next id e (quiet a b c) h f = rw c (inl h)
Unchanged-Effect db next id e (edits p g a b c d k) h f = rw k (inl h)
Unchanged-Effect db next id e (deploys i v a b c d k) h f = rw k (inl h)
Unchanged-Effect db next id e (toggles i x a b c d) h f = rw d (inl h)
Unchanged-Effect db next id e (inserts v x a b c d k l) h f = rw l (inl h)
Unchanged-Effect db next id e (binds x v t a b c d k l m) h f = rw m (inl h)
Unchanged-Effect db next id e (rebinds a b c) h f = rw c (inl h)
Unchanged-Effect db next id e (evaluates x v a b free c d k) h f =
    let (m, l) = mem-first (λ (r : EvalRow). r.id == id) db.evals e h in
    let away = not-any (is_eval x.id) db.evals e free m in
    let other : (x.id == id) ≡ false =
      ground (arith, eq_iff x.id id, eq_iff e.id id, eq_iff e.id x.id) in
    rw k (inl (rw other h))
Unchanged-Effect db next id e (runs a fin c d) h f = inl (fin id e h f)
Unchanged-Effect db next id e (removes i a b c d) h f =
    let p = λ (r : EvalRow). not (r.agent_version_id == i) in
    elim (Bool-cases (p e)) [
      | inl k ↦ rw d (inl (first-keep _ p db.evals e h k))
      | inr k ↦
          let same : e.agent_version_id ≡ i = (eq_iff e.agent_version_id i).0 (ground (arith, k)) in
          inr (
            rw (b, same) (any-keep _ _ db.versions (λ v q. ground (arith, q))),
            rw (d, same) (any-keep _ _ db.evals (λ r q. ground (arith, q))),
          )
    ]

-- Under the transactions run one after another, none changes an eval that is DONE or FAILED, in any
-- column: it is found again as it was, or its version is gone and every eval of that version with it.
pub final_eval-step :
    (codec : Codec) (sanitize : String → String) (db : Db) (c : Call) (id : String) (e : EvalRow)
    → eval_of db id ≡ some e
    → is_final e.status ≡ true
    → Unchanged id e (step codec sanitize db c)
final_eval-step codec sanitize db c id e =
    Unchanged-Effect db (step codec sanitize db c) id e (step-Effect codec sanitize db c)
