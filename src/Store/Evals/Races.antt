-- ===== src/Store/Evals/Races.antt =====
-- Two calls that end one eval, run side by side (`Submit` and `Fail` of
-- open-bbcd/internal/repository/eval.go).
use open_bbc.Base.{String, ◌≡◌, refl, ap, ◌∙◌, ◌⊎◌, inl, inr, false, some, ◌==◌}
use open_bbc.Store.{StoreError, EvalRow, done, Db, Result, ok, err, ◌>>=◌, ◌>>◌, eval_of}
use open_bbc.Store.Rows.{update_where, first-update_where, mem-first}
use open_bbc.Store.Evals.{
  EvalResult, is_eval, is_failure, failed_eval, marshal_or_empty, insert_sessions, refuse_final,
  write_result, submit_eval, write_failure,
}

-- The columns that a result sets.
abbrev pub scored : EvalResult → EvalRow → EvalRow
scored result e = record e {
  status = done;
  score = some result.score;
  total_criteria = some result.total_criteria;
  passed_criteria = some result.passed_criteria;
  aikdm_meta = marshal_or_empty result.aikdm_meta;
}

Result-cases :
    {A : Type 0} (r : Result A) → ((a : A) × (r ≡ ok a)) ⊎ ((e : StoreError) × (r ≡ err e))
Result-cases (ok a) = inl (a, refl)
Result-cases (err e) = inr (e, refl)

-- An UPDATE by id, seen at that id.
eval_of-update :
    (db : Db) (id : String) (f : EvalRow → EvalRow) (e : EvalRow)
    → ((r : EvalRow) → (f r).id ≡ r.id)
    → eval_of db id ≡ some e
    → eval_of (record db { evals = update_where (is_eval id) f db.evals }) id ≡ some (f e)
eval_of-update db id f e key h =
    let (m, here) = mem-first (λ (r : EvalRow). r.id == id) db.evals e h in
    first-update_where (λ (r : EvalRow). r.id == id) (is_eval id) f db.evals
      (λ r. ap (λ i. i == id) (key r)) e h
    ∙ rw here refl

write_result-scored :
    (db next : Db) (id : String) (result : EvalResult) (e : EvalRow)
    → is_failure result.status ≡ false
    → eval_of db id ≡ some e
    → write_result id result db ≡ ok (tt, next)
    → eval_of next id ≡ some (scored result e)
unfolding write_result ◌>>=◌
write_result-scored db next id result e success h w =
    elim (Result-cases (insert_sessions id result.sessions db.chat_sessions db.eval_sessions)) [
      | inr (x, k) ↦ absurd (cc (rw (success, k) at w))
      | inl (rows, k) ↦
          let same : record db {
            eval_sessions = rows;
            evals = update_where (is_eval id) (scored result) db.evals;
          }
              ≡ next =
            cc (rw (success, k) at w) in
          rw (← same) (eval_of-update db id (scored result) e (λ r. refl) h)
    ]

-- `Fail` may read an eval that is not final, and write after a `Submit` of a result has committed in
-- between: both succeed, and the eval is FAILED with the score of the result in it.
pub submit_eval-write_failure :
    (db next : Db) (id message : String) (result : EvalResult) (e : EvalRow)
    → eval_of db id ≡ some e
    → refuse_final db id ≡ ok tt
    → is_failure result.status ≡ false
    → submit_eval id result db ≡ ok (tt, next)
    → (eval_of next id ≡ some (scored result e))
      × ((last : Db) × (write_failure id message next ≡ ok (tt, last))
          × (eval_of last id ≡ some (failed_eval message (scored result e))))
unfolding submit_eval write_failure ◌>>◌
submit_eval-write_failure db next id message result e h read success s =
    let there = write_result-scored db next id result e success h (rw read at s) in
    (
      there,
      (
        record next { evals = update_where (is_eval id) (failed_eval message) next.evals },
        refl,
        eval_of-update next id (failed_eval message) (scored result e) (λ r. refl) there,
      ),
    )
