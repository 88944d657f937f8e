-- ===== src/Store/Reached/Starts.antt =====
-- The temporary gate of `Start` (open-bbcd/internal/repository/eval.go) refuses no eval that waits.
use open_bbc.Base.{String, ◌≡◌, refl, ◌∙◌, true, false, some, List, ◌&&◌, ◌==◌, eq_iff, arith}
use open_bbc.Chat.Env.{Codec}
use open_bbc.Store.{
  in_progress, EvalRow, VersionRow, Db, ok, ◌>>=◌, or_err, is_active, version_of, eval_of,
}
use open_bbc.Store.Rows.{update_where, mem-first, first-of-mem, first-update_where}
use open_bbc.Store.Evals.{start_eval, lock_eval_gate, is_pending}
use open_bbc.Store.Steps.{Call, run, empty}
use open_bbc.Store.Reached.{Sound, run-Sound, empty-Sound}

pending-is_active : (e : EvalRow) → is_pending e.status ≡ true → is_active e.status ≡ true
pending-is_active e h = ground arith

-- The version of a waiting eval is there, and its agent tool is off.
open_gate :
    (db : Db) (e : EvalRow) (id : String)
    → Sound db
    → eval_of db id ≡ some e
    → is_pending e.status ≡ true
    → (v : VersionRow) × (version_of db e.agent_version_id ≡ some v)
      × (v.agent_tool_enabled ≡ false)
open_gate db e id sound he waits =
    let (me, _) = mem-first (λ (d : EvalRow). d.id == id) db.evals e he in
    let (w, mw, kw) = sound.gated.owned e me in
    let (v, hv) =
      first-of-mem (λ (u : VersionRow). u.id == e.agent_version_id) db.versions w mw
        ((eq_iff w.id e.agent_version_id).1 kw) in
    let (mv, kv) = mem-first (λ (u : VersionRow). u.id == e.agent_version_id) db.versions v hv in
    (
      v,
      hv,
      sound.gated.closed e v me mv ((eq_iff v.id e.agent_version_id).0 kv)
          (pending-is_active e waits),
    )

start_eval-Sound :
    (db : Db) (e : EvalRow) (id : String)
    → Sound db
    → eval_of db id ≡ some e
    → is_pending e.status ≡ true
    → (next : Db) × (start_eval id db ≡ ok (ok tt, next))
      × (eval_of next id ≡ some (record e { status = in_progress }))
unfolding start_eval lock_eval_gate ◌>>=◌ or_err
start_eval-Sound db e id sound he waits =
    let (v, hv, off) = open_gate db e id sound he waits in
    let pending = λ (d : EvalRow). d.id == id && is_pending d.status in
    let go = λ (d : EvalRow). record d { status = in_progress } in
    let named = (mem-first (λ (d : EvalRow). d.id == id) db.evals e he).1 in
    (
      record db { evals = update_where pending go db.evals },
      rw (he, hv, off, waits) refl,
      first-update_where (λ (d : EvalRow). d.id == id) pending go db.evals (λ d. refl) e he
          ∙ rw (named, waits) refl,
    )

module _ (codec : Codec) (sanitize : String → String) where
  -- Whatever transactions have run on a fresh database, `Start` of an eval that is PENDING succeeds
  -- and makes it IN_PROGRESS, and changes nothing else of it: the gate that fails evals of versions
  -- with the agent tool never meets one.
  pub start_eval-pending :
      (cs : List Call) (id : String) (e : EvalRow)
      → eval_of (run codec sanitize empty cs) id ≡ some e
      → is_pending e.status ≡ true
      → (next : Db) × (start_eval id (run codec sanitize empty cs) ≡ ok (ok tt, next))
        × (eval_of next id ≡ some (record e { status = in_progress }))
  start_eval-pending cs id e =
      start_eval-Sound (run codec sanitize empty cs) e id
        (run-Sound codec sanitize empty cs empty-Sound)
