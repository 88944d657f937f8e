-- ===== src/Store/Invariant/Gate.antt =====
-- No eval is pending or running on a version whose agent tool is enabled, and each eval's version
-- exists.
use mathlib.Core.List.{Memᴰ}
use mathlib.Core.List.Memᴰ.{head, tail}
use open_bbc.Base.{
  String, ◌≡◌, refl, sym, ap, ◌∙◌, Bool, true, false, not, ◌&&◌, List, ◌∷◌, any, ◌==◌, arith,
  eq_iff, if◌then◌else◌,
}
use open_bbc.Store.{ready, deployed, VersionRow, EvalRow, Db, is_active}
use open_bbc.Store.Rows.{
  update_where, delete_where, mem-first, not-any, any-of-mem, mem-update_where, update_where-mem,
  mem-keep, keep-mem,
}
use open_bbc.Store.Versions.{is_version, with_status}
use open_bbc.Store.Effects.{
  Effect, quiet, edits, deploys, toggles, inserts, binds, rebinds, evaluates, runs, removes,
  other_deployed,
}
use open_bbc.Store.Invariant.Keys.{Keyed}

pub record Gate (vs : List VersionRow) (es : List EvalRow) : Type 0 where
  pub closed :
      (e : EvalRow) (v : VersionRow)
      → Memᴰ e es
      → Memᴰ v vs
      → v.id ≡ e.agent_version_id
      → is_active e.status ≡ true
      → v.agent_tool_enabled ≡ false
  pub owned : (e : EvalRow) → Memᴰ e es → (v : VersionRow) × Memᴰ v vs × (v.id ≡ e.agent_version_id)

abbrev pub Gated : Db → Type 0
Gated db = Gate db.versions db.evals

if_field :
    {A : Type 0} (f : VersionRow → A) (b : Bool) (v w : VersionRow)
    → (b ≡ true → f w ≡ f v)
    → f (if b then w else v) ≡ f v
if_field f true v w h = h refl
if_field f false v w h = refl

-- An UPDATE of versions that keeps the ids, and the flag where an eval is active.
Gate-update_where :
    (p : VersionRow → Bool) (f : VersionRow → VersionRow) (vs : List VersionRow) (es : List EvalRow)
    → ((v : VersionRow) → p v ≡ true → (f v).id ≡ v.id)
    → ((e : EvalRow) (v : VersionRow)
        → Memᴰ e es
        → v.id ≡ e.agent_version_id
        → is_active e.status ≡ true
        → p v ≡ true
        → (f v).agent_tool_enabled ≡ v.agent_tool_enabled)
    → Gate vs es
    → Gate (update_where p f vs) es
Gate-update_where p f vs es same flag gate = record {
  closed = λ e v m n k a.
      let (w, i, l) = mem-update_where p f vs v n in
      let same_id = if_field (λ r. r.id) (p w) w (f w) (same w) in
      let named : w.id ≡ e.agent_version_id = sym same_id ∙ ap (λ r. r.id) (sym l) ∙ k in
      ap (λ r. r.agent_tool_enabled) l
      ∙ if_field (λ r. r.agent_tool_enabled) (p w) w (f w) (flag e w m named a)
      ∙ gate.closed e w m i named a;
  owned = λ e m.
      let (v, n, k) = gate.owned e m in
      (
        if p v then f v else v,
        update_where-mem p f vs v n,
        if_field (λ r. r.id) (p v) v (f v) (same v) ∙ k,
      );
}

Gate-cons :
    (x : VersionRow) (vs : List VersionRow) (es : List EvalRow)
    → any (is_version x.id) vs ≡ false
    → Gate vs es
    → Gate (x ∷ vs) es
Gate-cons x vs es free gate = record {
  closed = closed;
  owned = λ e m. let (v, n, k) = gate.owned e m in (v, tail n, k);
}
  where
    closed :
        (e : EvalRow) (v : VersionRow)
        → Memᴰ e es
        → Memᴰ v (x ∷ vs)
        → v.id ≡ e.agent_version_id
        → is_active e.status ≡ true
        → v.agent_tool_enabled ≡ false
    closed e v m (tail n) k a = gate.closed e v m n k a
    closed e v m (head h) k a =
        let (w, n, l) = gate.owned e m in
        let away = not-any (is_version x.id) vs w free n in
        let same : w.id ≡ x.id = l ∙ sym k ∙ ap (λ r. r.id) h in ground (arith, eq_iff w.id x.id)

Gate-evaluates :
    (vs : List VersionRow) (es : List EvalRow) (x : EvalRow) (v : VersionRow)
    → ((u w : VersionRow) → Memᴰ u vs → Memᴰ w vs → u.id ≡ w.id → u ≡ w)
    → Memᴰ v vs
    → v.id ≡ x.agent_version_id
    → v.agent_tool_enabled ≡ false
    → Gate vs es
    → Gate vs (x ∷ es)
Gate-evaluates vs es x v ids mv named low gate = record { closed = closed; owned = owned }
  where
    closed :
        (e : EvalRow) (w : VersionRow)
        → Memᴰ e (x ∷ es)
        → Memᴰ w vs
        → w.id ≡ e.agent_version_id
        → is_active e.status ≡ true
        → w.agent_tool_enabled ≡ false
    closed e w (head h) n k a =
        ap (λ r. r.agent_tool_enabled)
          (ids w v n mv (k ∙ ap (λ r. r.agent_version_id) h ∙ sym named))
        ∙ low
    closed e w (tail m) n k a = gate.closed e w m n k a

    owned :
        (e : EvalRow) → Memᴰ e (x ∷ es) → (w : VersionRow) × Memᴰ w vs × (w.id ≡ e.agent_version_id)
    owned e (head h) = (v, mv, named ∙ ap (λ r. r.agent_version_id) (sym h))
    owned e (tail m) = gate.owned e m

Gate-runs :
    (vs : List VersionRow) (es ds : List EvalRow)
    → ((e : EvalRow)
        → Memᴰ e ds
        → (d : EvalRow) × Memᴰ d es
          × (e.agent_version_id ≡ d.agent_version_id)
          × (is_active e.status ≡ true → is_active d.status ≡ true))
    → Gate vs es
    → Gate vs ds
Gate-runs vs es ds old gate = record {
  closed = λ e v m n k a. let (d, i, l, h) = old e m in gate.closed d v i n (k ∙ l) (h a);
  owned = λ e m. let (d, i, l, _) = old e m in let (v, n, k) = gate.owned d i in (v, n, k ∙ sym l);
}

Gate-removes :
    (id : String) (vs : List VersionRow) (es : List EvalRow)
    → Gate vs es
    → Gate
        (delete_where (is_version id) vs)
        (delete_where (λ (e : EvalRow). e.agent_version_id == id) es)
Gate-removes id vs es gate = record {
  closed = λ e v m n k a. gate.closed e v (mem-keep _ es e m).0 (mem-keep _ vs v n).0 k a;
  owned = λ e m.
      let (i, away) = mem-keep (λ (d : EvalRow). not (d.agent_version_id == id)) es e m in
      let (v, n, k) = gate.owned e i in
      (v, keep-mem (λ w. not (is_version id w)) vs v n (rw k away), k);
}

-- Every effect keeps the gate.
pub Gated-Effect : (db next : Db) → Effect db next → Keyed db → Gated db → Gated next
Gated-Effect db next (quiet v b e) keyed gate = rw (v, e) gate
Gated-Effect db next (edits p f mild flag v b e) keyed gate =
    rw (v, e)
      (Gate-update_where p f db.versions db.evals (λ w h. (mild w h).id) (λ _ w _ _ _ _. flag w)
        gate)
Gated-Effect db next (deploys id v found r n b e) keyed gate =
    rw (n, e)
      (Gate-update_where (is_version id) (with_status deployed) _ db.evals (λ w _. refl)
        (λ _ w _ _ _ _. refl)
        (Gate-update_where (other_deployed v.agent_id id) (with_status ready) db.versions db.evals
          (λ w _. refl) (λ _ w _ _ _ _. refl) gate))
Gated-Effect db next (toggles id enabled idle v b e) keyed gate =
    rw (v, e)
      (Gate-update_where (is_version id) _ db.versions db.evals (λ w _. refl)
        (λ d w m k a h. absurd (busy d w m k a h)) gate)
  where
    busy :
        (d : EvalRow) (w : VersionRow)
        → Memᴰ d db.evals
        → w.id ≡ d.agent_version_id
        → is_active d.status ≡ true
        → ¬ (is_version id w ≡ true)
    busy d w m k a h =
        let t =
          any-of-mem (λ (r : EvalRow). r.agent_version_id == id && is_active r.status) db.evals d m
            (rw (← k) (rw (h, a) refl)) in
        ground arith
Gated-Effect db next (inserts x copies free low same v b e) keyed gate =
    rw (v, e) (Gate-cons x db.versions db.evals free gate)
Gated-Effect db next (binds x v t fv editable ft runnable n b e) keyed gate = rw (n, e) gate
Gated-Effect db next (rebinds old v e) keyed gate = rw (v, e) gate
Gated-Effect db next (evaluates e v found low free n b f) keyed gate =
    let (m, k) = mem-first (λ (w : VersionRow). w.id == e.agent_version_id) db.versions v found in
    rw (n, f)
      (Gate-evaluates db.versions db.evals e v keyed.ids m ((eq_iff v.id e.agent_version_id).0 k)
        low gate)
Gated-Effect db next (runs e fin v b) keyed gate =
    rw v (Gate-runs db.versions db.evals next.evals e gate)
Gated-Effect db next (removes id free v b e) keyed gate =
    rw (v, e) (Gate-removes id db.versions db.evals gate)
