-- ===== src/Store/Invariant/Topology.antt =====
-- Bindings have runnable targets and make no cycle.
use mathlib.Core.List.{Memᴰ}
use mathlib.Core.List.Memᴰ.{head, tail, append_cases}
use open_bbc.Base.{
  String, ◌≡◌, ◌≢◌, refl, sym, ap, ◌∙◌, inl, inr, Bool, true, false, not, List, ◌∷◌, ◌++◌, any,
  ◌==◌, arith, eq_iff, if◌then◌else◌,
}
use open_bbc.Chat.Env.{SubAgentBinding}
use open_bbc.Store.{ready, deployed, VersionRow, Db}
use open_bbc.Store.Rows.{
  update_where, delete_where, keep-mem, mem-first, not-any, update_where-mem, mem-keep,
}
use open_bbc.Store.Versions.{is_version, with_status}
use open_bbc.Store.Bindings.{is_editable, is_runnable}
use open_bbc.Store.Effects.{
  Effect, quiet, edits, deploys, toggles, inserts, binds, rebinds, evaluates, runs, removes,
  other_deployed,
}
use open_bbc.Store.Invariant.Keys.{Keyed}

-- A binding from the one version to the other.
unfoldable pub Edge : List SubAgentBinding → String → String → Type 0
Edge bs a b =
    (x : SubAgentBinding) × Memᴰ x bs × (x.caller_version_id ≡ a) × (x.target_version_id ≡ b)

pub data Walk (bs : List SubAgentBinding) : String → String → Type 0 where
  edge : {a b : String} → Edge bs a b → Walk bs a b
  step : {a b c : String} → Edge bs a b → Walk bs b c → Walk bs a c

unfoldable pub IsAcyclic : List SubAgentBinding → Type 0
IsAcyclic bs = (a : String) → ¬ Walk bs a a

-- Where no binding leads to `c`, a walk from a version that a binding leads to does not use the
-- bindings of `c`.
avoids :
    (bs cs : List SubAgentBinding) (c : String)
    → ((a : String) → ¬ Edge cs a c)
    → ((a b : String) → a ≢ c → Edge cs a b → Edge bs a b)
    → (z a b : String) → Edge cs z a
    → Walk cs a b
    → Walk bs a b
unfolding Edge
avoids bs cs c source old z a b into (edge e) = edge (old a b (λ k. source z (rw (← k) into)) e)
avoids bs cs c source old z a b into (step {b = x} e w) =
    step (old a x (λ k. source z (rw (← k) into)) e) (avoids bs cs c source old a x b e w)

pub last-Edge :
    (bs : List SubAgentBinding) (a b : String) → Walk bs a b → (z : String) × Edge bs z b
last-Edge bs a b (edge e) = (a, e)
last-Edge bs a b (step {b = x} e w) = last-Edge bs x b w

-- Bindings may be added to a version that no binding leads to.
IsAcyclic-source :
    (bs cs : List SubAgentBinding) (c : String)
    → ((a : String) → ¬ Edge cs a c)
    → ((a b : String) → a ≢ c → Edge cs a b → Edge bs a b)
    → IsAcyclic bs
    → IsAcyclic cs
unfolding IsAcyclic
IsAcyclic-source bs cs c source old acyclic a w =
    let (z, e) = last-Edge cs a a w in acyclic a (avoids bs cs c source old z a a e w)

IsAcyclic-subset :
    (bs cs : List SubAgentBinding)
    → ((a b : String) → Edge cs a b → Edge bs a b)
    → IsAcyclic bs
    → IsAcyclic cs
unfolding IsAcyclic
IsAcyclic-subset bs cs old acyclic a w = acyclic a (part a a w)
  where
    part : (x y : String) → Walk cs x y → Walk bs x y
    part x y (edge e) = edge (old x y e)
    part x y (step {b = z} e v) = step (old x z e) (part z y v)

-- Each target is a version that is READY or DEPLOYED.
unfoldable pub HasRunnableTargets : List VersionRow → List SubAgentBinding → Type 0
HasRunnableTargets vs bs =
    (b : SubAgentBinding)
    → Memᴰ b bs
    → (v : VersionRow) × Memᴰ v vs × (v.id ≡ b.target_version_id) × (is_runnable v.status ≡ true)

pub record Topology (db : Db) : Type 0 where
  pub targets : HasRunnableTargets db.versions db.bindings
  pub acyclic : IsAcyclic db.bindings

if_id : (b : Bool) (v w : VersionRow) → (b ≡ true → w.id ≡ v.id) → (if b then w else v).id ≡ v.id
if_id true v w h = h refl
if_id false v w h = refl

if_runnable :
    (b : Bool) (v w : VersionRow)
    → (b ≡ true → is_runnable v.status ≡ true → is_runnable w.status ≡ true)
    → is_runnable v.status ≡ true
    → is_runnable (if b then w else v).status ≡ true
if_runnable true v w h k = h refl k
if_runnable false v w h k = k

HasRunnableTargets-update_where :
    (p : VersionRow → Bool) (f : VersionRow → VersionRow) (vs : List VersionRow)
    (bs : List SubAgentBinding)
    → ((v : VersionRow) → p v ≡ true → (f v).id ≡ v.id)
    → ((v : VersionRow)
        → p v ≡ true
        → is_runnable v.status ≡ true
        → is_runnable (f v).status ≡ true)
    → HasRunnableTargets vs bs
    → HasRunnableTargets (update_where p f vs) bs
unfolding HasRunnableTargets
HasRunnableTargets-update_where p f vs bs same keeps targets b m =
    let (v, n, e, r) = targets b m in
    (
      if p v then f v else v,
      update_where-mem p f vs v n,
      if_id (p v) v (f v) (same v) ∙ e,
      if_runnable (p v) v (f v) (keeps v) r,
    )

HasRunnableTargets-cons :
    (x : VersionRow) (vs : List VersionRow) (bs : List SubAgentBinding)
    → HasRunnableTargets vs bs
    → HasRunnableTargets (x ∷ vs) bs
unfolding HasRunnableTargets
HasRunnableTargets-cons x vs bs targets b m = let (v, n, e, r) = targets b m in (v, tail n, e, r)

-- Bindings whose targets some binding had before.
HasRunnableTargets-old :
    (vs : List VersionRow) (bs cs : List SubAgentBinding)
    → ((b : SubAgentBinding)
        → Memᴰ b cs
        → (a : SubAgentBinding) × Memᴰ a bs × (b.target_version_id ≡ a.target_version_id))
    → HasRunnableTargets vs bs
    → HasRunnableTargets vs cs
unfolding HasRunnableTargets
HasRunnableTargets-old vs bs cs old targets b m =
    let (a, i, k) = old b m in let (v, n, e, r) = targets a i in (v, n, e ∙ sym k, r)

-- A version that is inserted with copies of bindings.
Topology-inserts :
    (vs : List VersionRow) (bs copies : List SubAgentBinding) (x : VersionRow)
    → any (is_version x.id) vs ≡ false
    → ((b : SubAgentBinding)
        → Memᴰ b copies
        → (b.caller_version_id ≡ x.id)
          × (a : SubAgentBinding) × Memᴰ a bs
          × (b.target_version_id ≡ a.target_version_id))
    → HasRunnableTargets vs bs
    → IsAcyclic bs
    → HasRunnableTargets (x ∷ vs) (copies ++ bs) × IsAcyclic (copies ++ bs)
unfolding HasRunnableTargets Edge
Topology-inserts vs bs copies x free same targets acyclic = (
  HasRunnableTargets-cons x vs (copies ++ bs)
      (HasRunnableTargets-old vs bs (copies ++ bs) old targets),
  IsAcyclic-source bs (copies ++ bs) x.id no_edge stays acyclic,
)
  where
    old :
        (b : SubAgentBinding)
        → Memᴰ b (copies ++ bs)
        → (a : SubAgentBinding) × Memᴰ a bs × (b.target_version_id ≡ a.target_version_id)
    old b m = elim (append_cases copies m) [
      | inl n ↦ let (_, a, i, k) = same b n in (a, i, k)
      | inr n ↦ (b, n, refl)
    ]

    no_edge : (a : String) → ¬ Edge (copies ++ bs) a x.id
    no_edge a (b, m, e, k) =
        let (c, i, l) = old b m in
        let (v, n, h, _) = targets c i in
        let j = not-any (is_version x.id) vs v free n in
        let same_id : v.id ≡ x.id = h ∙ sym l ∙ k in ground (arith, eq_iff v.id x.id)

    stays : (a b : String) → a ≢ x.id → Edge (copies ++ bs) a b → Edge bs a b
    stays a b far (c, m, e, k) = elim (append_cases copies m) [
      | inl n ↦ absurd (far (sym e ∙ (same c n).0))
      | inr n ↦ (c, n, e, k)
    ]

-- A binding of an editable caller to a runnable version.
Topology-binds :
    (vs : List VersionRow) (bs : List SubAgentBinding) (x : SubAgentBinding) (v t : VersionRow)
    → ((u w : VersionRow) → Memᴰ u vs → Memᴰ w vs → u.id ≡ w.id → u ≡ w)
    → Memᴰ v vs × (v.id ≡ x.caller_version_id) × (is_editable v.status ≡ true)
    → Memᴰ t vs × (t.id ≡ x.target_version_id) × (is_runnable t.status ≡ true)
    → HasRunnableTargets vs bs
    → IsAcyclic bs
    → HasRunnableTargets vs (x ∷ bs) × IsAcyclic (x ∷ bs)
unfolding HasRunnableTargets Edge
Topology-binds vs bs x v t ids (mv, ev, editable) (mt, et, runnable) targets acyclic =
    (more, IsAcyclic-source bs (x ∷ bs) x.caller_version_id no_edge stays acyclic)
  where
    more : HasRunnableTargets vs (x ∷ bs)
    more b (head e) = (t, mt, et ∙ ap (λ c. c.target_version_id) (sym e), runnable)
    more b (tail m) = targets b m

    no_edge : (a : String) → ¬ Edge (x ∷ bs) a x.caller_version_id
    no_edge a (b, m, e, k) =
        let (w, n, h, r) = more b m in
        let s = ap (λ c. c.status) (ids v w mv n (ev ∙ sym (h ∙ k))) in ground arith

    stays : (a b : String) → a ≢ x.caller_version_id → Edge (x ∷ bs) a b → Edge bs a b
    stays a b far (c, head m, e, k) = absurd (far (sym e ∙ ap (λ d. d.caller_version_id) m))
    stays a b far (c, tail m, e, k) = (c, m, e, k)

edges_of :
    (bs cs : List SubAgentBinding)
    → ((b : SubAgentBinding)
        → Memᴰ b cs
        → (a : SubAgentBinding) × Memᴰ a bs
          × (b.caller_version_id ≡ a.caller_version_id)
          × (b.target_version_id ≡ a.target_version_id))
    → (x y : String) → Edge cs x y
    → Edge bs x y
unfolding Edge
edges_of bs cs old x y (b, m, e, k) = let (a, i, h, l) = old b m in (a, i, sym h ∙ e, sym l ∙ k)

HasRunnableTargets-removes :
    (id : String) (vs : List VersionRow) (bs : List SubAgentBinding)
    → any (λ (b : SubAgentBinding). b.target_version_id == id) bs ≡ false
    → HasRunnableTargets vs bs
    → HasRunnableTargets
        (delete_where (is_version id) vs)
        (delete_where (λ (b : SubAgentBinding). b.caller_version_id == id) bs)
unfolding HasRunnableTargets
HasRunnableTargets-removes id vs bs free targets b m =
    let (n, _) = mem-keep (λ (c : SubAgentBinding). not (c.caller_version_id == id)) bs b m in
    let (v, i, e, r) = targets b n in
    let away = not-any (λ (c : SubAgentBinding). c.target_version_id == id) bs b free n in
    (v, keep-mem (λ w. not (is_version id w)) vs v i (rw e (rw away refl)), e, r)

-- Every effect keeps the topology.
pub Topology-Effect : (db next : Db) → Effect db next → Keyed db → Topology db → Topology next
Topology-Effect db next (quiet v b e) keyed top = record {
  targets = rw (v, b) top.targets;
  acyclic = rw b top.acyclic;
}
Topology-Effect db next (edits p f mild flag v b e) keyed top = record {
  targets =
      rw (v, b)
        (HasRunnableTargets-update_where p f db.versions db.bindings (λ w h. (mild w h).id)
          (λ w h. (mild w h).runnable) top.targets);
  acyclic = rw b top.acyclic;
}
Topology-Effect db next (deploys id v found r n b e) keyed top = record {
  targets =
      rw (n, b)
        (HasRunnableTargets-update_where (is_version id) (with_status deployed) _ db.bindings
          (λ w _. refl) (λ w _ _. refl)
          (HasRunnableTargets-update_where (other_deployed v.agent_id id) (with_status ready)
            db.versions db.bindings (λ w _. refl) (λ w _ _. refl) top.targets));
  acyclic = rw b top.acyclic;
}
Topology-Effect db next (toggles id enabled idle v b e) keyed top = record {
  targets =
      rw (v, b)
        (HasRunnableTargets-update_where (is_version id) _ db.versions db.bindings (λ w _. refl)
          (λ w _ k. k) top.targets);
  acyclic = rw b top.acyclic;
}
Topology-Effect db next (inserts x copies free low same v b e) keyed top =
    let (t, a) =
      Topology-inserts db.versions db.bindings copies x free same top.targets top.acyclic in
    record { targets = rw (v, b) t; acyclic = rw b a }
Topology-Effect db next (binds x v t fv editable ft runnable n b e) keyed top =
    let (mv, ev) = mem-first (λ (w : VersionRow). w.id == x.caller_version_id) db.versions v fv in
    let (mt, et) = mem-first (λ (w : VersionRow). w.id == x.target_version_id) db.versions t ft in
    let (ts, a) =
      Topology-binds db.versions db.bindings x v t keyed.ids
        (mv, (eq_iff v.id x.caller_version_id).0 ev, editable)
        (mt, (eq_iff t.id x.target_version_id).0 et, runnable) top.targets top.acyclic in
    record { targets = rw (n, b) ts; acyclic = rw b a }
Topology-Effect db next (rebinds old v e) keyed top = record {
  targets = rw v (
      HasRunnableTargets-old db.versions db.bindings next.bindings
        (λ b m. let (a, i, _, l) = old b m in (a, i, l)) top.targets);
  acyclic =
      IsAcyclic-subset db.bindings next.bindings (edges_of db.bindings next.bindings old)
        top.acyclic;
}
Topology-Effect db next (evaluates e v found low free n b f) keyed top = record {
  targets = rw (n, b) top.targets;
  acyclic = rw b top.acyclic;
}
Topology-Effect db next (runs e fin v b) keyed top = record {
  targets = rw (v, b) top.targets;
  acyclic = rw b top.acyclic;
}
Topology-Effect db next (removes id free v b e) keyed top = record {
  targets = rw (v, b) (HasRunnableTargets-removes id db.versions db.bindings free top.targets);
  acyclic = rw b (
      IsAcyclic-subset db.bindings _
        (edges_of db.bindings _ (λ c m. (c, (mem-keep _ _ c m).0, refl, refl))) top.acyclic);
}
