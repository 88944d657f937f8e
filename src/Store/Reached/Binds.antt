-- ===== src/Store/Reached/Binds.antt =====
-- The search for cycles in `AddBinding` (open-bbcd/internal/repository/subagent.go) never refuses.
use open_bbc.Base.{
  String, ◌≡◌, ◌≢◌, refl, sym, ap, ◌∙◌, Bool, true, false, not, Bool-cases, inl, inr, Option, none,
  some, List, any, ◌==◌, eq_iff, arith,
}
use open_bbc.Chat.Env.{Codec}
use open_bbc.Store.{
  StoreError, topology_cycle, VersionRow, Db, Result, ok, err, ◌>>=◌, ◌>>◌, or_err, check,
}
use open_bbc.Store.Rows.{mem-first, mem-of-any}
use open_bbc.Store.Bindings.{
  add_binding, begin_caller_write, check_caller_writable, check_no_collision,
}
use open_bbc.Store.Bindings.Reach.{reach}
use open_bbc.Store.Bindings.Reach.Walks.{reach-Walk}
use open_bbc.Store.Effects.OfBindings.{begin_caller_write-ok}
use open_bbc.Store.Invariant.Topology.{Edge, last-Edge, HasRunnableTargets}
use open_bbc.Store.Steps.{Call, run, empty}
use open_bbc.Store.Reached.{Sound, run-Sound, empty-Sound}

-- The result is not this error.
Avoids : {A : Type 0} → StoreError → Result A → Type 0
Avoids x r = r ≢ err x

module _ {A : Type 0} (x : StoreError) where
  check-Avoids :
      (b : Bool) (e : StoreError) (r : Result A)
      → e ≢ x
      → (b ≡ true → Avoids x r)
      → Avoids x (check b e >> r)
  unfolding check ◌>>◌ Avoids
  check-Avoids true e r far h = h refl
  check-Avoids false e r far h = λ k. far (cc)

  found-Avoids :
      {B : Type 0} (e : StoreError) (o : Option B) (k : B → Result A)
      → e ≢ x
      → ((b : B) → o ≡ some b → Avoids x (k b))
      → Avoids x (or_err e o >>= k)
  unfolding or_err ◌>>=◌ Avoids
  found-Avoids e none k far h = λ l. far (cc)
  found-Avoids e (some b) k far h = h b refl

  bound-Avoids :
      {B : Type 0} (m : Result B) (k : B → Result A)
      → Avoids x m
      → ((b : B) → m ≡ ok b → Avoids x (k b))
      → Avoids x (m >>= k)
  unfolding ◌>>=◌ Avoids
  bound-Avoids (err e) k far h = λ l. far (cc)
  bound-Avoids (ok b) k far h = h b refl

  then-Avoids : (m : Result (Unit {0})) (r : Result A) → Avoids x m → Avoids x r → Avoids x (m >> r)
  unfolding ◌>>◌ Avoids
  then-Avoids (ok u) r far h = h
  then-Avoids (err e) r far h = λ l. far (cc)

  pass-Avoids :
      (b : Bool) (e : StoreError) (r : Result A) → b ≡ true → Avoids x r → Avoids x (check b e >> r)
  unfolding check ◌>>◌ Avoids
  pass-Avoids true e r t h = h
  pass-Avoids false e r t h = absurd (cc t)

ok-Avoids : {A : Type 0} (x : StoreError) (a : A) → Avoids x (ok a)
unfolding Avoids
ok-Avoids x a h = cc

begin_caller_write-Avoids :
    (db : Db) (caller : String) → Avoids topology_cycle (begin_caller_write db caller)
unfolding begin_caller_write check_caller_writable ◌>>=◌ ◌>>◌ or_err check Avoids
begin_caller_write-Avoids db caller h = ground arith

check_no_collision-Avoids :
    (codec : Codec) (sanitize : String → String) (db : Db) (v : VersionRow)
    → Avoids topology_cycle (check_no_collision codec sanitize db v)
unfolding check_no_collision ◌>>=◌ or_err check Avoids
check_no_collision-Avoids codec sanitize db v h = ground arith

-- An editable version is no binding's target, so nothing reaches it.
unreached :
    (db : Db) (caller target : String) (v : VersionRow)
    → Sound db
    → begin_caller_write db caller ≡ ok v
    → not (any (λ id. id == caller) (reach db.bindings target)) ≡ true
unfolding Edge HasRunnableTargets
unreached db caller target v sound w =
    elim (Bool-cases (any (λ id. id == caller) (reach db.bindings target))) [
      | inr e ↦ rw e refl
      | inl e ↦
          let (ve, editable, _) = begin_caller_write-ok db caller v w in
          let (mv, ev) = mem-first (λ (u : VersionRow). u.id == caller) db.versions v ve in
          let (x, m, k) = mem-of-any (λ id. id == caller) (reach db.bindings target) e in
          let (z, (b, i, c, t)) =
            last-Edge db.bindings target x ((reach-Walk db.bindings target x).0 m) in
          let (u, mu, eu, runnable) = sound.topology.targets b i in
          let same =
            sound.keyed.ids v u mv mu
              ((eq_iff v.id caller).0 ev ∙ sym ((eq_iff x caller).0 k) ∙ sym (eu ∙ t)) in
          let statuses = ap (λ r. r.status) same in absurd (ground arith)
    ]

module _ (codec : Codec) (sanitize : String → String) where
  -- Whatever transactions have run on a fresh database, `AddBinding` of another version than the
  -- caller never answers that the binding would close a cycle.
  pub add_binding-no_cycle :
      (cs : List Call) (caller name target note : String)
      → caller ≢ target
      → add_binding codec sanitize caller name target note (run codec sanitize empty cs)
        ≢ err topology_cycle
  unfolding add_binding Avoids
  add_binding-no_cycle cs caller name target note apart =
      let db = run codec sanitize empty cs in
      let sound = run-Sound codec sanitize empty cs empty-Sound in
      let x = topology_cycle in
      check-Avoids x _ _ _ (λ h. cc)
        (λ _.
          check-Avoids x _ _ _ (λ h. cc)
            (λ _. pass-Avoids x _ _ _ (ground (arith, eq_iff caller target)) (
              found-Avoids x _ _ _ (λ h. cc)
                (λ t _. bound-Avoids x _ _ (begin_caller_write-Avoids db caller) (λ v w.
                  then-Avoids x _ _ (check_no_collision-Avoids codec sanitize db v) (
                    check-Avoids x _ _ _ (λ h. cc)
                      (λ _.
                        pass-Avoids x _ _ _ (unreached db caller target v sound w)
                          (check-Avoids x _ _ _ (λ h. cc) (λ _. ok-Avoids x _)))))))))
