-- ===== src/Store/Invariant/Keys.antt =====
-- The ids of versions are theirs alone, and an agent has at most one DEPLOYED version.
use mathlib.Core.List.{Memᴰ}
use mathlib.Core.List.Memᴰ.{head, tail}
use open_bbc.Base.{
  String, ◌≡◌, ◌≢◌, ◌⊎◌, refl, sym, ap, ◌∙◌, inl, inr, Bool, true, false, not, Bool-cases, List,
  ◌∷◌, any, keep, ◌==◌, arith, eq_iff, if◌then◌else◌,
}
use open_bbc.Store.{ready, deployed, VersionRow, Db, is_status}
use open_bbc.Store.Rows.{update_where, mem-first, not-any, mem-update_where, mem-keep}
use open_bbc.Store.Versions.{is_version, with_status}
use open_bbc.Store.Effects.{
  Effect, quiet, edits, deploys, toggles, inserts, binds, rebinds, evaluates, runs, removes, Mild,
  other_deployed,
}

pub record KeyedRows (rows : List VersionRow) : Type 0 where
  pub ids : (v w : VersionRow) → Memᴰ v rows → Memᴰ w rows → v.id ≡ w.id → v ≡ w
  pub one_deployed :
      (v w : VersionRow)
      → Memᴰ v rows
      → Memᴰ w rows
      → is_status v.status deployed ≡ true
      → is_status w.status deployed ≡ true
      → v.agent_id ≡ w.agent_id
      → v.id ≡ w.id

if-Mild : (b : Bool) (v w : VersionRow) → (b ≡ true → Mild v w) → Mild v (if b then w else v)
if-Mild true v w h = h refl
if-Mild false v w h = record { id = refl; agent = refl; runnable = λ k. k; deployed = λ k. k }

KeyedRows-update_where :
    (p : VersionRow → Bool) (f : VersionRow → VersionRow) (rows : List VersionRow)
    → ((v : VersionRow) → p v ≡ true → Mild v (f v))
    → KeyedRows rows
    → KeyedRows (update_where p f rows)
KeyedRows-update_where p f rows mild keyed = record { ids = ids; one_deployed = one }
  where
    g : VersionRow → VersionRow
    g v = if p v then f v else v

    still : (v : VersionRow) → Mild v (g v)
    still v = if-Mild (p v) v (f v) (mild v)

    ids :
        (v w : VersionRow)
        → Memᴰ v (update_where p f rows)
        → Memᴰ w (update_where p f rows)
        → v.id ≡ w.id
        → v ≡ w
    ids v w m n e =
        let (a, i, k) = mem-update_where p f rows v m in
        let (b, j, l) = mem-update_where p f rows w n in
        k
        ∙ ap g (
            keyed.ids a b i j
              (sym (still a).id ∙ ap (λ r. r.id) (sym k) ∙ e ∙ ap (λ r. r.id) l ∙ (still b).id))
        ∙ sym l

    one :
        (v w : VersionRow)
        → Memᴰ v (update_where p f rows)
        → Memᴰ w (update_where p f rows)
        → is_status v.status deployed ≡ true
        → is_status w.status deployed ≡ true
        → v.agent_id ≡ w.agent_id
        → v.id ≡ w.id
    one v w m n d c e =
        let (a, i, k) = mem-update_where p f rows v m in
        let (b, j, l) = mem-update_where p f rows w n in
        ap (λ r. r.id) k
        ∙ (still a).id
        ∙ keyed.one_deployed a b i j
            ((still a).deployed (sym (ap (λ r. is_status r.status deployed) k) ∙ d))
            ((still b).deployed (sym (ap (λ r. is_status r.status deployed) l) ∙ c))
            (sym (still a).agent
              ∙ ap (λ r. r.agent_id) (sym k)
              ∙ e
              ∙ ap (λ r. r.agent_id) l
              ∙ (still b).agent)
        ∙ sym (still b).id
        ∙ ap (λ r. r.id) (sym l)

KeyedRows-keep :
    (p : VersionRow → Bool) (rows : List VersionRow) → KeyedRows rows → KeyedRows (keep p rows)
KeyedRows-keep p rows keyed = record {
  ids = λ v w m n e. keyed.ids v w (mem-keep p rows v m).0 (mem-keep p rows w n).0 e;
  one_deployed =
      λ v w m n d c e. keyed.one_deployed v w (mem-keep p rows v m).0 (mem-keep p rows w n).0 d c e;
}

-- A row whose id is free, and which is not DEPLOYED.
KeyedRows-cons :
    (x : VersionRow) (rows : List VersionRow)
    → any (is_version x.id) rows ≡ false
    → is_status x.status deployed ≡ false
    → KeyedRows rows
    → KeyedRows (x ∷ rows)
KeyedRows-cons x rows free low keyed = record { ids = ids; one_deployed = one }
  where
    apart : (v : VersionRow) → Memᴰ v rows → ¬ (v.id ≡ x.id)
    apart v m e =
        let h = not-any (is_version x.id) rows v free m in ground (arith, eq_iff v.id x.id)

    ids : (v w : VersionRow) → Memᴰ v (x ∷ rows) → Memᴰ w (x ∷ rows) → v.id ≡ w.id → v ≡ w
    ids v w (head e) (head k) h = e ∙ sym k
    ids v w (head e) (tail n) h = absurd (apart w n (sym h ∙ ap (λ r. r.id) e))
    ids v w (tail m) (head k) h = absurd (apart v m (h ∙ ap (λ r. r.id) k))
    ids v w (tail m) (tail n) h = keyed.ids v w m n h

    not_new : (v : VersionRow) → v ≡ x → ¬ (is_status v.status deployed ≡ true)
    not_new v e d = let k = ap (λ r. is_status r.status deployed) e in cc

    one :
        (v w : VersionRow)
        → Memᴰ v (x ∷ rows)
        → Memᴰ w (x ∷ rows)
        → is_status v.status deployed ≡ true
        → is_status w.status deployed ≡ true
        → v.agent_id ≡ w.agent_id
        → v.id ≡ w.id
    one v w (head e) n d c h = absurd (not_new v e d)
    one v w (tail m) (head k) d c h = absurd (not_new w k c)
    one v w (tail m) (tail n) d c h = keyed.one_deployed v w m n d c h

-- The other versions of the agent are demoted before the version is promoted.
module _ (id : String) (v : VersionRow) (rows : List VersionRow) (keyed : KeyedRows rows) where
  unfoldable pub demote : VersionRow → VersionRow
  demote w = if other_deployed v.agent_id id w then with_status ready w else w

  unfoldable pub promote : VersionRow → VersionRow
  promote w = let d = demote w in if d.id == id then with_status deployed d else d

  unfoldable pub promoted : List VersionRow
  promoted =
      update_where (is_version id) (with_status deployed)
        (update_where (other_deployed v.agent_id id) (with_status ready) rows)

  demote-id : (w : VersionRow) → (demote w).id ≡ w.id
  unfolding demote
  demote-id w = ground arith

  pub mem-promoted :
      (w : VersionRow) → Memᴰ w promoted → (a : VersionRow) × Memᴰ a rows × (w ≡ promote a)
  unfolding promoted promote demote
  mem-promoted w m =
      let (b, n, k) =
        mem-update_where (is_version id) (with_status deployed)
          (update_where (other_deployed v.agent_id id) (with_status ready) rows) w m in
      let (a, i, l) =
        mem-update_where (other_deployed v.agent_id id) (with_status ready) rows b n in
      (a, i, k ∙ ap (λ c. if c.id == id then with_status deployed c else c) l)

  pub promote-id : (w : VersionRow) → (promote w).id ≡ w.id
  unfolding promote demote
  promote-id w = ground arith

  pub promote-agent : (w : VersionRow) → (promote w).agent_id ≡ w.agent_id
  unfolding promote demote
  promote-agent w = ground arith

  pub promote-deployed :
      (w : VersionRow)
      → is_status (promote w).status deployed ≡ true
      → (w.id ≡ id) ⊎ ((is_status w.status deployed ≡ true) × (w.agent_id ≢ v.agent_id))
  unfolding promote demote
  promote-deployed w h = elim (Bool-cases (w.id == id)) [
    | inl e ↦ inl ((eq_iff w.id id).0 e)
    | inr e ↦ inr (ground (arith, demote-id w), λ k. ground (arith, eq_iff w.agent_id v.agent_id))
  ]

  one_promoted :
      (a b : VersionRow)
      → Memᴰ v rows
      → v.id ≡ id
      → Memᴰ a rows
      → Memᴰ b rows
      → is_status (promote a).status deployed ≡ true
      → is_status (promote b).status deployed ≡ true
      → a.agent_id ≡ b.agent_id
      → a.id ≡ b.id
  one_promoted a b here named i j d c e = elim (promote-deployed a d) [
    | inl k ↦ elim (promote-deployed b c) [
      | inl l ↦ k ∙ sym l
      | inr (_, far) ↦
          absurd (far (sym e ∙ ap (λ r. r.agent_id) (keyed.ids a v i here (k ∙ sym named))))
    ]
    | inr (da, far) ↦ elim (promote-deployed b c) [
      | inl l ↦ absurd (far (e ∙ ap (λ r. r.agent_id) (keyed.ids b v j here (l ∙ sym named))))
      | inr (dc, _) ↦ keyed.one_deployed a b i j da dc e
    ]
  ]

  KeyedRows-promoted : Memᴰ v rows → v.id ≡ id → KeyedRows promoted
  KeyedRows-promoted here named = record {
    ids = λ x y m n e.
        let (a, i, k) = mem-promoted x m in
        let (b, j, l) = mem-promoted y n in
        k
        ∙ ap promote (
            keyed.ids a b i j
              (sym (promote-id a) ∙ ap (λ r. r.id) (sym k) ∙ e ∙ ap (λ r. r.id) l ∙ promote-id b))
        ∙ sym l;
    one_deployed = λ x y m n d c e.
        let (a, i, k) = mem-promoted x m in
        let (b, j, l) = mem-promoted y n in
        ap (λ r. r.id) k
        ∙ promote-id a
        ∙ one_promoted a b here named i j (ap (λ r. is_status r.status deployed) (sym k) ∙ d)
            (ap (λ r. is_status r.status deployed) (sym l) ∙ c)
            (sym (promote-agent a)
              ∙ ap (λ r. r.agent_id) (sym k)
              ∙ e
              ∙ ap (λ r. r.agent_id) l
              ∙ promote-agent b)
        ∙ sym (promote-id b)
        ∙ ap (λ r. r.id) (sym l);
  }

abbrev pub Keyed : Db → Type 0
Keyed db = KeyedRows db.versions

-- Every effect keeps the keys.
pub Keyed-Effect : (db next : Db) → Effect db next → Keyed db → Keyed next
unfolding promoted
Keyed-Effect db next (quiet v b e) keyed = rw v keyed
Keyed-Effect db next (edits p f mild flag v b e) keyed =
    rw v (KeyedRows-update_where p f db.versions mild keyed)
Keyed-Effect db next (deploys id v found r n b e) keyed =
    let (m, k) = mem-first (λ (w : VersionRow). w.id == id) db.versions v found in
    rw n (KeyedRows-promoted id v db.versions keyed m ((eq_iff v.id id).0 k))
Keyed-Effect db next (toggles id enabled idle v b e) keyed = rw v (
    KeyedRows-update_where (is_version id) _ db.versions
      (λ w _. record { id = refl; agent = refl; runnable = λ k. k; deployed = λ k. k }) keyed)
Keyed-Effect db next (inserts v copies free low same n b e) keyed =
    rw n (KeyedRows-cons v db.versions free low keyed)
Keyed-Effect db next (binds b v t c d e f n h i) keyed = rw n keyed
Keyed-Effect db next (rebinds b v e) keyed = rw v keyed
Keyed-Effect db next (evaluates e v found low free n b f) keyed = rw n keyed
Keyed-Effect db next (runs e fin v b) keyed = rw v keyed
Keyed-Effect db next (removes id free v b e) keyed =
    rw v (KeyedRows-keep (λ w. not (w.id == id)) db.versions keyed)
