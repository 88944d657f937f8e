-- ===== src/Store/Slots.antt =====
-- What `Deploy` and `Undeploy` of open-bbcd/internal/repository/agent_version.go promise: each agent
-- has one slot for the version that serves it.
pub mod Deploy
pub mod Undeploy
use mathlib.Core.List.{Memᴰ}
use open_bbc.Base.{
  String, ◌≡◌, ◌≢◌, refl, sym, ap, ◌∙◌, ◌⊎◌, inl, inr, ◌↔◌, Bool, true, false, not, ◌&&◌,
  Bool-cases, Option, none, some, Option-cases, List, any, ◌==◌, eq_iff, arith, if◌then◌else◌,
}
use open_bbc.Store.{
  ready, deployed, VersionRow, Db, ok, ◌>>=◌, ◌>>◌, or_err, check, is_status, version_of,
}
use open_bbc.Store.Rows.{
  first, update_where, mem-first, first-of-mem, first-none, mem-update_where, update_where-mem,
  mem-of-any,
}
use open_bbc.Store.Versions.{
  map_id, is_version, with_status, update_versions, deploy, undeploy, current_deployed_id,
}
use open_bbc.Store.Effects.{other_deployed, deploys}
use open_bbc.Store.Effects.OfVersions.{quiet_refl}
use open_bbc.Store.Invariant.Keys.{
  Keyed, KeyedRows, Keyed-Effect, promote, promoted, demote, mem-promoted, promote-id,
  promote-agent, promote-deployed,
}

-- From an agent's id to the id of the version that serves it.
abbrev pub Slots : Type 0
Slots = String → Option String

abbrev pub put : (agent version : String) → Slots → Slots
put agent version slots a = if agent == a then some version else slots a

abbrev pub clear : (agent : String) → Slots → Slots
clear agent slots a = if agent == a then none else slots a

-- The version with this id is the agent's and DEPLOYED.
unfoldable pub Serves : Db → String → String → Type 0
Serves db a i =
    (v : VersionRow) × Memᴰ v db.versions
    × (v.id ≡ i)
    × (v.agent_id ≡ a)
    × (is_status v.status deployed ≡ true)

live : String → VersionRow → Bool
live a v = v.agent_id == a && is_status v.status deployed

pub Serves-of-current : (db : Db) (a i : String) → current_deployed_id db a ≡ some i → Serves db a i
unfolding current_deployed_id Serves
Serves-of-current db a i h =
    elim (Option-cases
      (first (λ (v : VersionRow). v.agent_id == a && is_status v.status deployed) db.versions)) [
        | inl e ↦ absurd (cc (h, ap map_id e))
        | inr (v, e) ↦
            let (m, k) = mem-first _ db.versions v e in
            (v, m, ground (arith, ap map_id e), ground (arith, eq_iff v.agent_id a), ground arith)
      ]

pub current-of-Serves :
    (db : Db) (a i : String) → Keyed db → Serves db a i → current_deployed_id db a ≡ some i
unfolding current_deployed_id Serves
current-of-Serves db a i keyed (v, m, e, k, d) =
    let p = λ (w : VersionRow). w.agent_id == a && is_status w.status deployed in
    let (w, f) = first-of-mem p db.versions v m (rw ((eq_iff v.agent_id a).1 k) d) in
    let (n, l) = mem-first p db.versions w f in
    let same = keyed.one_deployed w v n m (ground arith) d (ground (arith, eq_iff w.agent_id a)) in
    rw f (ap some (same ∙ e))

option_ext :
    (x y : Option String)
    → ((i : String) → x ≡ some i → y ≡ some i)
    → ((i : String) → y ≡ some i → x ≡ some i)
    → x ≡ y
option_ext none none to from = refl
option_ext none (some j) to from = from j refl
option_ext (some i) y to from = sym (to i refl)

-- Two sets of tables whose serving versions are those of the slots.
pub current-eq :
    (db : Db) (a : String) (o : Option String)
    → Keyed db
    → ((i : String) → Serves db a i → o ≡ some i)
    → ((i : String) → o ≡ some i → Serves db a i)
    → current_deployed_id db a ≡ o
current-eq db a o keyed to from =
    option_ext (current_deployed_id db a) o (λ i e. to i (Serves-of-current db a i e))
      (λ i e. current-of-Serves db a i keyed (from i e))
