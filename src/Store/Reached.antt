-- ===== src/Store/Reached.antt =====
-- What holds of the tables that any sequence of transactions leaves.
pub mod Starts
pub mod Binds
use mathlib.Core.List.{Memᴰ}
use open_bbc.Base.{
  String, ◌≡◌, refl, Bool, true, false, List, [], ◌∷◌, some, Option, ◌≢◌, any, ◌==◌, eq_iff, arith,
  ap, ◌∙◌, sym,
}
use open_bbc.Chat.Env.{Codec, SubAgentBinding}
use open_bbc.Store.{deployed, VersionRow, Db, is_status}
use open_bbc.Store.Effects.{Effect}
use open_bbc.Store.Steps.{Call, step, run, empty}
use open_bbc.Store.Steps.OfCalls.{step-Effect}
use open_bbc.Store.Invariant.Keys.{Keyed, KeyedRows, Keyed-Effect}
use open_bbc.Store.Invariant.Topology.{
  Topology, Topology-Effect, HasRunnableTargets, Edge, Walk, edge, IsAcyclic,
}
use open_bbc.Store.Invariant.Gate.{Gated, Gate, Gated-Effect}

pub record Sound (db : Db) : Type 0 where
  pub keyed : Keyed db
  pub topology : Topology db
  pub gated : Gated db

no_walk : (a b : String) → ¬ Walk [] a b
unfolding Edge
no_walk a b (Walk.edge e) = elim e.1 [ ]
no_walk a b (Walk.step e w) = elim e.1 [ ]

pub empty-Sound : Sound empty
unfolding HasRunnableTargets IsAcyclic
empty-Sound = record {
  keyed = record { ids = λ v w m n e. elim m [ ]; one_deployed = λ v w m n d c e. elim m [ ] };
  topology = record { targets = λ b m. elim m [ ]; acyclic = λ a w. no_walk a a w };
  gated = record { closed = λ e v m n k a. elim m [ ]; owned = λ e m. elim m [ ] };
}

module _ (codec : Codec) (sanitize : String → String) where
  pub step-Sound : (db : Db) (c : Call) → Sound db → Sound (step codec sanitize db c)
  step-Sound db c sound =
      let effect = step-Effect codec sanitize db c in
      record {
        keyed = Keyed-Effect db _ effect sound.keyed;
        topology = Topology-Effect db _ effect sound.keyed sound.topology;
        gated = Gated-Effect db _ effect sound.keyed sound.gated;
      }

  pub run-Sound : (db : Db) (cs : List Call) → Sound db → Sound (run codec sanitize db cs)
  unfolding run
  run-Sound db [] sound = sound
  run-Sound db (c ∷ cs) sound = run-Sound (step codec sanitize db c) cs (step-Sound db c sound)

  -- Whatever transactions have run on a fresh database, two DEPLOYED versions of one agent are the
  -- same row.
  pub one_deployed-run :
      (cs : List Call) (v w : VersionRow)
      → Memᴰ v (run codec sanitize empty cs).versions
      → Memᴰ w (run codec sanitize empty cs).versions
      → is_status v.status deployed ≡ true
      → is_status w.status deployed ≡ true
      → v.agent_id ≡ w.agent_id
      → v ≡ w
  one_deployed-run cs v w m n d c e =
      let keyed = (run-Sound empty cs empty-Sound).keyed in
      keyed.ids v w m n (keyed.one_deployed v w m n d c e)

  -- Whatever transactions have run on a fresh database, no version reaches itself by bindings, and
  -- the target of each binding is a version that is READY or DEPLOYED.
  pub run-IsAcyclic :
      (cs : List Call)
      → IsAcyclic (run codec sanitize empty cs).bindings
        × HasRunnableTargets
            (run codec sanitize empty cs).versions
            (run codec sanitize empty cs).bindings
  run-IsAcyclic cs =
      let top = (run-Sound empty cs empty-Sound).topology in (top.acyclic, top.targets)
