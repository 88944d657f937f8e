-- ===== src/Flowmap/Bypass.antt =====
-- `bypassParallel` of open-bbcd/internal/flowmap/normalize.go, on the workflows of mermaid.go. The ids
-- of the parallel nodes are listed in the order in which the map is iterated, which is any order.
pub mod Edges
use open_bbc.Base.{
  String, Bool, ◌&&◌, not, List, [], ◌∷◌, ◌++◌, map, any, keep, ◌==◌, if◌then◌else◌,
}

pub data NodeKind : Type 0 where
  start end_node skill decision : NodeKind

pub record ParsedNode : Type 0 where
  pub id : String
  pub kind : NodeKind
  pub label : String

pub record ParsedEdge : Type 0 where
  pub from : String
  pub to : String
  pub label : String

pub record ParsedWorkflow : Type 0 where
  pub nodes : List ParsedNode
  pub edges : List ParsedEdge

-- `parallels[id]`
abbrev pub is_parallel : List String → String → Bool
is_parallel parallels id = any (λ p. p == id) parallels

-- The second and the third case of the loop over the edges.
abbrev pub is_into : List String → String → ParsedEdge → Bool
is_into parallels pid e =
    is_parallel parallels e.to && not (is_parallel parallels e.from) && e.to == pid

abbrev pub is_out_of : List String → String → ParsedEdge → Bool
is_out_of parallels pid e =
    not (is_parallel parallels e.to) && is_parallel parallels e.from && e.from == pid

-- `preds[pid]`
unfoldable pub preds :
    (parallels : List String) → List ParsedEdge → (pid : String) → List ParsedEdge
preds parallels edges pid = keep (is_into parallels pid) edges

-- `succs[pid]`
unfoldable pub succs :
    (parallels : List String) → List ParsedEdge → (pid : String) → List ParsedEdge
succs parallels edges pid = keep (is_out_of parallels pid) edges

abbrev pub bridge : (before after : ParsedEdge) → ParsedEdge
bridge pe se = record {
  from = pe.from;
  to = se.to;
  label = if se.label == "" then pe.label else se.label;
}

-- The results for each element, one after the other.
abbrev pub each : {A B : Type 0} → (A → List B) → List A → List B
each f [] = []
each f (x ∷ xs) = f x ++ each f xs

abbrev pub bridges_of :
    List String → List ParsedEdge → (pid : String) → ParsedEdge → List ParsedEdge
bridges_of parallels edges pid pe = map (λ se. bridge pe se) (succs parallels edges pid)

abbrev pub bridges_at : List String → List ParsedEdge → (pid : String) → List ParsedEdge
bridges_at parallels edges pid =
    each (λ pe. bridges_of parallels edges pid pe) (preds parallels edges pid)

-- The loop over the parallel ids.
unfoldable pub bridges : (parallels : List String) → List ParsedEdge → List ParsedEdge
bridges parallels edges = each (λ pid. bridges_at parallels edges pid) parallels

unfoldable pub bypass_parallel : ParsedWorkflow → (parallels : List String) → ParsedWorkflow
bypass_parallel wf parallels = record {
  nodes = keep (λ (n : ParsedNode). not (is_parallel parallels n.id)) wf.nodes;
  edges =
      keep
        (λ (e : ParsedEdge). not (is_parallel parallels e.to) && not (is_parallel parallels e.from))
        wf.edges
      ++ bridges parallels wf.edges;
}
