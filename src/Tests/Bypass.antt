-- ===== src/Tests/Bypass.antt =====
-- A workflow with a parallel node (open-bbcd/internal/flowmap/normalize.go).
use mathlib.Core.List.{Memᴰ}
use open_bbc.Base.{String, ◌≡◌, ◌⊎◌, ◌↔◌, refl, [], ◌∷◌}
use open_bbc.Flowmap.Bypass.{
  ParsedEdge, ParsedWorkflow, start, skill, preds, succs, bridge, bridges, bypass_parallel,
}
use open_bbc.Flowmap.Bypass.Edges.{IsDirect, ArePassed, bypass_parallel-edges}

abbrev edge : String → String → String → ParsedEdge
edge from to label = record { from = from; to = to; label = label }

abbrev fanned_out : ParsedWorkflow
fanned_out = record {
  nodes =
      record { id = "s"; kind = start; label = "start" }
      ∷ record { id = "a"; kind = skill; label = "one" }
      ∷ record { id = "b"; kind = skill; label = "two" }
      ∷ [];
  edges = edge "s" "p" "go" ∷ edge "p" "a" "" ∷ edge "p" "b" "yes" ∷ [];
}

fanned_in :
    (bypass_parallel fanned_out ("p" ∷ [])).edges ≡ edge "s" "a" "go" ∷ edge "s" "b" "yes" ∷ []
unfolding bypass_parallel bridges preds succs
fanned_in = refl

bypass_parallel-edges_example :
    Memᴰ (edge "s" "a" "go") (bypass_parallel fanned_out ("p" ∷ [])).edges ↔ (
      (Memᴰ (edge "s" "a" "go") fanned_out.edges × IsDirect ("p" ∷ []) (edge "s" "a" "go"))
      ⊎ ((pe se : ParsedEdge) × ArePassed ("p" ∷ []) fanned_out.edges pe se
          × (bridge pe se ≡ edge "s" "a" "go")))
bypass_parallel-edges_example = bypass_parallel-edges fanned_out ("p" ∷ []) (edge "s" "a" "go")
