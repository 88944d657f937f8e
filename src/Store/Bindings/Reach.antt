-- ===== src/Store/Bindings/Reach.antt =====
-- The recursive query of `AddBinding`: the versions that a version reaches by bindings.
pub mod Walks
use open_bbc.Base.{
  ℕ, zero, suc, String, Bool, not, List, [], ◌∷◌, ◌++◌, map, any, keep, length, ◌==◌,
}
use open_bbc.Chat.Env.{SubAgentBinding}

-- One of these versions is the binding's caller.
abbrev pub leaves : List String → SubAgentBinding → Bool
leaves ids b = any (λ id. id == b.caller_version_id) ids

-- UNION drops what it has seen, so each round follows the bindings that no round has followed yet.
unfoldable pub follow : (rounds : ℕ) → (frontier : List String) → List SubAgentBinding → List String
follow zero frontier bindings = []
follow (suc n) frontier bindings =
    let found =
      map (λ (b : SubAgentBinding). b.target_version_id) (keep (leaves frontier) bindings) in
    found ++ follow n found (keep (λ b. not (leaves frontier b)) bindings)

-- As many rounds as bindings: a round that follows none is the last that adds a version.
unfoldable pub reach : List SubAgentBinding → String → List String
unfolding follow
reach bindings id = follow (length bindings) (id ∷ []) bindings
