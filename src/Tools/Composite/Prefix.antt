-- ===== src/Tools/Composite/Prefix.antt =====
-- Prefixes of texts, for the routing by name in open-bbcd/internal/llm/tools/composite.go.
use Prim.Native.Char.{code}
use Prim.Native.String.{[], ◌∷◌}
use open_bbc.Base.{String, Option, none, some, nat_eq, if◌then◌else◌}

-- `strings.HasPrefix` with `strings.TrimPrefix`: what follows the prefix.
unfoldable pub strip_prefix : (prefix s : String) → Option String
strip_prefix [] s = some s
strip_prefix (c ∷ p) [] = none
strip_prefix (c ∷ p) (d ∷ s) =
    let rest = strip_prefix p s in if nat_eq (code c) (code d) then rest else none
