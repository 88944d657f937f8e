-- ===== src/Store/Bindings/Name.antt =====
-- `bindingNameRe` of open-bbcd/internal/repository/subagent.go: `^[a-z][a-z0-9_-]{0,39}$`.
use Prim.Native.Char.{Char, code}
use Prim.Native.String.{[], ◌∷◌}
use open_bbc.Base.{ℕ, ◌-◌, String, Bool, true, false, ◌&&◌, ◌||◌, ltb, leb, nat_eq}

abbrev is_lower : Char → Bool
is_lower c = leb b'a' (code c) && leb (code c) b'z'

abbrev is_name_char : Char → Bool
is_name_char c =
    is_lower c
    || leb b'0' (code c) && leb (code c) b'9'
    || nat_eq (code c) b'_'
    || nat_eq (code c) b'-'

-- At most so many characters, each of the name's.
abbrev are_name_chars : ℕ → String → Bool
are_name_chars n [] = true
are_name_chars n (c ∷ s) = ltb 0 n && is_name_char c && are_name_chars (n - 1) s

-- The match with `bindingNameRe`.
unfoldable pub is_binding_name : String → Bool
is_binding_name [] = false
is_binding_name (c ∷ s) = is_lower c && are_name_chars 39 s
