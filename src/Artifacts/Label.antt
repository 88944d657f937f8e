-- ===== src/Artifacts/Label.antt =====
-- `CleanText` and `isBidiControl` of open-bbcd/internal/artifacts/mime.go, and what it uses of Go's
-- unicode and strings packages. Native texts are valid UTF-8, so `ToValidUTF8` changes nothing.
pub mod Laws
use Prim.Native.Char.{Char, code}
use Prim.Native.String.{[], ◌∷◌}
use open_bbc.Base.{ℕ, String, Bool, true, false, ◌||◌, ◌&&◌, leb, nat_eq, if◌then◌else◌}

abbrev within : ℕ → ℕ → ℕ → Bool
within lo hi c = leb lo c && leb c hi

-- `unicode.IsControl`
abbrev pub is_control : ℕ → Bool
is_control c = leb c 0x1f || within 0x7f 0x9f c

abbrev pub is_bidi_control : ℕ → Bool
is_bidi_control c =
    nat_eq c 0x200e
    || nat_eq c 0x200f
    || nat_eq c 0x061c
    || within 0x202a 0x202e c
    || within 0x2066 0x2069 c

-- `unicode.IsSpace`
abbrev pub is_space : ℕ → Bool
is_space c =
    within 0x09 0x0d c
    || nat_eq c 0x20
    || nat_eq c 0x85
    || nat_eq c 0xa0
    || nat_eq c 0x1680
    || within 0x2000 0x200a c
    || nat_eq c 0x2028
    || nat_eq c 0x2029
    || nat_eq c 0x202f
    || nat_eq c 0x205f
    || nat_eq c 0x3000

abbrev pub is_dropped : ℕ → Bool
is_dropped c = is_control c || is_bidi_control c

unfoldable pub drop_controls : String → String
drop_controls [] = []
drop_controls (c ∷ s) = let rest = drop_controls s in if is_dropped (code c) then rest else c ∷ rest

unfoldable pub trim_left : String → String
trim_left [] = []
trim_left (c ∷ s) = let rest = trim_left s in if is_space (code c) then rest else c ∷ s

-- A character in front of a trimmed tail.
unfoldable pub cons_trimmed : Char → String → String
cons_trimmed c [] = if is_space (code c) then [] else c ∷ []
cons_trimmed c (d ∷ s) = c ∷ d ∷ s

unfoldable pub trim_right : String → String
trim_right [] = []
trim_right (c ∷ s) = cons_trimmed c (trim_right s)

-- `strings.TrimSpace`
unfoldable pub trim_space : String → String
trim_space s = trim_right (trim_left s)

unfoldable pub clean_text : String → String
clean_text s = trim_space (drop_controls s)

unfoldable pub is_blank : String → Bool
unfolding trim_space
is_blank s = is_nil (trim_space s)
  where
    is_nil : String → Bool
    is_nil [] = true
    is_nil (c ∷ t) = false
