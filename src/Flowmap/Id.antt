-- ===== src/Flowmap/Id.antt =====
-- open-bbcd/internal/flowmap/id.go. Texts are sequences of runes. `unicode.ToLower`, which
-- `strings.ToLower` applies to each rune, is the parameter `lower`. The random bytes of an attempt
-- are a parameter too; none is an error of crypto/rand.
pub mod Slug
pub mod Fresh
use Prim.Native.Char.{Char, code}
use Prim.Native.String
use Prim.Native.String.{[], ◌∷◌}
use open_bbc.Base.{
  ℕ, zero, suc, ◌+◌, ◌%◌, String, Bool, true, false, ◌&&◌, ◌||◌, not, Option, none, some, leb,
  nat_eq, if◌then◌else◌,
}
use open_bbc.Artifacts.Label.{is_space}

-- An ASCII letter in lower case, or a digit.
abbrev pub is_word_char : Char → Bool
is_word_char c = leb b'a' (code c) && leb (code c) b'z' || leb b'0' (code c) && leb (code c) b'9'

abbrev pub is_separator : Char → Bool
is_separator c = is_space (code c) || nat_eq (code c) b'-' || nat_eq (code c) b'_'

abbrev pub hyphen : Char
hyphen = "-"

-- The loop over the runes; `prev` is `prevHyphen`.
unfoldable pub hyphenate : (lower : Char → Char) → (prev : Bool) → String → String
hyphenate lower prev [] = []
hyphenate lower prev (r ∷ s) =
    let c = lower r in
    let rest = hyphenate lower (not (is_word_char c) && (is_separator c || prev)) s in
    if is_word_char c then c ∷ rest else if is_separator c && not prev then hyphen ∷ rest else rest

unfoldable pub cons_unless_hyphen : Char → String → String
cons_unless_hyphen c [] = if nat_eq (code c) b'-' then [] else c ∷ []
cons_unless_hyphen c (d ∷ s) = c ∷ d ∷ s

-- `strings.TrimRight(s, "-")`
unfoldable pub trim_hyphens : String → String
trim_hyphens [] = []
trim_hyphens (c ∷ s) = cons_unless_hyphen c (trim_hyphens s)

unfoldable pub slugify_skill_name : (lower : Char → Char) → String → String
slugify_skill_name lower s = trim_hyphens (hyphenate lower true s)

-- `hex.EncodeToString` of two bytes, and `len`.
pub record Encoding : Type 0 where
  pub hex : (first second : ℕ) → String
  pub byte_length : String → ℕ

unfoldable pub suffixed : String → String → String
suffixed base suffix = String.◌++◌ base (String.◌++◌ "-" suffix)

-- The attempts left, the first of which has this number.
unfoldable pub attempt_ids :
    Encoding
    → (taken : String → Bool) → (random : ℕ → Option (ℕ × ℕ)) → (base : String)
    → (attempts first : ℕ) → String
unfolding suffixed
attempt_ids e taken random base zero i = suffixed base "conflict"
attempt_ids e taken random base (suc n) i =
    let rest = attempt_ids e taken random base n (i + 1) in
    elim (random i) [
      | none ↦ suffixed base (e.hex (e.byte_length base % 256) 0xa5)
      | some (a, b) ↦
          let candidate = suffixed base (e.hex a b) in if taken candidate then rest else candidate
    ]

unfoldable pub unique_skill_id :
    Encoding → (taken : String → Bool) → (random : ℕ → Option (ℕ × ℕ)) → (base : String) → String
unfolding attempt_ids
unique_skill_id e taken random base =
    let id = attempt_ids e taken random base 8 0 in if taken base then id else base
