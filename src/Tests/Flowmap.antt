-- ===== src/Tests/Flowmap.antt =====
-- Identifiers of skills (open-bbcd/internal/flowmap/id.go).
use Prim.Native.Char.{Char, code}
use open_bbc.Base.{
  ℕ, ◌<◌, ◌≡◌, ◌≢◌, inr, refl, String, Bool, true, false, Option, none, some, ◌==◌, nat_eq,
  if◌then◌else◌, arith,
}
use open_bbc.Flowmap.Id.{
  is_word_char, hyphenate, cons_unless_hyphen, trim_hyphens, slugify_skill_name, Encoding, suffixed,
  unique_skill_id,
}
use open_bbc.Flowmap.Id.Slug.{IsSlug, slugify_skill_name-IsSlug, slugify_skill_name_of_IsSlug}
use open_bbc.Flowmap.Id.Fresh.{unique_skill_id-fresh}

-- Lower case on two letters.
abbrev lower : Char → Char
lower c = if nat_eq (code c) b'O' then "o" else if nat_eq (code c) b'P' then "p" else c

slug_of_order : slugify_skill_name lower " Place  Order #42! " ≡ "place-order-42"
unfolding slugify_skill_name trim_hyphens hyphenate cons_unless_hyphen
slug_of_order = refl

-- A dropped rune joins what it stands between.
slug_of_joined : slugify_skill_name lower "check/out" ≡ "checkout"
unfolding slugify_skill_name trim_hyphens hyphenate cons_unless_hyphen
slug_of_joined = refl

slugify_skill_name-IsSlug_example : IsSlug (slugify_skill_name lower " Place  Order #42! ")
slugify_skill_name-IsSlug_example = slugify_skill_name-IsSlug lower " Place  Order #42! "

lower_of_word : (c : Char) → is_word_char c ≡ true → lower c ≡ c
lower_of_word c h = ground (arith, h)

slugify_skill_name_of_IsSlug_example :
    slugify_skill_name lower (slugify_skill_name lower "Order #42")
    ≡ slugify_skill_name lower "Order #42"
slugify_skill_name_of_IsSlug_example =
    slugify_skill_name_of_IsSlug lower lower_of_word refl (slugify_skill_name lower "Order #42")
      (slugify_skill_name-IsSlug lower "Order #42")

abbrev encoding : Encoding
encoding = record { hex = λ a b. if nat_eq a 1 then "0102" else "0304"; byte_length = λ s. 3 }

abbrev two_taken : String → Bool
two_taken s = if s == "foo" then true else s == "foo-0102"

abbrev draws : ℕ → Option (ℕ × ℕ)
draws i = if nat_eq i 0 then some (1, 2) else some (3, 4)

draws_succeed : (j : ℕ) → j < 1 → draws j ≢ none
draws_succeed j h e = absurd (ground (arith, e))

unique_skill_id-fresh_example : two_taken (unique_skill_id encoding two_taken draws "foo") ≡ false
unfolding suffixed
unique_skill_id-fresh_example =
    unique_skill_id-fresh encoding two_taken draws "foo"
      (inr (1, 3, 4, omega arith, draws_succeed, refl, refl))
