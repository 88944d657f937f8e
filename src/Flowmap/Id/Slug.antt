-- ===== src/Flowmap/Id/Slug.antt =====
-- The form of a slug.
use Prim.Native.Char.{Char}
use Prim.Native.String.{[], ◌∷◌}
use open_bbc.Base.{String, Bool, true, false, ◌≡◌, ◌⊎◌, inl, inr, refl, Bool-cases, arith}
use open_bbc.Flowmap.Id.{
  is_word_char, is_separator, hyphen, hyphenate, cons_unless_hyphen, trim_hyphens,
  slugify_skill_name,
}

-- Letters, digits and hyphens, no two hyphens in a row, and no hyphen in front if one came before.
abbrev IsHyphenated : Bool → String → Type 0
IsHyphenated prev [] = Unit
IsHyphenated prev (c ∷ s) =
    ((is_word_char c ≡ true) × IsHyphenated false s)
    ⊎ ((c ≡ hyphen) × (prev ≡ false) × IsHyphenated true s)

-- The same, with no hyphen at the end: words that single hyphens separate.
abbrev pub IsWords : Bool → String → Type 0
IsWords prev [] = prev ≡ false
IsWords prev (c ∷ s) =
    ((is_word_char c ≡ true) × IsWords false s) ⊎ ((c ≡ hyphen) × (prev ≡ false) × IsWords true s)

-- Empty, or words of ASCII letters in lower case and digits that single hyphens separate.
unfoldable pub IsSlug : String → Type 0
IsSlug s = (s ≡ []) ⊎ IsWords true s

hyphenate-IsHyphenated :
    (lower : Char → Char) (prev : Bool) (s : String) → IsHyphenated prev (hyphenate lower prev s)
unfolding hyphenate
hyphenate-IsHyphenated lower prev [] = tt
hyphenate-IsHyphenated lower prev (r ∷ s) = elim (Bool-cases (is_word_char (lower r))) [
  | inl e ↦ rw e (inl (e, hyphenate-IsHyphenated lower false s))
  | inr e ↦ elim (Bool-cases (is_separator (lower r))) [
    | inr f ↦ rw (e, f) (hyphenate-IsHyphenated lower prev s)
    | inl f ↦ elim (Bool-cases prev) [
      | inl g ↦ rw (e, f, g) (hyphenate-IsHyphenated lower true s)
      | inr g ↦ rw (e, f, g) (inr (refl, refl, hyphenate-IsHyphenated lower true s))
    ]
  ]
]

cons_unless_hyphen-word :
    (c : Char) (s : String) → is_word_char c ≡ true → cons_unless_hyphen c s ≡ c ∷ s
unfolding cons_unless_hyphen
cons_unless_hyphen-word c [] h = ground (arith, h)
cons_unless_hyphen-word c (d ∷ s) h = refl

cons_unless_hyphen-hyphen :
    (s : String)
    → IsSlug s
    → (cons_unless_hyphen hyphen s ≡ []) ⊎ IsWords false (cons_unless_hyphen hyphen s)
unfolding cons_unless_hyphen IsSlug
cons_unless_hyphen-hyphen [] h = inl refl
cons_unless_hyphen-hyphen (d ∷ s) (inl e) = absurd (cc e)
cons_unless_hyphen-hyphen (d ∷ s) (inr w) = inr (inr (refl, refl, w))

nil_or_IsWords : (s : String) → (s ≡ []) ⊎ IsWords false s → IsWords false s
nil_or_IsWords s (inl e) = rw e refl
nil_or_IsWords s (inr w) = w

trim_hyphens-IsWords :
    (prev : Bool) (s : String)
    → IsHyphenated prev s
    → (trim_hyphens s ≡ []) ⊎ IsWords prev (trim_hyphens s)
unfolding trim_hyphens IsSlug
trim_hyphens-IsWords prev [] h = inl refl
trim_hyphens-IsWords prev (c ∷ s) (inl (e, h)) =
    let w = nil_or_IsWords (trim_hyphens s) (trim_hyphens-IsWords false s h) in
    inr (rw (cons_unless_hyphen-word c (trim_hyphens s) e) (inl (e, w)))
trim_hyphens-IsWords prev (c ∷ s) (inr (e, p, h)) =
    rw (e, p) (cons_unless_hyphen-hyphen (trim_hyphens s) (trim_hyphens-IsWords true s h))

-- A slug is empty, or it is words of ASCII letters in lower case and digits that single hyphens
-- separate, whatever the runes of the name are.
pub slugify_skill_name-IsSlug :
    (lower : Char → Char) (s : String) → IsSlug (slugify_skill_name lower s)
unfolding slugify_skill_name IsSlug
slugify_skill_name-IsSlug lower s =
    trim_hyphens-IsWords true (hyphenate lower true s) (hyphenate-IsHyphenated lower true s)

hyphenate_of_IsWords :
    (lower : Char → Char)
    → ((c : Char) → is_word_char c ≡ true → lower c ≡ c)
    → lower hyphen ≡ hyphen
    → (prev : Bool) (s : String) → IsWords prev s
    → hyphenate lower prev s ≡ s
unfolding hyphenate
hyphenate_of_IsWords lower words mark prev [] h = refl
hyphenate_of_IsWords lower words mark prev (c ∷ s) (inl (e, h)) =
    rw (words c e, e, hyphenate_of_IsWords lower words mark false s h) refl
hyphenate_of_IsWords lower words mark prev (c ∷ s) (inr (e, p, h)) =
    rw (e, mark, p, hyphenate_of_IsWords lower words mark true s h) refl

trim_hyphens_of_IsWords : (prev : Bool) (s : String) → IsWords prev s → trim_hyphens s ≡ s
unfolding trim_hyphens cons_unless_hyphen
trim_hyphens_of_IsWords prev [] h = refl
trim_hyphens_of_IsWords prev (c ∷ s) (inl (e, h)) =
    rw (trim_hyphens_of_IsWords false s h) (cons_unless_hyphen-word c s e)
trim_hyphens_of_IsWords prev (c ∷ []) (inr (e, p, h)) = absurd (cc h)
trim_hyphens_of_IsWords prev (c ∷ d ∷ s) (inr (e, p, h)) =
    rw (trim_hyphens_of_IsWords true (d ∷ s) h) refl

-- A text that is a slug is its own slug, where lower case keeps the letters and digits of slugs and
-- the hyphen.
pub slugify_skill_name_of_IsSlug :
    (lower : Char → Char)
    → ((c : Char) → is_word_char c ≡ true → lower c ≡ c)
    → lower hyphen ≡ hyphen
    → (s : String) → IsSlug s
    → slugify_skill_name lower s ≡ s
unfolding slugify_skill_name IsSlug trim_hyphens hyphenate
slugify_skill_name_of_IsSlug lower words mark s (inl e) = rw e refl
slugify_skill_name_of_IsSlug lower words mark s (inr w) =
    rw (hyphenate_of_IsWords lower words mark true s w) (trim_hyphens_of_IsWords true s w)
