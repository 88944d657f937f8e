-- ===== src/Flowmap/Id/Fresh.antt =====
-- Where an id is new.
use open_bbc.Base.{
  ℕ, zero, suc, ◌+◌, ◌≤◌, ◌<◌, ◌≡◌, ◌≢◌, ◌⊎◌, ap, sym, ◌∙◌, ltb, Option-cases, inl, inr, String,
  Bool, false, Bool-cases, Option, none, some, arith,
}
use open_bbc.Flowmap.Id.{Encoding, suffixed, attempt_ids, unique_skill_id}

attempt_ids-fresh :
    (e : Encoding) (taken : String → Bool) (random : ℕ → Option (ℕ × ℕ)) (base : String)
    (n first i a b : ℕ)
    → first ≤ i
    → i < first + n
    → ((j : ℕ) → j < i → random j ≢ none)
    → random i ≡ some (a, b)
    → taken (suffixed base (e.hex a b)) ≡ false
    → taken (attempt_ids e taken random base n first) ≡ false
unfolding attempt_ids
attempt_ids-fresh e taken random base zero first i a b l h drawn r free =
    absurd (omega (arith, l, h))
attempt_ids-fresh e taken random base (suc n) first i a b l h drawn r free =
    elim (Option-cases (random first)) [
      | inl k ↦ elim (le_cases first i l) [
        | inl s ↦ absurd (cc (r, k, s))
        | inr s ↦ absurd (drawn first s k)
      ]
      | inr ((x, y), k) ↦ elim (Bool-cases (taken (suffixed base (e.hex x y)))) [
        | inr t ↦ rw (k, attempt_ids) (rw t t)
        | inl t ↦ elim (le_cases first i l) [
          | inl s ↦
              let same : some (x, y) ≡ some (a, b) = sym k ∙ ap random s ∙ r in
              absurd (cc (same, t, free))
          | inr s ↦
              rw (k, attempt_ids)
                (rw t (
                  attempt_ids-fresh e taken random base n (first + 1) i a b (omega (arith, s))
                    (omega (arith, h)) drawn r free))
        ]
      ]
    ]
  where
    le_cases : (m k : ℕ) → m ≤ k → (m ≡ k) ⊎ (m < k)
    le_cases m k h = elim (Bool-cases (ltb m k)) [
      | inl e ↦ inr (ground (arith, e))
      | inr e ↦ inl (ground (arith, e, h))
    ]

-- The id is not taken, if the base is free or one of the 8 attempts, with no error of crypto/rand
-- before it, draws a suffix that makes a free id.
pub unique_skill_id-fresh :
    (e : Encoding) (taken : String → Bool) (random : ℕ → Option (ℕ × ℕ)) (base : String)
    → (taken base ≡ false)
      ⊎ ((i a b : ℕ) × (i < 8)
          × ((j : ℕ) → j < i → random j ≢ none)
          × (random i ≡ some (a, b))
          × (taken (suffixed base (e.hex a b)) ≡ false))
    → taken (unique_skill_id e taken random base) ≡ false
unfolding unique_skill_id
unique_skill_id-fresh e taken random base h = elim (Bool-cases (taken base)) [
  | inr t ↦ rw t t
  | inl t ↦ rw t (elim h [
    | inl f ↦ absurd (cc (t, f))
    | inr (i, a, b, l, drawn, r, f) ↦
        attempt_ids-fresh e taken random base 8 0 i a b (omega arith) (omega (arith, l)) drawn r f
  ])
]
