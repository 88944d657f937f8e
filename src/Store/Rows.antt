-- ===== src/Store/Rows.antt =====
-- The statements of SQL that the repositories of open-bbcd/internal/repository use, on a table as
-- the list of its rows, the newest first: EXISTS, SELECT of one row, UPDATE and DELETE, by a test.
use mathlib.Core.List.{Memᴰ}
use mathlib.Core.List.Memᴰ.{head, tail, cases_cons}
use open_bbc.Base.{
  ◌≡◌, refl, ap, ◌∙◌, inl, inr, Bool, true, false, not, Bool-cases, Option, none, some, List, [],
  ◌∷◌, any, keep, if◌then◌else◌, arith,
}

module _ {ℓ} {A : Type ℓ} where
  abbrev pub first : (A → Bool) → List A → Option A
  first p [] = none
  first p (x ∷ xs) = let rest = first p xs in if p x then some x else rest

  abbrev pub update_where : (A → Bool) → (A → A) → List A → List A
  update_where p f [] = []
  update_where p f (x ∷ xs) = (if p x then f x else x) ∷ update_where p f xs

  abbrev pub delete_where : (A → Bool) → List A → List A
  delete_where p xs = keep (λ x. not (p x)) xs

  pub mem-first :
      (p : A → Bool) (xs : List A) (x : A) → first p xs ≡ some x → Memᴰ x xs × (p x ≡ true)
  mem-first p [] x h = absurd (cc h)
  mem-first p (y ∷ xs) x h = elim (Bool-cases (p y)) [
    | inl e ↦ (head (ground (arith)), ground (arith))
    | inr e ↦ let (m, k) = mem-first p xs x (ground (arith)) in (tail m, k)
  ]

  pub any-of-mem : (p : A → Bool) (xs : List A) (x : A) → Memᴰ x xs → p x ≡ true → any p xs ≡ true
  any-of-mem p [] x m h = elim m [ ]
  any-of-mem p (y ∷ xs) x (head e) h = ground (arith, ap p e)
  any-of-mem p (y ∷ xs) x (tail m) h = ground (arith, any-of-mem p xs x m h)

  pub not-any : (p : A → Bool) (xs : List A) (x : A) → any p xs ≡ false → Memᴰ x xs → p x ≡ false
  not-any p [] x h m = elim m [ ]
  not-any p (y ∷ xs) x h (head e) = ground (arith, ap p e)
  not-any p (y ∷ xs) x h (tail m) = not-any p xs x (ground (arith)) m

  pub mem-update_where :
      (p : A → Bool) (f : A → A) (xs : List A) (y : A)
      → Memᴰ y (update_where p f xs)
      → (x : A) × Memᴰ x xs × (y ≡ (if p x then f x else x))
  mem-update_where p f [] y m = elim m [ ]
  mem-update_where p f (x ∷ xs) y (head e) = (x, head refl, e)
  mem-update_where p f (x ∷ xs) y (tail m) =
      let (z, n, e) = mem-update_where p f xs y m in (z, tail n, e)

  pub update_where-mem :
      (p : A → Bool) (f : A → A) (xs : List A) (x : A)
      → Memᴰ x xs
      → Memᴰ (if p x then f x else x) (update_where p f xs)
  update_where-mem p f [] x m = elim m [ ]
  update_where-mem p f (z ∷ xs) x (head e) = head (rw e refl)
  update_where-mem p f (z ∷ xs) x (tail m) = tail (update_where-mem p f xs x m)

  pub mem-keep :
      (p : A → Bool) (xs : List A) (x : A) → Memᴰ x (keep p xs) → Memᴰ x xs × (p x ≡ true)
  mem-keep p [] x m = elim m [ ]
  mem-keep p (y ∷ xs) x m = elim (Bool-cases (p y)) [
    | inl e ↦ elim (cases_cons (rw e at m)) [
      | inl k ↦ (head k, rw k e)
      | inr n ↦ let (i, k) = mem-keep p xs x n in (tail i, k)
    ]
    | inr e ↦ let (i, k) = mem-keep p xs x (rw e at m) in (tail i, k)
  ]

  pub keep-mem : (p : A → Bool) (xs : List A) (x : A) → Memᴰ x xs → p x ≡ true → Memᴰ x (keep p xs)
  keep-mem p [] x m h = elim m [ ]
  keep-mem p (y ∷ xs) x (head e) h = rw (← e) (rw h (head refl))
  keep-mem p (y ∷ xs) x (tail m) h = elim (Bool-cases (p y)) [
    | inl k ↦ rw k (tail (keep-mem p xs x m h))
    | inr k ↦ rw k (keep-mem p xs x m h)
  ]

  pub first-of-mem :
      (p : A → Bool) (xs : List A) (x : A)
      → Memᴰ x xs
      → p x ≡ true
      → (y : A) × (first p xs ≡ some y)
  first-of-mem p [] x m h = elim m [ ]
  first-of-mem p (y ∷ xs) x m h = elim (Bool-cases (p y)) [
    | inl k ↦ (y, rw k refl)
    | inr k ↦ let (z, e) = first-of-mem p xs x (later y xs x m h k) h in (z, rw k e)
  ]
    where
      later : (y : A) (xs : List A) (x : A) → Memᴰ x (y ∷ xs) → p x ≡ true → p y ≡ false → Memᴰ x xs
      later y xs x (head e) h k = absurd (cc (ap p e, h, k))
      later y xs x (tail m) h k = m

  -- An UPDATE under which the test means the same finds the updated row.
  pub first-update_where :
      (q p : A → Bool) (f : A → A) (xs : List A)
      → ((x : A) → q (f x) ≡ q x)
      → (x : A) → first q xs ≡ some x
      → first q (update_where p f xs) ≡ some (if p x then f x else x)
  first-update_where q p f [] same x h = absurd (cc h)
  first-update_where q p f (y ∷ xs) same x h =
      ground (arith, same y, first-update_where q p f xs same x)

  pub mem-of-any :
      (p : A → Bool) (xs : List A) → any p xs ≡ true → (x : A) × Memᴰ x xs × (p x ≡ true)
  mem-of-any p [] h = absurd (cc h)
  mem-of-any p (x ∷ xs) h = elim (Bool-cases (p x)) [
    | inl k ↦ (x, head refl, k)
    | inr k ↦ let (y, m, e) = mem-of-any p xs (ground arith) in (y, tail m, e)
  ]

  pub first-none :
      (p : A → Bool) (xs : List A) → ((x : A) → Memᴰ x xs → ¬ (p x ≡ true)) → first p xs ≡ none
  first-none p [] h = refl
  first-none p (x ∷ xs) h = elim (Bool-cases (p x)) [
    | inl k ↦ absurd (h x (head refl) k)
    | inr k ↦ rw k (first-none p xs (λ y m. h y (tail m)))
  ]

  some-injective : {x y : A} → some x ≡ some y → x ≡ y
  some-injective h = cc

  pub first-keep :
      (q p : A → Bool) (xs : List A) (x : A)
      → first q xs ≡ some x
      → p x ≡ true
      → first q (keep p xs) ≡ some x
  first-keep q p [] x h k = absurd (cc h)
  first-keep q p (y ∷ xs) x h k = elim (Bool-cases (q y)) [
    | inl e ↦
        let same : some y ≡ some x = rw e at h in
        let passes : p y ≡ true = ap p (some-injective same) ∙ k in rw passes (rw e same)
    | inr e ↦ elim (Bool-cases (p y)) [
      | inl l ↦ rw l (rw e (first-keep q p xs x (rw e at h) k))
      | inr l ↦ rw l (first-keep q p xs x (rw e at h) k)
    ]
  ]
