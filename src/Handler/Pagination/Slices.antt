-- ===== src/Handler/Pagination/Slices.antt =====
-- The rows of a page.
use open_bbc.Base.{
  ℕ, zero, suc, ◌+◌, ◌-◌, ◌*◌, ◌%◌, ◌^◌, ◌≤◌, ◌<◌, ◌≡◌, refl, sym, ap, ◌∙◌, inl, inr, Bool-cases,
  none, some, List, [], ◌∷◌, length, get_elem?, ltb, leb, arith, String, ◌⊎◌, ◌↔◌, ◌≢◌,
  if◌then◌else◌,
}
use native.Mathlib.Nat.{mul-le-mul_left}
use open_bbc.Handler.Pagination.Views.{parse_page_request-size}
use open_bbc.Handler.Pagination.{
  pos, negsuc, PageRequest, int64, offset, take, drop, slice, slice_page, ℤ, parse_page_request,
}

module _ {A : Type 0} where
  get_elem?-take : (n i : ℕ) (xs : List A) → i < n → get_elem? (take n xs) i ≡ get_elem? xs i
  get_elem?-take zero i xs h = absurd (omega (arith, h))
  get_elem?-take (suc n) i [] h = refl
  get_elem?-take (suc n) zero (x ∷ xs) h = refl
  get_elem?-take (suc n) (suc i) (x ∷ xs) h = get_elem?-take n i xs (omega (arith, h))

  get_elem?-drop : (n i : ℕ) (xs : List A) → get_elem? (drop n xs) i ≡ get_elem? xs (n + i)
  get_elem?-drop zero i xs = let e : i ≡ zero + i = omega arith in ap (λ (k : ℕ). get_elem? xs k) e
  get_elem?-drop (suc n) i [] = refl
  get_elem?-drop (suc n) i (x ∷ xs) = get_elem?-drop n i xs ∙ later
    where
      later : get_elem? xs (n + i) ≡ get_elem? (x ∷ xs) (suc n + i)
      later =
          let e : suc (n + i) ≡ suc n + i = omega arith in ap (λ (k : ℕ). get_elem? (x ∷ xs) k) e

  get_elem?-out : (i : ℕ) (xs : List A) → length xs ≤ i → get_elem? xs i ≡ none
  get_elem?-out i [] h = refl
  get_elem?-out zero (x ∷ xs) h = absurd (omega (arith, h))
  get_elem?-out (suc i) (x ∷ xs) h = get_elem?-out i xs (omega (arith, h))

  length-take : (n : ℕ) (xs : List A) → length (take n xs) ≤ n
  length-take zero xs = omega arith
  length-take (suc n) [] = omega arith
  length-take (suc n) (x ∷ xs) = omega (arith, length-take n xs)

  length-drop : (n : ℕ) (xs : List A) → length (drop n xs) ≡ length xs - n
  length-drop zero xs = omega arith
  length-drop (suc n) [] = omega arith
  length-drop (suc n) (x ∷ xs) = omega (arith, length-drop n xs)

  take-all : (n : ℕ) (xs : List A) → length xs ≤ n → take n xs ≡ xs
  take-all zero [] h = refl
  take-all zero (x ∷ xs) h = absurd (omega (arith, h))
  take-all (suc n) [] h = refl
  take-all (suc n) (x ∷ xs) h = ap (λ r. x ∷ r) (take-all n xs (omega (arith, h)))

  slice_page-past :
      (items : List A) (n limit : ℕ) → length items ≤ n → slice_page items (pos n) limit ≡ some []
  unfolding slice_page slice
  slice_page-past items n limit h = ground arith

  slice_page-pos :
      (items : List A) (n limit high : ℕ)
      → n < length items
      → high ≡ (if leb (n + limit) (length items) then n + limit else length items)
      → slice_page items (pos n) limit ≡ some (take (high - n) (drop n items))
  unfolding slice_page slice
  slice_page-pos items n limit high h e = ground arith

  slice_page-negsuc : (items : List A) (n limit : ℕ) → slice_page items (negsuc n) limit ≡ none
  unfolding slice_page slice
  slice_page-negsuc items n limit = ground arith

  slice_rows :
      (items : List A) (n limit : ℕ)
      → (rows : List A) × (slice_page items (pos n) limit ≡ some rows)
        × (length rows ≤ limit)
        × ((i : ℕ) → i < limit → get_elem? rows i ≡ get_elem? items (n + i))
  slice_rows items n limit = elim (Bool-cases (leb (length items) n)) [
    | inl e ↦
        let short : length items ≤ n = ground (arith, e) in
        (
          [],
          slice_page-past items n limit short,
          omega arith,
          λ i h. sym (get_elem?-out (n + i) items (omega (arith, short))),
        )
    | inr e ↦
        let inside : n < length items = ground (arith, e) in
        elim (Bool-cases (leb (n + limit) (length items))) [
          | inr f ↦
              let few : length items < n + limit = ground (arith, f) in
              let size = length-drop n items in
              let all = take-all (length items - n) (drop n items) (omega (arith, size)) in
              (
                drop n items,
                slice_page-pos items n limit (length items) inside (ground (arith, f))
                    ∙ ap some all,
                omega (arith, size, few),
                λ i h. get_elem?-drop n i items,
              )
          | inl f ↦
              let same : n + limit - n ≡ limit = omega arith in
              (
                take limit (drop n items),
                slice_page-pos items n limit (n + limit) inside (ground (arith, f))
                    ∙ ap (λ (k : ℕ). some (take k (drop n items))) same,
                length-take limit (drop n items),
                λ i h. get_elem?-take limit i (drop n items) h ∙ get_elem?-drop n i items,
              )
        ]
  ]

int64-pos : (w : ℕ) → w < 2 ^ 63 → int64 (w % 2 ^ 64) ≡ pos w
int64-pos w h = let e : w % 2 ^ 64 ≡ w = omega (arith, h) in rw e (ground (arith, h))

-- Where the offset of the page does not reach 2^63, the page is the rows from the offset on, as many
-- as its size and the rows allow: its row i is row (page - 1) * size + i.
pub slice_page-rows :
    {A : Type 0} (items : List A) (req : PageRequest)
    → (req.page - 1) * req.size < 2 ^ 63
    → (rows : List A) × (slice_page items (offset req) req.size ≡ some rows)
      × (length rows ≤ req.size)
      × ((i : ℕ)
          → i < req.size
          → get_elem? rows i ≡ get_elem? items ((req.page - 1) * req.size + i))
unfolding offset
slice_page-rows items req h =
    rw (int64-pos ((req.page - 1) * req.size) h)
      (slice_rows items ((req.page - 1) * req.size) req.size)

int64-negsuc : (w : ℕ) → 2 ^ 63 ≤ w → int64 w ≡ negsuc (2 ^ 64 - 1 - w)
int64-negsuc w h = ground (arith, h)

int64-sign :
    (w : ℕ)
    → ((n : ℕ) × (int64 w ≡ negsuc n) × (2 ^ 63 ≤ w)) ⊎ ((n : ℕ) × (int64 w ≡ pos n) × (w < 2 ^ 63))
int64-sign w = elim (Bool-cases (ltb w (2 ^ 63))) [
  | inl e ↦ inr (w, ground (arith, e), ground (arith, e))
  | inr e ↦ inl (2 ^ 64 - 1 - w, ground (arith, e), ground (arith, e))
]

slice_page-eq-none :
    {A : Type 0} (items : List A) (req : PageRequest)
    → (slice_page items (offset req) req.size ≡ none)
      ↔ (2 ^ 63 ≤ (req.page - 1) * req.size % 2 ^ 64)
unfolding offset
slice_page-eq-none items req = elim (int64-sign ((req.page - 1) * req.size % 2 ^ 64)) [
  | inl (n, e, h) ↦ (λ x. h, λ x. rw e (slice_page-negsuc items n req.size))
  | inr (n, e, h) ↦
      let (rows, some_rows, short, rest) = slice_rows items n req.size in
      (λ x. absurd (cc (rw e at x, some_rows)), λ x. absurd (omega (arith, h, x)))
]

below_wrap : (page size : ℕ) → page ≤ 2 ^ 55 → size ≤ 200 → (page - 1) * size % 2 ^ 64 < 2 ^ 63
below_wrap page size h k =
    let a : (page - 1) * size ≤ (page - 1) * 200 = mul-le-mul_left (page - 1) k in
    omega (arith, a, h)

-- Whatever the query's texts and the rows are, the slice of the page that is asked for panics exactly
-- if (page - 1) * size, taken modulo 2^64, is at least 2^63: the offset is then negative. No page up
-- to 2^55 panics.
pub slice_page-panics :
    {A : Type 0} (items : List A) (atoi : String → ℤ) (page size : String)
    → let req = parse_page_request atoi page size in
      ((slice_page items (offset req) req.size ≡ none)
        ↔ (2 ^ 63 ≤ (req.page - 1) * req.size % 2 ^ 64))
      × (req.page ≤ 2 ^ 55 → slice_page items (offset req) req.size ≢ none)
slice_page-panics items atoi page size =
    let req = parse_page_request atoi page size in
    let small = (parse_page_request-size atoi page size).1 in
    (
      slice_page-eq-none items req,
      λ h x.
          absurd (
            omega
              (arith, (slice_page-eq-none items req).0 x, below_wrap req.page req.size h small)),
    )
