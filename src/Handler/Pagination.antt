-- ===== src/Handler/Pagination.antt =====
-- open-bbcd/internal/handler/pagination.go. `strconv.Atoi` is a parameter: 0 for a text that is no
-- number, an end of int64 for one out of its range. Counts of rows are far below 2^63, so sums with
-- them do not wrap; the offset of a page may.
pub mod Views
pub mod Slices
use open_bbc.Base.{
  ℕ, zero, suc, ◌+◌, ◌-◌, ◌*◌, ◌/◌, ◌%◌, ◌^◌, String, Bool, Option, none, some, List, [], ◌∷◌,
  length, ltb, leb, nat_eq, ◌&&◌, if◌then◌else◌,
}

pub data ℤ : Type 0 where
  pos negsuc : ℕ → ℤ

abbrev pub pos_part : ℤ → ℕ
pos_part (pos n) = n
pos_part (negsuc n) = 0

abbrev pub neg_part : ℤ → ℕ
neg_part (pos n) = 0
neg_part (negsuc n) = suc n

abbrev pub leb_ℤ : ℤ → ℤ → Bool
leb_ℤ a b = leb (pos_part a + neg_part b) (pos_part b + neg_part a)

infixl 65 ◌+ℤ◌
abbrev pub ◌+ℤ◌ : ℤ → ℤ → ℤ
a +ℤ b =
    let up = pos_part a + pos_part b in
    let down = neg_part a + neg_part b in
    if leb down up then pos (up - down) else negsuc (down - up - 1)

pub record PageRequest : Type 0 where
  pub page : ℕ
  pub size : ℕ

pub record PageView : Type 0 where
  pub page : ℕ
  pub size : ℕ
  pub total : ℕ
  pub total_pages : ℕ
  pub has_prev : Bool
  pub has_next : Bool

abbrev pub default_page_size : ℕ
default_page_size = 50

abbrev pub max_page_size : ℕ
max_page_size = 200

-- `page < 1`
abbrev page_of : ℤ → ℕ
page_of (negsuc n) = 1
page_of (pos n) = if ltb n 1 then 1 else n

-- `size <= 0`, then `size > maxPageSize`
abbrev size_of : ℤ → ℕ
size_of (negsuc n) = default_page_size
size_of (pos n) =
    let size = if nat_eq n 0 then default_page_size else n in
    if ltb max_page_size size then max_page_size else size

-- `ParsePageRequest`
unfoldable pub parse_page_request : (atoi : String → ℤ) (page size : String) → PageRequest
parse_page_request atoi page size = record {
  page = page_of (atoi page);
  size = size_of (atoi size);
}

-- The int64 with these 64 bits.
abbrev pub int64 : ℕ → ℤ
int64 w = if ltb w (2 ^ 63) then pos w else negsuc (2 ^ 64 - 1 - w)

-- `Offset` of a page of at least 1, as every parsed request has.
unfoldable pub offset : PageRequest → ℤ
offset p = int64 ((p.page - 1) * p.size % 2 ^ 64)

-- `NewPageView`
unfoldable pub new_page_view : PageRequest → (total : ℕ) → PageView
new_page_view req total =
    let pages = if ltb 0 req.size then (total + req.size - 1) / req.size else 1 in
    let total_pages = if ltb pages 1 then 1 else pages in
    record {
      page = req.page;
      size = req.size;
      total = total;
      total_pages = total_pages;
      has_prev = ltb 1 req.page;
      has_next = ltb req.page total_pages;
    }

module _ {ℓ} {A : Type ℓ} where
  abbrev pub take : ℕ → List A → List A
  take zero xs = []
  take (suc n) [] = []
  take (suc n) (x ∷ xs) = x ∷ take n xs

  abbrev pub drop : ℕ → List A → List A
  drop zero xs = xs
  drop (suc n) [] = []
  drop (suc n) (x ∷ xs) = drop n xs

  -- `items[low:high]`; none is the panic of bounds that are not 0 ≤ low ≤ high ≤ len(items).
  unfoldable pub slice : List A → (low high : ℤ) → Option (List A)
  slice items low high =
      if leb_ℤ (pos 0) low && leb_ℤ low high && leb_ℤ high (pos (length items))
      then some (take (pos_part high - pos_part low) (drop (pos_part low) items))
      else none

  -- `slicePage` of ui.go and `slicePageEvals` of eval.go. The sum does not wrap, since the offset is
  -- below the number of items.
  unfoldable pub slice_page : List A → (offset : ℤ) → (limit : ℕ) → Option (List A)
  unfolding slice
  slice_page items offset limit =
      let high = offset +ℤ pos limit in
      if leb_ℤ (pos (length items)) offset
      then some []
      else slice items offset (if leb_ℤ high (pos (length items)) then high else pos (length items))
