-- ===== src/Tests/Pages.antt =====
-- Pages of lists (open-bbcd/internal/handler/pagination.go).
use open_bbc.Base.{
  ℕ, ◌+◌, ◌-◌, ◌*◌, ◌%◌, ◌^◌, ◌≤◌, ◌<◌, ◌≡◌, ◌↔◌, ◌≢◌, refl, true, none, some, List, [], ◌∷◌,
  String, ◌==◌, length, get_elem?, arith, if◌then◌else◌,
}
use open_bbc.Handler.Pagination.{
  ℤ, pos, PageRequest, parse_page_request, new_page_view, offset, slice, slice_page,
}
use open_bbc.Handler.Pagination.Views.{view-has_next}
use open_bbc.Handler.Pagination.Slices.{slice_page-rows, slice_page-panics}

-- `strconv.Atoi` on three texts.
abbrev atoi : String → ℤ
atoi s =
    if s == "2"
    then pos 2
    else if s == "9223372036854775807"
    then pos 9223372036854775807
    else pos 0

view-has_next_example :
    let req = parse_page_request atoi "2" "x" in
    (1 ≤ req.page)
    × (1 ≤ req.size)
    × (req.size ≤ 200)
    × (((new_page_view req 120).has_next ≡ true) ↔ (req.page * req.size < 120))
view-has_next_example = view-has_next atoi "2" "x" 120

abbrev second : PageRequest
second = record { page = 2; size = 2 }

abbrev five : List ℕ
five = 10 ∷ 11 ∷ 12 ∷ 13 ∷ 14 ∷ []

slice_page-rows_example :
    (rows : List ℕ) × (slice_page five (offset second) second.size ≡ some rows)
    × (length rows ≤ second.size)
    × ((i : ℕ)
        → i < second.size
        → get_elem? rows i ≡ get_elem? five ((second.page - 1) * second.size + i))
slice_page-rows_example = slice_page-rows five second (omega arith)

abbrev last : PageRequest
last = record { page = 9223372036854775807; size = 200 }

-- The largest page number that is parsed.
last_parsed : (parse_page_request atoi "9223372036854775807" "200").page ≡ last.page
unfolding parse_page_request
last_parsed = refl

slice_page-panics_example :
    let req = parse_page_request atoi "9223372036854775807" "200" in
    ((slice_page five (offset req) req.size ≡ none) ↔ (2 ^ 63 ≤ (req.page - 1) * req.size % 2 ^ 64))
    × (req.page ≤ 2 ^ 55 → slice_page five (offset req) req.size ≢ none)
slice_page-panics_example = slice_page-panics five atoi "9223372036854775807" "200"

last_page_panics : slice_page five (offset last) last.size ≡ none
unfolding slice_page slice offset
last_page_panics = refl
