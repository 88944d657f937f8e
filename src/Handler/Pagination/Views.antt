-- ===== src/Handler/Pagination/Views.antt =====
-- Parsed requests are in bounds, and a view's links agree with the rows.
use native.Mathlib.Nat.{le-div_iff_mul-le}
use open_bbc.Base.{ℕ, ◌+◌, ◌-◌, ◌*◌, ◌≤◌, ◌<◌, ◌≡◌, ◌↔◌, String, true, arith}
use open_bbc.Handler.Pagination.{ℤ, PageRequest, parse_page_request, new_page_view}

pub parse_page_request-page :
    (atoi : String → ℤ) (page size : String) → 1 ≤ (parse_page_request atoi page size).page
unfolding parse_page_request
parse_page_request-page atoi page size = ground arith

pub parse_page_request-size :
    (atoi : String → ℤ) (page size : String)
    → (1 ≤ (parse_page_request atoi page size).size)
      × ((parse_page_request atoi page size).size ≤ 200)
unfolding parse_page_request
parse_page_request-size atoi page size = (ground arith, ground arith)

has_next_lem :
    (req : PageRequest) (total : ℕ)
    → 1 ≤ req.page
    → 1 ≤ req.size
    → ((new_page_view req total).has_next ≡ true) ↔ (req.page * req.size < total)
unfolding new_page_view
has_next_lem req total page size =
    let d =
      le-div_iff_mul-le {k = req.size} {x = req.page + 1} {y = total + req.size - 1}
        (omega (arith, size)) in
    let e : (req.page + 1) * req.size ≡ req.page * req.size + req.size = omega arith in
    (λ h. ground (arith, d.0), λ h. ground (arith, d.1))

-- A parsed request has a page of at least 1 and a size from 1 to 200, whatever the texts are; and
-- the view of it links to a next page exactly if some row comes after this page's.
pub view-has_next :
    (atoi : String → ℤ) (page size : String) (total : ℕ)
    → let req = parse_page_request atoi page size in
      (1 ≤ req.page)
      × (1 ≤ req.size)
      × (req.size ≤ 200)
      × (((new_page_view req total).has_next ≡ true) ↔ (req.page * req.size < total))
view-has_next atoi page size total =
    let req = parse_page_request atoi page size in
    let p = parse_page_request-page atoi page size in
    let (l, u) = parse_page_request-size atoi page size in (p, l, u, has_next_lem req total p l)
