-- ===== src/Pkg/Pagination.antt =====
-- internal/pkg/response/pagination.go: the page that a listing asks for, in Go's 64-bit int. The
-- quotient that the code computes with float64 and math.Ceil is a parameter.
pub mod Bounds
use golang_base.Base.Decimal.{atoi}
use golang_base.Base.{
  ℕ, zero, suc, ◌+◌, ◌-◌, ◌*◌, Bool, true, false, ◌&&◌, Option, none, some, [], ◌∷◌, Text, ltb, leb,
  eqb, if◌then◌else◌, ℤ, pos, negsuc, is_positive, to_ℕ, max_int64, wrap_int64,
}

pub record PaginationMeta : Type 0 where
  pub total_items : ℤ
  pub total_pages : ℤ
  pub current_page : ℤ
  pub limit : ℤ

-- The number of the query, if it is one and positive, else the default.
unfoldable pub positive_or : ℕ → Option ℤ → ℕ
positive_or default (some n) = if is_positive n then to_ℕ n else default
positive_or default none = default

-- Page, limit, offset, from the texts of the query or its defaults "1" and "10".
pub record Page : Type 0 where
  pub page : ℤ
  pub limit : ℤ
  pub offset : ℤ

unfoldable pub parse_pagination_params : Text → Text → Page
parse_pagination_params page_str limit_str =
    let page = positive_or 1 (atoi page_str) in
    let asked = positive_or 10 (atoi limit_str) in
    let limit : ℕ = if ltb 100 asked then 100 else asked in
    record { page = pos page; limit = pos limit; offset = wrap_int64 ((page - 1) * limit) }

module _ (ceil_quotient : ℕ → ℕ → ℕ) where
  unfoldable pub new_pagination_meta : ℤ → ℤ → ℤ → PaginationMeta
  new_pagination_meta page limit total =
      let page : ℤ = if is_positive page then page else pos 1 in
      let limit : ℤ = if is_positive limit then limit else pos 10 in
      record {
        total_items = total;
        total_pages =
            if is_positive total && is_positive limit
            then pos (ceil_quotient (to_ℕ total) (to_ℕ limit))
            else pos 0;
        current_page = page;
        limit = limit;
      }
