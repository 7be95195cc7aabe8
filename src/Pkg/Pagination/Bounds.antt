-- ===== src/Pkg/Pagination/Bounds.antt =====
-- internal/pkg/response/pagination.go: the bounds of the page, the limit and the offset.
use native.Mathlib.Nat.{mul-le-mul}
use golang_base.Base.{
  ℕ, ◌-◌, ◌*◌, ◌%◌, ◌≤◌, Option, none, some, Text, ltb, if◌then◌else◌, ℤ, pos, negsuc, int64_mod,
  max_int64, wrap_int64, ◌≡◌, refl, arith,
}
use golang_base.Base.Decimal.{atoi}
use golang_base.Pkg.Pagination.{positive_or, parse_pagination_params}

-- The number that is taken is positive.
positive_or_lem : (default : ℕ) (n : Option ℤ) → 1 ≤ default → 1 ≤ positive_or default n
unfolding positive_or
positive_or_lem default none h = h
positive_or_lem default (some (negsuc n)) h = h
positive_or_lem default (some (pos n)) h = ground arith

-- An int64 that is large enough holds the number.
wrap_int64_small : (n : ℕ) → n ≤ max_int64 → wrap_int64 n ≡ pos n
wrap_int64_small n h = let low : n % int64_mod ≡ n = omega (arith, h) in rw low (ground (arith, h))

-- Whatever the query holds, the page is at least 1 and the limit between 1 and 100; and unless the
-- page is above 92,233,720,368,547,758 the offset is the number of items before the page.
pub parse_pagination_params-bounds :
    (page_str limit_str : Text)
    → let r = parse_pagination_params page_str limit_str in
      (page : ℕ) × (limit : ℕ) × (r.page ≡ pos page)
      × (r.limit ≡ pos limit)
      × (1 ≤ page)
      × (1 ≤ limit)
      × (limit ≤ 100)
      × (page ≤ 92_233_720_368_547_758 → r.offset ≡ pos ((page - 1) * limit))
unfolding parse_pagination_params
parse_pagination_params-bounds page_str limit_str =
    let page = positive_or 1 (atoi page_str) in
    let asked = positive_or 10 (atoi limit_str) in
    let limit : ℕ = if ltb 100 asked then 100 else asked in
    let most : limit ≤ 100 = ground arith in
    (
      page,
      limit,
      refl,
      refl,
      positive_or_lem 1 (atoi page_str) (omega arith),
      ground (arith, positive_or_lem 10 (atoi limit_str)),
      most,
      λ (small : page ≤ 92_233_720_368_547_758).
          let before : page - 1 ≤ 92_233_720_368_547_757 = omega (arith, small) in
          let bounded : (page - 1) * limit ≤ 92_233_720_368_547_757 * 100 =
            mul-le-mul before most in
          wrap_int64_small ((page - 1) * limit) (omega (arith, bounded)),
    )
