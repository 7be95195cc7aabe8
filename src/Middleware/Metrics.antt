-- ===== src/Middleware/Metrics.antt =====
-- internal/middleware/metrics.go and request_logger.go: what is measured and logged of a request,
-- and the guard of the scrape endpoint. Durations are left out.
pub mod Gauge
pub mod Guard
use golang_base.Base.Decimal.{format_decimal}
use golang_base.Base.{
  ℕ, zero, suc, ◌+◌, ◌≤◌, Bool, true, false, ◌&&◌, ◌||◌, not, Option, none, some, List, [], ◌∷◌,
  ◌++◌, Text, codes, map, length, length-append, ◌==◌, eq_iff, eq_refl, take_bytes, drop_bytes, ltb,
  leb, ℤ, pos, negsuc, ◌≡◌, ◌≢◌, ◌↔◌, refl, sym, ap, ◌∙◌, arith, inl, inr, Bool-cases,
  if◌then◌else◌,
}

abbrev pub metrics_path : Text
metrics_path = codes "/metrics"

-- An error of a handler: one of Fiber's, with its status and message; one that wraps it; another.
pub data HandlerError : Type 0 where
  fiber_error : ℕ → Text → HandlerError
  wrapped_error : ℕ → Text → HandlerError
  other_error : HandlerError

-- How `c.Next()` ends.
pub data Ending : Type 0 where
  returned : Option HandlerError → Ending
  panicked : Ending

pub record Observation : Type 0 where
  pub route : Text
  pub method : Text
  pub status : Text

-- What the middleware sees and changes: the status of the response, the route that matched, the
-- gauge and what was observed, latest first.
pub record Context : Type 0 where
  pub response_status : ℕ
  pub matched : Option Text
  pub in_flight : ℤ
  pub observations : List Observation

unfoldable pub inc : ℤ → ℤ
inc (pos n) = pos (suc n)
inc (negsuc zero) = pos 0
inc (negsuc (suc n)) = negsuc n

unfoldable pub dec : ℤ → ℤ
dec (pos zero) = negsuc 0
dec (pos (suc n)) = pos n
dec (negsuc n) = negsuc (suc n)

-- errors.As looks into a wrapped error too.
unfoldable pub effective_status : Context → Option HandlerError → ℕ
effective_status c none = c.response_status
effective_status c (some (fiber_error code message)) = code
effective_status c (some (wrapped_error code message)) = code
effective_status c (some other_error) = 500

unfoldable pub route_label : Context → Text
route_label c = elim c.matched [ none ↦ codes "unmatched" | some path ↦ path ]

unfoldable pub status_code_label : ℕ → Text
status_code_label status =
    if ltb status 100 || ltb 599 status then codes "invalid" else format_decimal status

unfoldable pub observe : Text → ℕ → Context → Context
observe method status c = record c {
  observations =
      record { route = route_label c; method = method; status = status_code_label status }
      ∷ c.observations;
}

-- What follows the handler, with the deferred calls: after a panic the request is observed with
-- 500; the gauge falls in any case.
unfoldable pub finish : Text → Ending × Context → Ending × Context
unfolding observe
finish method (returned e, c) =
    let c' = observe method (effective_status c e) c in
    (returned e, record c' { in_flight = dec c'.in_flight })
finish method (panicked, c) =
    let c' = observe method 500 c in (panicked, record c' { in_flight = dec c'.in_flight })

abbrev pub started : Context → Context
started c = record c { in_flight = inc c.in_flight }

unfoldable pub metrics : Text → Text → (Context → Ending × Context) → Context → Ending × Context
metrics path method next c =
    if path == metrics_path then next c else finish method (next (started c))

pub data LogLevel : Type 0 where
  error warn info : LogLevel

-- The level of the record of a request.
unfoldable pub log_level : ℕ → LogLevel
log_level status = if leb 500 status then error else if leb 400 status then warn else info

-- What the client of the scrape endpoint gets.
pub data Guarded : Type 0 where
  not_found missing_token invalid_token pass : Guarded

abbrev pub lower_byte : ℕ → ℕ
lower_byte c = if leb b'A' c && leb c b'Z' then c + 32 else c

-- MetricsAuth, for the Authorization header of a request. EqualFold compares seven bytes with ASCII
-- letters none of which another letter of Unicode folds to.
unfoldable pub metrics_auth : Text → Text → Guarded
metrics_auth [] header = not_found
metrics_auth (c ∷ cs) header =
    if leb (length header) 7 || not (map lower_byte (take_bytes 7 header) == codes "bearer ")
    then missing_token
    else if drop_bytes 7 header == (c ∷ cs)
    then pass
    else invalid_token
