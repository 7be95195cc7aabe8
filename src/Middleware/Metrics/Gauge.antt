-- ===== src/Middleware/Metrics/Gauge.antt =====
-- internal/middleware/metrics.go: the gauge of the requests in flight and the observations.
use golang_base.Base.{ℕ, zero, suc, false, ◌∷◌, Text, ◌==◌, ℤ, pos, negsuc, ◌≡◌, refl, ap, ◌∙◌}
use golang_base.Middleware.Metrics.{
  metrics_path, Ending, returned, panicked, Context, inc, dec, effective_status, route_label,
  status_code_label, finish, started, metrics,
}

-- How a request that is measured ends, and the status that is observed.
abbrev pub status_of : Context → Ending → ℕ
status_of c (returned e) = effective_status c e
status_of c panicked = 500

dec-inc : (i : ℤ) → dec (inc i) ≡ i
unfolding dec inc
dec-inc (pos n) = refl
dec-inc (negsuc zero) = refl
dec-inc (negsuc (suc n)) = refl

abbrev IsFinished : Text → Ending × Context → Ending × Context → Type 0
IsFinished method (e, c) (e', c') =
    (c'.in_flight ≡ dec c.in_flight)
    × (e' ≡ e)
    × (c'.observations
        ≡ record {
          route = route_label c;
          method = method;
          status = status_code_label (status_of c e);
        }
          ∷ c.observations)

finish_lem : (method : Text) (r : Ending × Context) → IsFinished method r (finish method r)
unfolding finish
finish_lem method (returned e, c) = (refl, refl, refl)
finish_lem method (panicked, c) = (refl, refl, refl)

-- For every path but the scrape endpoint's, if what stands behind the middleware leaves the gauge
-- as it finds it: after the request the gauge is what it was before, also after a panic; the
-- request ends as it would without the middleware; and there is one more observation: the route
-- that matched, or "unmatched", the method, and the label of the effective status, 500 after a
-- panic.
pub metrics-balanced :
    (path method : Text) (next : Context → Ending × Context) (c : Context)
    → (path == metrics_path) ≡ false
    → (next (started c)).1.in_flight ≡ inc c.in_flight
    → ((metrics path method next c).1.in_flight ≡ c.in_flight)
      × ((metrics path method next c).0 ≡ (next (started c)).0)
      × ((metrics path method next c).1.observations
          ≡ record {
            route = route_label (next (started c)).1;
            method = method;
            status = status_code_label (status_of (next (started c)).1 (next (started c)).0);
          }
            ∷ (next (started c)).1.observations)
unfolding metrics
metrics-balanced path method next c other kept =
    rw (other, metrics)
      (let (gauge, same, one_more) = finish_lem method (next (started c)) in
        (gauge ∙ ap dec kept ∙ dec-inc c.in_flight, same, one_more))
