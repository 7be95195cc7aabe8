-- ===== src/Middleware/Metrics/Guard.antt =====
-- internal/middleware/metrics.go: who may scrape.
use golang_base.Base.{
  ℕ, zero, suc, [], ◌∷◌, ◌++◌, Text, codes, map, length, length-append, eq_iff, eq_refl, take_bytes,
  drop_bytes, ◌≡◌, ◌≢◌, ◌↔◌, refl, sym, ap, ◌∙◌, arith,
}
use golang_base.Middleware.Metrics.{pass, lower_byte, metrics_auth}

take-drop : (n : ℕ) (s : Text) → take_bytes n s ++ drop_bytes n s ≡ s
unfolding take_bytes drop_bytes
take-drop zero s = refl
take-drop (suc n) [] = refl
take-drop (suc n) (c ∷ s) = ap (λ r. c ∷ r) (take-drop n s)

length-map : (f : ℕ → ℕ) (s : Text) → length (map f s) ≡ length s
length-map f [] = refl
length-map f (c ∷ s) = ap suc (length-map f s)

take-append : (n : ℕ) (s t : Text) → length s ≡ n → take_bytes n (s ++ t) ≡ s
unfolding take_bytes
take-append zero [] t h = refl
take-append (suc n) [] t h = absurd (omega arith)
take-append zero (c ∷ s) t h = absurd (omega arith)
take-append (suc n) (c ∷ s) t h = ap (λ r. c ∷ r) (take-append n s t (omega arith))

drop-append : (n : ℕ) (s t : Text) → length s ≡ n → drop_bytes n (s ++ t) ≡ t
unfolding drop_bytes
drop-append zero [] t h = refl
drop-append (suc n) [] t h = absurd (omega arith)
drop-append zero (c ∷ s) t h = absurd (omega arith)
drop-append (suc n) (c ∷ s) t h = drop-append n s t (omega arith)

-- A header that is a scheme of seven bytes and a text behind it.
auth-split :
    (c : ℕ) (cs scheme : Text)
    → map lower_byte scheme ≡ codes "bearer "
    → metrics_auth (c ∷ cs) (scheme ++ c ∷ cs) ≡ pass
unfolding metrics_auth
auth-split c cs scheme h =
    let seven : length scheme ≡ 7 = sym (length-map lower_byte scheme) ∙ ap length h in
    ground (
      arith,
      h,
      seven,
      length-append scheme (c ∷ cs),
      take-append 7 scheme (c ∷ cs) seven,
      drop-append 7 scheme (c ∷ cs) seven,
      eq_refl (codes "bearer "),
      eq_refl (c ∷ cs),
    )

abbrev pub IsAuthorized : Text → Text → Type 0
IsAuthorized token header =
    (scheme : Text) × (header ≡ scheme ++ token)
    × (map lower_byte scheme ≡ codes "bearer ")
    × (token ≢ [])

pass-split :
    (c : ℕ) (cs header : Text) → metrics_auth (c ∷ cs) header ≡ pass → IsAuthorized (c ∷ cs) header
unfolding metrics_auth
pass-split c cs header h = (
  take_bytes 7 header,
  sym (take-drop 7 header)
      ∙ ap (λ r. take_bytes 7 header ++ r)
          (ground (arith, h, eq_iff (drop_bytes 7 header) (c ∷ cs))),
  ground (arith, h, eq_iff (map lower_byte (take_bytes 7 header)) (codes "bearer ")),
  λ e. cc,
)

-- The guard lets exactly those requests pass whose header is the scheme, in any case of its
-- letters, and behind it the token that is configured; and none if no token is configured.
pub metrics_auth-pass :
    (token header : Text) → (metrics_auth token header ≡ pass) ↔ IsAuthorized token header
unfolding metrics_auth
metrics_auth-pass [] header = (λ h. cc, λ h. absurd (h.3 refl))
metrics_auth-pass (c ∷ cs) header =
    (pass-split c cs header, λ h. ap (metrics_auth (c ∷ cs)) h.1 ∙ auth-split c cs h.0 h.2)
