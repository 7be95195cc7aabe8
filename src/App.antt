-- ===== src/App.antt =====
-- internal/app/app.go: the settings of the server and its error handler.
use golang_base.Base.{
  ℕ, ◌*◌, Bool, true, false, Option, none, some, List, [], ◌∷◌, Text, codes, eqb, ℤ, is_positive,
  to_ℕ, if◌then◌else◌, ◌≡◌, ◌≢◌, refl,
}
use golang_base.Config.{Config, first_nonempty}
use golang_base.Middleware.Metrics.{
  HandlerError, fiber_error, wrapped_error, other_error, Context, effective_status,
}

-- The settings of the HTTP server that depend on the configuration; `proxies` is none if none is
-- trusted.
pub record Settings : Type 0 where
  pub app_name : Text
  pub body_limit : ℕ
  pub proxies : Option (List Text)

unfoldable pub service_name : Text → Text
unfolding first_nonempty
service_name app_service = first_nonempty app_service (codes "golang-base")

unfoldable pub body_limit : ℤ → ℕ
body_limit max_upload_size =
    if is_positive max_upload_size then to_ℕ max_upload_size else 10 * 1024 * 1024

unfoldable pub trusted : List Text → Option (List Text)
trusted [] = none
trusted (p ∷ ps) = some (p ∷ ps)

unfoldable pub settings : {F : Type 0} → Config F → Settings
unfolding service_name body_limit trusted
settings cfg = record {
  app_name = service_name cfg.app_service;
  body_limit = body_limit cfg.max_upload_size;
  proxies = trusted cfg.trusted_proxies;
}

-- A health check: a part that is not there, one that answers and one that does not.
unfoldable pub health_of : Option Bool → Text
health_of none = codes "disabled"
health_of (some true) = codes "connected"
health_of (some false) = codes "disconnected"

-- The switch over the status.
unfoldable pub message_for : ℕ → Text → Text
message_for code message =
    if eqb code 400
    then codes "Bad request"
    else if eqb code 401
    then codes "Unauthorized"
    else if eqb code 403
    then codes "Forbidden"
    else if eqb code 404
    then codes "Resource not found"
    else if eqb code 409
    then codes "Resource conflict"
    else if eqb code 422
    then codes "Unprocessable entity"
    else if eqb code 413
    then codes "Request entity too large"
    else if eqb code 429
    then codes "Too many requests"
    else message

-- The status and the message of the response. The type assertion does not see a wrapped error.
unfoldable pub custom_error_handler : HandlerError → ℕ × Text
unfolding message_for first_nonempty
custom_error_handler (fiber_error code message) =
    (code, message_for code (first_nonempty message (codes "Internal server error")))
custom_error_handler (wrapped_error code message) = (500, codes "Internal server error")
custom_error_handler other_error = (500, codes "Internal server error")

abbrev is_wrapped : HandlerError → Bool
is_wrapped (fiber_error code message) = false
is_wrapped (wrapped_error code message) = true
is_wrapped other_error = false

-- What is logged and measured is what is sent, except for a wrapped error.
effective_status-sent :
    (c : Context) (e : HandlerError)
    → is_wrapped e ≡ false
    → effective_status c (some e) ≡ (custom_error_handler e).0
unfolding effective_status custom_error_handler
effective_status-sent c (fiber_error code message) h = refl
effective_status-sent c (wrapped_error code message) h = cc
effective_status-sent c other_error h = refl

wrapped_differs :
    (c : Context) (code : ℕ) (message : Text)
    → code ≢ 500
    → effective_status c (some (wrapped_error code message))
      ≢ (custom_error_handler (wrapped_error code message)).0
unfolding effective_status custom_error_handler
wrapped_differs c code message h same = h same
