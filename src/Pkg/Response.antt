-- ===== src/Pkg/Response.antt =====
-- internal/pkg/response/response.go: the responses of the API, a status and a JSON body. The
-- content is of the type that the handler answers with.
use golang_base.Base.{ℕ, Option, none, some, List, [], Text, codes, ℤ}
use golang_base.Pkg.Pagination.{PaginationMeta, new_pagination_meta}

-- A field that a request has wrong.
pub record ErrorDetail : Type 0 where
  pub field : Text
  pub message : Text

-- DataResponse, ErrorResponse, or no body at all.
pub data Body (A : Type 0) : Type 0 where
  content : A → Option PaginationMeta → Body A
  failure : Text → List ErrorDetail → Body A
  no_body : Body A

pub record Response (A : Type 0) : Type 0 where
  pub status : ℕ
  pub body : Body A

module _ {A : Type 0} where
  unfoldable pub ok_response : A → Response A
  ok_response a = record { status = 200; body = content a none }

  unfoldable pub ok_with_meta : A → PaginationMeta → Response A
  ok_with_meta a meta = record { status = 200; body = content a (some meta) }

  unfoldable pub created : A → Response A
  created a = record { status = 201; body = content a none }

  unfoldable pub bad_request : Text → Response A
  bad_request message = record { status = 400; body = failure message [] }

  unfoldable pub bad_request_validation : List ErrorDetail → Response A
  bad_request_validation errs = record {
    status = 400;
    body = failure (codes "Validation failed") errs;
  }

  unfoldable pub unprocessable : List ErrorDetail → Response A
  unprocessable errs = record { status = 422; body = failure (codes "Validation failed") errs }

  unfoldable pub not_found : Text → Response A
  not_found message = record { status = 404; body = failure message [] }

  unfoldable pub unauthorized : Text → Response A
  unauthorized message = record { status = 401; body = failure message [] }

  unfoldable pub forbidden : Text → Response A
  forbidden message = record { status = 403; body = failure message [] }

  unfoldable pub conflict : Text → Response A
  conflict message = record { status = 409; body = failure message [] }

  unfoldable pub internal_error : Text → Response A
  internal_error message = record { status = 500; body = failure message [] }

  unfoldable pub no_content : Response A
  no_content = record { status = 204; body = no_body }

  -- PaginatedResponse of internal/pkg/response/pagination.go.
  unfoldable pub paginated_response : (ℕ → ℕ → ℕ) → A → ℤ → ℤ → ℤ → Response A
  paginated_response ceil_quotient a page limit total =
      ok_with_meta a (new_pagination_meta ceil_quotient page limit total)
