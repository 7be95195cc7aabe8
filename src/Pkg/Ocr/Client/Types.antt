-- ===== src/Pkg/Ocr/Client/Types.antt =====
-- internal/pkg/ocr/client.go, types.go and validator.go: what is sent and received, the types of
-- files, and the libraries that the client calls.
use golang_base.Base.{ℕ, Bool, Option, List, [], ◌∷◌, Text, codes, contains}
use golang_base.Base.Space.{trim_space}
use golang_base.Domain.Errors.{Error, message, Result}
use golang_base.Infra.Monad.{Act}

pub record Client : Type 0 where
  pub api_key : Text
  pub base_url : Text
  pub model : Text

pub record Input : Type 0 where
  pub file_name : Text
  pub mime_type : Text
  pub bytes : Text
  pub pages : List Text

-- `J` is the type of a JSON schema, a Go map.
pub record ExtractionRequest (J : Type 0) : Type 0 where
  pub input : Input
  pub schema_name : Text
  pub schema : Option J
  pub prompt : Text

pub record ChatContent : Type 0 where
  pub kind : Text
  pub text : Text
  pub image_url : Option Text

pub record ChatMessage : Type 0 where
  pub role : Text
  pub content : List ChatContent

pub record JsonSchema (J : Type 0) : Type 0 where
  pub name : Text
  pub strict : Bool
  pub schema : J

pub record ResponseFormat (J : Type 0) : Type 0 where
  pub kind : Text
  pub json_schema : JsonSchema J

pub record ChatCompletionRequest (J : Type 0) : Type 0 where
  pub model : Text
  pub messages : List ChatMessage
  pub response_format : Option (ResponseFormat J)

abbrev pub ocr_unavailable : Error
ocr_unavailable = message (codes "ocr service unavailable")

abbrev pub unsupported_file : Error
unsupported_file = message (codes "file type is not supported for OCR")

abbrev pub pdf_type : Text
pdf_type = codes "application/pdf"

abbrev pub png_type : Text
png_type = codes "image/png"

unfoldable pub supported_mime : (Text → Text) → Text → Bool
supported_mime lower mime_type =
    contains (lower (trim_space mime_type))
      (pdf_type ∷ codes "image/jpeg" ∷ png_type ∷ codes "image/webp" ∷ [])

-- The PDF library: a document of type `D`, a page of type `P`.
pub record PdfLibrary (D P : Type 0) : Type 0 where
  pub open_stream : Text → Result D
  pub page_count : D → ℕ
  pub page : D → ℕ → Result P
  pub render_png : P → Result Text
  pub describe : Error → Text

-- A response: its status, and its body, which may fail to be read.
pub record HttpResponse : Type 0 where
  pub status_code : ℕ
  pub body : Result Text

-- What the client calls: a request of type `Q`, the outside world `W`.
pub record Network (J Q W : Type 0) : Type 0 where
  pub marshal : ChatCompletionRequest J → Result Text
  pub new_request : Text → Text → Result Q
  pub set_header : Text → Text → Q → Q
  pub send : Q → Act W HttpResponse
  pub encode_base64 : Text → Text
  pub content_of : Text → Result (Option Text)
  pub delta_of : Text → Result (Option Text)
  pub describe : Error → Text
