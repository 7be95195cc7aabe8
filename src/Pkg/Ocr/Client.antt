-- ===== src/Pkg/Ocr/Client.antt =====
-- internal/pkg/ocr/client.go, types.go and validator.go: the client of a vision model. What is
-- logged is left out. `lower` is strings.ToLower; the PDF library, package net/http, JSON and
-- base64 are the fields of the records of Types.
mod Types
unfoldable pub use Types.*
use golang_base.Base.{
  ℕ, zero, suc, ◌+◌, Bool, true, not, ◌&&◌, Option, none, some, List, [], ◌∷◌, ◌++◌, Text, String,
  codes, map, contains, ◌==◌, ltb, leb, if◌then◌else◌,
}
use golang_base.Base.Decimal.{format_decimal}
use golang_base.Base.Paths.{trim_right}
use golang_base.Base.Space.{trim_space}
use golang_base.Domain.Errors.{Error, message, Result, ok, err}
use golang_base.Infra.Monad.{Act}
use golang_base.Pkg.Ocr.{ocr_failed, completion_content, first_json_object}

-- `getenv` is os.Getenv: empty if the variable is not set.
unfoldable pub or_default : Text → Text → Text
or_default value default = if value == [] then default else value

unfoldable pub new_client_from_env : (Text → Text) → Result Client
new_client_from_env getenv =
    let api_key = trim_space (getenv (codes "OPENAI_API_KEY")) in
    let base_url = trim_right b'/' (trim_space (getenv (codes "OPENAI_BASE_URL"))) in
    let model = trim_space (getenv (codes "OCR_OPENAI_MODEL")) in
    if api_key == []
    then err ocr_unavailable
    else ok (record {
      api_key = api_key;
      base_url = or_default base_url (codes "https://api.openai.com/v1");
      model = or_default model (codes "gpt-4o-mini");
    })

-- `fmt.Errorf(text + ": %w", err)`
abbrev pub wrap : {A : Type 0} → (Error → Text) → Text → Result A → Result A
wrap describe text (ok a) = ok a
wrap describe text (err e) = err (message (text ++ (codes ": " ++ describe e)))

abbrev page_error : String → ℕ → Text
page_error verb i = codes verb ++ (codes " pdf page " ++ format_decimal i)

abbrev pub image_content : Text → ChatContent
image_content url = record { kind = codes "image_url"; text = []; image_url = some url }

module _ {D P : Type 0} (pdf : PdfLibrary D P) where
  -- The pages from number `i` on, `left` of them.
  unfoldable pub render_pages : D → ℕ → ℕ → Result (List Text)
  render_pages doc i zero = ok []
  render_pages doc i (suc left) = elim (wrap pdf.describe (page_error "get" i) (pdf.page doc i)) [
    | err e ↦ err e
    | ok page ↦ elim (wrap pdf.describe (page_error "render" i) (pdf.render_png page)) [
      | err e ↦ err e
      | ok image ↦ elim (render_pages doc (i + 1) left) [
        | err e ↦ err e
        | ok images ↦ ok (image ∷ images)
      ]
    ]
  ]

  unfoldable pub pdf_to_images : Text → Result (List Text)
  pdf_to_images bytes = elim (wrap pdf.describe (codes "open pdf") (pdf.open_stream bytes)) [
    | err e ↦ err e
    | ok doc ↦ elim (pdf.page_count doc) [
      | zero ↦ err (message (codes "pdf has no pages"))
      | suc n ↦ render_pages doc 1 (suc n)
    ]
  ]

module _ {J Q W : Type 0} (net : Network J Q W) where
  unfoldable pub png_content : Text → ChatContent
  png_content page = image_content (codes "data:image/png;base64," ++ net.encode_base64 page)

  -- The images of the pages, or the input itself if there are none.
  unfoldable pub image_contents : Input → List ChatContent
  image_contents input = elim input.pages [
    | page ∷ pages ↦ map png_content (page ∷ pages)
    | [] ↦
        image_content (
          codes "data:" ++ (input.mime_type ++ (codes ";base64," ++ net.encode_base64 input.bytes)))
        ∷ []
  ]

  unfoldable pub request_body : Client → ExtractionRequest J → ChatCompletionRequest J
  request_body client req = record {
    model = client.model;
    messages =
        record {
          role = codes "user";
          content =
              record { kind = codes "text"; text = req.prompt; image_url = none }
              ∷ image_contents req.input;
        }
        ∷ [];
    response_format = elim req.schema [
      | none ↦ none
      | some schema ↦ some (record {
        kind = codes "json_schema";
        json_schema = record { name = req.schema_name; strict = true; schema = schema };
      })
    ];
  }

  -- The request that is sent: the address, the payload and the two headers.
  unfoldable pub api_request : Client → ExtractionRequest J → Result Q
  api_request client req =
      elim (wrap net.describe (codes "marshal ocr request")
        (net.marshal (request_body client req))) [
          | err e ↦ err e
          | ok payload ↦
              elim (wrap net.describe (codes "create ocr request")
                (net.new_request (client.base_url ++ codes "/chat/completions") payload)) [
                  | err e ↦ err e
                  | ok request ↦ ok (
                      net.set_header (codes "Content-Type") (codes "application/json") (
                        net.set_header (codes "Authorization") (codes "Bearer " ++ client.api_key)
                          request))
                ]
        ]

  unfoldable pub read_response : HttpResponse → Result Text
  read_response resp =
      if not (leb 200 resp.status_code && ltb resp.status_code 300)
      then err ocr_failed
      else elim (wrap net.describe (codes "read ocr response") resp.body) [
        | err e ↦ err e
        | ok raw ↦ completion_content net.content_of net.delta_of net.describe raw
      ]

  unfoldable pub call_api_raw : Client → ExtractionRequest J → Act W Text
  call_api_raw client req w = elim (api_request client req) [
    | err e ↦ (err e, w)
    | ok request ↦
        let (r, w') = net.send request w in
        (
          elim (wrap net.describe (codes "send ocr request") r) [
            | err e ↦ err e
            | ok resp ↦ read_response resp
          ],
          w',
        )
  ]

  unfoldable pub call_api : Client → ExtractionRequest J → Act W Text
  call_api client req w =
      let (r, w') = call_api_raw client req w in
      (elim r [ err e ↦ err e | ok content ↦ first_json_object content ], w')

  module _ {D P : Type 0} (pdf : PdfLibrary D P) (lower : Text → Text) where
    -- What both calls do first: the check of the type, and a PDF becomes its pages.
    unfoldable pub prepared : ExtractionRequest J → Result (ExtractionRequest J)
    prepared req =
        if not (supported_mime lower req.input.mime_type)
        then err unsupported_file
        else if req.input.mime_type == pdf_type
        then elim (wrap net.describe (codes "convert pdf") (pdf_to_images pdf req.input.bytes)) [
          | err e ↦ err e
          | ok pages ↦ ok (record req {
            input = record {
              file_name = req.input.file_name;
              mime_type = png_type;
              bytes = req.input.bytes;
              pages = pages;
            };
          })
        ]
        else ok req

    unfoldable pub extract_text : Client → ExtractionRequest J → Act W Text
    extract_text client req w = elim (prepared req) [
      | err e ↦ (err e, w)
      | ok req' ↦ call_api_raw client req' w
    ]

    -- `decode` is json.Unmarshal into the result, none if the result is nil.
    unfoldable pub extract :
        {A : Type 0} → Client → ExtractionRequest J → Option (Text → Result A) → Act W (Option A)
    extract client req decode w = elim (prepared req) [
      | err e ↦ (err e, w)
      | ok req' ↦
          let (r, w') = call_api client req' w in
          (
            elim r [
              | err e ↦ err e
              | ok content ↦ elim decode [
                | none ↦ ok none
                | some unmarshal ↦
                    elim (wrap net.describe (codes "decode ocr json") (unmarshal content)) [
                      | err e ↦ err e
                      | ok a ↦ ok (some a)
                    ]
              ]
            ],
            w',
          )
    ]
