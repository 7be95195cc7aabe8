-- ===== src/Tests/Completions.antt =====
-- The theorems on the client of the vision model.
use golang_base.Base.{
  ℕ, none, some, List, [], ◌∷◌, ◌++◌, Text, codes, ◌==◌, contains, map, length, ◌<◌, ◌≡◌, refl,
}
use golang_base.Base.Space.{trim_space, trim_front, trim_back}
use golang_base.Base.Paths
use golang_base.Domain.Errors.{external, ok, err}
use golang_base.Pkg.Ocr.{completion_content, nonempty_or_failed}
use golang_base.Pkg.Ocr.Client.{
  Client, ExtractionRequest, PdfLibrary, Network, pdf_type, supported_mime, render_pages,
  pdf_to_images, png_content, request_body, call_api_raw, extract_text, new_client_from_env,
  or_default, ocr_unavailable,
}
use golang_base.Pkg.Ocr.Pages.{Renders, extract_text-pdf}
use golang_base.Pkg.Ocr.Stream.{Chunk, stream_of, completion_content-stream}

abbrev chunks : List Chunk
chunks =
    record { json = codes "a"; delta = codes "a" }
    ∷ record { json = codes "b"; delta = codes "b" }
    ∷ []

-- A JSON text is the text that it holds.
completion_content-stream_example :
    completion_content (λ t. err (external 0)) (λ t. ok (some t)) (λ e. []) (stream_of chunks)
    ≡ nonempty_or_failed (codes "ab")
unfolding trim_space trim_front trim_back ◌==◌ Paths.rev_onto
completion_content-stream_example =
    completion_content-stream (λ t. ok (some t)) (λ e. []) (λ t. err (external 0)) chunks
      (external 0)
      (
        record { one_line = refl; trimmed = refl; not_done = refl; read = refl },
        (record { one_line = refl; trimmed = refl; not_done = refl; read = refl }, tt),
      )
      refl

-- A PDF is a text with one page for each byte.
abbrev bytes_pdf : PdfLibrary Text ℕ
bytes_pdf = record {
  open_stream = λ b. ok b;
  page_count = length;
  page = λ b i. ok i;
  render_png = λ i. ok (i ∷ []);
  describe = λ e. [];
}

-- A network that answers with an error and counts the requests.
abbrev counting : Network Text Text ℕ
counting = record {
  marshal = λ r. ok r.model;
  new_request = λ url payload. ok (url ++ payload);
  set_header = λ k v q. q;
  send = λ q w. (ok (record { status_code = 503; body = ok [] }), 1);
  encode_base64 = λ b. b;
  content_of = λ b. ok none;
  delta_of = λ b. ok none;
  describe = λ e. [];
}

abbrev client : Client
client = record { api_key = codes "key"; base_url = codes "https://host"; model = codes "m" }

abbrev scan : ExtractionRequest Text
scan = record {
  input = record {
    file_name = codes "a.pdf";
    mime_type = pdf_type;
    bytes = codes "xy";
    pages = [];
  };
  schema_name = [];
  schema = none;
  prompt = codes "read";
}

abbrev images : List Text
images = (1 ∷ []) ∷ (2 ∷ []) ∷ []

extract_text-pdf_example :
    (sent : ExtractionRequest Text) × (extract_text counting bytes_pdf (λ s. s) client scan 0
      ≡ call_api_raw counting client sent 0)
    × ((request_body counting client sent).messages
        ≡ record {
          role = codes "user";
          content =
              record { kind = codes "text"; text = codes "read"; image_url = none }
              ∷ map (png_content counting) images;
        }
          ∷ [])
    × Renders bytes_pdf (codes "xy") 1 images
    × (length images ≡ 2)
    × (0 < length images)
unfolding supported_mime contains trim_space trim_front trim_back ◌==◌ Paths.rev_onto pdf_to_images
    render_pages
extract_text-pdf_example =
    extract_text-pdf bytes_pdf counting (λ s. s) client scan (codes "xy") images 0 refl refl refl
      refl

-- Without a key there is no client; a type that is not supported sends nothing.
no_key : new_client_from_env (λ key. []) ≡ err ocr_unavailable
unfolding new_client_from_env or_default trim_space trim_front trim_back ◌==◌ Paths.rev_onto
    Paths.trim_right
no_key = refl
