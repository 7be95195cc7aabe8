-- ===== src/Pkg/Ocr/Pages.antt =====
-- internal/pkg/ocr/client.go: a PDF is sent as the images of all its pages.
use golang_base.Base.{
  ℕ, zero, suc, ◌+◌, ◌<◌, true, none, List, [], ◌∷◌, Text, codes, map, eq_refl, length, ◌≡◌, refl,
  ap, arith, inl, inr, ◌⊎◌,
}
use golang_base.Domain.Errors.{ok, Result-cases}
use golang_base.Pkg.Ocr.Client.{
  Client, Input, ExtractionRequest, pdf_type, png_type, PdfLibrary, Network, supported_mime,
  render_pages, pdf_to_images, png_content, image_contents, request_body, call_api_raw, prepared,
  extract_text,
}

ℕ-cases : (n : ℕ) → (n ≡ 0) ⊎ ((k : ℕ) × (n ≡ suc k))
ℕ-cases zero = inl refl
ℕ-cases (suc k) = inr (k, refl)

-- These images are those of the pages from number `i` on.
abbrev pub Renders : {D P : Type 0} → PdfLibrary D P → D → ℕ → List Text → Type 0
Renders pdf doc i [] = Unit
Renders {P} pdf doc i (image ∷ images) =
    ((page : P) × (pdf.page doc i ≡ ok page) × (pdf.render_png page ≡ ok image))
    × Renders pdf doc (i + 1) images

module _ {D P : Type 0} (pdf : PdfLibrary D P) where
  render_pages-Renders :
      (doc : D) (i left : ℕ) (images : List Text)
      → render_pages pdf doc i left ≡ ok images
      → Renders pdf doc i images × (length images ≡ left)
  unfolding render_pages
  render_pages-Renders doc i zero [] h = (tt, refl)
  render_pages-Renders doc i zero (image ∷ images) h = absurd (ground arith)
  render_pages-Renders doc i (suc left) images h = elim (Result-cases (pdf.page doc i)) [
    | inr (e, failed) ↦ absurd (ground (arith, failed))
    | inl (page, found) ↦ elim (Result-cases (pdf.render_png page)) [
      | inr (e, failed) ↦ absurd (ground (arith, found, failed))
      | inl (image, drawn) ↦ elim (Result-cases (render_pages pdf doc (i + 1) left)) [
        | inr (e, failed) ↦ absurd (ground (arith, found, drawn, failed))
        | inl (rest, later) ↦
            let (all, size) = render_pages-Renders doc (i + 1) left rest later in
            let whole : images ≡ image ∷ rest = ground (arith, found, drawn, later, h) in
            rw whole (((page, found, drawn), all), ap suc size)
      ]
    ]
  ]

  pdf_to_images-Renders :
      (bytes : Text) (doc : D) (images : List Text)
      → pdf.open_stream bytes ≡ ok doc
      → pdf_to_images pdf bytes ≡ ok images
      → Renders pdf doc 1 images × (length images ≡ pdf.page_count doc) × (0 < length images)
  unfolding pdf_to_images
  pdf_to_images-Renders bytes doc images opened h = elim (ℕ-cases (pdf.page_count doc)) [
    | inl none_there ↦ absurd (ground (arith, opened, none_there, h))
    | inr (n, some_there) ↦
        let done : render_pages pdf doc 1 (suc n) ≡ ok images =
          ground (arith, opened, some_there, h) in
        let (all, size) = render_pages-Renders doc 1 (suc n) images done in
        (all, rw some_there size, omega (arith, size))
  ]

  module _ {J Q W : Type 0} (net : Network J Q W) (lower : Text → Text) where
    image_contents-pages :
        (input : Input) (images : List Text)
        → input.pages ≡ images
        → 0 < length images
        → image_contents net input ≡ map (png_content net) images
    unfolding image_contents
    image_contents-pages input [] e h = absurd (omega arith)
    image_contents-pages input (image ∷ images) e h = rw (e, image_contents)

    -- A PDF whose type is supported under its plain name, that opens and whose pages can be
    -- rendered: ExtractText makes the API call with a request that holds the prompt and, in order,
    -- one PNG for each page of the document, and at least one.
    pub extract_text-pdf :
        (client : Client) (req : ExtractionRequest J) (doc : D) (images : List Text) (w : W)
        → supported_mime lower pdf_type ≡ true
        → req.input.mime_type ≡ pdf_type
        → pdf.open_stream req.input.bytes ≡ ok doc
        → pdf_to_images pdf req.input.bytes ≡ ok images
        → (sent : ExtractionRequest J) × (extract_text net pdf lower client req w
            ≡ call_api_raw net client sent w)
          × ((request_body net client sent).messages
              ≡ record {
                role = codes "user";
                content =
                    record { kind = codes "text"; text = req.prompt; image_url = none }
                    ∷ map (png_content net) images;
              }
                ∷ [])
          × Renders pdf doc 1 images
          × (length images ≡ pdf.page_count doc)
          × (0 < length images)
    unfolding extract_text prepared request_body
    extract_text-pdf client req doc images w supported plain opened drawn =
        let (all, size, positive) = pdf_to_images-Renders req.input.bytes doc images opened drawn in
        let input : Input = record {
          file_name = req.input.file_name;
          mime_type = png_type;
          bytes = req.input.bytes;
          pages = images;
        } in
        (
          record req { input = input },
          ground (arith, supported, plain, drawn, eq_refl pdf_type),
          rw (image_contents-pages input images refl positive) refl,
          all,
          size,
          positive,
        )
