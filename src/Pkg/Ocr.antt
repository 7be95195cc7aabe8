-- ===== src/Pkg/Ocr.antt =====
-- internal/pkg/ocr/response_parse.go: the text of a completion, whole or streamed, and the JSON
-- object in it. `content_of` unmarshals a whole completion, `delta_of` one chunk of a stream: the
-- content of the first choice, none if there is no choice.
pub mod Object
pub mod Client
pub mod Stream
pub mod Pages
use golang_base.Base.{
  ℕ, zero, suc, ◌+◌, ◌-◌, Bool, true, false, not, ◌||◌, Option, none, some, List, [], ◌∷◌, ◌++◌,
  Text, codes, ◌==◌, has_prefix, drop_bytes, take_bytes, index_byte, ltb, eqb, if◌then◌else◌,
}
use golang_base.Base.Space.{trim_space}
use golang_base.Base.Paths.{split_on}
use golang_base.Domain.Errors.{Error, message, Result, ok, err}

abbrev pub ocr_failed : Error
ocr_failed = message (codes "ocr failed")

-- What one line of the stream adds: nothing, if it is no data.
unfoldable pub line_content : (Text → Result (Option Text)) → (Error → Text) → Text → Result Text
line_content delta_of describe raw_line =
    let line = trim_space raw_line in
    if line == [] || (line == codes "data: [DONE]" || not (has_prefix line (codes "data: ")))
    then ok []
    else elim (delta_of (drop_bytes 6 line)) [
      | err e ↦ err (message (codes "decode ocr stream: " ++ describe e))
      | ok none ↦ ok []
      | ok (some delta) ↦ ok delta
    ]

-- The loop over the lines, with what was written until then.
unfoldable pub stream_content :
    (Text → Result (Option Text)) → (Error → Text) → Text → List Text → Result Text
stream_content delta_of describe acc [] = ok acc
stream_content delta_of describe acc (line ∷ lines) = elim (line_content delta_of describe line) [
  | err e ↦ err e
  | ok more ↦ stream_content delta_of describe (acc ++ more) lines
]

unfoldable pub nonempty_or_failed : Text → Result Text
nonempty_or_failed [] = err ocr_failed
nonempty_or_failed (c ∷ cs) = ok (c ∷ cs)

unfoldable pub from_stream : (Text → Result (Option Text)) → (Error → Text) → Text → Result Text
from_stream delta_of describe raw =
    elim (stream_content delta_of describe [] (split_on b'\n' raw)) [
      | err e ↦ err e
      | ok content ↦ nonempty_or_failed content
    ]

unfoldable pub completion_content :
    (Text → Result (Option Text))
    → (Text → Result (Option Text))
    → (Error → Text)
    → Text
    → Result Text
completion_content content_of delta_of describe raw = elim (content_of raw) [
  | ok (some (c ∷ cs)) ↦ ok (c ∷ cs)
  | ok (some []) ↦ from_stream delta_of describe raw
  | ok none ↦ from_stream delta_of describe raw
  | err e ↦ from_stream delta_of describe raw
]

-- `strings.LastIndex(s, c)` for a text of one byte; `none` stands for -1.
unfoldable pub last_index_byte : Text → ℕ → Option ℕ
last_index_byte [] c = none
last_index_byte (x ∷ s) c = elim (last_index_byte s c) [
  | some i ↦ some (suc i)
  | none ↦ if eqb x c then some zero else none
]

unfoldable pub first_json_object : Text → Result Text
first_json_object content = elim (index_byte content b'{') [
  | none ↦ err ocr_failed
  | some start ↦ elim (last_index_byte content b'}') [
    | none ↦ err ocr_failed
    | some end' ↦
        if ltb end' start
        then err ocr_failed
        else ok (take_bytes (end' + 1 - start) (drop_bytes start content))
  ]
]
