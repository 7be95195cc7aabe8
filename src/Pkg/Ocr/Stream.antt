-- ===== src/Pkg/Ocr/Stream.antt =====
-- internal/pkg/ocr/response_parse.go: a streamed completion is read whole.
use mathlib.Core.List.{append_assoc}
use golang_base.Base.{
  false, Option, some, List, [], ◌∷◌, ◌++◌, Text, codes, ◌==◌, has_prefix_append, drop_bytes, All,
  ◌≡◌, refl, ap, ◌∙◌, arith,
}
use golang_base.Base.Paths.{split_on, push_byte, rev_onto}
use golang_base.Base.Paths.Parts.{has_byte, split-append, split_free}
use golang_base.Base.Space.{trim_space, trim_front, trim_back}
use golang_base.Domain.Errors.{Error, Result, ok, err}
use golang_base.Pkg.Ocr.{
  line_content, stream_content, nonempty_or_failed, from_stream, completion_content,
}

-- A chunk of the stream: its JSON, and the text that it adds.
pub record Chunk : Type 0 where
  pub json : Text
  pub delta : Text

-- The line of a chunk.
abbrev pub line_of : Chunk → Text
line_of chunk = codes "data: " ++ chunk.json

-- What the server sends: the lines, each with an empty line behind it, and the end.
abbrev pub stream_of : List Chunk → Text
stream_of [] = codes "data: [DONE]"
stream_of (chunk ∷ chunks) = line_of chunk ++ b'\n' ∷ b'\n' ∷ stream_of chunks

abbrev pub deltas : List Chunk → Text
deltas [] = []
deltas (chunk ∷ chunks) = chunk.delta ++ deltas chunks

-- The JSON is one line with no blank at its end, is not the mark of the end, and holds the text.
pub record IsChunk (delta_of : Text → Result (Option Text)) (chunk : Chunk) : Type 0 where
  pub one_line : has_byte b'\n' (line_of chunk) ≡ false
  pub trimmed : trim_space (line_of chunk) ≡ line_of chunk
  pub not_done : (line_of chunk == codes "data: [DONE]") ≡ false
  pub read : delta_of chunk.json ≡ ok (some chunk.delta)

module _ (delta_of : Text → Result (Option Text)) (describe : Error → Text) where
  line_content-chunk :
      (chunk : Chunk)
      → IsChunk delta_of chunk
      → line_content delta_of describe (line_of chunk) ≡ ok chunk.delta
  unfolding line_content ◌==◌ drop_bytes
  line_content-chunk chunk h =
      rw h.trimmed
        (rw (h.not_done) (rw (has_prefix_append (codes "data: ") chunk.json) (rw h.read)))

  -- An empty line, and the end of the stream, add nothing.
  line_content-empty : line_content delta_of describe [] ≡ ok []
  unfolding line_content ◌==◌ trim_space trim_front trim_back rev_onto
  line_content-empty = refl

  end_of_stream :
      (acc : Text)
      → stream_content delta_of describe acc (split_on b'\n' (codes "data: [DONE]"))
        ≡ ok (acc ++ [])
  unfolding stream_content line_content ◌==◌ trim_space trim_front trim_back rev_onto split_on
      push_byte
  end_of_stream acc = refl

  split-line :
      (line rest : Text)
      → has_byte b'\n' line ≡ false
      → split_on b'\n' (line ++ b'\n' ∷ b'\n' ∷ rest) ≡ line ∷ [] ∷ split_on b'\n' rest
  split-line line rest h =
      split-append b'\n' line (b'\n' ∷ rest)
      ∙ ap (λ ls. ls ++ split_on b'\n' (b'\n' ∷ rest)) (split_free b'\n' line h)
      ∙ (unfold split_on in refl)

  stream_content-cons :
      (acc line more : Text) (lines : List Text)
      → line_content delta_of describe line ≡ ok more
      → stream_content delta_of describe acc (line ∷ lines)
        ≡ stream_content delta_of describe (acc ++ more) lines
  unfolding stream_content
  stream_content-cons acc line more lines h = rw (h, stream_content)

  stream_content-deltas :
      (acc : Text) (chunks : List Chunk)
      → All (IsChunk delta_of) chunks
      → stream_content delta_of describe acc (split_on b'\n' (stream_of chunks))
        ≡ ok (acc ++ deltas chunks)
  stream_content-deltas acc [] h = end_of_stream acc
  stream_content-deltas acc (chunk ∷ chunks) h =
      ap (stream_content delta_of describe acc)
        (split-line (line_of chunk) (stream_of chunks) (h.0.one_line))
      ∙ stream_content-cons acc (line_of chunk) chunk.delta _ (line_content-chunk chunk h.0)
      ∙ stream_content-cons (acc ++ chunk.delta) [] [] _ line_content-empty
      ∙ stream_content-deltas ((acc ++ chunk.delta) ++ []) chunks h.1
      ∙ ap ok (
          append_assoc (acc ++ chunk.delta) [] (deltas chunks)
          ∙ append_assoc acc chunk.delta (deltas chunks))

  -- If what the server sends does not decode as a whole completion and is a stream of chunks, each
  -- on a line of its own with an empty line behind it, with the mark of the end last: the completion
  -- is the texts of the chunks one after the other, and an error if they are all empty. A chunk is
  -- JSON on one line, without a blank at its end, that decodes to its text, and is not the mark of
  -- the end.
  pub completion_content-stream :
      (content_of : Text → Result (Option Text)) (chunks : List Chunk) (e : Error)
      → All (IsChunk delta_of) chunks
      → content_of (stream_of chunks) ≡ err e
      → completion_content content_of delta_of describe (stream_of chunks)
        ≡ nonempty_or_failed (deltas chunks)
  unfolding completion_content from_stream
  completion_content-stream content_of chunks e h streamed =
      ground (arith, streamed, stream_content-deltas [] chunks h)
