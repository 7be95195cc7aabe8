-- ===== src/Pkg/Ocr/Object.antt =====
-- internal/pkg/ocr/response_parse.go: what firstJSONObject cuts out.
use golang_base.Base.{
  ℕ, suc, ◌+◌, ◌-◌, ◌≤◌, false, none, some, [], ◌∷◌, ◌++◌, Text, drop_bytes, take_bytes, index_byte,
  length, ltb, eqb, ◌≡◌, refl, ap, ◌∙◌, arith, inl, inr, Bool-cases, Option-cases,
}
use golang_base.Domain.Errors.{ok}
use golang_base.Pkg.Ocr.{last_index_byte, first_json_object}

-- The text around the first occurrence of a byte.
index_split :
    (s : Text) (c i : ℕ)
    → index_byte s c ≡ some i
    → (a : Text) × (r : Text) × (s ≡ a ++ c ∷ r)
      × (length a ≡ i)
      × (drop_bytes i s ≡ c ∷ r)
      × (index_byte a c ≡ none)
unfolding index_byte drop_bytes
index_split [] c i h = cc
index_split (x ∷ s) c i h = elim (Bool-cases (eqb x c)) [
  | inl here ↦ ([], s, ground arith, ground arith, ground arith, refl)
  | inr other ↦ elim (Option-cases (index_byte s c)) [
    | inl missing ↦ absurd (ground arith)
    | inr (k, found) ↦
        let (a, r, split, size, dropped, first) = index_split s c k found in
        (x ∷ a, r, ap (λ t. x ∷ t) split, ground arith, ground arith, ground arith)
  ]
]

-- The last occurrence, seen from a later start.
last_index-append :
    (a t : Text) (c e : ℕ)
    → last_index_byte (a ++ t) c ≡ some e
    → length a ≤ e
    → last_index_byte t c ≡ some (e - length a)
unfolding last_index_byte
last_index-append [] t c e h le = ground (arith, h)
last_index-append (x ∷ a) t c e h le = elim (Option-cases (last_index_byte (a ++ t) c)) [
  | inl missing ↦ absurd (ground arith)
  | inr (i, found) ↦ ground (arith, last_index-append a t c i found)
]

-- The text around the last occurrence.
last_split :
    (s : Text) (c k : ℕ)
    → last_index_byte s c ≡ some k
    → (m : Text) × (b : Text) × (s ≡ m ++ c ∷ b)
      × (take_bytes (suc k) s ≡ m ++ c ∷ [])
      × (last_index_byte b c ≡ none)
unfolding last_index_byte take_bytes
last_split [] c k h = cc
last_split (x ∷ s) c k h = elim (Option-cases (last_index_byte s c)) [
  | inr (i, found) ↦
      let (m, b, split, taken, last) = last_split s c i found in
      (x ∷ m, b, ap (λ t. x ∷ t) split, ground arith, last)
  | inl missing ↦ ([], s, ground arith, ground arith, missing)
]

-- A text that begins with one byte, cut after another one.
framed :
    (c d : ℕ) (t r m b : Text)
    → eqb c d ≡ false
    → c ∷ r ≡ m ++ d ∷ b
    → t ≡ m ++ d ∷ []
    → (n : Text) × (c ∷ r ≡ c ∷ (n ++ d ∷ b)) × (t ≡ c ∷ (n ++ d ∷ []))
framed c d t r [] b apart split taken = absurd (ground arith)
framed c d t r (x ∷ m) b apart split taken = (m, ground arith, ground arith)

-- What firstJSONObject returns is the piece of the text from its first "{" to its last "}".
pub first_json_object_lem :
    (content object : Text)
    → first_json_object content ≡ ok object
    → (a : Text) × (m : Text) × (b : Text) × (content ≡ a ++ b'{' ∷ (m ++ b'}' ∷ b))
      × (object ≡ b'{' ∷ (m ++ b'}' ∷ []))
      × (index_byte a b'{' ≡ none)
      × (last_index_byte b b'}' ≡ none)
unfolding first_json_object
first_json_object_lem content object h = elim (Option-cases (index_byte content b'{')) [
  | inl missing ↦ absurd (ground arith)
  | inr (start, found) ↦ elim (Option-cases (last_index_byte content b'}')) [
    | inl missing ↦ absurd (ground arith)
    | inr (last, found') ↦ elim (Bool-cases (ltb last start)) [
      | inl crossed ↦ absurd (ground arith)
      | inr ordered ↦
          let (a, r, split, size, dropped, first) = index_split content b'{' start found in
          let le : length a ≤ last = ground (arith, size, ordered) in
          let seen : last_index_byte (a ++ b'{' ∷ r) b'}' ≡ some last = rw split at found' in
          let (m, b, split', taken, none_later) =
            last_split (b'{' ∷ r) b'}' (last - length a)
              (last_index-append a (b'{' ∷ r) b'}' last seen le) in
          let raw : object ≡ take_bytes (last + 1 - start) (drop_bytes start content) =
            ground arith in
          let count : last + 1 - start ≡ suc (last - length a) = omega (arith, size, le) in
          let cut : object ≡ take_bytes (suc (last - length a)) (b'{' ∷ r) =
            raw
            ∙ ap (λ t. take_bytes (last + 1 - start) t) dropped
            ∙ ap (λ n. take_bytes n (b'{' ∷ r)) count in
          let (n, whole, ends) = framed b'{' b'}' object r m b refl split' (cut ∙ taken) in
          (a, n, b, split ∙ ap (λ t. a ++ t) whole, ends, first, none_later)
    ]
  ]
]
