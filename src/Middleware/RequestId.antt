-- ===== src/Middleware/RequestId.antt =====
-- internal/middleware/requestid.go: the identifier of a request; `fresh` is a new UUIDv7.
use golang_base.Base.{
  ℕ, ◌≤◌, Bool, false, ◌||◌, [], Text, ◌==◌, length, any, ltb, eqb, if◌then◌else◌, ◌≡◌, arith, inl,
  inr, Bool-cases,
}
use golang_base.Base.Space.{trim_space}

abbrev pub max_request_id_len : ℕ
max_request_id_len = 256

abbrev pub is_control : ℕ → Bool
is_control c = ltb c 0x20 || eqb c 0x7f

unfoldable pub sanitize_request_id : Text → Text → Text
sanitize_request_id fresh inbound =
    let id = trim_space inbound in
    if id == [] || ltb max_request_id_len (length id)
    then fresh
    else if any is_control id
    then fresh
    else id

-- Not empty, not longer than the bound, without control characters.
abbrev pub IsSane : Text → Type 0
IsSane t = ((t == []) ≡ false) × (length t ≤ max_request_id_len) × (any is_control t ≡ false)

-- If a new identifier is sane, the identifier of every request is: not empty, at most 256 bytes
-- long and without control characters; and an inbound one that is sane without the spaces around it
-- is kept.
pub sanitize_request_id_lem :
    (fresh inbound : Text)
    → IsSane fresh
    → IsSane (sanitize_request_id fresh inbound)
      × (IsSane (trim_space inbound) → sanitize_request_id fresh inbound ≡ trim_space inbound)
unfolding sanitize_request_id
sanitize_request_id_lem fresh inbound h = (
  elim (Bool-cases
      (trim_space inbound == [] || ltb max_request_id_len (length (trim_space inbound)))) [
        | inl bad ↦ rw (bad, sanitize_request_id) h
        | inr short ↦ elim (Bool-cases (any is_control (trim_space inbound))) [
          | inl control ↦ rw (short, sanitize_request_id) (rw control h)
          | inr clear ↦
              rw (short, sanitize_request_id) (rw clear (ground arith, ground arith, clear))
        ]
      ],
  λ sane. ground (arith, sane.0, sane.1, sane.2),
)
