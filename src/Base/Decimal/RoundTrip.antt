-- ===== src/Base/Decimal/RoundTrip.antt =====
-- A printed number is read back.
use Prim.Native.Nat.{ℕ, zero, suc, ◌+◌, ◌-◌, ◌*◌, ◌/◌, ◌%◌, ◌≤◌, ◌<◌}
use mathlib.Core.Path.{◌≡◌, refl, ◌∙◌}
use mathlib.Core.Logic.{inl, inr}
use mathlib.Core.Bool.{true}
use mathlib.Core.Option.{some}
use mathlib.Core.List.{[], ◌∷◌}
use native.Mathlib.Omega.{arith}
use golang_base.Base.Tests.{eqb, ltb, Bool-cases}
use golang_base.Base.Lists.{All, length}
use golang_base.Base.Bytes.{Text}
use golang_base.Base.Int.{pos, max_int64}
use golang_base.Base.Space.{trim_front}
use golang_base.Base.Decimal.{
  is_digit, digits, emit, format_decimal, zeros, format_03d, digit_run, scan_int,
}

abbrev pub IsNumber : Text → Type 0
IsNumber = All (λ c. is_digit c ≡ true)

-- The numbers of at most `f` digits.
abbrev pow10 : ℕ → ℕ
pow10 zero = 1
pow10 (suc f) = 10 * pow10 f

digits-emit : (f n : ℕ) (out : Text) → n < pow10 f → digits 0 (emit f n out) ≡ digits n out
unfolding digits emit
digits-emit zero n out h = let e : n ≡ 0 = omega arith in rw e
digits-emit (suc f) n out h =
    ground (arith, digits-emit f (n / 10) ((b'0' + n % 10) ∷ out) (omega arith))

emit-IsNumber : (f n : ℕ) (out : Text) → IsNumber out → IsNumber (emit f n out)
unfolding emit
emit-IsNumber zero n out h = h
emit-IsNumber (suc f) n out h = ground (arith, emit-IsNumber f (n / 10) ((b'0' + n % 10) ∷ out))

length-emit : (f n : ℕ) (out : Text) → length out ≤ length (emit f n out)
unfolding emit
length-emit zero n out = omega arith
length-emit (suc f) n out = ground (arith, length-emit f (n / 10) ((b'0' + n % 10) ∷ out))

zeros-IsNumber : (k : ℕ) (t : Text) → IsNumber t → IsNumber (zeros k t)
unfolding zeros
zeros-IsNumber zero t h = h
zeros-IsNumber (suc k) t h = (refl, zeros-IsNumber k t h)

length-zeros : (k : ℕ) (t : Text) → length (zeros k t) ≡ k + length t
unfolding zeros
length-zeros zero t = omega arith
length-zeros (suc k) t = omega (arith, length-zeros k t)

digits-zeros : (k : ℕ) (t : Text) → digits 0 (zeros k t) ≡ digits 0 t
unfolding zeros digits
digits-zeros zero t = refl
digits-zeros (suc k) t = digits-zeros k t

digit_run-IsNumber : (t : Text) → IsNumber t → digit_run t ≡ t
unfolding digit_run
digit_run-IsNumber [] h = refl
digit_run-IsNumber (c ∷ cs) h = ground (arith, digit_run-IsNumber cs h.1)

-- A text of digits has no blank in front.
trim_front-IsNumber : (t : Text) → IsNumber t → trim_front t ≡ t
unfolding trim_front
trim_front-IsNumber [] h = refl
trim_front-IsNumber (a ∷ []) h = ground arith
trim_front-IsNumber (a ∷ b ∷ []) h = ground arith
trim_front-IsNumber (a ∷ b ∷ c ∷ s) h = ground (arith, h.0)

format_decimal-IsNumber : (n : ℕ) → IsNumber (format_decimal n)
unfolding format_decimal
format_decimal-IsNumber n = elim (Bool-cases (eqb n 0)) [
  | inl none_left ↦ rw none_left (refl, tt)
  | inr more ↦ rw more (emit-IsNumber 20 n [] tt)
]

digits-format_decimal : (n : ℕ) → n ≤ max_int64 → digits 0 (format_decimal n) ≡ some n
unfolding format_decimal digits
digits-format_decimal n h = elim (Bool-cases (eqb n 0)) [
  | inl none_left ↦ ground arith
  | inr more ↦ rw more (digits-emit 20 n [] (omega arith))
]

pub format_03d-IsNumber : (n : ℕ) → IsNumber (format_03d (pos n))
unfolding format_03d
format_03d-IsNumber n = zeros-IsNumber _ _ (format_decimal-IsNumber n)

pub format_03d-length : (n : ℕ) → 3 ≤ length (format_03d (pos n))
unfolding format_03d
format_03d-length n = omega (arith, length-zeros (3 - length (format_decimal n)) (format_decimal n))

pub scan_number :
    (t : Text) (n : ℕ)
    → IsNumber t
    → 0 < length t
    → digits 0 t ≡ some n
    → n ≤ max_int64
    → scan_int t ≡ some (pos n)
unfolding scan_int
scan_number [] n h l e b = absurd (omega arith)
scan_number (c ∷ cs) n h l e b =
    rw (trim_front-IsNumber (c ∷ cs) h) (ground (arith, digit_run-IsNumber (c ∷ cs) h, h.0, e, b))

-- Sscanf reads back what "%03d" printed.
pub scan_int-format_03d : (n : ℕ) → n ≤ max_int64 → scan_int (format_03d (pos n)) ≡ some (pos n)
scan_int-format_03d n h =
    scan_number (format_03d (pos n)) n (format_03d-IsNumber n) (omega (arith, format_03d-length n))
      (unfold format_03d in (digits-zeros _ _ ∙ digits-format_decimal n h)) h

-- One round of printing, and the last one.
emit-more :
    (f n : ℕ) (out : Text) → 0 < n → emit (suc f) n out ≡ emit f (n / 10) ((b'0' + n % 10) ∷ out)
unfolding emit
emit-more f n out h = ground arith

emit-done : (f n : ℕ) (out : Text) → n ≡ 0 → emit f n out ≡ out
unfolding emit
emit-done zero n out h = refl
emit-done (suc f) n out h = ground arith

-- How a number of one, two or three digits is printed.
format_decimal-1 : (n : ℕ) → n < 10 → format_decimal n ≡ (b'0' + n) ∷ []
unfolding format_decimal
format_decimal-1 n h =
    ground (arith, emit-more 19 n [], emit-done 19 (n / 10) ((b'0' + n % 10) ∷ []))

format_decimal-2 :
    (n : ℕ) → 10 ≤ n → n < 100 → format_decimal n ≡ (b'0' + n / 10) ∷ (b'0' + n % 10) ∷ []
unfolding format_decimal
format_decimal-2 n l h =
    let low = (b'0' + n % 10) ∷ [] in
    ground (
      arith,
      emit-more 19 n [],
      emit-more 18 (n / 10) low,
      emit-done 18 (n / 10 / 10) ((b'0' + n / 10 % 10) ∷ low),
    )

format_decimal-3 :
    (n : ℕ)
    → 100 ≤ n
    → n ≤ 999
    → format_decimal n ≡ (b'0' + n / 100) ∷ (b'0' + n / 10 % 10) ∷ (b'0' + n % 10) ∷ []
unfolding format_decimal
format_decimal-3 n l h =
    let low = (b'0' + n % 10) ∷ [] in
    let middle = (b'0' + n / 10 % 10) ∷ low in
    ground (
      arith,
      emit-more 19 n [],
      emit-more 18 (n / 10) low,
      emit-more 17 (n / 10 / 10) middle,
      emit-done 17 (n / 10 / 10 / 10) ((b'0' + n / 10 / 10 % 10) ∷ middle),
    )

-- "%03d" prints three digits up to 999.
pub three_digits :
    (n : ℕ)
    → n ≤ 999
    → format_03d (pos n) ≡ (b'0' + n / 100) ∷ (b'0' + n / 10 % 10) ∷ (b'0' + n % 10) ∷ []
unfolding format_03d zeros
three_digits n h = elim (Bool-cases (ltb n 10)) [
  | inl one ↦ rw (format_decimal-1 n (ground arith)) (ground arith)
  | inr longer ↦ elim (Bool-cases (ltb n 100)) [
    | inl two ↦ rw (format_decimal-2 n (ground arith) (ground arith)) (ground arith)
    | inr three ↦ rw (format_decimal-3 n (ground arith) h) refl
  ]
]
