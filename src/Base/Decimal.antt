-- ===== src/Base/Decimal.antt =====
-- Packages fmt and strconv on decimal numbers: how "%d" prints a natural number of 64 bits and how
-- Sscanf reads an int with "%d".
pub mod RoundTrip
use Prim.Native.Nat.{ℕ, zero, suc, ◌+◌, ◌-◌, ◌*◌, ◌/◌, ◌%◌}
use mathlib.Core.Bool.{Bool, true, false, ◌&&◌, ◌||◌}
use mathlib.Core.Option.{Option, none, some}
use mathlib.Core.List.{[], ◌∷◌}
use golang_base.Base.Tests.{eqb, leb, ltb, if◌then◌else◌}
use golang_base.Base.Lists.{length, any}
use golang_base.Base.Bytes.{Text, take_bytes}
use golang_base.Base.Int.{ℤ, pos, negsuc, max_int64}
use golang_base.Base.Space.{trim_front}

abbrev pub is_digit : ℕ → Bool
is_digit c = leb b'0' c && leb c b'9'

-- The value of a run of decimal digits after `acc`.
unfoldable pub digits : ℕ → Text → Option ℕ
digits acc [] = some acc
digits acc (c ∷ cs) =
    let rest = digits (acc * 10 + (c - b'0')) cs in if is_digit c then rest else none

abbrev pub decimal : Text → Option ℕ
decimal [] = none
decimal (c ∷ cs) = digits 0 (c ∷ cs)

abbrev pub in_int64 : Bool → Option ℕ → Option ℤ
in_int64 negative none = none
in_int64 false (some n) = if leb n max_int64 then some (pos n) else none
in_int64 true (some zero) = some (pos 0)
in_int64 true (some (suc n)) = if leb n max_int64 then some (negsuc n) else none

-- strconv.Atoi: an optional sign and decimal digits, in the range of int.
unfoldable pub atoi : Text → Option ℤ
atoi [] = none
atoi (c ∷ cs) =
    if eqb c b'-'
    then in_int64 true (decimal cs)
    else if eqb c b'+'
    then in_int64 false (decimal cs)
    else in_int64 false (decimal (c ∷ cs))

-- The digits of a number before `out`; the first argument bounds how many there are.
unfoldable pub emit : ℕ → ℕ → Text → Text
emit zero n out = out
emit (suc f) n out =
    let more = emit f (n / 10) ((b'0' + n % 10) ∷ out) in if eqb n 0 then out else more

-- A number below 2^64 has at most 20 digits.
unfoldable pub format_decimal : ℕ → Text
format_decimal n = if eqb n 0 then b'0' ∷ [] else emit 20 n []

-- Zeros in front, up to a width.
unfoldable pub zeros : ℕ → Text → Text
zeros zero t = t
zeros (suc n) t = b'0' ∷ zeros n t

unfoldable pub pad_zeros : ℕ → Text → Text
unfolding zeros
pad_zeros width t = zeros (width - length t) t

-- `fmt.Sprintf("%03d", i)`; the sign counts in the width.
unfoldable pub format_03d : ℤ → Text
unfolding pad_zeros
format_03d (pos n) = pad_zeros 3 (format_decimal n)
format_03d (negsuc n) = b'-' ∷ pad_zeros 2 (format_decimal (suc n))

-- The digits in front.
unfoldable pub digit_run : Text → Text
digit_run [] = []
digit_run (c ∷ cs) = let run = digit_run cs in if is_digit c then c ∷ run else []

unfoldable pub number_token : Text → Text
unfolding digit_run
number_token [] = []
number_token (c ∷ cs) = if eqb c b'+' || eqb c b'-' then c ∷ digit_run cs else digit_run (c ∷ cs)

-- `fmt.Sscanf(s, "%d", &i)`: blanks but no newline, a sign, digits, and what follows is not read.
unfoldable pub scan_int : Text → Option ℤ
unfolding number_token atoi trim_front take_bytes
scan_int s =
    let rest = trim_front s in
    if any (λ c. eqb c b'\n') (take_bytes (length s - length rest) s)
    then none
    else atoi (number_token rest)
