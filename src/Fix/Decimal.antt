-- ===== src/Fix/Decimal.antt =====
-- `strconv.Atoi` and the verb `%d` on Go's 64-bit `int`, as internal/fix/codec.go uses them.
pub mod RoundTrip
use venuewire.Prelude.{
  ℕ, zero, suc, ◌+◌, ◌-◌, ◌*◌, ◌/◌, ◌%◌, ◌^◌, Bool, ◌&&◌, true, false, Option, none, some, List, [],
  ◌∷◌, ltb, leb, ◌==◌, if◌then◌else◌, Text,
}
use venuewire.Prelude.Int.{ℤ, pos, negsuc}

abbrev pub is_digit : ℕ → Bool
is_digit c = leb b'0' c && leb c b'9'

-- The value of decimal digits behind `n`; `none` at any other byte.
unfoldable pub scan : Text → ℕ → Option ℕ
scan [] n = some n
scan (c ∷ s) n = if is_digit c then scan s (n * 10 + (c - b'0')) else none

-- One digit or more.
unfoldable pub digits_value : Text → Option ℕ
unfolding scan
digits_value [] = none
digits_value (c ∷ s) = scan (c ∷ s) 0

abbrev pub max_int : ℕ
max_int = 2 ^ 63 - 1

abbrev positive_int : ℕ → Option ℤ
positive_int n = if leb n max_int then some (pos n) else none

abbrev negative_int : ℕ → Option ℤ
negative_int zero = some (pos 0)
negative_int (suc n) = if leb n max_int then some (negsuc n) else none

abbrev and_then : Option ℕ → (ℕ → Option ℤ) → Option ℤ
and_then none f = none
and_then (some n) f = f n

-- `strconv.Atoi`: `none` is its error.
unfoldable pub atoi : Text → Option ℤ
unfolding digits_value
atoi [] = none
atoi (c ∷ s) =
    if c == b'-'
    then and_then (digits_value s) negative_int
    else if c == b'+'
    then and_then (digits_value s) positive_int
    else and_then (digits_value (c ∷ s)) positive_int

-- The digits of `n` in front of `out`; one round for each digit, and `n + 1` rounds are enough.
unfoldable pub digits : ℕ → ℕ → Text → Text
digits zero n out = out
digits (suc f) n out =
    let rest = digits f (n / 10) ((b'0' + n % 10) ∷ out) in
    if ltb n 10 then (b'0' + n) ∷ out else rest

unfoldable pub print_nat : ℕ → Text
unfolding digits
print_nat n = digits (suc n) n []

-- The verb `%d`.
unfoldable pub print_int : ℤ → Text
unfolding print_nat
print_int (pos n) = print_nat n
print_int (negsuc n) = b'-' ∷ print_nat (suc n)
