-- ===== src/Fix/Decimal/RoundTrip.antt =====
-- `Atoi` reads back what `%d` writes.
use venuewire.Prelude.{
  ℕ, zero, suc, ◌+◌, ◌*◌, ◌/◌, ◌%◌, ◌≤◌, ◌<◌, ◌≡◌, refl, ◌∙◌, ◌≢◌, inl, inr, some, [], ◌∷◌, arith,
  Bool-cases, ltb, Text, All,
}
use venuewire.Prelude.Int.{pos}
use venuewire.Fix.Decimal.{scan, max_int, atoi, digits, print_nat}

abbrev pub IsDigit : ℕ → Type 0
IsDigit c = (b'0' ≤ c) × (c ≤ b'9')

scan-digit :
    (d n m : ℕ) (out : Text) → d < 10 → m ≡ n * 10 + d → scan ((b'0' + d) ∷ out) n ≡ scan out m
unfolding scan
scan-digit d n m out h e = ground arith

scan-digits : (f n : ℕ) (out : Text) → n < f → scan (digits f n out) 0 ≡ scan out n
unfolding digits
scan-digits zero n out h = elim h [ ]
scan-digits (suc f) n out h = elim (Bool-cases (ltb n 10)) [
  | inl small ↦ rw small (scan-digit n 0 n out (ground arith) (omega arith))
  | inr large ↦ rw large (
      scan-digits f (n / 10) ((b'0' + n % 10) ∷ out) (ground arith)
      ∙ scan-digit (n % 10) (n / 10) n out (omega arith) (omega arith))
]

digits-All : (f n : ℕ) (out : Text) → All IsDigit out → All IsDigit (digits f n out)
unfolding digits
digits-All zero n out h = h
digits-All (suc f) n out h = elim (Bool-cases (ltb n 10)) [
  | inl small ↦ rw small ((ground arith, ground arith), h)
  | inr large ↦
      rw large (digits-All f (n / 10) ((b'0' + n % 10) ∷ out) ((omega arith, omega arith), h))
]

pub print_nat-All : (n : ℕ) → All IsDigit (print_nat n)
unfolding print_nat
print_nat-All n = digits-All (suc n) n [] tt

atoi-scan :
    (s : Text) (n : ℕ)
    → All IsDigit s
    → s ≢ []
    → scan s 0 ≡ some n
    → n ≤ max_int
    → atoi s ≡ some (pos n)
unfolding atoi
atoi-scan [] n h ne e fits = absurd (ne refl)
atoi-scan (c ∷ s) n h ne e fits = ground arith

digits-ne-nil : (f n : ℕ) (out : Text) → out ≢ [] → digits f n out ≢ []
unfolding digits
digits-ne-nil zero n out h = h
digits-ne-nil (suc f) n out h = ground (arith, digits-ne-nil f (n / 10) ((b'0' + n % 10) ∷ out))

pub print_nat-ne-nil : (n : ℕ) → print_nat n ≢ []
unfolding print_nat digits
print_nat-ne-nil n = ground (arith, digits-ne-nil n (n / 10) ((b'0' + n % 10) ∷ []))

pub atoi-print_nat : (n : ℕ) → n ≤ max_int → atoi (print_nat n) ≡ some (pos n)
unfolding print_nat scan
atoi-print_nat n fits =
    atoi-scan (print_nat n) n (print_nat-All n) (print_nat-ne-nil n)
      (scan-digits (suc n) n [] (omega arith)) fits
