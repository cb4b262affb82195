-- ===== src/GoText/Decimal/RoundTrip.antt =====
-- What `print_ℕ` writes, `atoi` reads.
use livegrep.GoText.Decimal.{
  magnitude, print_ℕ, half_word, is_digit, digits_value, atoi, print_digits, print_int,
}
use livegrep.Prelude.{
  ℕ, zero, suc, ◌+◌, ◌/◌, ◌%◌, ◌<◌, ◌≡◌, refl, ◌≢◌, true, some, [], ◌∷◌, arith, Text, All,
}

abbrev pub IsDigits : Text → Type 0
IsDigits = All (λ c. is_digit c ≡ true)

-- Reading the digits of `n` and then `out` is reading `out` behind `n`.
digits_value-print_digits :
    (fuel n : ℕ) (out : Text)
    → n < fuel
    → digits_value 0 (print_digits fuel n out) ≡ digits_value n out
unfolding digits_value print_digits
digits_value-print_digits zero n out h = absurd (omega arith)
digits_value-print_digits (suc fuel) n out h =
    ground (arith, digits_value-print_digits fuel (n / 10) ((b'0' + n % 10) ∷ out))

print_digits-IsDigits :
    (fuel n : ℕ) (out : Text) → n < fuel → IsDigits out → IsDigits (print_digits fuel n out)
unfolding print_digits is_digit
print_digits-IsDigits zero n out h d = absurd (omega arith)
print_digits-IsDigits (suc fuel) n out h d =
    ground (arith, print_digits-IsDigits fuel (n / 10) ((b'0' + n % 10) ∷ out))

print_digits-ne-nil : (fuel n : ℕ) (out : Text) → n < fuel → print_digits fuel n out ≢ []
unfolding print_digits
print_digits-ne-nil zero n out h = absurd (omega arith)
print_digits-ne-nil (suc fuel) n out h =
    ground (arith, print_digits-ne-nil fuel (n / 10) ((b'0' + n % 10) ∷ out))

pub print_int-IsDigits : (n : ℕ) → n < half_word → IsDigits (print_int n)
unfolding print_int
print_int-IsDigits n h = ground (arith, print_digits-IsDigits (suc n) n [])

pub print_int-ne-nil : (n : ℕ) → n < half_word → print_int n ≢ []
unfolding print_int
print_int-ne-nil n h = ground (arith, print_digits-ne-nil (suc n) n [])

atoi_digits :
    (s : Text) (v : ℕ)
    → s ≢ []
    → IsDigits s
    → digits_value 0 s ≡ some v
    → v < half_word
    → atoi s ≡ some v
unfolding atoi is_digit
atoi_digits [] v ne d e h = absurd (ne refl)
atoi_digits (c ∷ s) v ne d e h = ground arith

-- An `int` that is not negative is read back from its decimal print.
pub atoi-print_int : (n : ℕ) → n < half_word → atoi (print_int n) ≡ some n
atoi-print_int n h =
    atoi_digits (print_int n) n (print_int-ne-nil n h) (print_int-IsDigits n h)
      (unfold print_int digits_value in ground (arith, digits_value-print_digits (suc n) n [])) h

magnitude_digits : (s : Text) {v : ℕ} → s ≢ [] → digits_value 0 s ≡ some v → magnitude s ≡ some v
unfolding magnitude
magnitude_digits [] ne e = absurd (ne refl)
magnitude_digits (c ∷ s) ne e = e

pub magnitude-print_ℕ : (n : ℕ) → magnitude (print_ℕ n) ≡ some n
unfolding print_ℕ
magnitude-print_ℕ n =
    magnitude_digits (print_ℕ n) (print_digits-ne-nil (suc n) n [] (omega arith))
      (unfold digits_value in ground (arith, digits_value-print_digits (suc n) n []))
