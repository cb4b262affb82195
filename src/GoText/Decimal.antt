-- ===== src/GoText/Decimal.antt =====
-- Decimal numbers: strconv.Atoi, strconv.ParseInt in base ten, and the verb %d. An `int` is 64 bits
-- wide and is kept as its bit pattern, a number below 2 ^ 64.
pub mod Bounds
pub mod RoundTrip
use livegrep.Prelude.{
  ℕ, zero, suc, ◌+◌, ◌-◌, ◌*◌, ◌/◌, ◌%◌, ◌^◌, Bool, true, false, ◌&&◌, List, [], ◌∷◌, Option, none,
  some, Text, ltb, leb, ◌==◌, if◌then◌else◌,
}

abbrev pub word : ℕ
word = 2 ^ 64

abbrev pub half_word : ℕ
half_word = 2 ^ 63

-- `n++` on an `int`
abbrev pub increment : ℕ → ℕ
increment n = (n + 1) % word

-- `a < b` on `int`s
abbrev pub int_lt : ℕ → ℕ → Bool
int_lt a b = ltb ((a + half_word) % word) ((b + half_word) % word)

unfoldable pub is_digit : ℕ → Bool
is_digit c = leb b'0' c && leb c b'9'

-- the value of digits read behind `n`; `none` if another byte stands there
unfoldable pub digits_value : ℕ → Text → Option ℕ
unfolding is_digit
digits_value n [] = some n
digits_value n (c ∷ s) = if is_digit c then digits_value (n * 10 + (c - b'0')) s else none

-- one or more digits
unfoldable pub magnitude : Text → Option ℕ
unfolding digits_value
magnitude [] = none
magnitude (c ∷ s) = digits_value 0 (c ∷ s)

abbrev at_most : ℕ → Option ℕ → Option ℕ
at_most bound none = none
at_most bound (some v) = if leb v bound then some v else none

abbrev negated : Option ℕ → Option ℕ
negated none = none
negated (some v) = some ((word - v) % word)

-- strconv.Atoi: an optional sign and digits, in the range of an int64
unfoldable pub atoi : Text → Option ℕ
unfolding magnitude
atoi [] = none
atoi (c ∷ s) =
    if c == b'-'
    then negated (at_most half_word (magnitude s))
    else if c == b'+'
    then at_most (half_word - 1) (magnitude s)
    else at_most (half_word - 1) (magnitude (c ∷ s))

-- the digits of `n` in front of `out`; the fuel is more than the number of digits
unfoldable pub print_digits : ℕ → ℕ → Text → Text
print_digits zero n out = out
print_digits (suc fuel) n out =
    let more = print_digits fuel (n / 10) ((b'0' + n % 10) ∷ out) in
    if ltb n 10 then (b'0' + n) ∷ out else more

unfoldable pub print_ℕ : ℕ → Text
unfolding print_digits
print_ℕ n = print_digits (suc n) n []

-- the verb %d at an `int`
unfoldable pub print_int : ℕ → Text
unfolding print_ℕ
print_int w = if ltb w half_word then print_ℕ w else b'-' ∷ print_ℕ (word - w)
