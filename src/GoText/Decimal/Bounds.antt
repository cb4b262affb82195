-- ===== src/GoText/Decimal/Bounds.antt =====
-- What `atoi` reads fits in 64 bits.
use livegrep.GoText.Decimal.{word, half_word, at_most, negated, magnitude, atoi}
use livegrep.Prelude.{ℕ, ◌-◌, ◌<◌, ◌≡◌, Option, none, some, [], ◌∷◌, arith, Text}

at_most-lt-word :
    (bound : ℕ) (m : Option ℕ) {n : ℕ} → bound < word → at_most bound m ≡ some n → n < word
at_most-lt-word bound none h e = cc
at_most-lt-word bound (some v) h e = ground arith

negated-lt-word : (m : Option ℕ) {n : ℕ} → negated m ≡ some n → n < word
negated-lt-word none e = cc
negated-lt-word (some v) e = ground arith

pub atoi-lt-word : (s : Text) {n : ℕ} → atoi s ≡ some n → n < word
unfolding atoi
atoi-lt-word [] e = cc
atoi-lt-word (c ∷ s) e = ground (
  arith,
  negated-lt-word (at_most half_word (magnitude s)),
  at_most-lt-word (half_word - 1) (magnitude s),
  at_most-lt-word (half_word - 1) (magnitude (c ∷ s)),
)
