-- ===== src/Templates/Listing.antt =====
-- `min`, `getFirstNFiles`, `shouldInsertBlankLine` and `getLineNumberLinkClass` of
-- `server/templates/templates.go`. Of a result line only its number matters here.
use livegrep.GoText.Decimal.{half_word, int_lt, word}
use livegrep.Prelude.{
  ℕ, zero, suc, ◌+◌, ◌-◌, ◌%◌, ◌≤◌, ◌<◌, ◌≡◌, refl, inl, inr, Bool, true, false, not, none, some,
  List, [], ◌∷◌, ◌++◌, append-nil, arith, ltb, leb, ◌==◌, if◌then◌else◌, Bool-cases, Text, codes,
  length, get_elem?, take, drop, take-append-drop, length-take, take_all,
}
use livegrep.Runtime.{index_out_of_range, slice_out_of_range, Run, ret, panic, ◌>>=◌}

-- `min` on `int`s
abbrev pub min_int : ℕ → ℕ → ℕ
min_int a b = if int_lt a b then a else b

-- `s[:c]`: a bound past the capacity or below zero panics
unfoldable pub get_first_n_files {ℓ} : {A : Type ℓ} → List A → ℕ → Run (List A)
get_first_n_files s n =
    let c = min_int n (length s) in
    if leb c (length s) then ret (take c s) else panic slice_out_of_range

-- `lines[i]`, or a panic
abbrev pub number_at : List ℕ → ℕ → Run ℕ
number_at lines i = elim (get_elem? lines i) [ none ↦ panic index_out_of_range | some n ↦ ret n ]

-- The index comes from a loop over the lines, so it is not negative.
unfoldable pub should_insert_blank_line : ℕ → List ℕ → Run Bool
should_insert_blank_line zero lines = ret false
should_insert_blank_line (suc i) lines = do
  curr ← number_at lines (suc i)
  prev ← number_at lines i
  ret (not ((curr + (word - prev)) % word == 1))

abbrev pub get_line_number_link_class : List (ℕ × ℕ) → Text
get_line_number_link_class [] = codes "num-link"
get_line_number_link_class (b ∷ bs) = codes "num-link match"

-- For a bound and a length below 2 ^ 63, `getFirstNFiles` returns a beginning of the list, of at
-- most the given number of files, and the whole list where that is no longer.
pub get_first_n_files_total {ℓ} :
    {A : Type ℓ} (s : List A) (n : ℕ)
    → n < half_word
    → length s < half_word
    → (xs : List A) × (get_first_n_files s n ≡ ret xs)
      × (length xs ≤ n)
      × (length s ≤ n → xs ≡ s)
      × ((rest : List A) × (xs ++ rest ≡ s))
unfolding get_first_n_files
get_first_n_files_total s n h k = elim (Bool-cases (ltb n (length s))) [
  | inl x ↦
      let e : int_lt n (length s) ≡ true = ground arith in
      let f : leb n (length s) ≡ true = ground arith in
      (
        take n s,
        rw (e, f),
        omega (arith, length-take n s),
        λ g. absurd (ground arith),
        (drop n s, take-append-drop n s),
      )
  | inr x ↦
      let e : int_lt n (length s) ≡ false = ground arith in
      let f : leb (length s) (length s) ≡ true = ground arith in
      (
        s,
        rw (e, f, take_all (length s) s (omega arith)),
        ground arith,
        λ g. refl,
        ([], append-nil s),
      )
]
