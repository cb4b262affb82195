-- ===== src/Server/Status/Health.antt =====
-- The health check and the age of the stalest index.
use livegrep.Call.{map_option}
use livegrep.Prelude.{
  ℕ, ◌+◌, ◌-◌, ◌/◌, ◌^◌, ◌≤◌, ◌<◌, ◌≡◌, refl, sym, ap, ◌≢◌, ◌⊎◌, inl, inr, false, ◌||◌, Option,
  none, some, List, [], ◌∷◌, arith, ltb, leb, ◌==◌, Bool-cases, some-eq, codes, All,
}
use livegrep.Server.{written}
use livegrep.Server.Status.{
  index_time_of, time_sub, KnownBackend, index_age, max_age, older, serve_healthcheck,
}
use mathlib.Core.List.{Mem, mem-cons_self, mem-cons_of_mem}
use mathlib.Core.Path.{subst}

-- the backend reported the time of its index, and not one that is more than a second ahead
abbrev pub Reported : ℕ → KnownBackend → Type 0
Reported now bk = (index_time_of bk ≢ 0) × (index_time_of bk < now + 1000000000)

abbrev pub AtLeast : ℕ → Option ℕ → Type 0
AtLeast n o = (m : ℕ) × (o ≡ some m) × (n ≤ m)

abbrev age_of : ℕ → KnownBackend → ℕ
age_of now bk = time_sub now (index_time_of bk)

-- the index is at most so many seconds old, unless these are the 2 ^ 63 - 1 nanoseconds of a Duration
abbrev pub IsNoOlder : ℕ → KnownBackend → ℕ → Type 0
IsNoOlder now bk age = ((now - index_time_of bk) / 1000000000 ≤ age) ⊎ (9223372036 ≤ age)

serve_healthcheck-ok :
    (bks : List KnownBackend)
    → serve_healthcheck bks ≡ written (codes "ok\n")
    → All (λ bk. index_time_of bk ≢ 0) bks
unfolding serve_healthcheck
serve_healthcheck-ok [] e = tt
serve_healthcheck-ok (bk ∷ bks) e = elim (Bool-cases (index_time_of bk == 0)) [
  | inl unset ↦ cc (rw (serve_healthcheck, unset) at e)
  | inr set ↦ (ground arith, serve_healthcheck-ok bks (rw (serve_healthcheck, set) at e))
]

older_some : (o : Option ℕ) (age n : ℕ) → (n ≡ age) ⊎ AtLeast n o → AtLeast n (older o age)
older_some none age n (inl e) = (age, refl, omega arith)
older_some none age n (inr (m, e, h)) = cc
older_some (some k) age n (inl e) = (_, refl, ground arith)
older_some (some k) age n (inr (m, e, h)) = let same = some-eq e in (_, refl, ground arith)

max_age_least :
    (now : ℕ) (o : Option ℕ) (bks : List KnownBackend) (n : ℕ)
    → AtLeast n o
    → AtLeast n (max_age now o bks)
unfolding max_age
max_age_least now o [] n h = h
max_age_least now o (bk ∷ bks) n h =
    elim (Bool-cases (index_time_of bk == 0 || leb (now + 1000000000) (index_time_of bk))) [
      | inl skipped ↦ rw (max_age, skipped) (max_age_least now o bks n h)
      | inr counted ↦
          rw (max_age, counted)
            (max_age_least now (older o (age_of now bk)) bks n
              (older_some o (age_of now bk) n (inr h)))
    ]

max_age-All :
    (now : ℕ) (o : Option ℕ) (bks : List KnownBackend)
    → All (Reported now) bks
    → All (λ bk. AtLeast (age_of now bk) (max_age now o bks)) bks
unfolding max_age
max_age-All now o [] h = tt
max_age-All now o (bk ∷ bks) ((set, past), h) =
    let counted : (index_time_of bk == 0 || leb (now + 1000000000) (index_time_of bk)) ≡ false =
      ground arith in
    let next = older o (age_of now bk) in
    let step : max_age now o (bk ∷ bks) ≡ max_age now next bks = rw (max_age, counted) refl in
    subst (λ a. AtLeast (age_of now bk) a × All (λ b. AtLeast (age_of now b) a) bks) (sym step)
      (
        max_age_least now next bks _ (older_some o (age_of now bk) _ (inl refl)),
        max_age-All now next bks h,
      )

older_attained : (o : Option ℕ) (age : ℕ) {m : ℕ} → older o age ≡ some m → (age ≡ m) ⊎ (o ≡ some m)
older_attained none age e = inl (some-eq e)
older_attained (some k) age e =
    let same = some-eq e in
    elim (Bool-cases (ltb k age)) [
      | inl h ↦ inl (rw h at same)
      | inr h ↦ inr (ap (λ x. some x) (rw h at same))
    ]

-- the largest age is that of a backend
max_age_attained :
    (now : ℕ) (o : Option ℕ) (bks : List KnownBackend) {m : ℕ}
    → max_age now o bks ≡ some m
    → (o ≡ some m) ⊎ ((b : KnownBackend) × Mem b bks × (age_of now b ≡ m))
unfolding max_age
max_age_attained now o [] e = inl e
max_age_attained now o (bk ∷ bks) e =
    elim (Bool-cases (index_time_of bk == 0 || leb (now + 1000000000) (index_time_of bk))) [
      | inl skipped ↦ elim (max_age_attained now o bks (rw (max_age, skipped) at e)) [
        | inl f ↦ inl f
        | inr (b, mem, f) ↦ inr (b, mem-cons_of_mem bk mem, f)
      ]
      | inr counted ↦
          elim (max_age_attained now (older o (age_of now bk)) bks (rw (max_age, counted) at e)) [
            | inr (b, mem, f) ↦ inr (b, mem-cons_of_mem bk mem, f)
            | inl f ↦ elim (older_attained o (age_of now bk) f) [
              | inl g ↦ inr (bk, mem-cons_self, g)
              | inr g ↦ inl g
            ]
          ]
    ]

in_seconds :
    (now age : ℕ) (bks : List KnownBackend)
    → All (λ bk. AtLeast (age_of now bk) (some age)) bks
    → All (λ bk. IsNoOlder now bk (age / 1000000000)) bks
in_seconds now age [] h = tt
in_seconds now age (bk ∷ bks) ((m, e, le), h) =
    let same = some-eq e in
    (
      elim (Bool-cases (ltb (now - index_time_of bk) (2 ^ 63))) [
        | inl small ↦ inl (let le' = rw small at le in omega arith)
        | inr large ↦ inr (let le' = rw large at le in omega arith)
      ],
      in_seconds now age bks h,
    )

no_more :
    (now m : ℕ) (bks : List KnownBackend)
    → (none ≡ some m) ⊎ ((b : KnownBackend) × Mem b bks × (age_of now b ≡ m))
    → ((b : KnownBackend) × Mem b bks × (m / 1000000000 ≤ (now - index_time_of b) / 1000000000))
      × (m / 1000000000 ≤ 9223372036)
no_more now m bks (inl e) = cc
no_more now m bks (inr (b, mem, e)) = elim (Bool-cases (ltb (now - index_time_of b) (2 ^ 63))) [
  | inl small ↦
      let same = rw small at e in
      let below : now - index_time_of b < 2 ^ 63 = ground arith in
      ((b, mem, omega arith), omega arith)
  | inr large ↦
      let same = rw large at e in
      let above : 2 ^ 63 ≤ now - index_time_of b = ground arith in
      ((b, mem, omega arith), omega arith)
]

recorded_times :
    (now : ℕ) (bks : List KnownBackend)
    → All (λ bk. index_time_of bk ≢ 0) bks
    → All (λ bk. index_time_of bk ≤ now) bks
    → All (Reported now) bks
recorded_times now [] h p = tt
recorded_times now (bk ∷ bks) (n, h) (le, p) = ((n, omega arith), recorded_times now bks h p)

-- Where the health check of at least one backend answers `ok` and no index is from the future,
-- `ServeStats` reports an age of at most 9223372036 seconds, the largest that a Duration holds; no
-- index is older than it in seconds, unless it is that largest age, and some index is at least as
-- old.
pub serve_healthcheck-index_age :
    (now : ℕ) (bk : KnownBackend) (bks : List KnownBackend)
    → serve_healthcheck (bk ∷ bks) ≡ written (codes "ok\n")
    → All (λ b. index_time_of b ≤ now) (bk ∷ bks)
    → (age : ℕ) × (index_age now (bk ∷ bks) ≡ some age)
      × All (λ b. IsNoOlder now b age) (bk ∷ bks)
      × ((b : KnownBackend) × Mem b (bk ∷ bks) × (age ≤ (now - index_time_of b) / 1000000000))
      × (age ≤ 9223372036)
unfolding index_age
serve_healthcheck-index_age now bk bks ok past =
    let set = serve_healthcheck-ok (bk ∷ bks) ok in
    let least = max_age-All now none (bk ∷ bks) (recorded_times now (bk ∷ bks) set past) in
    let (m, e, le) = least.0 in
    let (one, bound) = no_more now m (bk ∷ bks) (max_age_attained now none (bk ∷ bks) e) in
    (
      m / 1000000000,
      ap (map_option (λ age. age / 1000000000)) e,
      in_seconds now m (bk ∷ bks)
          (subst (λ o. All (λ b. AtLeast (age_of now b) o) (bk ∷ bks)) e least),
      one,
      bound,
    )
