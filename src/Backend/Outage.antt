-- ===== src/Backend/Outage.antt =====
-- What `poll` of `server/backend.go` records of an outage.
use livegrep.Backend.{
  get_info, unix, reply, poll, Backend, ServerInfo, error_code, Answer, Availability, Round,
  poll_round,
}
use livegrep.Prelude.{
  ℕ, ◌≡◌, refl, ◌≢◌, inl, inr, Bool, true, false, not, ◌||◌, List, [], ◌∷◌, arith, map, ltb, ◌==◌,
  Bool-cases, Text,
}
use livegrep.Runtime.{bind-eq-ret, ret-injective, ret}
use mathlib.Core.Path.{subst}

-- A backend that is up has no outage on record.
abbrev pub IsConsistent : Availability → Type 0
IsConsistent up = up.is_up ≡ true → (up.down_since ≡ 0) × (up.down_code ≡ 0)

-- A round whose quick call fails.
pub record Failure : Type 0 where
  pub now : ℕ
  pub code : ℕ
  pub info : Answer ServerInfo

abbrev pub round_of : Failure → Round
round_of f = record { now = f.now; quick_info = error_code f.code; info = f.info }

module _ (parses_uri : Text → Bool) where
  poll_round-IsConsistent :
      (now : ℕ) (quick : Answer ℕ) (info : Answer ServerInfo) (bk : Backend) {bk' : Backend}
      → IsConsistent bk.up
      → poll_round parses_uri now quick info bk ≡ ret bk'
      → IsConsistent bk'.up
  unfolding poll_round
  poll_round-IsConsistent now (error_code c) info bk h e =
      subst (λ (b : Backend). IsConsistent b.up) (ret-injective e) (λ x. ground arith)
  poll_round-IsConsistent now (reply t) info bk h e =
      elim (Bool-cases (not bk.up.is_up || ltb bk.info.index_time (unix t))) [
        | inl x ↦
            let (i, ei, e') = bind-eq-ret (get_info parses_uri info bk.info) _ (rw x at e) in
            subst (λ (b : Backend). IsConsistent b.up) (ret-injective e') (λ _. (refl, refl))
        | inr x ↦
            subst (λ (b : Backend). IsConsistent b.up) (ret-injective (rw x at e))
              (λ _. (refl, refl))
      ]

  -- The rounds of `poll` keep it true that a backend that is up has no outage on record.
  pub poll-IsConsistent :
      (rs : List (Round)) (bk : Backend) {bk' : Backend}
      → IsConsistent bk.up
      → poll parses_uri rs bk ≡ ret bk'
      → IsConsistent bk'.up
  unfolding poll
  poll-IsConsistent [] bk h e = subst (λ (b : Backend). IsConsistent b.up) (ret-injective e) h
  poll-IsConsistent (r ∷ rs) bk h e =
      let (b, eb, e') = bind-eq-ret (poll_round parses_uri r.now r.quick_info r.info bk) _ e in
      poll-IsConsistent rs b (poll_round-IsConsistent r.now r.quick_info r.info bk h eb) e'

  stays_down :
      (fs : List Failure) (bk : Backend)
      → (bk.up.is_up || bk.up.down_since == 0) ≡ false
      → poll parses_uri (map round_of fs) bk ≡ ret bk
  unfolding poll poll_round
  stays_down [] bk h = refl
  stays_down (f ∷ fs) bk h = rw h (stays_down fs bk h)

  -- From a backend that is up, rounds of failing calls, the first of them at a time that is not
  -- zero, keep the index and record the time and the code of the first failure, whatever the later
  -- ones are.
  pub poll-outage :
      (f : Failure) (fs : List Failure) (bk : Backend)
      → bk.up.is_up ≡ true
      → f.now ≢ 0
      → poll parses_uri (map round_of (f ∷ fs)) bk
        ≡ ret (record {
          info = bk.info;
          up = record { is_up = false; down_since = f.now; down_code = f.code };
        })
  unfolding poll poll_round
  poll-outage f fs bk h n = rw h (
      stays_down fs
        (record {
          info = bk.info;
          up = record { is_up = false; down_since = f.now; down_code = f.code };
        })
        (ground arith))
