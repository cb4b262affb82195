-- ===== src/Backend/Refresh.antt =====
-- What `refresh` and `poll` of `server/backend.go` keep and replace.
use livegrep.Backend.{
  IndexInfo, choose_trees, is_up_now, reply, unix, Backend, tree_url, Metadata, ServerInfo, refresh,
  Answer, TreeInfo, get_info, Tree, poll_round, refresh_trees,
}
use livegrep.Prelude.{
  ℕ, ◌≤◌, ◌<◌, ◌≡◌, refl, sym, ap, ◌∙◌, ◌≢◌, ◌⊎◌, inl, inr, Bool, true, false, not, ◌||◌, some,
  List, [], ◌∷◌, arith, ltb, Option-cases, Text,
}
use livegrep.Runtime.{bind-eq-ret, ret-injective, ret}
use mathlib.Core.Path.{subst}

-- The tree that the backend keeps for a tree of the reply.
abbrev pub Shows : (Text → Bool) → Tree → TreeInfo → Type 0
Shows parses_uri t r =
    (t.name ≡ r.name)
    × (t.version ≡ r.version)
    × (md : Metadata) × (r.metadata ≡ some md)
    × (t.url ≡ tree_url parses_uri md)

abbrev pub AllShow : (Text → Bool) → List Tree → List TreeInfo → Type 0
AllShow parses_uri [] [] = Unit
AllShow parses_uri (t ∷ ts) (r ∷ rs) = Shows parses_uri t r × AllShow parses_uri ts rs
AllShow parses_uri _ _ = ⊥

module _ (parses_uri : Text → Bool) where
  refresh_trees-AllShow :
      (rs : List TreeInfo) {ts : List Tree}
      → refresh_trees parses_uri rs ≡ ret ts
      → AllShow parses_uri ts rs
  unfolding refresh_trees
  refresh_trees-AllShow [] e =
      subst (λ (ts : List Tree). AllShow parses_uri ts []) (ret-injective e) tt
  refresh_trees-AllShow (r ∷ rs) {ts} e = elim (Option-cases r.metadata) [
    | inl n ↦ absurd (cc (let e' = rw n at e in e'))
    | inr (md, m) ↦
        let (ts', et, e') = bind-eq-ret (refresh_trees parses_uri rs) _ (rw m at e) in
        subst (λ (ts : List Tree). AllShow parses_uri ts (r ∷ rs)) (ret-injective e')
          ((refl, refl, md, m, refl), refresh_trees-AllShow rs et)
  ]

  choose_trees-AllShow :
      (old : List Tree) (rs : List TreeInfo) {ts : List Tree}
      → rs ≢ []
      → choose_trees parses_uri old rs ≡ ret ts
      → AllShow parses_uri ts rs
  choose_trees-AllShow old [] n e = absurd (n refl)
  choose_trees-AllShow old (r ∷ rs) n e = refresh_trees-AllShow (r ∷ rs) e

  -- Where both calls succeed, the reply has trees, and the backend was down or its index older than
  -- the answer, a round that returns leaves the backend up with the index time of the reply and one
  -- tree for each tree of the reply, in order.
  pub poll_round-reply :
      (now t : ℕ) (info : ServerInfo) (bk : Backend) {bk' : Backend}
      → (bk.up.is_up ≡ false) ⊎ (bk.info.index_time < unix t)
      → info.trees ≢ []
      → poll_round parses_uri now (reply t) (reply info) bk ≡ ret bk'
      → (bk'.up ≡ is_up_now)
        × (bk'.info.index_time ≡ unix info.index_time)
        × AllShow parses_uri bk'.info.trees info.trees
  unfolding poll_round get_info refresh
  poll_round-reply now t info bk c n e =
      let x : (not bk.up.is_up || ltb bk.info.index_time (unix t)) ≡ true = ground arith in
      let (i, ei, e1) = bind-eq-ret (refresh parses_uri info bk.info) _ (rw x at e) in
      let (ts, et, e2) = bind-eq-ret (choose_trees parses_uri bk.info.trees info.trees) _ ei in
      let q = ap (λ (b : Backend). b.info) (ret-injective e1) in
      let q' = ret-injective e2 ∙ q in
      (
        sym (ap (λ (b : Backend). b.up) (ret-injective e1)),
        sym (ap (λ (i : IndexInfo). i.index_time) q'),
        subst (λ (i : IndexInfo). AllShow parses_uri i.trees info.trees) q'
            (choose_trees-AllShow bk.info.trees info.trees n et),
      )

  -- Where the backend is up and its index is not older than the answer, a round ignores what `Info`
  -- would answer and keeps the index.
  pub poll_round_current :
      (now t : ℕ) (info info' : Answer ServerInfo) (bk : Backend)
      → bk.up.is_up ≡ true
      → unix t ≤ bk.info.index_time
      → (poll_round parses_uri now (reply t) info bk ≡ poll_round parses_uri now (reply t) info' bk)
        × (poll_round parses_uri now (reply t) info bk ≡ ret (record bk { up = is_up_now }))
  unfolding poll_round
  poll_round_current now t info info' bk h k =
      let x : (not bk.up.is_up || ltb bk.info.index_time (unix t)) ≡ false = ground arith in
      (rw x refl, rw x refl)
