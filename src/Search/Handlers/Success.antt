-- ===== src/Search/Handlers/Success.antt =====
-- What stands behind a search that the handler of the pages answers with status 200.
use livegrep.Api.{extract_query, Params, Extracted}
use livegrep.Api.Extract.{extract_query_total}
use livegrep.Backend.{is_empty_text}
use livegrep.Dict.{Dict}
use livegrep.Prelude.{
  ℕ, ◌≡◌, refl, sym, ◌∙◌, ◌⊎◌, inl, inr, Bool, true, false, Option, none, some, [], ◌==◌,
  Bool-cases, Option-cases, some-eq, Text, codes,
}
use livegrep.Query.Types.{Query}
use livegrep.Runtime.{ret-injective, bind-eq-ret, ret, Run}
use livegrep.Search.Extensions.{pop_exts}
use livegrep.Search.Handlers.{
  do_search_v2, failed, get_param, with_default, SearchCall, get_backend, RpcError, answer_v2,
  Response, done, search_with_backup, Outcome, get_query_error, search_v2, SearchBackend,
  check_query, success,
}
use livegrep.Search.Handlers.Answers.{search_with_backup-answer}
use livegrep.Search.Merge.{dedupe}
use livegrep.Search.NextPage.{get_next_page_url}
use livegrep.Search.Reply.{deref, tree_results, file_results, keys, make_results, make_reply_v2}
use livegrep.Search.Types.{ReplySearchV2, SearchResponse, Surroundings}
use mathlib.Core.Path.{subst}

check_query-success :
    {A : Type 0} (default : ℕ) (x : Extracted) (answer : Query → Run (Response A)) {r : A}
    → check_query default x answer ≡ ret (success r)
    → (x.error ≡ none)
      × (is_empty_text x.query.line ≡ false)
      × (answer (with_default default x.query) ≡ ret (success r))
unfolding check_query
check_query-success default x answer e = elim (Option-cases x.error) [
  | inr (err, f) ↦ absurd (cc (let e' = rw f at e in e'))
  | inl n ↦ elim (Bool-cases (is_empty_text x.query.line)) [
    | inl b ↦ absurd (cc (let e' = rw (n, b) at e in e'))
    | inr b ↦ (n, b, rw (n, b) at e)
  ]
]

-- Which of the calls answered: the backend, or its backup behind an error with code 14.
abbrev pub Answered : SearchBackend → Query → SearchResponse → Bool → Type 0
Answered b q s used =
    ((b.search q ≡ done s) × (used ≡ false))
    ⊎ ((e : RpcError) × (backup : SearchCall) × (b.search q ≡ failed e)
        × (e.code ≡ 14)
        × (b.backup ≡ some backup)
        × (backup q ≡ done s)
        × (used ≡ true))

search_with_backup-Answered :
    (b : SearchBackend) (q : Query) {s : SearchResponse}
    → (search_with_backup b q).0 ≡ done s
    → Answered b q s (search_with_backup b q).1
search_with_backup-Answered b q h =
    let (of_backup, of_backend) = search_with_backup-answer b q in
    elim (Bool-cases (search_with_backup b q).1) [
      | inl used ↦
          let (e, backup, fails, code, there, same) = of_backup used in
          inr (e, backup, fails, code, there, sym same ∙ h, used)
      | inr not_used ↦ inl (sym (of_backend not_used) ∙ h, not_used)
    ]

success-eq : {A : Type 0} {a b : A} → success a ≡ success b → a ≡ b
success-eq e = cc

module _ (env : Surroundings) where
  make_reply_v2-results :
      (q : Query) (used : Bool) (s : SearchResponse) {r : ReplySearchV2}
      → make_reply_v2 env q used s ≡ ret r
      → (r.results ≡ make_results env (env.visit_files (dedupe s.results [])))
        × (r.backup_idx_used ≡ used)
        × (r.pop_exts ≡ pop_exts env.visit_exts (keys (env.visit_files (dedupe s.results []))))
  unfolding make_reply_v2
  make_reply_v2-results q used s e =
      let (files, f, e1) = bind-eq-ret (file_results s.file_results) _ e in
      let (trees, g, e2) = bind-eq-ret (tree_results s.tree_results) _ e1 in
      let (x, h, e3) = bind-eq-ret (deref s.stats) _ e2 in
      rw (← ret-injective e3) (refl, refl, refl)

module _ (first : Dict Text SearchBackend → Option SearchBackend) (default : ℕ) (env : Surroundings)
    (encode : Text → Text) where
  answer_v2-success :
      (current : Text) (q : Query) (answer : Outcome SearchResponse) (used : Bool)
      {r : ReplySearchV2}
      → answer_v2 first default env encode current q answer used ≡ ret (success r)
      → (s : SearchResponse) × (answer ≡ done s)
        × (r.results ≡ make_results env (env.visit_files (dedupe s.results [])))
        × (r.backup_idx_used ≡ used)
        × (r.pop_exts ≡ pop_exts env.visit_exts (keys (env.visit_files (dedupe s.results []))))
        × (r.next_url ≡ get_next_page_url encode current q r.info.exit_reason)
  unfolding get_query_error
  answer_v2-success current q (failed e) used h = elim (Bool-cases (e.code == 3)) [
    | inl b ↦ absurd (cc (let h' = rw b at h in h'))
    | inr b ↦ absurd (cc (let h' = rw b at h in h'))
  ]
  answer_v2-success current q (done s) used h =
      let (r', e, f) = bind-eq-ret (make_reply_v2 env q used s) _ h in
      let (a, b, c) = make_reply_v2-results env q used s e in
      rw (← success-eq (ret-injective f)) (s, refl, a, b, c, refl)

  -- Where the search of the pages ends with status 200, a backend was found, the query parsed
  -- without an error and with a line, and with the default number of matches filled in either the
  -- backend answered it and the reply says that the backup was not used, or its call failed with
  -- code 14, its backup answered and the reply says that the backup was used; the reply holds
  -- exactly the results made from that answer.
  pub search_v2-success :
      (backends : Dict Text SearchBackend) (params : Params) {r : ReplySearchV2}
      → search_v2 first default env encode backends params ≡ some (ret (success r))
      → (b : SearchBackend) × (x : Extracted) × (s : SearchResponse) × (get_backend first default
            env backends
            (get_param params (codes ":backend"))
          ≡ some b)
        × (extract_query params ≡ some x)
        × (x.error ≡ none)
        × (is_empty_text x.query.line ≡ false)
        × Answered b (with_default default x.query) s r.backup_idx_used
        × (r.results ≡ make_results env (env.visit_files (dedupe s.results [])))
  unfolding search_v2
  search_v2-success backends params {r} h =
      let name = get_param params (codes ":backend") in
      let current = get_param params (codes "q") in
      let (x, e, p, f0, f1) = extract_query_total params in
      elim (Option-cases (get_backend first default env backends name)) [
        | inl n ↦ absurd (cc (let h' = rw (n, search_v2) at h in h'))
        | inr (b, f) ↦
            let h' = rw (f, e, search_v2) at h in
            let (err, line, ans) =
              check_query-success default x (do_search_v2 first default env encode current b)
                (some-eq h') in
            let q = with_default default x.query in
            let (s, g, res, used, exts, next) =
              answer_v2-success current q (search_with_backup b q).0 (search_with_backup b q).1
                ans in
            (
              b,
              x,
              s,
              f,
              e,
              err,
              line,
              subst (Answered b q s) (sym used) (search_with_backup-Answered b q g),
              res,
            )
      ]
