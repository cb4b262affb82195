-- ===== src/Search/Handlers/Answers.antt =====
-- What the search handlers answer.
use livegrep.Api.{Extracted, Params}
use livegrep.Api.Extract.{extract_query_total}
use livegrep.Backend.{is_empty_text}
use livegrep.Dict.{Dict, text_key}
use livegrep.Prelude.{
  ℕ, ◌≡◌, refl, inl, inr, Bool, true, false, Option, none, some, List, [], ◌∷◌, ◌++◌, ◌==◌, ==_iff,
  Bool-cases, Option-cases, Text, codes, All,
}
use livegrep.Query.Types.{Query}
use livegrep.Runtime.{Run, ret}
use livegrep.Search.Handlers.{
  with_default, no_line, query_error_text, refuse, do_search_v2, get_param, success, get_backend,
  get_query_error, answer_v2, Response, check_query, search_v2, fail_over, Outcome, done, failed,
  SearchCall, RpcError, SearchBackend, search_with_backup,
}
use livegrep.Search.Merge.{dedupe}
use livegrep.Search.NextPage.{get_next_page_url}
use livegrep.Search.Reply.{
  file_result, reply_v2, tree_result, make_results, ReplySearchV2, FileResult, SearchStats,
  TreeMetadata, TreeResult, make_reply_v2, FileHit, SearchResponse, Surroundings, TreeHit,
  file_results, tree_results,
}

-- what the code takes for granted of a response: the pointers that it reads through are not nil
abbrev pub HasBounds : FileHit → Type 0
HasBounds r = (b : ℕ × ℕ) × (r.bounds ≡ some b)

abbrev pub HasParts : TreeHit → Type 0
HasParts r = ((b : ℕ × ℕ) × (r.bounds ≡ some b)) × ((md : TreeMetadata) × (r.metadata ≡ some md))

abbrev pub IsComplete : SearchResponse → Type 0
IsComplete s =
    ((x : SearchStats) × (s.stats ≡ some x))
    × All HasBounds s.file_results
    × All HasParts s.tree_results

file_results_total :
    (rs : List FileHit) → All HasBounds rs → (out : List FileResult) × (file_results rs ≡ ret out)
unfolding file_results
file_results_total [] h = ([], refl)
file_results_total (r ∷ rs) ((b, e), h) =
    let (more, f) = file_results_total rs h in (file_result r b ∷ more, rw (e, f))

tree_results_total :
    (rs : List TreeHit) → All HasParts rs → (out : List TreeResult) × (tree_results rs ≡ ret out)
unfolding tree_results
tree_results_total [] h = ([], refl)
tree_results_total (r ∷ rs) (((b, e), (md, g)), h) =
    let (more, f) = tree_results_total rs h in (tree_result r b md ∷ more, rw (e, g, f))

module _ (env : Surroundings) where
  make_reply_v2_total :
      (q : Query) (used : Bool) (s : SearchResponse)
      → IsComplete s
      → (r : ReplySearchV2) × (make_reply_v2 env q used s ≡ ret r)
        × (r.results ≡ make_results env (env.visit_files (dedupe s.results [])))
        × (r.backup_idx_used ≡ used)
  unfolding make_reply_v2
  make_reply_v2_total q used s ((x, e), fs, ts) =
      let (files, f) = file_results_total s.file_results fs in
      let (trees, g) = tree_results_total s.tree_results ts in
      (reply_v2 env q used s files trees x, rw (e, f, g), refl, refl)

fail_over_lem :
    (q : Query) (answer : Outcome SearchResponse) (o : Option SearchCall)
    → ((fail_over q answer o).1 ≡ true
        → (e : RpcError) × (backup : SearchCall) × (answer ≡ failed e)
          × (e.code ≡ 14)
          × (o ≡ some backup)
          × ((fail_over q answer o).0 ≡ backup q))
      × ((fail_over q answer o).1 ≡ false → (fail_over q answer o).0 ≡ answer)
fail_over_lem q (done r) o = (λ h. cc, λ h. refl)
fail_over_lem q (failed e) none = (λ h. cc, λ h. refl)
fail_over_lem q (failed e) (some backup) = elim (Bool-cases (e.code == 14)) [
  | inl h ↦ rw h (λ k. (e, backup, refl, (==_iff e.code 14).0 h, refl, refl), λ k. cc)
  | inr h ↦ rw h (λ k. cc, λ k. refl)
]

-- The backup's answer is used exactly where the backend's call failed with code 14 and there is a
-- backup, and where it is not used the answer is the backend's.
pub search_with_backup-answer :
    (backend : SearchBackend) (q : Query)
    → ((search_with_backup backend q).1 ≡ true
        → (e : RpcError) × (backup : SearchCall) × (backend.search q ≡ failed e)
          × (e.code ≡ 14)
          × (backend.backup ≡ some backup)
          × ((search_with_backup backend q).0 ≡ backup q))
      × ((search_with_backup backend q).1 ≡ false
          → (search_with_backup backend q).0 ≡ backend.search q)
unfolding search_with_backup
search_with_backup-answer backend q = fail_over_lem q (backend.search q) backend.backup

-- every answer of the backend and of its backup is complete
abbrev pub AnswersCompletely : SearchBackend → Type 0
AnswersCompletely backend =
    (q : Query) (s : SearchResponse) → (search_with_backup backend q).0 ≡ done s → IsComplete s

module _ (first : Dict Text SearchBackend → Option SearchBackend) (default : ℕ) (env : Surroundings)
    (encode : Text → Text) where
  answer_v2_total :
      (current : Text) (q : Query) (answer : Outcome SearchResponse) (used : Bool)
      → ((s : SearchResponse) → answer ≡ done s → IsComplete s)
      → (r : Response ReplySearchV2) × (answer_v2 first default env encode current q answer used
          ≡ ret r)
  answer_v2_total current q (failed e) used h = (get_query_error e, refl)
  answer_v2_total current q (done s) used h =
      let (r, e, f, g) = make_reply_v2_total env q used s (h s refl) in
      (
        success (record r { next_url = get_next_page_url encode current q r.info.exit_reason }),
        rw e,
      )

  check_query_total :
      {A : Type 0} (x : Extracted) (answer : Query → Run (Response A))
      → ((q : Query) → (r : Response A) × (answer q ≡ ret r))
      → (r : Response A) × (check_query default x answer ≡ ret r)
  unfolding check_query
  check_query_total x answer h = elim (Option-cases x.error) [
    | inr (e, f) ↦ rw f (refuse 400 (codes "bad_query") (query_error_text e), refl)
    | inl n ↦ elim (Bool-cases (is_empty_text x.query.line)) [
      | inl b ↦ rw (n, b) (refuse 400 (codes "bad_query") (no_line x.regex), refl)
      | inr b ↦ rw (n, b) (h (with_default default x.query))
    ]
  ]

  -- Where each response of the chosen backend and its backup has its statistics, the bounds of its
  -- files and trees and the metadata of its trees, the search of the pages comes to an answer on
  -- every request: it does not panic or run on.
  pub search_v2_total :
      (backends : Dict Text SearchBackend) (params : Params)
      → ((b : SearchBackend)
          → get_backend first default env backends (get_param params (codes ":backend")) ≡ some b
          → AnswersCompletely b)
      → (r : Response ReplySearchV2) × (search_v2 first default env encode backends params
          ≡ some (ret r))
  unfolding search_v2
  search_v2_total backends params h =
      let name = get_param params (codes ":backend") in
      let (x, e, p, f0, f1) = extract_query_total params in
      elim (Option-cases (get_backend first default env backends name)) [
        | inl n ↦
            rw (n, search_v2)
              (refuse 400 (codes "bad_backend") (codes "Unknown backend: " ++ name), refl)
        | inr (b, f) ↦
            let (r, g) =
              check_query_total x
                (do_search_v2 first default env encode (get_param params (codes "q")) b)
                (λ q.
                  answer_v2_total (get_param params (codes "q")) q (search_with_backup b q).0
                    (search_with_backup b q).1 (λ s. h b f q s)) in
            (r, rw (f, e, g, search_v2))
      ]
