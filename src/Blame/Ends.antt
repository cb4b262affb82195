-- ===== src/Blame/Ends.antt =====
-- When `processNextChunk` returns, and what `GitBlameBlob` makes of its errors.
use livegrep.Blame.{match_chunk_header, BlameState, BlameChunk}
use livegrep.Blame.Cases.{broken, stop, other, code, line_case, is_code}
use livegrep.Blame.Chunk.{
  reported, blamed, panicked, never, BlameError, after_chunk, BlameOutcome, blame_loop,
  git_blame_blob, panics, process_next_chunk, returned, ChunkRun, hangs, fill_chunk,
}
use livegrep.Dict.{number_key, insert, Dict}
use livegrep.GoText.Decimal.{atoi}
use livegrep.Prelude.{
  ℕ, zero, suc, ◌+◌, ◌≤◌, ◌<◌, ◌≡◌, refl, ◌∙◌, ◌≢◌, inl, inr, true, false, Option, none, some, List,
  [], ◌∷◌, arith, if◌then◌else◌, Option-cases, Text, length,
}

-- the lines of code among the lines to come
abbrev pub code_lines : List Text → ℕ
code_lines [] = 0
code_lines (line ∷ lines) = (if is_code line then 1 else 0) + code_lines lines

-- The loop of `processNextChunk` never ends only if fewer lines of code are left than the chunk
-- still needs, and with a chunk that is filled in already it then does not end.
pub fill_chunk-hangs :
    (chunks : Dict Text BlameChunk) (current n : ℕ) (chunk : BlameChunk) (lines : Dict ℕ Text)
    (tokens : List Text)
    → (fill_chunk chunks current n chunk lines tokens ≡ hangs → code_lines tokens < n)
      × (chunk.already_filled ≡ true
          → code_lines tokens < n
          → fill_chunk chunks current n chunk lines tokens ≡ hangs)
unfolding fill_chunk
fill_chunk-hangs chunks current zero chunk lines tokens = (λ e. cc, λ f h. absurd (omega arith))
fill_chunk-hangs chunks current (suc n) chunk lines [] = (λ e. omega arith, λ f h. refl)
fill_chunk-hangs chunks current (suc n) chunk lines (line ∷ tokens) =
    elim (line_case current chunk line) [
      | code c e ↦
          let (fwd, bwd) =
            fill_chunk-hangs chunks current n (record chunk { already_filled = true })
              (insert current chunk.commit_hash lines) tokens in
          rw (c, fill_chunk, e) (λ h. omega (arith, fwd h), λ f h. bwd refl (omega arith))
      | other current' chunk' c e same flag ↦
          let (fwd, bwd) = fill_chunk-hangs chunks current' (suc n) chunk' lines tokens in
          rw (c, fill_chunk, e) (λ h. omega (arith, fwd h), λ f h. bwd (flag ∙ f) (omega arith))
      | stop c g e ↦ rw (c, fill_chunk, e) (λ h. cc, λ f h. cc)
      | broken r c g e ↦ rw (c, fill_chunk, e) (λ h. cc, λ f h. cc)
    ]

-- A call that asks for more has no error, and leaves fewer than `bound` lines.
abbrev GoesOn : ℕ → ChunkRun → Type 0
GoesOn bound (returned true error st rest) = (error ≡ none) × (length rest < bound)
GoesOn bound (returned false error st rest) = Unit
GoesOn bound hangs = Unit
GoesOn bound (panics r) = Unit

GoesOn-mono : (a b : ℕ) (run : ChunkRun) → a ≤ b → GoesOn a run → GoesOn b run
GoesOn-mono a b (returned true error st rest) h (e, l) = (e, omega arith)
GoesOn-mono a b (returned false error st rest) h g = tt
GoesOn-mono a b hangs h g = tt
GoesOn-mono a b (panics r) h g = tt

fill_chunk-GoesOn :
    (chunks : Dict Text BlameChunk) (current n : ℕ) (chunk : BlameChunk) (lines : Dict ℕ Text)
    (tokens : List Text)
    → GoesOn (suc (length tokens)) (fill_chunk chunks current n chunk lines tokens)
unfolding fill_chunk
fill_chunk-GoesOn chunks current zero chunk lines tokens = (refl, omega arith)
fill_chunk-GoesOn chunks current (suc n) chunk lines [] = tt
fill_chunk-GoesOn chunks current (suc n) chunk lines (line ∷ tokens) =
    elim (line_case current chunk line) [
      | code c e ↦
          rw (fill_chunk, e)
            (GoesOn-mono (suc (length tokens)) (suc (suc (length tokens))) _ (omega arith) (
              fill_chunk-GoesOn chunks current n (record chunk { already_filled = true })
                (insert current chunk.commit_hash lines) tokens))
      | other current' chunk' c e same flag ↦
          rw (fill_chunk, e)
            (GoesOn-mono (suc (length tokens)) (suc (suc (length tokens))) _ (omega arith)
              (fill_chunk-GoesOn chunks current' (suc n) chunk' lines tokens))
      | stop c g e ↦ rw (fill_chunk, e) (refl, omega arith)
      | broken r c g e ↦ rw (fill_chunk, e) tt
    ]

process_next_chunk-GoesOn :
    (repo_path : Text) (st : BlameState) (tokens : List Text)
    → GoesOn (length tokens) (process_next_chunk repo_path st tokens)
unfolding process_next_chunk
process_next_chunk-GoesOn repo_path st [] = tt
process_next_chunk-GoesOn repo_path st (header ∷ tokens) =
    elim (Option-cases (match_chunk_header header)) [
      | inl n ↦ rw (process_next_chunk, n) tt
      | inr (h, e) ↦ elim (Option-cases (atoi h.count)) [
        | inl n ↦ rw (process_next_chunk, e, n) tt
        | inr (count, f) ↦
            rw (process_next_chunk, e, f) (fill_chunk-GoesOn st.chunks _ count _ st.lines tokens)
      ]
    ]

-- an end of the loop that is no error
abbrev pub HasNoError : BlameOutcome → Type 0
HasNoError out = (e : BlameError) → out ≢ reported e

after_chunk-HasNoError :
    (bound : ℕ) (run : ChunkRun) (later : BlameState → List Text → Option BlameOutcome)
    → GoesOn bound run
    → ((st : BlameState) (rest : List Text)
        → length rest < bound
        → (out : BlameOutcome) × (later st rest ≡ some out) × HasNoError out)
    → (out : BlameOutcome) × (after_chunk run later ≡ some out) × HasNoError out
after_chunk-HasNoError bound hangs later g h = (never, refl, λ e f. cc)
after_chunk-HasNoError bound (panics r) later g h = (panicked r, refl, λ e f. cc)
after_chunk-HasNoError bound (returned false error st rest) later g h = (blamed st, refl, λ e f. cc)
after_chunk-HasNoError bound (returned true (some x) st rest) later (n, l) h = absurd (cc)
after_chunk-HasNoError bound (returned true none st rest) later (n, l) h = h st rest l

blame_loop_total :
    (fuel : ℕ) (repo_path : Text) (st : BlameState) (tokens : List Text)
    → length tokens < fuel
    → (out : BlameOutcome) × (blame_loop fuel repo_path st tokens ≡ some out) × HasNoError out
unfolding blame_loop
blame_loop_total zero repo_path st tokens h = absurd (omega arith)
blame_loop_total (suc fuel) repo_path st tokens h =
    after_chunk-HasNoError (length tokens) (process_next_chunk repo_path st tokens)
      (λ st' rest. blame_loop fuel repo_path st' rest)
      (process_next_chunk-GoesOn repo_path st tokens)
      (λ st' rest l. blame_loop_total fuel repo_path st' rest (omega arith))

-- On every output of git blame the loop of `GitBlameBlob` comes to an outcome with the fuel it has,
-- and that is never an error of `processNextChunk`: it is a result, a panic, or a call that does
-- not return.
pub git_blame_blob_total :
    (repo_path : Text) (tokens : List Text)
    → (out : BlameOutcome) × (git_blame_blob repo_path tokens ≡ some out) × HasNoError out
unfolding git_blame_blob
git_blame_blob_total repo_path tokens =
    blame_loop_total (suc (length tokens)) repo_path (record { chunks = []; lines = [] }) tokens
      (omega arith)
