-- ===== src/Blame/Links.antt =====
-- The two maps of `GitBlameBlob` fit together.
use livegrep.Blame.{match_chunk_header, BlameChunk, BlameState}
use livegrep.Blame.Cases.{broken, stop, other, code, line_case}
use livegrep.Blame.Chunk.{
  after_chunk, BlameOutcome, git_blame_blob, blamed, blame_loop, hangs, panics, returned, save,
  ChunkRun, fill_chunk, process_next_chunk,
}
use livegrep.Dict.{lookup-insert, insert, lookup, Dict, text_key, number_key}
use livegrep.GoText.Decimal.{atoi}
use livegrep.Prelude.{
  ℕ, zero, suc, ◌≡◌, sym, ◌⊎◌, inl, inr, true, false, Option, none, some, List, [], ◌∷◌, arith,
  ◌==◌, Bool-cases, Option-cases, some-eq, Text, text_eq, text_eq_iff, length,
}
use mathlib.Core.Path.{subst}

-- every chunk stands under the hash of its commit
abbrev pub IsKeyed : Dict Text BlameChunk → Type 0
IsKeyed chunks = (k : Text) (c : BlameChunk) → lookup k chunks ≡ some c → c.commit_hash ≡ k

-- the hash of each line is that of a chunk in the map, or `extra`
abbrev Points : Text → Dict Text BlameChunk → Dict ℕ Text → Type 0
Points extra chunks lines =
    (n : ℕ) (h : Text)
    → lookup n lines ≡ some h
    → (extra ≡ h) ⊎ ((c : BlameChunk) × (lookup h chunks ≡ some c))

-- A chunk stands under its hash, and each line has a chunk.
abbrev pub IsLinked : BlameState → Type 0
IsLinked st =
    IsKeyed st.chunks
    × ((n : ℕ) (h : Text)
        → lookup n st.lines ≡ some h
        → (c : BlameChunk) × (lookup h st.chunks ≡ some c))

save-IsLinked :
    (chunk : BlameChunk) (lines : Dict ℕ Text) (chunks : Dict Text BlameChunk)
    → IsKeyed chunks
    → Points chunk.commit_hash chunks lines
    → IsLinked (save chunk lines chunks)
save-IsLinked chunk lines chunks k p = (
  λ j c e. ground (
    arith,
    lookup-insert chunk.commit_hash j chunk chunks,
    text_eq_iff chunk.commit_hash j,
    k j c,
  ),
  λ n h e. elim (Bool-cases (text_eq chunk.commit_hash h)) [
    | inl eq ↦ (chunk, rw (lookup-insert chunk.commit_hash h chunk chunks, eq))
    | inr ne ↦ elim (p n h e) [
      | inl same ↦ absurd (cc ((text_eq_iff chunk.commit_hash h).1 same, ne))
      | inr (c, f) ↦ (c, rw (lookup-insert chunk.commit_hash h chunk chunks, ne) f)
    ]
  ],
)

insert-Points :
    (current : ℕ) (hash : Text) (chunks : Dict Text BlameChunk) (lines : Dict ℕ Text)
    → Points hash chunks lines
    → Points hash chunks (insert current hash lines)
insert-Points current hash chunks lines p n h e = elim (Bool-cases (current == n)) [
  | inl eq ↦ inl (some-eq (rw (lookup-insert current n hash lines, eq) at e))
  | inr ne ↦ p n h (rw (lookup-insert current n hash lines, ne) at e)
]

-- what a call returns is linked
abbrev pub ReturnsLinked : ChunkRun → Type 0
ReturnsLinked (returned more error st rest) = IsLinked st
ReturnsLinked hangs = Unit
ReturnsLinked (panics r) = Unit

fill_chunk-ReturnsLinked :
    (chunks : Dict Text BlameChunk) (current n : ℕ) (chunk : BlameChunk) (lines : Dict ℕ Text)
    (tokens : List Text)
    → IsKeyed chunks
    → Points chunk.commit_hash chunks lines
    → ReturnsLinked (fill_chunk chunks current n chunk lines tokens)
unfolding fill_chunk
fill_chunk-ReturnsLinked chunks current zero chunk lines tokens k p =
    save-IsLinked chunk lines chunks k p
fill_chunk-ReturnsLinked chunks current (suc n) chunk lines [] k p = tt
fill_chunk-ReturnsLinked chunks current (suc n) chunk lines (line ∷ tokens) k p =
    elim (line_case current chunk line) [
      | code c e ↦
          rw (fill_chunk, e)
            (fill_chunk-ReturnsLinked chunks current n (record chunk { already_filled = true })
              (insert current chunk.commit_hash lines) tokens k
              (insert-Points current chunk.commit_hash chunks lines p))
      | other current' chunk' c e same flag ↦
          rw (fill_chunk, e)
            (fill_chunk-ReturnsLinked chunks current' (suc n) chunk' lines tokens k
              (subst (λ h. Points h chunks lines) (sym same) p))
      | stop c g e ↦ rw (fill_chunk, e) (save-IsLinked chunk lines chunks k p)
      | broken r c g e ↦ rw (fill_chunk, e) tt
    ]

process_next_chunk-ReturnsLinked :
    (repo_path : Text) (st : BlameState) (tokens : List Text)
    → IsLinked st
    → ReturnsLinked (process_next_chunk repo_path st tokens)
unfolding process_next_chunk
process_next_chunk-ReturnsLinked repo_path st [] h = h
process_next_chunk-ReturnsLinked repo_path st (header ∷ tokens) (k, p) =
    elim (Option-cases (match_chunk_header header)) [
      | inl n ↦ rw (process_next_chunk, n) (k, p)
      | inr (h, e) ↦ elim (Option-cases (atoi h.count)) [
        | inl n ↦ rw (process_next_chunk, e, n) (k, p)
        | inr (count, f) ↦
            rw (process_next_chunk, e, f)
              (fill_chunk-ReturnsLinked st.chunks _ count _ st.lines tokens k
                (λ n x g. inr (p n x g)))
      ]
    ]

blamed-eq : {a b : BlameState} → blamed a ≡ blamed b → a ≡ b
blamed-eq e = cc

after_chunk-IsLinked :
    (run : ChunkRun) (later : BlameState → List Text → Option BlameOutcome) {out : BlameState}
    → ReturnsLinked run
    → ((st : BlameState) (rest : List Text)
        → IsLinked st
        → later st rest ≡ some (blamed out)
        → IsLinked out)
    → after_chunk run later ≡ some (blamed out)
    → IsLinked out
after_chunk-IsLinked hangs later h k e = cc
after_chunk-IsLinked (panics r) later h k e = cc
after_chunk-IsLinked (returned false error st rest) later h k e =
    subst IsLinked (blamed-eq (some-eq e)) h
after_chunk-IsLinked (returned true (some x) st rest) later h k e = cc
after_chunk-IsLinked (returned true none st rest) later h k e = k st rest h e

blame_loop-IsLinked :
    (fuel : ℕ) (repo_path : Text) (st : BlameState) (tokens : List Text) {out : BlameState}
    → IsLinked st
    → blame_loop fuel repo_path st tokens ≡ some (blamed out)
    → IsLinked out
unfolding blame_loop
blame_loop-IsLinked zero repo_path st tokens h e = cc
blame_loop-IsLinked (suc fuel) repo_path st tokens {out} h e =
    after_chunk-IsLinked (process_next_chunk repo_path st tokens)
      (λ st' rest. blame_loop fuel repo_path st' rest)
      (process_next_chunk-ReturnsLinked repo_path st tokens h)
      (λ st' rest h' e'. blame_loop-IsLinked fuel repo_path st' rest h' e') e

-- Where `GitBlameBlob` returns a result, every chunk stands under the hash of its commit, and every
-- line number leads to a chunk that is there.
pub git_blame_blob-IsLinked :
    (repo_path : Text) (tokens : List Text) {out : BlameState}
    → git_blame_blob repo_path tokens ≡ some (blamed out)
    → IsLinked out
unfolding git_blame_blob lookup
git_blame_blob-IsLinked repo_path tokens e =
    blame_loop-IsLinked (suc (length tokens)) repo_path (record { chunks = []; lines = [] }) tokens
      (λ k c f. cc, λ n h f. cc) e
