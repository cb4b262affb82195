-- ===== src/Blame/Cases.antt =====
-- What a line of a chunk can do, case by case.
use livegrep.Blame.{
  previous_key, committer_time_key, author_time_key, apply_key, CommitKey, fill_previous, fill_time,
  key_of, ends, KeyEffect, clamped_atoi, fills, BlameChunk, match_line_header, read_key,
}
use livegrep.Blame.Chunk.{LineEffect, stops, moves, of_key, tab, code_line, read_other, read_line}
use livegrep.GoText.Prefix.{has_prefix}
use livegrep.Prelude.{
  ℕ, ◌≡◌, refl, ap, ◌∙◌, inl, inr, Bool, true, false, Option, none, some, ltb, if◌then◌else◌,
  Bool-cases, Option-cases, Text, length,
}
use livegrep.Runtime.{slice_out_of_range, PanicReason}

-- The commit and the flag of a chunk stay when a field is filled in.
data Keeps (chunk : BlameChunk) : KeyEffect → Type 0 where
  filled :
      {c : BlameChunk}
      → c.commit_hash ≡ chunk.commit_hash
      → c.already_filled ≡ chunk.already_filled
      → Keeps chunk (fills c)
  ended : Keeps chunk ends
  broke : (r : PanicReason) → Keeps chunk (KeyEffect.breaks r)

fill_time-Keeps :
    (chunk : BlameChunk) (o : Option ℕ) (set : ℕ → BlameChunk)
    → ((t : ℕ) → Keeps chunk (fills (set t)))
    → Keeps chunk (fill_time o set)
fill_time-Keeps chunk none set h = ended
fill_time-Keeps chunk (some t) set h = h t

fill_previous-Keeps : (line : Text) (chunk : BlameChunk) → Keeps chunk (fill_previous line chunk)
fill_previous-Keeps line chunk = elim (Bool-cases (ltb (length line) 41)) [
  | inl h ↦ rw h (broke slice_out_of_range)
  | inr h ↦ rw h (filled refl refl)
]

apply_key-Keeps :
    (key : CommitKey) (line : Text) (chunk : BlameChunk) → Keeps chunk (apply_key key line chunk)
apply_key-Keeps author_time_key line chunk = fill_time-Keeps chunk _ _ (λ t. filled refl refl)
apply_key-Keeps committer_time_key line chunk = fill_time-Keeps chunk _ _ (λ t. filled refl refl)
apply_key-Keeps previous_key line chunk = fill_previous-Keeps line chunk
apply_key-Keeps _ line chunk = filled refl refl

read_key-Keeps : (line : Text) (chunk : BlameChunk) → Keeps chunk (read_key line chunk)
unfolding read_key
read_key-Keeps line chunk = apply_key-Keeps (key_of line) line chunk

-- a line that git writes in front of a line of the file
abbrev pub is_code : Text → Bool
is_code line = elim (match_line_header line) [ none ↦ has_prefix line tab | some number ↦ false ]

pub data LineCase : ℕ → BlameChunk → Text → Type 0 where
  code :
      {current : ℕ} {chunk : BlameChunk} {line : Text}
      → is_code line ≡ true
      → read_line current chunk line ≡ code_line
      → LineCase current chunk line
  other :
      {current : ℕ} {chunk : BlameChunk} {line : Text} (current' : ℕ) (chunk' : BlameChunk)
      → is_code line ≡ false
      → read_line current chunk line ≡ moves current' chunk'
      → chunk'.commit_hash ≡ chunk.commit_hash
      → chunk'.already_filled ≡ chunk.already_filled
      → LineCase current chunk line
  stop :
      {current : ℕ} {chunk : BlameChunk} {line : Text}
      → is_code line ≡ false
      → chunk.already_filled ≡ false
      → read_line current chunk line ≡ stops
      → LineCase current chunk line
  broken :
      {current : ℕ} {chunk : BlameChunk} {line : Text} (reason : PanicReason)
      → is_code line ≡ false
      → chunk.already_filled ≡ false
      → read_line current chunk line ≡ LineEffect.breaks reason
      → LineCase current chunk line

effect_case :
    (current current' : ℕ) (chunk : BlameChunk) (line : Text) (e : KeyEffect)
    → is_code line ≡ false
    → chunk.already_filled ≡ false
    → Keeps chunk e
    → read_line current chunk line ≡ of_key current' e
    → LineCase current chunk line
effect_case current current' chunk line (KeyEffect.fills c) n f (filled h g) e =
    other current' c n e h g
effect_case current current' chunk line KeyEffect.ends n f ended e = stop n f e
effect_case current current' chunk line (KeyEffect.breaks r) n f (broke _) e = broken r n f e

other_case :
    (current current' : ℕ) (chunk : BlameChunk) (line : Text)
    → is_code line ≡ false
    → read_line current chunk line ≡ read_other current' chunk line
    → LineCase current chunk line
other_case current current' chunk line n e =
    let chosen : (b : Bool)
        → chunk.already_filled ≡ b
        → read_line current chunk line
          ≡ (if b then moves current' chunk else of_key current' (read_key line chunk)) =
      λ b f.
        e ∙ ap (λ b. if b then moves current' chunk else of_key current' (read_key line chunk)) f in
    elim (Bool-cases chunk.already_filled) [
      | inl f ↦ other current' chunk n (chosen true f) refl refl
      | inr f ↦
          effect_case current current' chunk line (read_key line chunk) n f
            (read_key-Keeps line chunk) (chosen false f)
    ]

pub line_case : (current : ℕ) (chunk : BlameChunk) (line : Text) → LineCase current chunk line
unfolding read_line
line_case current chunk line = elim (Option-cases (match_line_header line)) [
  | inr (number, e) ↦
      other_case current (clamped_atoi number) chunk line (rw (is_code, e)) (rw (read_line, e))
  | inl n ↦ elim (Bool-cases (has_prefix line tab)) [
    | inl t ↦ code (rw (is_code, n, t)) (rw (read_line, n, t))
    | inr t ↦ other_case current current chunk line (rw (is_code, n, t)) (rw (read_line, n, t))
  ]
]
