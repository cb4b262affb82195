-- ===== src/Templates/Highlight.antt =====
-- The syntax highlighting of `server/templates/templates.go`: `getSyntaxHighlightedLine` and
-- `getSyntaxHighlightedContent` with the classes of their tokens. The lexers and the types of tokens are
-- those of chroma, a parameter. The styles are computed and not used, and the time is printed only.
pub mod Reads
use livegrep.GoText.Space.{trim_space}
use livegrep.GoText.Split.{split}
use livegrep.Prelude.{
  ℕ, zero, suc, ◌+◌, ◌-◌, ◌*◌, ◌/◌, ◌%◌, ◌^◌, ◌≤◌, ◌<◌, ◌≡◌, refl, sym, ap, ◌∙◌, ◌≡⟨◌⟩◌, ◌∎, ◌≢◌,
  ◌↔◌, ◌⊎◌, inl, inr, Bool, true, false, not, ◌&&◌, ◌||◌, Option, none, some, List, [], ◌∷◌, ◌++◌,
  append-nil, append_assoc, arith, map, reverse, ltb, leb, ◌==◌, if◌then◌else◌, ==_iff, ==_refl,
  Bool-cases, Option-cases, ◌>>=◌, bind-eq-some, some-eq, Text, codes, text_eq, text_eq_iff,
  text_eq_refl, length, get_elem?, take, drop, join, length-append, take-append-drop, length-take,
  length-drop, take_all, All, All-append, All-Mem, Mem-All, All-Perm,
}

-- what the code uses of chroma
pub record Chroma : Type 1 where
  pub TokenType : Type 0
  pub Lexer : Type 0
  pub is_zero : TokenType → Bool
  pub parent : TokenType → TokenType
  pub standard_types : TokenType → Option Text
  pub get : Text → Option Lexer
  pub match_filename : Text → Option Lexer
  pub fallback : Lexer
  pub coalesce : Lexer → Lexer
  pub tokenise : Lexer → Text → Option (List (TokenType × Text))
  pub split_tokens_into_lines : List (TokenType × Text) → List (List (TokenType × Text))

-- `html.EscapeString` of Go's library
abbrev pub escape_byte : ℕ → Text
escape_byte c =
    if c == b'&'
    then codes "&amp;"
    else if c == b'\''
    then codes "&#39;"
    else if c == b'<'
    then codes "&lt;"
    else if c == b'>'
    then codes "&gt;"
    else if c == b'"'
    then codes "&#34;"
    else (c ∷ [])

unfoldable pub escape_string : Text → Text
escape_string [] = []
escape_string (c ∷ s) = escape_byte c ++ escape_string s

unfoldable pub convert_content_blob_to_array_of_lines : Text → List Text
unfolding split
convert_content_blob_to_array_of_lines content = split b'\n' content

abbrev pub class_or_empty : Option Text → Text
class_or_empty none = []
class_or_empty (some cls) = cls

module _ (chroma : Chroma) where
  -- from a type to its parents, until one has a class; `none` where the fuel runs out
  unfoldable pub get_chroma_class : ℕ → chroma.TokenType → Option Text
  get_chroma_class zero t = none
  get_chroma_class (suc fuel) t =
      let later = get_chroma_class fuel (chroma.parent t) in
      if chroma.is_zero t
      then some (class_or_empty (chroma.standard_types t))
      else elim (chroma.standard_types t) [ none ↦ later | some cls ↦ some cls ]

  -- a type has at most two types above it, and zero is above those
  unfoldable pub style_attr : chroma.TokenType → Option Text
  unfolding get_chroma_class text_eq
  style_attr t = do
    cls ← get_chroma_class 4 t
    some (if text_eq cls [] then [] else codes " class=\"" ++ (cls ++ codes "\""))

  unfoldable pub render_tokens : List (chroma.TokenType × Text) → Option Text
  unfolding style_attr escape_string
  render_tokens [] = some []
  render_tokens ((t, value) ∷ tokens) = do
    attr ← style_attr t
    later ← render_tokens tokens
    some (
        codes "<span"
        ++ (attr ++ (codes ">" ++ (escape_string value ++ (codes "</span>" ++ later)))))

  unfoldable pub render_lines : List (List (chroma.TokenType × Text)) → Option (List Text)
  unfolding render_tokens
  render_lines [] = some []
  render_lines (tokens ∷ lines) = do
    first ← render_tokens tokens
    later ← render_lines lines
    some (first ∷ later)

  unfoldable pub get_lexer_for_filename : Text → chroma.Lexer
  get_lexer_for_filename filename = elim (chroma.match_filename filename) [
    | none ↦ chroma.fallback
    | some l ↦ l
  ]

  unfoldable pub get_syntax_highlighted_line : Text → chroma.Lexer → Option Text
  unfolding render_tokens trim_space
  get_syntax_highlighted_line line l =
      if length (trim_space line) == 0
      then some (codes "<span></span>")
      else elim (chroma.tokenise (chroma.coalesce l) line) [
        | none ↦ some line
        | some tokens ↦ render_tokens tokens
      ]

  -- the lexer of the language, or else that of the name
  unfoldable pub lexer_of : Text → Text → Option chroma.Lexer
  lexer_of language filename = elim (chroma.get language) [
    | none ↦ chroma.match_filename filename
    | some l ↦ some l
  ]

  unfoldable pub get_syntax_highlighted_content : Text → Text → Text → Option (List Text)
  unfolding lexer_of render_lines convert_content_blob_to_array_of_lines
  get_syntax_highlighted_content content language filename = elim (lexer_of language filename) [
    | none ↦ some (convert_content_blob_to_array_of_lines content)
    | some l ↦ elim (chroma.tokenise (chroma.coalesce l) content) [
      | none ↦ some (convert_content_blob_to_array_of_lines content)
      | some tokens ↦ render_lines (chroma.split_tokens_into_lines tokens)
    ]
  ]
