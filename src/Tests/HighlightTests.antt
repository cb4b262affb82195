-- ===== src/Tests/HighlightTests.antt =====
-- The syntax highlighting of `server/templates/templates.go` with a small lexer in the place of chroma's:
-- letters are keywords, and the other bytes have no class.
use livegrep.GoText.Split.{Lacks}
use livegrep.Prelude.{
  ℕ, zero, suc, ◌≡◌, refl, ap, ◌∙◌, inl, inr, ◌&&◌, Option, none, some, List, [], ◌∷◌, ◌++◌,
  append-nil, append_assoc, map, leb, ◌==◌, if◌then◌else◌, Bool-cases, Text, codes, text_eq, join,
}
use livegrep.Templates.Highlight.{class_or_empty, Chroma, get_syntax_highlighted_content, lexer_of}
use livegrep.Templates.Highlight.Reads.{
  page_text, token_text, get_syntax_highlighted_content-page_text, IsDocumented,
}

kind_of : ℕ → ℕ
kind_of c = if leb b'a' c && leb c b'z' then 1 else 2

abbrev tokens_of : Text → List (ℕ × Text)
tokens_of s = map (λ c. (kind_of c, c ∷ [])) s

abbrev push_token : ℕ × Text → List (List (ℕ × Text)) → List (List (ℕ × Text))
push_token t [] = (t ∷ []) ∷ []
push_token t (l ∷ ls) = (t ∷ l) ∷ ls

-- a line ends with a token that is a newline
abbrev lines_of : List (ℕ × Text) → List (List (ℕ × Text))
lines_of [] = []
lines_of (t ∷ ts) =
    let later = lines_of ts in
    if text_eq t.1 (codes "\n") then (t ∷ []) ∷ later else push_token t later

abbrev class_of : ℕ → Option Text
class_of zero = some []
class_of (suc zero) = some (codes "k")
class_of (suc (suc n)) = none

abbrev small_chroma : Chroma
small_chroma = record {
  TokenType = ℕ;
  Lexer = Text;
  is_zero = λ t. t == 0;
  parent = λ t. 0;
  standard_types = class_of;
  get = λ language. if text_eq language (codes "go") then some language else none;
  match_filename = λ filename. none;
  fallback = [];
  coalesce = λ l. l;
  tokenise = λ l text. some (tokens_of text);
  split_tokens_into_lines = lines_of;
}

class_of-Lacks : (t : ℕ) → Lacks b'>' (class_or_empty (class_of t))
class_of-Lacks zero = tt
class_of-Lacks (suc zero) = (refl, tt)
class_of-Lacks (suc (suc n)) = tt

push_token_text :
    (t : ℕ × Text) (ls : List (List (ℕ × Text)))
    → join (map (token_text small_chroma) (push_token t ls))
      ≡ t.1 ++ join (map (token_text small_chroma) ls)
push_token_text t [] = ap (λ r. r ++ []) (append-nil t.1)
push_token_text t (l ∷ ls) = append_assoc t.1 (token_text small_chroma l) _

lines_of_text :
    (ts : List (ℕ × Text))
    → join (map (token_text small_chroma) (lines_of ts)) ≡ token_text small_chroma ts
lines_of_text [] = refl
lines_of_text (t ∷ ts) = elim (Bool-cases (text_eq t.1 (codes "\n"))) [
  | inl e ↦ rw (e, append-nil t.1, lines_of_text ts) refl
  | inr e ↦ rw e (push_token_text t (lines_of ts) ∙ ap (λ r. t.1 ++ r) (lines_of_text ts))
]

small_chroma-IsDocumented : IsDocumented small_chroma
small_chroma-IsDocumented = record {
  depth = λ t. refl;
  names = class_of-Lacks;
  keeps_text = lines_of_text;
}

abbrev content : Text
content = codes "if a<b\n\"&\""

get_syntax_highlighted_content-page_text_example :
    (lines : List Text) × ((get_syntax_highlighted_content small_chroma content (codes "go") []
        ≡ some lines)
      × (join (map page_text lines) ≡ token_text small_chroma (tokens_of content)))
unfolding lexer_of text_eq
get_syntax_highlighted_content-page_text_example =
    get_syntax_highlighted_content-page_text small_chroma content (codes "go") []
      small_chroma-IsDocumented refl refl

highlighted :
    get_syntax_highlighted_content small_chroma (codes "a<\n") (codes "go") []
    ≡ some (codes "<span class=\"k\">a</span><span>&lt;</span><span>\n</span>" ∷ [])
unfolding get_syntax_highlighted_content kind_of
highlighted = refl

-- What no lexer is found for stands in the page as it is.
raw :
    get_syntax_highlighted_content small_chroma (codes "<script>") (codes "c") []
    ≡ some (codes "<script>" ∷ [])
unfolding get_syntax_highlighted_content
raw = refl

read_page : page_text (codes "<b class=\"x\">a&lt;b</b>") ≡ codes "a<b"
unfolding page_text
read_page = refl
