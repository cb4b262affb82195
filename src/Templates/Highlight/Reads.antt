-- ===== src/Templates/Highlight/Reads.antt =====
-- What a browser shows of the HTML that the syntax highlighting of `server/templates/templates.go` writes.
use livegrep.GoText.Split.{Lacks}
use livegrep.Prelude.{
  ℕ, zero, suc, ◌≡◌, refl, ap, ◌∙◌, inl, inr, true, false, Option, none, some, List, [], ◌∷◌, ◌++◌,
  append_assoc, map, ◌==◌, if◌then◌else◌, ==_iff, Bool-cases, Option-cases, Text, codes, text_eq,
  join, All-append,
}
use livegrep.Templates.Highlight.{
  lexer_of, get_syntax_highlighted_content, class_or_empty, get_chroma_class, render_lines,
  render_tokens, style_attr, Chroma, escape_byte, escape_string,
}

-- where a reader of HTML stands: in text, in a tag, or in a reference to a character
pub data Mode : Type 0 where
  in_text in_tag : Mode
  in_reference : Text → Mode

-- the characters that the references name
unfoldable pub referenced : Text → Option ℕ
unfolding text_eq
referenced name =
    if text_eq name (codes "amp")
    then some b'&'
    else if text_eq name (codes "#39")
    then some b'\''
    else if text_eq name (codes "lt")
    then some b'<'
    else if text_eq name (codes "gt")
    then some b'>'
    else if text_eq name (codes "#34")
    then some b'"'
    else none

abbrev pub character : Option ℕ → Text → Text
character none name = b'&' ∷ (name ++ (b';' ∷ []))
character (some c) name = c ∷ []

-- what one byte shows, and where it leaves the reader
unfoldable pub read_byte : Mode → ℕ → Text × Mode
unfolding referenced
read_byte in_text c =
    if c == b'<'
    then ([], in_tag)
    else if c == b'&'
    then ([], in_reference [])
    else (c ∷ [], in_text)
read_byte in_tag c = if c == b'>' then ([], in_text) else ([], in_tag)
read_byte (in_reference name) c =
    if c == b';'
    then (character (referenced name) name, in_text)
    else ([], in_reference (name ++ (c ∷ [])))

unfoldable pub read_from : Mode → Text → Text
unfolding read_byte
read_from m [] = []
read_from m (c ∷ s) = let r = read_byte m c in r.0 ++ read_from r.1 s

-- the text that a reader of the HTML sees
unfoldable pub page_text : Text → Text
unfolding read_from
page_text = read_from in_text

read_plain :
    (c : ℕ) (s : Text)
    → (c == b'&') ≡ false
    → (c == b'<') ≡ false
    → page_text (c ∷ s) ≡ c ∷ page_text s
unfolding page_text read_from read_byte
read_plain c s n₁ n₃ = rw (n₃, n₁) refl

-- the escaped byte is read as the byte
read-escape_byte : (c : ℕ) (s : Text) → page_text (escape_byte c ++ s) ≡ c ∷ page_text s
unfolding page_text read_from read_byte referenced text_eq
read-escape_byte c s = elim (Bool-cases (c == b'&')) [
  | inl e ↦ rw ((==_iff c b'&').0 e) refl
  | inr n₁ ↦ elim (Bool-cases (c == b'\'')) [
    | inl e ↦ rw ((==_iff c b'\'').0 e) refl
    | inr n₂ ↦ elim (Bool-cases (c == b'<')) [
      | inl e ↦ rw ((==_iff c b'<').0 e) refl
      | inr n₃ ↦ elim (Bool-cases (c == b'>')) [
        | inl e ↦ rw ((==_iff c b'>').0 e) refl
        | inr n₄ ↦ elim (Bool-cases (c == b'"')) [
          | inl e ↦ rw ((==_iff c b'"').0 e) refl
          | inr n₅ ↦ rw (n₁, n₂, n₃, n₄, n₅) (read_plain c s n₁ n₃)
        ]
      ]
    ]
  ]
]

read-escape_string : (t s : Text) → page_text (escape_string t ++ s) ≡ t ++ page_text s
unfolding escape_string
read-escape_string [] s = refl
read-escape_string (c ∷ t) s =
    ap page_text (append_assoc (escape_byte c) (escape_string t) s)
    ∙ read-escape_byte c (escape_string t ++ s)
    ∙ ap (λ r. c ∷ r) (read-escape_string t s)

-- a tag shows nothing
read-in_tag : (attr s : Text) → Lacks b'>' attr → read_from in_tag (attr ++ s) ≡ read_from in_tag s
unfolding read_from read_byte
read-in_tag [] s h = refl
read-in_tag (c ∷ attr) s (h, hs) = rw (h, read-in_tag attr s hs)

page_text_nil : page_text [] ≡ []
unfolding page_text read_from
page_text_nil = refl

in_class : Lacks b'>' (codes " class=\"")
in_class = (refl, (refl, (refl, (refl, (refl, (refl, (refl, (refl, tt))))))))

read_open_tag :
    (attr s : Text)
    → Lacks b'>' attr
    → page_text (codes "<span" ++ (attr ++ (codes ">" ++ s))) ≡ page_text s
unfolding page_text read_from read_byte
read_open_tag attr s h = read-in_tag attr (codes ">" ++ s) h

read_close_tag : (s : Text) → page_text (codes "</span>" ++ s) ≡ page_text s
unfolding page_text read_from read_byte
read_close_tag s = refl

module _ (chroma : Chroma) where
  -- the text of tokens
  abbrev pub token_text : List (chroma.TokenType × Text) → Text
  token_text tokens = join (map (λ t. t.1) tokens)

  -- so many parents up, a type is zero
  abbrev pub Reaches : ℕ → chroma.TokenType → Type 0
  Reaches zero t = chroma.is_zero t ≡ true
  Reaches (suc n) t = Reaches n (chroma.parent t)

  -- What is documented of chroma: a type belongs to a category and a subcategory, the classes are names,
  -- and the tokens are cut at the ends of lines.
  pub record IsDocumented : Type 0 where
    pub depth : (t : chroma.TokenType) → Reaches 3 t
    pub names : (t : chroma.TokenType) → Lacks b'>' (class_or_empty (chroma.standard_types t))
    pub keeps_text :
        (tokens : List (chroma.TokenType × Text))
        → join (map token_text (chroma.split_tokens_into_lines tokens)) ≡ token_text tokens

  module _ (doc : IsDocumented) where
    get_chroma_class_total :
        (n : ℕ) (t : chroma.TokenType)
        → Reaches n t
        → (cls : Text) × ((get_chroma_class chroma (suc n) t ≡ some cls) × Lacks b'>' cls)
    unfolding get_chroma_class
    get_chroma_class_total zero t h =
        (class_or_empty (chroma.standard_types t), (rw h refl, doc.names t))
    get_chroma_class_total (suc n) t h = elim (Bool-cases (chroma.is_zero t)) [
      | inl z ↦ (class_or_empty (chroma.standard_types t), (rw z refl, doc.names t))
      | inr z ↦ elim (Option-cases (chroma.standard_types t)) [
        | inl e ↦ rw (z, e) (get_chroma_class_total n (chroma.parent t) h)
        | inr (cls, e) ↦ (cls, (rw (z, e) refl, rw e at (doc.names t)))
      ]
    ]

    style_attr_total :
        (t : chroma.TokenType)
        → (attr : Text) × ((style_attr chroma t ≡ some attr) × Lacks b'>' attr)
    unfolding style_attr
    style_attr_total t =
        let r = get_chroma_class_total 3 t (doc.depth t) in
        elim (Bool-cases (text_eq r.0 [])) [
          | inl e ↦ ([], (rw (style_attr, r.1.0, e) refl, tt))
          | inr e ↦ (
            codes " class=\"" ++ (r.0 ++ codes "\""),
            (
              rw (style_attr, r.1.0, e) refl,
              All-append _ (codes " class=\"") (r.0 ++ codes "\"") in_class
                  (All-append _ r.0 (codes "\"") r.1.1 (refl, tt)),
            ),
          )
        ]

    render_tokens_total :
        (tokens : List (chroma.TokenType × Text))
        → (html : Text) × ((render_tokens chroma tokens ≡ some html)
            × (page_text html ≡ token_text tokens))
    unfolding render_tokens
    render_tokens_total [] = ([], (refl, page_text_nil))
    render_tokens_total ((t, value) ∷ tokens) =
        let a = style_attr_total t in
        let later = render_tokens_total tokens in
        (
          _,
          (
            rw (a.1.0, later.1.0) refl,
            read_open_tag a.0 (escape_string value ++ (codes "</span>" ++ later.0)) a.1.1
                ∙ read-escape_string value (codes "</span>" ++ later.0)
                ∙ ap (λ s. value ++ s) (read_close_tag later.0 ∙ later.1.1),
          ),
        )

    render_lines_total :
        (lines : List (List (chroma.TokenType × Text)))
        → (html : List Text) × ((render_lines chroma lines ≡ some html)
            × (map page_text html ≡ map token_text lines))
    unfolding render_lines
    render_lines_total [] = ([], (refl, refl))
    render_lines_total (tokens ∷ lines) =
        let first = render_tokens_total tokens in
        let later = render_lines_total lines in
        (first.0 ∷ later.0, (rw (first.1.0, later.1.0) refl, rw (first.1.1, later.1.1)))

  -- Where a lexer is found and gives tokens, the classes of chroma's types hold no `>`, zero is at
  -- most three parents above a type, and cutting tokens at the ends of lines keeps their text,
  -- `getSyntaxHighlightedContent` returns lines of HTML, and a reader of HTML that skips tags and
  -- resolves references sees in them the text of the tokens and nothing else.
  pub get_syntax_highlighted_content-page_text :
      (content language filename : Text) {l : chroma.Lexer}
      {tokens : List (chroma.TokenType × Text)}
      → IsDocumented
      → lexer_of chroma language filename ≡ some l
      → chroma.tokenise (chroma.coalesce l) content ≡ some tokens
      → (lines : List Text) × ((get_syntax_highlighted_content chroma content language filename
            ≡ some lines)
          × (join (map page_text lines) ≡ token_text tokens))
  unfolding get_syntax_highlighted_content
  get_syntax_highlighted_content-page_text content language filename {l} {tokens} doc e f =
      let r = render_lines_total doc (chroma.split_tokens_into_lines tokens) in
      (
        r.0,
        (rw (get_syntax_highlighted_content, e, f) r.1.0, ap join r.1.1 ∙ doc.keeps_text tokens),
      )
