-- ===== src/Query/Terms/RoundTrip.antt =====
-- `ParseQuery` reads a query of plain terms as those terms.
use livegrep.GoText.Space.{is_space, trim_space}
use livegrep.GoText.Space.Trim.{StartsInk, trim_space_id}
use livegrep.Prelude.{
  ℕ, ◌+◌, ◌*◌, ◌≤◌, ◌≡◌, refl, ap, ◌∙◌, ◌≢◌, Bool, true, false, Option, none, some, [], ◌∷◌, ◌++◌,
  append-nil, append_assoc, arith, reverse, Text, text_eq_iff, length, length-append, All,
}
use livegrep.Query.Build.{build_query, parse_query}
use livegrep.Query.Piece.{is_key_char}
use livegrep.Query.Terms.{render_term, is_plain, render_terms, Distinct, IsTerm}
use livegrep.Query.Terms.Loop.{Unset, parse_loop-render_terms, collect}
use livegrep.Query.Terms.Pieces.{known_tags-IsKey}
use livegrep.Query.Types.{known_tags, Ops, get_op}
use mathlib.Core.List.{cons-ne-nil, reverse-append}
use mathlib.Core.Path.{fun_ext}

abbrev or_else : Option Text → Option Text → Option Text
or_else none o = o
or_else (some v) o = some v

get_op-collect :
    (ts ops : Ops) (k : Text)
    → Distinct ts
    → get_op (collect ts ops) k ≡ or_else (get_op ts k) (get_op ops k)
unfolding get_op
get_op-collect [] ops k d = refl
get_op-collect ((j, v) ∷ ts) ops k (d, ds) = ground (
  arith,
  get_op-collect ts ((j, v) ∷ ops) k ds,
  text_eq_iff j k,
  ap (λ (x : Text). get_op ts x) {x = j} {y = k},
)

plain-ne-space : (c : ℕ) → is_plain c ≡ true → is_space c ≡ false
plain-ne-space c h = ground arith

-- A text that ends in plain characters ends in no space.
StartsInk-reverse :
    (p v : Text) → v ≢ [] → All (λ c. is_plain c ≡ true) v → StartsInk (reverse (p ++ v))
StartsInk-reverse p [] ne h = absurd (ne refl)
StartsInk-reverse p (c ∷ []) ne (h, _) = rw (reverse-append p (c ∷ [])) (plain-ne-space c h)
StartsInk-reverse p (c ∷ (d ∷ v)) ne (h, hs) =
    rw (← append_assoc p (c ∷ []) (d ∷ v))
      (StartsInk-reverse (p ++ c ∷ []) (d ∷ v) (cons-ne-nil d v) hs)

last_term : (p : Text) (t : Text × Text) → p ++ render_term t [] ≡ (p ++ (t.0 ++ b':' ∷ [])) ++ t.1
last_term p t = simp (append_assoc, append-nil)

first_term :
    (p : Text) (t : Text × Text) (rest : Text)
    → p ++ render_term t (b' ' ∷ rest) ≡ (p ++ (t.0 ++ (b':' ∷ (t.1 ++ b' ' ∷ [])))) ++ rest
first_term p t rest = simp append_assoc

render_terms-StartsInk_end :
    (p : Text) (t : Text × Text) (ts : Ops)
    → All IsTerm (t ∷ ts)
    → StartsInk (reverse (p ++ render_terms (t ∷ ts)))
render_terms-StartsInk_end p t [] (w, _) =
    rw (last_term p t) (StartsInk-reverse (p ++ (t.0 ++ b':' ∷ [])) t.1 w.value_ne_nil w.plain)
render_terms-StartsInk_end p t (u ∷ ts) (w, ws) =
    rw (first_term p t (render_terms (u ∷ ts)))
      (render_terms-StartsInk_end (p ++ (t.0 ++ (b':' ∷ (t.1 ++ b' ' ∷ [])))) u ts ws)

key_char-ne-space : (c : ℕ) → is_key_char c ≡ true → is_space c ≡ false
unfolding is_key_char is_space
key_char-ne-space c h = ground arith

render_term-StartsInk : (k rest : Text) → known_tags k ≡ true → StartsInk (k ++ rest)
render_term-StartsInk [] rest e = absurd ((known_tags-IsKey [] e).1 refl)
render_term-StartsInk (c ∷ k) rest e = key_char-ne-space c (known_tags-IsKey (c ∷ k) e).0.0

render_terms-StartsInk :
    (t : Text × Text) (ts : Ops) → All IsTerm (t ∷ ts) → StartsInk (render_terms (t ∷ ts))
render_terms-StartsInk t [] (w, _) = render_term-StartsInk t.0 _ w.known
render_terms-StartsInk t (u ∷ ts) (w, _) = render_term-StartsInk t.0 _ w.known

length_known : (k : Text) → known_tags k ≡ true → 1 ≤ length k
length_known [] e = absurd ((known_tags-IsKey [] e).1 refl)
length_known (c ∷ k) e = omega arith

-- The text begins and ends with a character that is no space.
render_terms-trim :
    (t : Text × Text) (ts : Ops)
    → All IsTerm (t ∷ ts)
    → trim_space (render_terms (t ∷ ts)) ≡ render_terms (t ∷ ts)
render_terms-trim t ts w =
    trim_space_id (render_terms (t ∷ ts)) (render_terms-StartsInk t ts w)
      (render_terms-StartsInk_end [] t ts w)

length-render_terms :
    (t : Text × Text) (ts : Ops)
    → All IsTerm (t ∷ ts)
    → 2 * length (t ∷ ts) ≤ length (render_terms (t ∷ ts)) + 1
length-render_terms t [] (w, _) =
    omega (arith, length-append t.0 (b':' ∷ (t.1 ++ [])), length_known t.0 w.known)
length-render_terms t (u ∷ ts) (w, ws) = omega (
  arith,
  length-append t.0 (b':' ∷ (t.1 ++ (b' ' ∷ render_terms (u ∷ ts)))),
  length-append t.1 (b' ' ∷ render_terms (u ∷ ts)),
  length_known t.0 w.known,
  length-render_terms u ts ws,
)

Unset-nil : (ts : Ops) → Unset ts []
unfolding get_op
Unset-nil [] = tt
Unset-nil (t ∷ ts) = (refl, Unset-nil ts)

or_else_none : (o : Option Text) → or_else o (get_op [] []) ≡ o
unfolding get_op
or_else_none none = refl
or_else_none (some v) = refl

-- A query of distinct known operators with plain values, written with a blank between them, parses
-- to exactly the query that is built from these operators and values.
pub parse_query-render_terms :
    (global_regex : Bool) (t : Text × Text) (ts : Ops)
    → All IsTerm (t ∷ ts)
    → Distinct (t ∷ ts)
    → parse_query (render_terms (t ∷ ts)) global_regex
      ≡ some (build_query global_regex (get_op (t ∷ ts)))
unfolding parse_query get_op
parse_query-render_terms global_regex t ts w d = rw (
  render_terms-trim t ts w,
  parse_loop-render_terms (length (render_terms (t ∷ ts)) + 1) global_regex t ts [] global_regex
      true (length-render_terms t ts w) w d (Unset-nil (t ∷ ts)),
  fun_ext (λ k. get_op-collect (t ∷ ts) [] k d ∙ or_else_none (get_op (t ∷ ts) k)),
)
