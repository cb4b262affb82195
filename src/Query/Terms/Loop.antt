-- ===== src/Query/Terms/Loop.antt =====
-- The loop of `ParseQuery` over a query of plain terms: two rounds for each.
use livegrep.GoText.Space.Trim.{trim_space_nil}
use livegrep.Prelude.{
  ℕ, zero, suc, ◌*◌, ◌≤◌, ◌≡◌, refl, sym, ◌∙◌, ◌≢◌, Bool, true, false, none, some, [], ◌∷◌, ◌++◌,
  append-nil, arith, if◌then◌else◌, Text, codes, text_eq, text_eq_iff, length, All,
}
use livegrep.Query.Loop.{parsed, finished, ParseState, continue, parse_loop, round}
use livegrep.Query.Terms.{render_terms, Distinct, IsTerm, is_plain}
use livegrep.Query.Terms.Pieces.{find_piece-plain_end, find_piece-known, find_piece-plain}
use livegrep.Query.Types.{Ops, get_op, known_tags}
use mathlib.Core.List.{cons-ne-nil}

-- the operators in the order in which the loop sets them
abbrev pub collect : Ops → Ops → Ops
collect [] ops = ops
collect ((k, v) ∷ ts) ops = collect ts ((k, v) ∷ ops)

abbrev at_term : Ops → Text → Text → Bool → Bool → ParseState
at_term ops key q in_regex just_got_space = record {
  ops = ops;
  key = key;
  term = [];
  q = q;
  in_regex = in_regex;
  just_got_space = just_got_space;
}

module _ (global_regex : Bool) where
  round-operator :
      (ops : Ops) (k rest : Text) (in_regex just_got_space : Bool)
      → known_tags k ≡ true
      → round global_regex (at_term ops [] (k ++ (b':' ∷ rest)) in_regex just_got_space)
        ≡ continue (at_term ops k rest (if text_eq k (codes "lit") then false else in_regex) false)
  unfolding round
  round-operator ops k rest in_regex just_got_space e =
      rw (find_piece-known k rest e, round, e, trim_space_nil)

  round-blank :
      (ops : Ops) (key v rest : Text) (in_regex : Bool)
      → key ≢ []
      → get_op ops key ≡ none
      → All (λ c. is_plain c ≡ true) v
      → round global_regex (at_term ops key (v ++ (b' ' ∷ rest)) in_regex false)
        ≡ continue (at_term ((key, v) ∷ ops) [] rest global_regex true)
  unfolding round get_op
  round-blank ops [] v rest in_regex ne e h = absurd (ne refl)
  round-blank ops (c ∷ key) v rest in_regex ne e h = rw (find_piece-plain true v rest h, round, e)

  round-end :
      (ops : Ops) (key v : Text) (in_regex : Bool)
      → get_op ops key ≡ none
      → All (λ c. is_plain c ≡ true) v
      → round global_regex (at_term ops key v in_regex false) ≡ finished ((key, v) ∷ ops)
  unfolding round get_op
  round-end ops key v in_regex e h = rw (find_piece-plain_end true v h, round, e)

  parse_loop-continue :
      (fuel : ℕ) (s s' : ParseState)
      → round global_regex s ≡ continue s'
      → parse_loop (suc fuel) global_regex s ≡ parse_loop fuel global_regex s'
  unfolding parse_loop
  parse_loop-continue fuel s s' e = rw (e, parse_loop)

  parse_loop-finished :
      (fuel : ℕ) (s : ParseState) (ops : Ops)
      → round global_regex s ≡ finished ops
      → parse_loop (suc fuel) global_regex s ≡ some (parsed ops)
  unfolding parse_loop
  parse_loop-finished fuel s ops e = rw (e, parse_loop)

-- none of the operators of `ts` is set
abbrev pub Unset : Ops → Ops → Type 0
Unset ts ops = All (λ (t : Text × Text). get_op ops t.0 ≡ none) ts

Unset-set :
    (ts : Ops) (k v : Text) (ops : Ops)
    → get_op ts k ≡ none
    → Unset ts ops
    → Unset ts ((k, v) ∷ ops)
unfolding get_op
Unset-set [] k v ops e h = tt
Unset-set ((j, w) ∷ ts) k v ops e (p, h) =
    ground (arith, Unset-set ts k v ops, text_eq_iff j k, text_eq_iff k j)

known_tags_nil : known_tags [] ≡ false
unfolding known_tags
known_tags_nil = refl

known-ne-nil : (k : Text) → known_tags k ≡ true → k ≢ []
known-ne-nil [] e = absurd (cc (sym known_tags_nil ∙ e))
known-ne-nil (c ∷ k) e = cons-ne-nil c k

pub parse_loop-render_terms :
    (fuel : ℕ) (global_regex : Bool) (t : Text × Text) (ts ops : Ops)
    (in_regex just_got_space : Bool)
    → 2 * length (t ∷ ts) ≤ fuel
    → All IsTerm (t ∷ ts)
    → Distinct (t ∷ ts)
    → Unset (t ∷ ts) ops
    → parse_loop fuel global_regex (at_term ops [] (render_terms (t ∷ ts)) in_regex just_got_space)
      ≡ some (parsed (collect (t ∷ ts) ops))
parse_loop-render_terms zero g t ts ops ir js f w d u = absurd (omega arith)
parse_loop-render_terms (suc zero) g t ts ops ir js f w d u = absurd (omega arith)
parse_loop-render_terms (suc (suc fuel)) g t [] ops ir js f (w, _) d (u, _) =
    parse_loop-continue g (suc fuel) _ _ (round-operator g ops t.0 _ ir js w.known)
    ∙ rw append-nil (parse_loop-finished g fuel _ _ (round-end g ops t.0 t.1 _ u w.plain))
parse_loop-render_terms (suc (suc fuel)) g t (t' ∷ ts) ops ir js f (w, ws) (d, ds) (u, us) =
    parse_loop-continue g (suc fuel) _ _ (round-operator g ops t.0 _ ir js w.known)
    ∙ parse_loop-continue g fuel _ _
        (round-blank g ops t.0 t.1 _ _ (known-ne-nil t.0 w.known) u w.plain)
    ∙ parse_loop-render_terms fuel g t' ts ((t.0, t.1) ∷ ops) g true (omega arith) ws ds
        (Unset-set (t' ∷ ts) t.0 t.1 ops d us)
