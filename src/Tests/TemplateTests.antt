-- ===== src/Tests/TemplateTests.antt =====
-- The theorems about `server/templates/templates.go` at concrete lines.
use livegrep.Diff.{unset}
use livegrep.Diff.Rows.{IDiffRow, row_hunk}
use livegrep.Prelude.{
  ℕ, ◌-◌, ◌^◌, ◌≡◌, refl, true, false, List, [], ◌∷◌, arith, map, Text, codes, text_eq,
}
use livegrep.Runtime.{slice_out_of_range, Run, ret, panic}
use livegrep.Templates.CodeLine.{
  match_part, slice, plain_part, render_loop, CodePart, render_code_line,
}
use livegrep.Templates.CodeLine.Cover.{render_code_line-Renders, cut, Renders}
use livegrep.Templates.DiffRow.{get_diff_row_type, get_class_from_row_type}
use livegrep.Templates.Listing.{should_insert_blank_line}

run : Text → List (ℕ × ℕ) → Run (List CodePart)
unfolding render_code_line render_loop slice
run = render_code_line

abbrev line : Text
line = codes "int foo = foo(1);"

abbrev parts : List CodePart
parts =
    plain_part (codes "int ")
    ∷ match_part (codes "foo")
    ∷ plain_part (codes " = ")
    ∷ match_part (codes "foo")
    ∷ plain_part (codes "(1);")
    ∷ []

parts_run : render_code_line line ((4, 7) ∷ (10, 13) ∷ []) ≡ ret parts
unfolding run
parts_run = refl

-- a negative bound
negative_run : render_code_line line ((2 ^ 64 - 1, 7) ∷ []) ≡ panic slice_out_of_range
unfolding run
negative_run = refl

render_code_line-Renders_example :
    Renders
      (render_code_line line ((4, 7) ∷ (10, 13) ∷ []))
      line
      (map (cut line) ((4, 7) ∷ (10, 13) ∷ []))
render_code_line-Renders_example =
    render_code_line-Renders line (4, 7) ((10, 13) ∷ []) (omega arith)
      (omega arith, omega arith, omega arith, (omega arith, omega arith, omega arith, omega arith))

row_classes : IDiffRow → Text
unfolding get_diff_row_type get_class_from_row_type text_eq
row_classes r = get_class_from_row_type (get_diff_row_type r)

hunk_row_class :
    row_classes (row_hunk (record { content = []; expansion_type = unset; hunk_index = 0 }))
    ≡ codes "hunk-row"
unfolding row_classes
hunk_row_class = refl

blank_lines :
    (should_insert_blank_line 1 (7 ∷ 8 ∷ 12 ∷ []) ≡ ret false)
    × (should_insert_blank_line 2 (7 ∷ 8 ∷ 12 ∷ []) ≡ ret true)
unfolding should_insert_blank_line
blank_lines = (refl, refl)
