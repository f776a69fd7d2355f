-- ===== src/Excerpt/Tests.antt =====
-- A log of three lines with a small budget, and one that the budget does not cut.
use reportportal_analyzer_ng.Prelude.{◌==◌, ◌≡◌, refl, Bool, false, not, some, arith}
use reportportal_analyzer_ng.Text.{Text, codes, text_eq, strip}
use reportportal_analyzer_ng.Excerpt.{lines_of, root_block_bounds, decimal, render, middle_out}
use reportportal_analyzer_ng.Excerpt.Budget.{middle_out_lem}

abbrev log : Text
log = codes "aaaaaaaaaa\nE: bbbbbbb\ncccccccccc"

abbrev is_e : Text → Bool
is_e line = text_eq line (codes "E: bbbbbbb")

abbrev never : Text → Bool
never line = false

cuts : middle_out never is_e log 8 ≡ some (codes "E: bbbbbbb\ncccccccccc")
unfolding middle_out render root_block_bounds strip lines_of
cuts = refl

marks :
    render (lines_of log) (λ i. not (i == 1))
    ≡ codes "aaaaaaaaaa\n... [1 lines elided by analyzer] ...\ncccccccccc"
unfolding render decimal lines_of
marks = refl

middle_out_lem_example : middle_out never is_e log 10 ≡ some log
middle_out_lem_example = (middle_out_lem never is_e log 10).0 (omega arith)
