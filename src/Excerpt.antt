-- ===== src/Excerpt.antt =====
-- src/analyzer_ng/llm/excerpt.py: the excerpt of a log that fits its slice of the model's context. The two
-- regular expressions, which the standard library matches, are parameters, as tests of a line.
pub mod Budget
mod Tests
use reportportal_analyzer_ng.Prelude.{
  ltb, leb, ◌==◌, if◌then◌else◌, length, is_empty, ℕ, zero, suc, ◌+◌, ◌-◌, ◌*◌, ◌/◌, ◌%◌, Bool,
  true, false, not, ◌&&◌, ◌||◌, Option, none, some, List, [], ◌∷◌, ◌++◌,
}
use reportportal_analyzer_ng.Text.{Text, codes, split, strip}

abbrev pub head_lines : ℕ
head_lines = 15

abbrev pub tail_lines : ℕ
tail_lines = 10

abbrev pub root_max_lines : ℕ
root_max_lines = 40

-- `math.ceil(len(text) * 11 / 40)`
abbrev pub estimate_tokens : Text → ℕ
estimate_tokens text = (length text * 11 + 39) / 40

-- the place of the root exception block, and how many lines it has
pub record Block : Type 0 where
  pub start : ℕ
  pub size : ℕ

-- `text.split("\n")`: the first line, and the others
lines_from : Text → Text × List Text
lines_from [] = ([], [])
lines_from (c ∷ t) =
    let (line, lines) = lines_from t in if c == b'\n' then ([], line ∷ lines) else (c ∷ line, lines)

unfoldable pub lines_of : Text → List Text
unfolding lines_from
lines_of text = let (line, lines) = lines_from text in line ∷ lines

-- the lines after the first of a block that are in it, at most so many
abbrev block_rest : ℕ → List Text → ℕ
block_rest zero lines = 0
block_rest (suc limit) [] = 0
block_rest (suc limit) (line ∷ lines) =
    let later = block_rest limit lines in if is_empty (strip line) then 0 else suc later

abbrev block_at : ℕ → List Text → Block
block_at place lines = record { start = place; size = suc (block_rest (root_max_lines - 1) lines) }

abbrev last_or : Option Block → Block → Bool → Option Block
last_or (some b) here found = some b
last_or none here true = some here
last_or none here false = none

abbrev first_or : Option Block → Block → Bool → Option Block
first_or later here true = some here
first_or later here false = later

-- the block of the last, or of the first line that passes the test
abbrev last_block : (Text → Bool) → ℕ → List Text → Option Block
last_block test place [] = none
last_block test place (line ∷ lines) =
    last_or (last_block test (place + 1) lines) (block_at place lines) (test line)

abbrev first_block : (Text → Bool) → ℕ → List Text → Option Block
first_block test place [] = none
first_block test place (line ∷ lines) =
    first_or (first_block test (place + 1) lines) (block_at place lines) (test line)

abbrev or_else : Option Block → Option Block → Option Block
or_else (some b) other = some b
or_else none other = other

unfoldable pub root_block_bounds : (Text → Bool) → (Text → Bool) → List Text → Option Block
root_block_bounds caused_by exception lines =
    or_else (last_block caused_by 0 lines) (first_block exception 0 lines)

digits : ℕ → ℕ → Text → Text
digits zero n after = after
digits (suc fuel) n after =
    let more = digits fuel (n / 10) ((b'0' + n % 10) ∷ after) in
    if leb 10 n then more else (b'0' + n) ∷ after

-- a number has no more digits than one more than itself
unfoldable pub decimal : ℕ → Text
unfolding digits
decimal n = digits (suc n) n []

abbrev marker : ℕ → Text
marker elided = codes "... [" ++ decimal elided ++ codes " lines elided by analyzer] ..."

abbrev gap : Option ℕ → ℕ → List Text
gap none place = []
gap (some prev) place = if ltb (prev + 1) place then marker (place - prev - 1) ∷ [] else []

abbrev rendered : (ℕ → Bool) → Option ℕ → ℕ → List Text → List Text
rendered keeps prev place [] = []
rendered keeps prev place (line ∷ lines) =
    let rest = rendered keeps (if keeps place then some place else prev) (place + 1) lines in
    if keeps place then gap prev place ++ line ∷ rest else rest

-- `"\n".join(lines)`
abbrev pub join_lines : List Text → Text
join_lines [] = []
join_lines (line ∷ []) = line
join_lines (line ∷ next ∷ lines) = line ++ b'\n' ∷ join_lines (next ∷ lines)

unfoldable pub render : List Text → (ℕ → Bool) → Text
render lines keeps = join_lines (rendered keeps none 0 lines)

-- the windows of one turn of the loop
pub record Window : Type 0 where
  pub head : ℕ
  pub tail : ℕ
  pub root : ℕ

abbrev in_block : Option Block → ℕ → ℕ → Bool
in_block none root place = false
in_block (some b) root place = leb b.start place && ltb place (b.start + root)

abbrev pub keeps : ℕ → Option Block → Window → ℕ → Bool
keeps n block w place =
    ltb place w.head || leb (n - w.tail) place && ltb place n || in_block block w.root place

abbrev pub size_of : Option Block → ℕ
size_of none = 0
size_of (some b) = b.size

-- the window after one that does not fit
abbrev pub shrunk : Window → Option Window
shrunk w =
    if ltb 0 w.tail
    then some (record w { tail = w.tail - 1 })
    else if ltb 0 w.head
    then some (record w { head = w.head - 1 })
    else if ltb 1 w.root
    then some (record w { root = w.root - 1 })
    else none

module _ (max_tokens : ℕ) (show : Window → Text) where
  abbrev pub fits : Window → Bool
  fits w = leb (estimate_tokens (show w)) max_tokens

  abbrev pub or_shown : Window → Option Window → (Window → Option Text) → Option Text
  or_shown w none next = some (show w)
  or_shown w (some smaller) next = next smaller

  -- the loop, with a bound on its turns
  pub shrink : ℕ → Window → Option Text
  shrink zero w = none
  shrink (suc fuel) w =
      let smaller = or_shown w (shrunk w) (shrink fuel) in if fits w then some (show w) else smaller

abbrev pub first_window : Option Block → Window
first_window block = record { head = head_lines; tail = tail_lines; root = size_of block }

abbrev pub shown_lines : List Text → Option Block → Window → Text
shown_lines lines block w = render lines (keeps (length lines) block w)

unfoldable pub middle_out : (Text → Bool) → (Text → Bool) → Text → ℕ → Option Text
unfolding shrink root_block_bounds
middle_out caused_by exception text max_tokens =
    let lines = lines_of text in
    let block = root_block_bounds caused_by exception lines in
    if leb (estimate_tokens text) max_tokens
    then some text
    else shrink max_tokens (shown_lines lines block) (head_lines + tail_lines + size_of block + 1)
        (first_window block)
