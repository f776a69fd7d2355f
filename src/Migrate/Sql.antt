-- ===== src/Migrate/Sql.antt =====
-- `split_statements` of src/analyzer_ng/db/migrate.py: the loop over the characters of a script, where
-- `skip` counts the characters that an advance of the index by more than one leaves out.
pub mod Pieces
pub mod Script
use reportportal_analyzer_ng.Prelude.{
  ◌==◌, if◌then◌else◌, length, is_empty, ℕ, zero, suc, ◌-◌, ◌≡◌, refl, Bool, true, false, not, ◌&&◌,
  ◌||◌, Option, none, some, List, [], ◌∷◌, ◌++◌,
}
use reportportal_analyzer_ng.Text.{Text, codes, between, strip}

pub record Scan : Type 0 where
  pub statements : List Text
  pub buffer : Text
  pub in_single_quote : Bool
  pub dollar_tag : Option Text
  pub skip : ℕ

abbrev pub starts_with : Text → Text → Bool
starts_with [] t = true
starts_with (p ∷ ps) [] = false
starts_with (p ∷ ps) (c ∷ t) = let rest = starts_with ps t in p == c && rest

-- the characters up to a newline, or to the end
abbrev pub to_newline : Text → ℕ
to_newline [] = 0
to_newline (c ∷ t) = let rest = to_newline t in if c == b'\n' then 0 else suc rest

-- `[A-Za-z_0-9]`
abbrev pub is_tag_char : ℕ → Bool
is_tag_char c = between b'A' b'Z' c || between b'a' b'z' c || c == b'_' || between b'0' b'9' c

abbrev pub tag_after : ℕ → Option Text → Option Text
tag_after c none = none
tag_after c (some tag) = some (c ∷ tag)

-- the rest of a dollar tag, to its closing dollar
abbrev pub tag_rest : Text → Option Text
tag_rest [] = none
tag_rest (c ∷ t) =
    let later = tag_after c (tag_rest t) in
    if c == b'$' then some (b'$' ∷ []) else if is_tag_char c then later else none

abbrev pub starts_quote : Text → Bool
starts_quote [] = false
starts_quote (c ∷ t) = c == b'\''

abbrev pub starts_dash : Text → Bool
starts_dash [] = false
starts_dash (c ∷ t) = c == b'-'

-- a statement that is not blank goes into the list
abbrev pub close_statement : Text → List Text → List Text
close_statement buffer statements =
    let statement = strip buffer in
    if is_empty statement then statements else statements ++ statement ∷ []

abbrev pub put : Scan → Text → Scan
put st t = record st { buffer = st.buffer ++ t }

abbrev pub in_dollar : Text → Scan → ℕ → Text → Scan
in_dollar tag st c rest =
    if starts_with tag (c ∷ rest)
    then record (put st tag) { dollar_tag = none; skip = length tag - 1 }
    else put st (c ∷ [])

abbrev pub in_single : Scan → ℕ → Text → Scan
in_single st c rest =
    if c == b'\''
    then if starts_quote rest
      then record (put st (b'\'' ∷ b'\'' ∷ [])) { skip = 1 }
      else record (put st (c ∷ [])) { in_single_quote = false }
    else put st (c ∷ [])

abbrev pub after_dollar : Option Text → Scan → Scan
after_dollar none st = put st (b'$' ∷ [])
after_dollar (some tag) st = record (put st (b'$' ∷ tag)) {
  dollar_tag = some (b'$' ∷ tag);
  skip = length tag;
}

abbrev pub at_top : Scan → ℕ → Text → Scan
at_top st c rest =
    if c == b'-' && starts_dash rest
    then record st { skip = to_newline rest }
    else if c == b'\''
    then record (put st (c ∷ [])) { in_single_quote = true }
    else if c == b'$'
    then after_dollar (tag_rest rest) st
    else if c == b';'
    then record st { statements = close_statement st.buffer st.statements; buffer = [] }
    else put st (c ∷ [])

-- one character, with the text after it
abbrev pub scan_char : ℕ → Option Text → Bool → Scan → ℕ → Text → Scan
scan_char (suc skip) tag quoted st c rest = record st { skip = skip }
scan_char zero (some tag) quoted st c rest = in_dollar tag st c rest
scan_char zero none true st c rest = in_single st c rest
scan_char zero none false st c rest = at_top st c rest

unfoldable pub scan : Scan → Text → Scan
scan st [] = st
scan st (c ∷ rest) = scan (scan_char st.skip st.dollar_tag st.in_single_quote st c rest) rest

-- at the top level of the script
abbrev pub top : List Text → Text → Scan
top statements buffer = record {
  statements = statements;
  buffer = buffer;
  in_single_quote = false;
  dollar_tag = none;
  skip = 0;
}

abbrev pub with_tail : Scan → List Text
with_tail st = close_statement st.buffer st.statements

unfoldable pub split_statements : Text → List Text
unfolding scan
split_statements sql_text = with_tail (scan (top [] []) sql_text)
