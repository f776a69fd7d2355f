-- ===== src/Migrate/Sql/Pieces.antt =====
-- Scripts as sequences of pieces: their text, and the statements that are meant.
use reportportal_analyzer_ng.Prelude.{
  ◌==◌, if◌then◌else◌, all, is_empty, ℕ, Bool, true, not, ◌&&◌, ◌||◌, List, [], ◌∷◌, ◌++◌,
}
use reportportal_analyzer_ng.Text.{Text, strip}
use reportportal_analyzer_ng.Migrate.Sql.{starts_with, is_tag_char, starts_quote, starts_dash}

-- `dollar` has a tag and a body; `comment` ends with its newline.
pub data Piece : Type 0 where
  plain : ℕ → Piece
  dash semicolon : Piece
  literal comment : Text → Piece
  dollar : Text → Text → Piece

abbrev pub doubled_quote : ℕ → Text → Text
doubled_quote c t = if c == b'\'' then b'\'' ∷ b'\'' ∷ t else c ∷ t

-- the quotes of a literal, doubled
abbrev pub doubled : Text → Text
doubled [] = []
doubled (c ∷ t) = doubled_quote c (doubled t)

abbrev pub dollar_text : Text → Text → Text
dollar_text name body = (b'$' ∷ name ++ b'$' ∷ []) ++ (body ++ (b'$' ∷ name ++ b'$' ∷ []))

-- the text of a piece
abbrev pub source : Piece → Text
source (plain c) = c ∷ []
source dash = b'-' ∷ []
source semicolon = b';' ∷ []
source (literal body) = b'\'' ∷ doubled body ++ b'\'' ∷ []
source (comment body) = b'-' ∷ b'-' ∷ body ++ b'\n' ∷ []
source (dollar name body) = dollar_text name body

-- the part of a piece that a statement keeps
abbrev pub kept : Piece → Text
kept (comment body) = b'\n' ∷ []
kept p = source p

abbrev pub source_all : List Piece → Text
source_all [] = []
source_all (p ∷ ps) = source p ++ source_all ps

-- the delimiter does not begin inside the body
abbrev pub is_opaque : Text → Text → Bool
is_opaque tag [] = true
is_opaque tag (c ∷ body) = not (starts_with tag (c ∷ body ++ tag)) && is_opaque tag body

abbrev pub is_plain : ℕ → Bool
is_plain c = not (c == b'-' || c == b'\'' || c == b'$' || c == b';')

abbrev pub is_ok : Piece → Bool
is_ok (plain c) = is_plain c
is_ok (comment body) = all (λ c. not (c == b'\n')) body
is_ok (dollar name body) = all is_tag_char name && is_opaque (b'$' ∷ name ++ b'$' ∷ []) body
is_ok _ = true

-- what may stand after a piece
abbrev pub may_follow : Piece → Text → Bool
may_follow dash t = not (starts_dash t)
may_follow (literal body) t = not (starts_quote t)
may_follow _ t = true

abbrev pub is_script : List Piece → Bool
is_script [] = true
is_script (p ∷ ps) = is_ok p && may_follow p (source_all ps) && is_script ps

-- the statement in front of the others, when it is not blank
abbrev pub put_statement : Text → List Text → List Text
put_statement t statements =
    let statement = strip t in if is_empty statement then statements else statement ∷ statements

-- the statements of a script, with the text kept of the first so far
abbrev pub statements_of : Text → List Piece → List Text
statements_of t [] = put_statement t []
statements_of t (semicolon ∷ ps) = put_statement t (statements_of [] ps)
statements_of t (p ∷ ps) = statements_of (t ++ kept p) ps
