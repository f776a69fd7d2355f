-- ===== src/Migrate/Files.antt =====
-- The files of migrations in src/analyzer_ng/db/migrate.py: `discover_migrations`, the marker in a
-- header, and the comparison with the ledger. The files of the folder, sha256 and the decoding of UTF-8
-- are parameters. A digit of a file name is an ASCII one.
pub mod Order
pub mod Found
pub mod Verified
use reportportal_analyzer_ng.Prelude.{
  leb, ◌==◌, if◌then◌else◌, keep, any, is_empty, ℕ, ◌+◌, ◌-◌, ◌*◌, ◌⊎◌, inl, inr, Bool, true, false,
  not, ◌&&◌, ◌||◌, Option, none, some, List, [], ◌∷◌,
}
use reportportal_analyzer_ng.Text.{Text, codes, text_eq, between, strip}
use reportportal_analyzer_ng.Migrate.Sql.{starts_with}

-- a file of the folder; the files are in the order of their names
pub record File : Type 0 where
  pub name : Text
  pub bytes : List ℕ

pub record Migration : Type 0 where
  pub version : ℕ
  pub filename : Text
  pub checksum : Text
  pub sql : Text
  pub no_transaction : Bool

-- a row of the ledger
pub record Row : Type 0 where
  pub version : ℕ
  pub filename : Text
  pub checksum : Text

pub data Undiscovered : Type 0 where
  bad_name not_utf8 : Text → Undiscovered
  duplicate : ℕ → Undiscovered

pub data Discovered : Type 0 where
  found : List Migration → Discovered
  error : Undiscovered → Discovered

pub data Refusal : Type 0 where
  no_file changed : ℕ → Refusal

-- `data.replace(b"\r\n", b"\n")`
normalize_after : ℕ → Bool → List ℕ → List ℕ
normalize_after c drops t = if c == b'\r' && drops then t else c ∷ t

abbrev starts_newline : List ℕ → Bool
starts_newline [] = false
starts_newline (c ∷ t) = c == b'\n'

unfoldable pub normalize_bytes : List ℕ → List ℕ
unfolding normalize_after
normalize_bytes [] = []
normalize_bytes (c ∷ t) = normalize_after c (starts_newline t) (normalize_bytes t)

-- where `str.splitlines()` ends a line
abbrev is_line_end : ℕ → Bool
is_line_end c = between 10 13 c || between 28 30 c || c == 0x85 || c == 0x2028 || c == 0x2029

-- the first line and the lines after it; the last line may be empty
lines_from : Text → Text × List Text
lines_from [] = ([], [])
lines_from (c ∷ t) =
    let (line, lines) = lines_from t in
    if c == b'\r' && starts_newline t
    then (line, lines)
    else if is_line_end c
    then ([], line ∷ lines)
    else (c ∷ line, lines)

abbrev has_marker : List Text → Bool
has_marker [] = false
has_marker (line ∷ lines) =
    let later = has_marker lines in
    let stripped = strip line in
    if text_eq stripped (codes "-- analyzer:no-transaction")
    then true
    else if not (is_empty stripped) && not (starts_with (codes "--") stripped)
    then false
    else later

unfoldable pub has_no_transaction_marker : Text → Bool
unfolding lines_from
has_no_transaction_marker text = let (line, lines) = lines_from text in has_marker (line ∷ lines)

abbrev is_digit : ℕ → Bool
is_digit c = between b'0' b'9' c

-- `.+\.sql` to the end
abbrev is_sql_name : Text → Bool
is_sql_name [] = false
is_sql_name (c ∷ t) =
    let later = is_sql_name t in not (c == b'\n') && (text_eq t (codes ".sql") || later)

-- `int(match.group(1))` of `^(\d+)_.+\.sql$`, with the digits read so far
version_from : Option ℕ → Text → Option ℕ
version_from n [] = none
version_from none (c ∷ t) =
    let later = version_from (some (c - b'0')) t in if is_digit c then later else none
version_from (some n) (c ∷ t) =
    let later = version_from (some (10 * n + (c - b'0'))) t in
    if is_digit c then later else if c == b'_' && is_sql_name t then some n else none

unfoldable pub version_of : Text → Option ℕ
unfolding version_from
version_of name = version_from none name

-- `sorted(…, key=version)`, stable
pub insert_by_version : Migration → List Migration → List Migration
insert_by_version m [] = m ∷ []
insert_by_version m (n ∷ ns) =
    let later = insert_by_version m ns in if leb m.version n.version then m ∷ n ∷ ns else n ∷ later

unfoldable pub by_version : List Migration → List Migration
unfolding insert_by_version
by_version [] = []
by_version (m ∷ ms) = insert_by_version m (by_version ms)

-- the first version that repeats the one before it
pub repeated : List Migration → Option ℕ
repeated [] = none
repeated (m ∷ []) = none
repeated (m ∷ n ∷ ns) =
    let later = repeated (n ∷ ns) in if n.version == m.version then some n.version else later

abbrev pub checked : List Migration → Option ℕ → Discovered
checked ms none = found ms
checked ms (some v) = error (duplicate v)

module _ (sha256 : List ℕ → Text) (decode : List ℕ → Option Text) where
  abbrev compute_checksum : List ℕ → Text
  compute_checksum bytes = sha256 (normalize_bytes bytes)

  -- a file with its version and its text
  abbrev pub migration_of : File → ℕ → Text → Migration
  migration_of file version text = record {
    version = version;
    filename = file.name;
    checksum = compute_checksum file.bytes;
    sql = text;
    no_transaction = has_no_transaction_marker text;
  }

  abbrev pub read_file : File → Option ℕ → Option Text → Migration ⊎ Undiscovered
  read_file file none text = inr (bad_name file.name)
  read_file file (some v) none = inr (not_utf8 file.name)
  read_file file (some v) (some text) = inl (migration_of file v text)

  abbrev pub read_before :
      Migration ⊎ Undiscovered → List Migration ⊎ Undiscovered → List Migration ⊎ Undiscovered
  read_before (inr e) later = inr e
  read_before (inl m) (inr e) = inr e
  read_before (inl m) (inl ms) = inl (m ∷ ms)

  pub read_all : List File → List Migration ⊎ Undiscovered
  read_all [] = inl []
  read_all (f ∷ fs) =
      read_before (read_file f (version_of f.name) (decode (normalize_bytes f.bytes))) (read_all fs)

  abbrev pub checked_all : List Migration ⊎ Undiscovered → Discovered
  checked_all (inr e) = error e
  checked_all (inl ms) = let sorted = by_version ms in checked sorted (repeated sorted)

  unfoldable pub discover_migrations : List File → Discovered
  unfolding read_all by_version repeated
  discover_migrations files = checked_all (read_all files)

abbrev pub later_or : Migration → Bool → Option Migration → Option Migration
later_or m here (some n) = some n
later_or m true none = some m
later_or m false none = none

-- `by_version.get(version)`
abbrev pub find_version : ℕ → List Migration → Option Migration
find_version v [] = none
find_version v (m ∷ ms) = later_or m (m.version == v) (find_version v ms)

abbrev pub refusal_of : Row → Option Migration → Option Refusal
refusal_of row none = some (no_file row.version)
refusal_of row (some m) =
    if text_eq m.checksum row.checksum then none else some (changed row.version)

abbrev pub first_of : Option Refusal → Option Refusal → Option Refusal
first_of none later = later
first_of (some r) later = some r

unfoldable pub verify_applied : List Row → List Migration → Option Refusal
verify_applied [] ms = none
verify_applied (row ∷ rows) ms =
    first_of (refusal_of row (find_version row.version ms)) (verify_applied rows ms)

abbrev pub is_applied : List Row → ℕ → Bool
is_applied rows v = any (λ row. row.version == v) rows

unfoldable pub select_pending : List Row → List Migration → List Migration
unfolding by_version
select_pending applied ms = by_version (keep (λ m. not (is_applied applied m.version)) ms)
