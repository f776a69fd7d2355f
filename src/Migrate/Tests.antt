-- ===== src/Migrate/Tests.antt =====
-- A small database: the ledger, and the statements that ran. The statement `bad` fails.
use mathlib.Core.Path.{subst}
use reportportal_analyzer_ng.Prelude.{
  arith, In, ◌≢◌, if◌then◌else◌, Bool-cases, ℕ, ◌≡◌, refl, ap, ◌⊎◌, inl, inr, Bool, true, false,
  Option, some, List, [], ◌∷◌, map,
}
use reportportal_analyzer_ng.Text.{Text, codes, text_eq, strip}
use reportportal_analyzer_ng.Migrate.Sql.{split_statements}
use reportportal_analyzer_ng.Migrate.Sql.Pieces.{
  Piece, plain, dash, semicolon, literal, comment, dollar, source_all,
}
use reportportal_analyzer_ng.Migrate.Sql.Script.{split_statements-source_all}
use reportportal_analyzer_ng.Migrate.Files.{
  File, Migration, Row, found, Refusal, normalize_bytes, has_no_transaction_marker, version_of,
  discover_migrations, verify_applied, select_pending,
}
use reportportal_analyzer_ng.Migrate.Files.Found.{discover_migrations_lem}
use reportportal_analyzer_ng.Migrate.Files.Order.{IsAscending}
use reportportal_analyzer_ng.Migrate.Run.{
  Command, advisory_lock, advisory_unlock, set_search_path, create_ledger, set_local_path,
  statement, insert_row, Connection, refused, failed, raised, row_of, apply_migrations,
}
use reportportal_analyzer_ng.Migrate.Run.Laws.{is_setting, placed, Laws, IsSeparate}
use reportportal_analyzer_ng.Migrate.Run.Ledger.{
  Advances, idle, apply_migrations-Advances, apply_migrations-refused,
}

abbrev Db : Type 0
Db = List Row × List Text

abbrev execute : Command → Db → Db × Bool
execute (statement t) db = if text_eq t (codes "bad") then (db, false) else ((db.0, t ∷ db.1), true)
execute (insert_row row) db = ((placed row db.0, db.1), true)
execute _ db = (db, true)

abbrev transaction : (Db → Db × Bool) → Db → Db × Bool
transaction body db = if (body db).1 then body db else (db, false)

abbrev conn : Connection Db
conn = record { execute = execute; rows = λ db. db.0; transaction = transaction }

execute_setting : (c : Command) (db : Db) → is_setting c ≡ true → (execute c db).0.0 ≡ db.0
execute_setting advisory_lock db h = cc
execute_setting advisory_unlock db h = refl
execute_setting set_search_path db h = refl
execute_setting create_ledger db h = refl
execute_setting set_local_path db h = refl
execute_setting (statement t) db h = cc
execute_setting (insert_row row) db h = cc

rolled_back :
    (body : Db → Db × Bool) (db : Db)
    → (transaction body db).1 ≡ false
    → (transaction body db).0.0 ≡ db.0
rolled_back body db h = elim (Bool-cases (body db).1) [ inl e ↦ cc | inr e ↦ rw e refl ]

committed :
    (body : Db → Db × Bool) (db : Db)
    → (transaction body db).1 ≡ true
    → (body db).1 ≡ true × ((transaction body db).0.0 ≡ (body db).0.0)
committed body db h = elim (Bool-cases (body db).1) [ inl e ↦ (e, rw e refl) | inr e ↦ cc ]

laws : Laws conn
laws = record {
  setting = execute_setting;
  inserted = λ row db h. refl;
  not_inserted = λ row db h. cc;
  rolled_back = rolled_back;
  committed = committed;
}

separate : (ms : List Migration) → IsSeparate conn ms
separate ms m i t j db = elim (Bool-cases (text_eq t (codes "bad"))) [
  | inl e ↦ rw e refl
  | inr e ↦ rw e refl
]

abbrev pieces : List Piece
pieces =
    comment (codes " one; two")
    ∷ plain b'a'
    ∷ dash
    ∷ plain b'b'
    ∷ literal (codes "it's; --")
    ∷ semicolon
    ∷ plain b' '
    ∷ semicolon
    ∷ dollar (codes "f") (codes " x; $1 ")
    ∷ []

split_statements-source_all_example :
    split_statements (source_all pieces) ≡ codes "a-b'it''s; --'" ∷ codes "$f$ x; $1 $f$" ∷ []
unfolding strip
split_statements-source_all_example = split_statements-source_all pieces refl

abbrev files : List File
files =
    record { name = codes "0001_init.sql"; bytes = codes "one;two" }
    ∷ record { name = codes "0003_more.sql"; bytes = codes "-- analyzer:no-transaction\nthree" }
    ∷ record { name = codes "0004_last.sql"; bytes = codes "four;bad" }
    ∷ []

abbrev hash : List ℕ → Text
hash bytes = bytes

abbrev decode : List ℕ → Option Text
decode bytes = some bytes

abbrev migration : ℕ → Text → Text → Bool → Migration
migration v name text marked = record {
  version = v;
  filename = name;
  checksum = text;
  sql = text;
  no_transaction = marked;
}

abbrev migrations : List Migration
migrations =
    migration 1 (codes "0001_init.sql") (codes "one;two") false
    ∷ migration 3 (codes "0003_more.sql") (codes "-- analyzer:no-transaction\nthree") true
    ∷ migration 4 (codes "0004_last.sql") (codes "four;bad") false
    ∷ []

abbrev fresh : Db
fresh = ([], [])

discovers : discover_migrations hash decode files ≡ found migrations
unfolding discover_migrations has_no_transaction_marker version_of normalize_bytes strip
discovers = refl

-- the last file fails, and nothing of it stays
fails : (apply_migrations conn hash decode true files fresh) ≡ (
  (
    map row_of (
        migration 1 (codes "0001_init.sql") (codes "one;two") false
        ∷ migration 3 (codes "0003_more.sql") (codes "-- analyzer:no-transaction\nthree") true
        ∷ []),
    codes "three" ∷ codes "two" ∷ codes "one" ∷ [],
  ),
  failed 4,
)
unfolding apply_migrations discover_migrations has_no_transaction_marker version_of normalize_bytes
    verify_applied select_pending split_statements strip
fails = refl

discover_migrations_lem_example : IsAscending migrations
discover_migrations_lem_example = (discover_migrations_lem hash decode files migrations discovers).0

apply_migrations-Advances_example :
    Advances conn [] migrations (apply_migrations conn hash decode true files fresh)
apply_migrations-Advances_example =
    apply_migrations-Advances conn laws hash decode true files migrations fresh discovers
      (separate migrations)

abbrev drifted : Db
drifted =
    (record { version = 1; filename = codes "0001_init.sql"; checksum = codes "one" } ∷ [], [])

lost : (m : Migration) → In m migrations → m.version ≡ 1 → m.checksum ≢ codes "one"
lost m (inl e) v c =
    let k : text_eq (codes "one;two") (codes "one") ≡ true =
      subst (λ z. text_eq z.checksum (codes "one") ≡ true) e
        (ap (λ z. text_eq z (codes "one")) c) in
    cc
lost m (inr (inl e)) v c = let k : 3 ≡ 1 = subst (λ z. z.version ≡ 1) e v in omega (arith, k)
lost m (inr (inr (inl e))) v c = let k : 4 ≡ 1 = subst (λ z. z.version ≡ 1) e v in omega (arith, k)
lost m (inr (inr (inr i))) v c = absurd i

apply_migrations-refused_example :
    let result = apply_migrations conn hash decode false files drifted in
    (result.0 ≡ idle conn false drifted)
    × (((r : Refusal) × (result.1 ≡ refused r)) ⊎ (result.1 ≡ raised))
apply_migrations-refused_example =
    apply_migrations-refused conn laws hash decode false files migrations drifted
      (record { version = 1; filename = codes "0001_init.sql"; checksum = codes "one" }) discovers
      (inl refl) lost

abbrev good : List File
good = record { name = codes "1_a.sql"; bytes = codes "one" } ∷ []

abbrev migrated : Db
migrated = (
  record { version = 1; filename = codes "1_a.sql"; checksum = codes "one" } ∷ [],
  codes "one" ∷ [],
)

abbrev good_files : List Migration
good_files = migration 1 (codes "1_a.sql") (codes "one") false ∷ []

splits_script :
    split_statements (codes "a -- x;\n;b ';''' c;  ; $x$ ; $$ $x$")
    ≡ codes "a" ∷ codes "b ';''' c" ∷ codes "$x$ ; $$ $x$" ∷ []
unfolding split_statements strip
splits_script = refl
