-- ===== src/Migrate/Run.antt =====
-- `_apply_one` and `apply_migrations` of src/analyzer_ng/db/migrate.py. The connection is a parameter: a
-- command answers whether it succeeded, and `transaction` runs a body between `BEGIN` and `COMMIT`.
-- How long a migration took is left out of its row.
pub mod Laws
pub mod Ledger
pub mod Again
use reportportal_analyzer_ng.Prelude.{
  if◌then◌else◌, ℕ, Bool, true, false, Option, none, some, List, [], ◌∷◌, ◌++◌, map,
}
use reportportal_analyzer_ng.Text.{Text, between}
use reportportal_analyzer_ng.Migrate.Sql.{split_statements}
use reportportal_analyzer_ng.Migrate.Files.{
  File, Migration, Row, Undiscovered, Discovered, found, error, Refusal, discover_migrations,
  verify_applied, select_pending,
}

pub data Command : Type 0 where
  advisory_lock advisory_unlock set_search_path create_ledger set_local_path : Command
  statement : Text → Command
  insert_row : Row → Command

pub record Connection (S : Type 0) : Type 0 where
  pub execute : Command → S → S × Bool
  pub rows : S → List Row
  pub transaction : (S → S × Bool) → S → S × Bool

pub data Outcome : Type 0 where
  applied : List ℕ → Outcome
  refused : Refusal → Outcome
  failed : ℕ → Outcome
  raised : Outcome
  undiscovered : Undiscovered → Outcome

abbrev pub row_of : Migration → Row
row_of m = record { version = m.version; filename = m.filename; checksum = m.checksum }

abbrev pub body_of : Migration → List Command
body_of m = map statement (split_statements m.sql) ++ insert_row (row_of m) ∷ []

module _ {S : Type 0} (conn : Connection S) where
  abbrev after : S × Bool → (S → S × Bool) → S × Bool
  after r next = if r.1 then next r.0 else r

  -- one command after the other, up to one that fails
  pub execute_all : List Command → S → S × Bool
  execute_all [] s = (s, true)
  execute_all (c ∷ cs) s = after (conn.execute c s) (execute_all cs)

  unfoldable pub apply_one : Migration → S → S × Bool
  unfolding execute_all
  apply_one m s =
      if m.no_transaction
      then execute_all (body_of m) s
      else conn.transaction (execute_all (set_local_path ∷ body_of m)) s

  abbrev pub apply_next : Migration → S × Bool → (S → S × Outcome) → S × Outcome
  apply_next m r next = if r.1 then next r.0 else (r.0, failed m.version)

  -- the migrations in turn, with the versions applied so far
  pub apply_pending : List ℕ → List Migration → S → S × Outcome
  unfolding apply_one
  apply_pending done [] s = (s, applied done)
  apply_pending done (m ∷ ms) s =
      apply_next m (apply_one m s) (apply_pending (done ++ m.version ∷ []) ms)

  abbrev pub apply_verified : List Migration → Option Refusal → S → S × Outcome
  apply_verified ms none s = apply_pending [] (select_pending (conn.rows s) ms) s
  apply_verified ms (some r) s = (s, refused r)

  abbrev pub then_or_raise : S × Bool → (S → S × Outcome) → S × Outcome
  then_or_raise r next = if r.1 then next r.0 else (r.0, raised)

  -- the critical section
  unfoldable pub locked : List Migration → S → S × Outcome
  unfolding apply_pending
  locked ms s =
      then_or_raise (execute_all (set_search_path ∷ create_ledger ∷ []) s)
        (λ s. apply_verified ms (verify_applied (conn.rows s) ms) s)

  abbrev pub raised_unless : Bool → Outcome → Outcome
  raised_unless true o = o
  raised_unless false o = raised

  abbrev pub released : S × Outcome → S × Outcome
  released r =
      let unlocked = conn.execute advisory_unlock r.0 in (unlocked.0, raised_unless unlocked.1 r.1)

  -- `migration_lock`
  unfoldable pub migration_lock : (S → S × Outcome) → S → S × Outcome
  migration_lock block s = then_or_raise (conn.execute advisory_lock s) (λ s. released (block s))

  abbrev pub locked_or_not : Bool → (S → S × Outcome) → S → S × Outcome
  locked_or_not lock block s = if lock then migration_lock block s else block s

  abbrev pub apply_found : Bool → Discovered → S → S × Outcome
  apply_found lock (error e) s = (s, undiscovered e)
  apply_found lock (found ms) s = locked_or_not lock (locked ms) s

  unfoldable pub apply_migrations :
      (List ℕ → Text) → (List ℕ → Option Text) → Bool → List File → S → S × Outcome
  unfolding locked migration_lock
  apply_migrations sha256 decode lock files s =
      apply_found lock (discover_migrations sha256 decode files) s
