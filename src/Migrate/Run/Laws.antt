-- ===== src/Migrate/Run/Laws.antt =====
-- What the runner relies on of the connection, and what one migration does to the ledger. `Laws` says
-- that the commands around the migrations write no row of the ledger (they set a path, create the
-- ledger if it does not exist, or give the lock back), that an insert adds its row if it succeeds, that
-- the rows are read in the order of their versions, and that a transaction that fails changes no row.
-- Of waiting for the lock nothing is assumed: another starter may change the ledger meanwhile. That the
-- statements of the files leave the ledger alone is a hypothesis on the files, `IsSeparate`.
use reportportal_analyzer_ng.Prelude.{
  In, ltb, if◌then◌else◌, Bool-cases, ◌≡◌, refl, ap, ◌∙◌, ◌⊎◌, inl, inr, Bool, true, false, List,
  [], ◌∷◌, ◌++◌, map,
}
use reportportal_analyzer_ng.Text.{Text}
use reportportal_analyzer_ng.Migrate.Sql.{split_statements}
use reportportal_analyzer_ng.Migrate.Files.{Migration, Row}
use reportportal_analyzer_ng.Migrate.Run.{
  Command, advisory_lock, advisory_unlock, set_search_path, create_ledger, set_local_path,
  statement, insert_row, Connection, row_of, body_of, after, execute_all, apply_one,
}

-- the commands around the migrations, but for waiting for the lock
abbrev pub is_setting : Command → Bool
is_setting advisory_unlock = true
is_setting set_search_path = true
is_setting create_ledger = true
is_setting set_local_path = true
is_setting _ = false

-- a row at the place of its version
abbrev pub placed : Row → List Row → List Row
placed row [] = row ∷ []
placed row (r ∷ rows) =
    let later = placed row rows in if ltb row.version r.version then row ∷ r ∷ rows else r ∷ later

pub record Laws {S : Type 0} (conn : Connection S) : Type 0 where
  pub setting :
      (c : Command) (s : S) → is_setting c ≡ true → conn.rows (conn.execute c s).0 ≡ conn.rows s
  pub inserted :
      (row : Row) (s : S)
      → (conn.execute (insert_row row) s).1 ≡ true
      → conn.rows (conn.execute (insert_row row) s).0 ≡ placed row (conn.rows s)
  pub not_inserted :
      (row : Row) (s : S)
      → (conn.execute (insert_row row) s).1 ≡ false
      → conn.rows (conn.execute (insert_row row) s).0 ≡ conn.rows s
  pub rolled_back :
      (body : S → S × Bool) (s : S)
      → (conn.transaction body s).1 ≡ false
      → conn.rows (conn.transaction body s).0 ≡ conn.rows s
  pub committed :
      (body : S → S × Bool) (s : S)
      → (conn.transaction body s).1 ≡ true
      → (body s).1 ≡ true × (conn.rows (conn.transaction body s).0 ≡ conn.rows (body s).0)

-- the rows of migrations, recorded one after the other
abbrev pub recorded : List Migration → List Row → List Row
recorded [] rows = rows
recorded (m ∷ ms) rows = recorded ms (placed (row_of m) rows)

module _ {S : Type 0} (conn : Connection S) where
  -- the state in which the run goes on once it has the lock, or at once where the caller holds it
  abbrev pub entered : Bool → S → S
  entered lock s = if lock then (conn.execute advisory_lock s).0 else s

  -- a statement that leaves the ledger alone
  abbrev pub IsOutside : Text → Type 0
  IsOutside t = (s : S) → conn.rows (conn.execute (statement t) s).0 ≡ conn.rows s

  -- no statement of the migrations touches the ledger
  abbrev pub IsSeparate : List Migration → Type 0
  IsSeparate ms =
      (m : Migration) → In m ms → (t : Text) → In t (split_statements m.sql) → IsOutside t

module _ {S : Type 0} (conn : Connection S) (laws : Laws conn) where
  -- a migration records its row when it succeeds, and nothing when it fails
  abbrev pub Recorded : Row → S → S × Bool → Type 0
  Recorded row s r =
      ((r.1 ≡ true) × (conn.rows r.0 ≡ placed row (conn.rows s)))
      ⊎ ((r.1 ≡ false) × (conn.rows r.0 ≡ conn.rows s))

  after-Recorded :
      (c : Command) (row : Row) (next : S → S × Bool) (s : S)
      → conn.rows (conn.execute c s).0 ≡ conn.rows s
      → ((t : S) → Recorded row t (next t))
      → Recorded row s (after conn (conn.execute c s) next)
  after-Recorded c row next s h f = elim (Bool-cases (conn.execute c s).1) [
    | inl e ↦ rw e (elim (f (conn.execute c s).0) [
      | inl p ↦ inl (p.0, p.1 ∙ ap (placed row) (h))
      | inr p ↦ inr (p.0, p.1 ∙ h)
    ])
    | inr e ↦ rw e (inr (refl, h))
  ]

  statements-Recorded :
      (row : Row) (xs : List Text) (s : S)
      → ((t : Text) → In t xs → IsOutside conn t)
      → Recorded row s (execute_all conn (map statement xs ++ insert_row row ∷ []) s)
  unfolding execute_all
  statements-Recorded row [] s out = elim (Bool-cases (conn.execute (insert_row row) s).1) [
    | inl e ↦ rw e (inl (refl, laws.inserted row s e))
    | inr e ↦ rw e (inr (refl, laws.not_inserted row s e))
  ]
  statements-Recorded row (x ∷ xs) s out =
      after-Recorded (statement x) row (execute_all conn (map statement xs ++ insert_row row ∷ []))
        s (out x (inl refl) s) (λ u. statements-Recorded row xs u (λ t i. out t (inr i)))

  transaction-Recorded :
      (row : Row) (body : S → S × Bool) (s : S)
      → Recorded row s (body s)
      → Recorded row s (conn.transaction body s)
  transaction-Recorded row body s f = elim (Bool-cases (conn.transaction body s).1) [
    | inl e ↦
        let (ok, same_rows) = laws.committed body s e in
        elim f [ inl p ↦ inl (e, same_rows ∙ p.1) | inr p ↦ cc ]
    | inr e ↦ inr (e, laws.rolled_back body s e)
  ]

  pub apply_one-Recorded :
      (m : Migration) (s : S)
      → ((t : Text) → In t (split_statements m.sql) → IsOutside conn t)
      → Recorded (row_of m) s (apply_one conn m s)
  unfolding apply_one execute_all
  apply_one-Recorded m s out = elim (Bool-cases m.no_transaction) [
    | inl e ↦ rw e (statements-Recorded (row_of m) (split_statements m.sql) s out)
    | inr e ↦ rw e (
        transaction-Recorded (row_of m) (execute_all conn (set_local_path ∷ body_of m)) s (
          after-Recorded set_local_path (row_of m) (execute_all conn (body_of m)) s
            (laws.setting set_local_path s refl)
            (λ u. statements-Recorded (row_of m) (split_statements m.sql) u out)))
  ]
