-- ===== src/Migrate/Run/Ledger.antt =====
-- What a run does to the ledger.
use mathlib.Core.Path.{subst}
use mathlib.Core.List.{append_assoc, append-nil}
use reportportal_analyzer_ng.Prelude.{
  Option-cases, In, ◌≢◌, Bool-cases, ℕ, ◌≡◌, refl, sym, ap, ◌∙◌, ◌⊎◌, inl, inr, Bool, true, false,
  Option, none, some, List, [], ◌∷◌, ◌++◌, map,
}
use reportportal_analyzer_ng.Text.{Text, split}
use reportportal_analyzer_ng.Migrate.Files.{
  File, Migration, Row, found, Refusal, discover_migrations, verify_applied, select_pending,
}
use reportportal_analyzer_ng.Migrate.Files.Order.{select_pending-In}
use reportportal_analyzer_ng.Migrate.Run.{
  advisory_lock, advisory_unlock, set_search_path, create_ledger, Connection, Outcome, applied,
  refused, failed, raised, undiscovered, execute_all, apply_one, apply_pending, apply_verified,
  locked, released, migration_lock, locked_or_not, apply_migrations,
}
use reportportal_analyzer_ng.Migrate.Run.Laws.{
  entered, IsSeparate, Laws, recorded, apply_one-Recorded,
}
use reportportal_analyzer_ng.Migrate.Files.Verified.{verify_applied-HasFile, Verified, All-HasFile}

abbrev pub versions : List Migration → List ℕ
versions ms = map (λ m. m.version) ms

-- what an outcome says, with the pending migrations that were applied and those that were not
abbrev pub Explains : List Row → List Migration → List Migration → List Migration → Outcome → Type 0
Explains rows ms done later (applied vs) = (later ≡ []) × (vs ≡ versions done) × Verified rows ms
Explains rows ms done later (failed v) =
    (m : Migration) × (rest : List Migration) × (later ≡ m ∷ rest)
    × (v ≡ m.version)
    × Verified rows ms
Explains rows ms done later (refused r) = (done ≡ []) × (verify_applied rows ms ≡ some r)
Explains rows ms done later raised = (done ≡ []) ⊎ Verified rows ms
Explains rows ms done later (undiscovered e) = ⊥

module _ {S : Type 0} (conn : Connection S) where
  -- the pending migrations up to some point are recorded, in their order, and nothing else
  abbrev pub Advances : List Row → List Migration → S × Outcome → Type 0
  Advances rows ms r =
      (done : List Migration) × (later : List Migration) × (select_pending rows ms ≡ done ++ later)
      × (conn.rows r.0 ≡ recorded done rows)
      × Explains rows ms done later r.1

  abbrev setup : S → S × Bool
  setup s = execute_all conn (set_search_path ∷ create_ledger ∷ []) s

  -- what a run does that applies nothing
  abbrev pub idle : Bool → S → S
  idle lock s = (locked_or_not conn lock (λ s. ((setup s).0, raised)) s).0

module _ {S : Type 0} (conn : Connection S) (laws : Laws conn) where
  abbrev Pending : List ℕ → List Migration → S → S × Outcome → Type 0
  Pending vs ms s r =
      ((conn.rows r.0 ≡ recorded ms (conn.rows s)) × (r.1 ≡ applied (vs ++ versions ms)))
      ⊎ ((done : List Migration) × (m : Migration) × (rest : List Migration) × (ms
            ≡ done ++ m ∷ rest)
          × (conn.rows r.0 ≡ recorded done (conn.rows s))
          × (r.1 ≡ failed m.version))

  apply_pending-Pending :
      (vs : List ℕ) (ms : List Migration) (s : S)
      → IsSeparate conn ms
      → Pending vs ms s (apply_pending conn vs ms s)
  unfolding apply_pending
  apply_pending-Pending vs [] s sep = inl (refl, ap applied (sym (append-nil vs)))
  apply_pending-Pending vs (m ∷ ms) s sep =
      elim (apply_one-Recorded conn laws m s (sep m (inl refl))) [
        | inl p ↦
            rw p.0
              (elim (apply_pending-Pending (vs ++ m.version ∷ []) ms (apply_one conn m s).0
                (λ n i. sep n (inr i))) [
                  | inl q ↦ inl (
                    q.0 ∙ ap (recorded ms) p.1,
                    q.1 ∙ ap applied (append_assoc vs (m.version ∷ []) (versions ms)),
                  )
                  | inr (done, n, rest, e, q, o) ↦
                      inr (m ∷ done, n, rest, ap (λ l. m ∷ l) e, q ∙ ap (recorded done) p.1, o)
                ])
        | inr p ↦ rw p.0 (inr ([], m, ms, refl, p.1, refl))
      ]

  Pending-Advances :
      (ms : List Migration) (s : S) (r : S × Outcome)
      → Verified (conn.rows s) ms
      → Pending [] (select_pending (conn.rows s) ms) s r
      → Advances conn (conn.rows s) ms r
  Pending-Advances ms s r h (inl p) =
      let pending = select_pending (conn.rows s) ms in
      (pending, [], sym (append-nil pending), p.0, rw p.1 (refl, refl, h))
  Pending-Advances ms s r h (inr (done, m, rest, e, q, o)) =
      (done, m ∷ rest, e, q, rw o (m, rest, refl, refl, h))

  apply_verified-Advances :
      (ms : List Migration) (s : S) (o : Option Refusal)
      → IsSeparate conn ms
      → verify_applied (conn.rows s) ms ≡ o
      → Advances conn (conn.rows s) ms (apply_verified conn ms o s)
  apply_verified-Advances ms s none sep h =
      Pending-Advances ms s (apply_pending conn [] (select_pending (conn.rows s) ms) s)
        (h, verify_applied-HasFile (conn.rows s) ms h)
        (apply_pending-Pending [] (select_pending (conn.rows s) ms) s
          (λ m i. sep m (select_pending-In (conn.rows s) ms m i)))
  apply_verified-Advances ms s (some r) sep h =
      ([], select_pending (conn.rows s) ms, refl, refl, (refl, h))

  rows-setup : (s : S) → conn.rows (setup conn s).0 ≡ conn.rows s
  unfolding execute_all
  rows-setup s = elim (Bool-cases (conn.execute set_search_path s).1) [
    | inl e ↦ elim (Bool-cases (conn.execute create_ledger (conn.execute set_search_path s).0).1) [
      | inl f ↦
          rw (e, f)
            (laws.setting create_ledger (conn.execute set_search_path s).0 refl
              ∙ laws.setting set_search_path s refl)
      | inr f ↦
          rw (e, f)
            (laws.setting create_ledger (conn.execute set_search_path s).0 refl
              ∙ laws.setting set_search_path s refl)
    ]
    | inr e ↦ rw e (laws.setting set_search_path s refl)
  ]

  locked-Advances :
      (ms : List Migration) (s : S)
      → IsSeparate conn ms
      → Advances conn (conn.rows s) ms (locked conn ms s)
  unfolding locked
  locked-Advances ms s sep = elim (Bool-cases (setup conn s).1) [
    | inl e ↦ rw e (
        subst
          (λ rows. Advances conn rows ms (
            apply_verified conn ms (verify_applied (conn.rows (setup conn s).0) ms)
              (setup conn s).0))
          (rows-setup s)
          (apply_verified-Advances ms (setup conn s).0
            (verify_applied (conn.rows (setup conn s).0) ms) sep refl))
    | inr e ↦ rw e ([], select_pending (conn.rows s) ms, refl, rows-setup s, inl refl)
  ]

  -- whatever the outcome was, what is recorded was verified
  raised_later :
      (rows : List Row) (ms done later : List Migration) (o : Outcome)
      → Explains rows ms done later o
      → (done ≡ []) ⊎ Verified rows ms
  raised_later rows ms done later (applied vs) (a, b, v) = inr v
  raised_later rows ms done later (failed v) (m, rest, e, f, w) = inr w
  raised_later rows ms done later (refused r) (e, f) = inl e
  raised_later rows ms done later raised w = w
  raised_later rows ms done later (undiscovered u) w = absurd w

  Advances-released :
      (rows : List Row) (ms : List Migration) (r : S × Outcome)
      → Advances conn rows ms r
      → Advances conn rows ms (released conn r)
  Advances-released rows ms r (done, later, split, same_rows, why) =
      elim (Bool-cases (conn.execute advisory_unlock r.0).1) [
        | inl e ↦ rw e (done, later, split, laws.setting advisory_unlock r.0 refl ∙ same_rows, why)
        | inr e ↦ rw e (
          done,
          later,
          split,
          laws.setting advisory_unlock r.0 refl ∙ same_rows,
          raised_later rows ms done later r.1 why,
        )
      ]

  migration_lock-Advances :
      (ms : List Migration) (s : S)
      → IsSeparate conn ms
      → Advances conn (conn.rows (entered conn true s)) ms (migration_lock conn (locked conn ms) s)
  unfolding migration_lock
  migration_lock-Advances ms s sep =
      let t = (conn.execute advisory_lock s).0 in
      elim (Bool-cases (conn.execute advisory_lock s).1) [
        | inl e ↦
            rw e (Advances-released (conn.rows t) ms (locked conn ms t) (locked-Advances ms t sep))
        | inr e ↦ rw e ([], select_pending (conn.rows t) ms, refl, refl, inl refl)
      ]

  -- A run over files whose statements leave the ledger alone refines "record the pending migrations in
  -- the order of their versions", counted from the ledger that the run finds once it has the lock (or at
  -- its start, where the caller holds the lock): whatever fails, the ledger has the rows of a leading
  -- part of the pending migrations more, and nothing else. When the run answers with versions, they are
  -- all the pending ones; when a migration fails, it is the first that is not recorded; a refusal
  -- records nothing. Nothing is recorded unless every row of that ledger has its file with the same
  -- checksum.
  pub apply_migrations-Advances :
      (sha256 : List ℕ → Text) (decode : List ℕ → Option Text) (lock : Bool) (files : List File)
      (ms : List Migration) (s : S)
      → discover_migrations sha256 decode files ≡ found ms
      → IsSeparate conn ms
      → Advances conn
          (conn.rows (entered conn lock s))
          ms
          (apply_migrations conn sha256 decode lock files s)
  unfolding apply_migrations
  apply_migrations-Advances sha256 decode true files ms s h sep =
      rw h (migration_lock-Advances ms s sep)
  apply_migrations-Advances sha256 decode false files ms s h sep = rw h (locked-Advances ms s sep)

  locked-refused :
      (ms : List Migration) (s : S) (r : Refusal)
      → verify_applied (conn.rows s) ms ≡ some r
      → ((locked conn ms s).0 ≡ (setup conn s).0)
        × (((locked conn ms s).1 ≡ refused r) ⊎ ((locked conn ms s).1 ≡ raised))
  unfolding locked
  locked-refused ms s r h = elim (Bool-cases (setup conn s).1) [
    | inl e ↦ rw (e, rows-setup s, h) (refl, inl refl)
    | inr e ↦ rw e (refl, inr refl)
  ]

  migration_lock_state :
      (block other_block : S → S × Outcome) (s : S)
      → (block (conn.execute advisory_lock s).0).0
        ≡ (other_block (conn.execute advisory_lock s).0).0
      → (migration_lock conn block s).0 ≡ (migration_lock conn other_block s).0
  unfolding migration_lock
  migration_lock_state block other_block s h = elim (Bool-cases (conn.execute advisory_lock s).1) [
    | inl e ↦ rw e (ap (λ x. (conn.execute advisory_unlock x).0) h)
    | inr e ↦ rw e refl
  ]

  migration_lock-refused :
      (ms : List Migration) (s : S) (r : Refusal)
      → verify_applied (conn.rows (entered conn true s)) ms ≡ some r
      → ((migration_lock conn (locked conn ms) s).1 ≡ refused r)
        ⊎ ((migration_lock conn (locked conn ms) s).1 ≡ raised)
  unfolding migration_lock
  migration_lock-refused ms s r h = elim (Bool-cases (conn.execute advisory_lock s).1) [
    | inl e ↦
        let t = (conn.execute advisory_lock s).0 in
        let (st, o) = locked-refused ms t r h in
        rw e (elim (Bool-cases (conn.execute advisory_unlock (locked conn ms t).0).1) [
          | inl ok ↦ rw ok o
          | inr bad ↦ rw bad (inr refl)
        ])
    | inr e ↦ rw e (inr refl)
  ]

  apply_migrations_refusal :
      (sha256 : List ℕ → Text) (decode : List ℕ → Option Text) (lock : Bool) (files : List File)
      (ms : List Migration) (s : S) (r : Refusal)
      → discover_migrations sha256 decode files ≡ found ms
      → verify_applied (conn.rows (entered conn lock s)) ms ≡ some r
      → let result = apply_migrations conn sha256 decode lock files s in
        (result.0 ≡ idle conn lock s) × ((result.1 ≡ refused r) ⊎ (result.1 ≡ raised))
  unfolding apply_migrations
  apply_migrations_refusal sha256 decode true files ms s r h v =
      let t = (conn.execute advisory_lock s).0 in
      let (st, o) = locked-refused ms t r v in
      rw h (
        migration_lock_state (locked conn ms) (λ s. ((setup conn s).0, raised)) s st,
        migration_lock-refused ms s r v,
      )
  apply_migrations_refusal sha256 decode false files ms s r h v = rw h (locked-refused ms s r v)

  -- Where the ledger that the run finds once it has the lock (or at its start, where the caller holds
  -- it) has a row for which no file has the version and the checksum of the row, no statement of a
  -- migration runs: the run leaves what the commands around the migrations leave, and it answers with a
  -- refusal, or an error where such a command failed.
  pub apply_migrations-refused :
      (sha256 : List ℕ → Text) (decode : List ℕ → Option Text) (lock : Bool) (files : List File)
      (ms : List Migration) (s : S) (row : Row)
      → discover_migrations sha256 decode files ≡ found ms
      → In row (conn.rows (entered conn lock s))
      → ((m : Migration) → In m ms → m.version ≡ row.version → m.checksum ≢ row.checksum)
      → let result = apply_migrations conn sha256 decode lock files s in
        (result.0 ≡ idle conn lock s)
        × (((r : Refusal) × (result.1 ≡ refused r)) ⊎ (result.1 ≡ raised))
  apply_migrations-refused sha256 decode lock files ms s row h i lost =
      elim (Option-cases (verify_applied (conn.rows (entered conn lock s)) ms)) [
        | inl fine ↦
            let (m, j, v, c) =
              All-HasFile ms row (conn.rows (entered conn lock s))
                (verify_applied-HasFile (conn.rows (entered conn lock s)) ms fine) i in
            absurd (lost m j v c)
        | inr (r, bad) ↦
            let (st, o) = apply_migrations_refusal sha256 decode lock files ms s r h bad in
            (st, elim o [ inl e ↦ inl (r, e) | inr e ↦ inr e ])
      ]
