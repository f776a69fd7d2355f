-- ===== src/Migrate/Files/Found.antt =====
-- What `discover_migrations` finds.
use mathlib.Core.Path.{subst}
use reportportal_analyzer_ng.Text.{Text}
use reportportal_analyzer_ng.Prelude.{
  In, ℕ, ◌≡◌, refl, sym, ap, ◌⊎◌, inl, inr, Option, none, some, List, [], ◌∷◌,
}
use reportportal_analyzer_ng.Migrate.Files.{
  File, Migration, Undiscovered, found, normalize_bytes, version_of, by_version, repeated, checked,
  migration_of, read_file, read_before, read_all, checked_all, discover_migrations,
}
use reportportal_analyzer_ng.Migrate.Files.Order.{
  IsAscending, by_version-IsOrdered, repeated-IsAscending, In-by_version,
}

module _ (sha256 : List ℕ → Text) (decode : List ℕ → Option Text) where
  -- the migration of a file, when its name has a version and its bytes are text
  abbrev pub OneRead : File → Migration → Type 0
  OneRead file m =
      (text : Text) × (version_of file.name ≡ some m.version)
      × (decode (normalize_bytes file.bytes) ≡ some text)
      × (m ≡ migration_of sha256 decode file m.version text)

  abbrev AllRead : List File → List Migration → Type 0
  AllRead [] [] = Unit
  AllRead (f ∷ fs) (m ∷ ms) = OneRead f m × AllRead fs ms
  AllRead _ _ = ⊥

  read_all-AllRead :
      (files : List File) (ms : List Migration)
      → read_all sha256 decode files ≡ inl ms
      → AllRead files ms
  unfolding read_all
  read_all-AllRead [] [] h = tt
  read_all-AllRead [] (m ∷ ms) h = cc
  read_all-AllRead (f ∷ fs) ms h =
      go (version_of f.name) (decode (normalize_bytes f.bytes)) (read_all sha256 decode fs) refl
        refl (λ ns e. read_all-AllRead fs ns e) ms h
    where
      go :
          (v : Option ℕ) (t : Option Text) (r : List Migration ⊎ Undiscovered)
          → version_of f.name ≡ v
          → decode (normalize_bytes f.bytes) ≡ t
          → ((ns : List Migration) → r ≡ inl ns → AllRead fs ns)
          → (ms : List Migration)
          → read_before sha256 decode (read_file sha256 decode f v t) r ≡ inl ms
          → AllRead (f ∷ fs) ms
      go none t r ev et rec ms h = cc
      go (some v) none r ev et rec ms h = cc
      go (some v) (some t) (inr e) ev et rec ms h = cc
      go (some v) (some t) (inl ns) ev et rec [] h = cc
      go (some v) (some t) (inl ns) ev et rec (m ∷ ms) h =
          let em : m ≡ migration_of sha256 decode f v t = cc in
          let en : ns ≡ ms = cc in ((t, rw em ev, et, rw em refl), rec ms (ap inl en))

  AllRead-from :
      (m : Migration) (fs : List File) (ms : List Migration)
      → AllRead fs ms
      → In m ms
      → (f : File) × In f fs × OneRead f m
  AllRead-from m [] [] a i = absurd i
  AllRead-from m [] (n ∷ ns) a i = absurd a
  AllRead-from m (f ∷ fs) [] a i = absurd i
  AllRead-from m (f ∷ fs) (n ∷ ns) a (inl e) = (f, inl refl, subst (OneRead f) (sym e) a.0)
  AllRead-from m (f ∷ fs) (n ∷ ns) a (inr i) =
      let (g, j, o) = AllRead-from m fs ns a.1 i in (g, inr j, o)

  AllRead-to :
      (f : File) (fs : List File) (ms : List Migration)
      → AllRead fs ms
      → In f fs
      → (m : Migration) × In m ms × OneRead f m
  AllRead-to f [] [] a i = absurd i
  AllRead-to f [] (n ∷ ns) a i = absurd a
  AllRead-to f (g ∷ fs) [] a i = absurd a
  AllRead-to f (g ∷ fs) (n ∷ ns) a (inl e) = (n, inl refl, subst (λ x. OneRead x n) (sym e) a.0)
  AllRead-to f (g ∷ fs) (n ∷ ns) a (inr i) =
      let (m, j, o) = AllRead-to f fs ns a.1 i in (m, inr j, o)

  abbrev IsFound : List File → List Migration → Type 0
  IsFound files ms =
      IsAscending ms
      × ((m : Migration) → In m ms → (f : File) × In f files × OneRead f m)
      × ((f : File) → In f files → (m : Migration) × In m ms × OneRead f m)

  IsFound-by_version :
      (files : List File) (ns : List Migration)
      → AllRead files ns
      → repeated (by_version ns) ≡ none
      → IsFound files (by_version ns)
  IsFound-by_version files ns a r = (
    repeated-IsAscending (by_version ns) (by_version-IsOrdered ns) r,
    λ m i. AllRead-from m files ns a ((In-by_version m ns).0 i),
    λ f i. let (m, j, o) = AllRead-to f files ns a i in (m, (In-by_version m ns).1 j, o),
  )

  -- The migrations that are found are in strictly ascending order of their versions, so no two files
  -- share a version, and they are those of the files of the folder: each is read from a file, and each
  -- file has one. A file whose name has no version or whose bytes are not text is an error.
  pub discover_migrations_lem :
      (files : List File) (ms : List Migration)
      → discover_migrations sha256 decode files ≡ found ms
      → IsAscending ms
        × ((m : Migration) → In m ms → (f : File) × In f files × OneRead f m)
        × ((f : File) → In f files → (m : Migration) × In m ms × OneRead f m)
  unfolding discover_migrations
  discover_migrations_lem files ms h = go (read_all sha256 decode files) refl h
    where
      sorted :
          (ns : List Migration) (o : Option ℕ)
          → repeated (by_version ns) ≡ o
          → read_all sha256 decode files ≡ inl ns
          → checked (by_version ns) o ≡ found ms
          → IsFound files ms
      sorted ns (some v) r e h = cc
      sorted ns none r e h =
          let em : by_version ns ≡ ms = cc in
          subst (IsFound files) em (IsFound-by_version files ns (read_all-AllRead files ns e) r)

      go :
          (r : List Migration ⊎ Undiscovered)
          → read_all sha256 decode files ≡ r
          → checked_all sha256 decode r ≡ found ms
          → IsFound files ms
      go (inr e) er h = cc
      go (inl ns) er h = sorted ns (repeated (by_version ns)) refl er h
