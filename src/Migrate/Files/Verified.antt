-- ===== src/Migrate/Files/Verified.antt =====
-- What the comparison of the ledger with the files finds.
use mathlib.Core.Path.{subst}
use reportportal_analyzer_ng.Prelude.{
  arith, All, In, ◌==◌, Bool-cases, ℕ, ◌≡◌, refl, sym, ap, ◌∙◌, ◌⊎◌, inl, inr, Bool, true, false,
  Option, none, some, List, [], ◌∷◌,
}
use reportportal_analyzer_ng.Text.{text_eq, text_eq_sound}
use reportportal_analyzer_ng.Migrate.Files.{
  Migration, Row, find_version, refusal_of, later_or, first_of, changed, verify_applied,
}

-- a row has its file, with the same checksum
abbrev pub HasFile : List Migration → Row → Type 0
HasFile ms row = (m : Migration) × In m ms × (m.version ≡ row.version) × (m.checksum ≡ row.checksum)

pub later_or_sound :
    (n m : Migration) (here : Bool) (o : Option Migration)
    → later_or n here o ≡ some m
    → (o ≡ some m) ⊎ ((here ≡ true) × (m ≡ n))
later_or_sound n m here (some k) e = inl e
later_or_sound n m true none e = inr (refl, cc)
later_or_sound n m false none e = cc

pub find_version_sound :
    (v : ℕ) (ms : List Migration) (m : Migration)
    → find_version v ms ≡ some m
    → In m ms × (m.version ≡ v)
find_version_sound v [] m e = cc
find_version_sound v (n ∷ ns) m e =
    elim (later_or_sound n m (n.version == v) (find_version v ns) e) [
      | inl f ↦ let (i, k) = find_version_sound v ns m f in (inr i, k)
      | inr (here, f) ↦ let k : n.version ≡ v = ground arith in (inl f, ap (λ z. z.version) f ∙ k)
    ]

pub verify_applied-HasFile :
    (rows : List Row) (ms : List Migration) → verify_applied rows ms ≡ none → All (HasFile ms) rows
unfolding verify_applied
verify_applied-HasFile [] ms h = tt
verify_applied-HasFile (row ∷ rows) ms h =
    go (find_version row.version ms) (find_version_sound row.version ms)
      (verify_applied-HasFile rows ms) h
  where
    go :
        (o : Option Migration)
        → ((m : Migration) → o ≡ some m → In m ms × (m.version ≡ row.version))
        → (verify_applied rows ms ≡ none → All (HasFile ms) rows)
        → first_of (refusal_of row o) (verify_applied rows ms) ≡ none
        → HasFile ms row × All (HasFile ms) rows
    go none f later h = cc
    go (some m) f later h = elim (Bool-cases (text_eq m.checksum row.checksum)) [
      | inl e ↦
          let (i, v) = f m refl in
          ((m, i, v, text_eq_sound m.checksum row.checksum e), later (rw e at h))
      | inr e ↦ let bad : some (changed row.version) ≡ none = rw e at h in cc
    ]

abbrev pub Verified : List Row → List Migration → Type 0
Verified rows ms = (verify_applied rows ms ≡ none) × All (HasFile ms) rows

pub All-HasFile :
    (ms : List Migration) (row : Row) (rows : List Row)
    → All (HasFile ms) rows
    → In row rows
    → HasFile ms row
All-HasFile ms row [] a i = absurd i
All-HasFile ms row (r ∷ rows) a (inl e) = subst (HasFile ms) (sym e) a.0
All-HasFile ms row (r ∷ rows) a (inr i) = All-HasFile ms row rows a.1 i
