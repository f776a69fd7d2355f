-- ===== src/Migrate/Files/Order.antt =====
-- The order of the discovered migrations, their versions, and what the ledger asks of them.
use mathlib.Core.Path.{subst}
use reportportal_analyzer_ng.Prelude.{
  keep, In-keep, not, leb, Bool-cases, All, In, ℕ, ◌≤◌, ◌<◌, ◌≡◌, refl, sym, ◌↔◌, inl, inr, none,
  some, List, [], ◌∷◌, arith,
}
use reportportal_analyzer_ng.Migrate.Files.{
  Row, is_applied, select_pending, Migration, insert_by_version, by_version, repeated, find_version,
}

-- in strictly ascending order
abbrev pub IsAscending : List Migration → Type 0
IsAscending [] = Unit
IsAscending (m ∷ ms) = All (λ n. m.version < n.version) ms × IsAscending ms

abbrev pub IsOrdered : List Migration → Type 0
IsOrdered [] = Unit
IsOrdered (m ∷ ms) = All (λ n. m.version ≤ n.version) ms × IsOrdered ms

module _ {A : Type 0} where
  pub All-mono : (P Q : A → Type 0) (xs : List A) → ((x : A) → P x → Q x) → All P xs → All Q xs
  All-mono P Q [] f a = tt
  All-mono P Q (x ∷ xs) f a = (f x a.0, All-mono P Q xs f a.1)

All-insert_by_version :
    (P : Migration → Type 0) (m : Migration) (ms : List Migration)
    → P m
    → All P ms
    → All P (insert_by_version m ms)
unfolding insert_by_version
All-insert_by_version P m [] p a = (p, tt)
All-insert_by_version P m (n ∷ ns) p a = elim (Bool-cases (leb m.version n.version)) [
  | inl e ↦ rw e (p, a)
  | inr e ↦ rw e (a.0, All-insert_by_version P m ns p a.1)
]

insert_by_version-IsOrdered :
    (m : Migration) (ms : List Migration) → IsOrdered ms → IsOrdered (insert_by_version m ms)
unfolding insert_by_version
insert_by_version-IsOrdered m [] h = (tt, tt)
insert_by_version-IsOrdered m (n ∷ ns) h = elim (Bool-cases (leb m.version n.version)) [
  | inl e ↦
      let le : m.version ≤ n.version = ground (arith, e) in
      rw e (
        (
          le,
          All-mono (λ k. n.version ≤ k.version) (λ k. m.version ≤ k.version) ns
              (λ k l. omega (arith, le, l)) h.0,
        ),
        h,
      )
  | inr e ↦
      let le : n.version ≤ m.version = ground (arith, e) in
      rw e (
        All-insert_by_version (λ k. n.version ≤ k.version) m ns le h.0,
        insert_by_version-IsOrdered m ns h.1,
      )
]

pub by_version-IsOrdered : (ms : List Migration) → IsOrdered (by_version ms)
unfolding by_version
by_version-IsOrdered [] = tt
by_version-IsOrdered (m ∷ ms) =
    insert_by_version-IsOrdered m (by_version ms) (by_version-IsOrdered ms)

pub repeated-IsAscending :
    (ms : List Migration) → IsOrdered ms → repeated ms ≡ none → IsAscending ms
unfolding repeated
repeated-IsAscending [] h r = tt
repeated-IsAscending (m ∷ []) h r = (tt, tt)
repeated-IsAscending (m ∷ n ∷ ns) h r =
    let lt : m.version < n.version = ground (arith, h.0.0, r) in
    let later : repeated (n ∷ ns) ≡ none = ground (arith, r) in
    (
      (
        lt,
        All-mono (λ k. n.version ≤ k.version) (λ k. m.version < k.version) ns
            (λ k l. omega (arith, lt, l)) h.1.0,
      ),
      repeated-IsAscending (n ∷ ns) h.1 later,
    )

In-insert_by_version :
    (x m : Migration) (ms : List Migration) → In x (insert_by_version m ms) ↔ In x (m ∷ ms)
unfolding insert_by_version
In-insert_by_version x m [] = (λ i. i, λ i. i)
In-insert_by_version x m (n ∷ ns) = elim (Bool-cases (leb m.version n.version)) [
  | inl e ↦ rw e (λ i. i, λ i. i)
  | inr e ↦ let (f, g) = In-insert_by_version x m ns in rw e (forth f, back g)
]
  where
    forth :
        (In x (insert_by_version m ns) → In x (m ∷ ns))
        → In x (n ∷ insert_by_version m ns)
        → In x (m ∷ n ∷ ns)
    forth f (inl e) = inr (inl e)
    forth f (inr i) = elim (f i) [ inl e ↦ inl e | inr j ↦ inr (inr j) ]

    back :
        (In x (m ∷ ns) → In x (insert_by_version m ns))
        → In x (m ∷ n ∷ ns)
        → In x (n ∷ insert_by_version m ns)
    back g (inl e) = inr (g (inl e))
    back g (inr (inl e)) = inl e
    back g (inr (inr i)) = inr (g (inr i))

pub In-by_version : (x : Migration) (ms : List Migration) → In x (by_version ms) ↔ In x ms
unfolding by_version
In-by_version x [] = (λ i. i, λ i. i)
In-by_version x (m ∷ ms) =
    let (f, g) = In-insert_by_version x m (by_version ms) in
    let (h, k) = In-by_version x ms in
    (
      λ i. elim (f i) [ inl e ↦ inl e | inr j ↦ inr (h j) ],
      λ i. g (elim i [ inl e ↦ inl e | inr j ↦ inr (k j) ]),
    )

find_version-above :
    (v : ℕ) (ms : List Migration) → All (λ n. v < n.version) ms → find_version v ms ≡ none
find_version-above v [] a = refl
find_version-above v (m ∷ ms) a = ground (arith, find_version-above v ms a.1, a.0)

-- A version finds its own migration.
pub find_version-In :
    (m : Migration) (ms : List Migration)
    → IsAscending ms
    → In m ms
    → find_version m.version ms ≡ some m
find_version-In m [] asc i = absurd i
find_version-In m (n ∷ ns) asc (inl e) =
    let a : All (λ k. m.version < k.version) ns =
      subst (λ z. All (λ k. z.version < k.version) ns) (sym e) asc.0 in
    rw (find_version-above m.version ns a) (ground (arith, e))
find_version-In m (n ∷ ns) asc (inr i) = rw (find_version-In m ns asc.1 i) refl

pub select_pending-In :
    (rows : List Row) (ms : List Migration) (m : Migration)
    → In m (select_pending rows ms)
    → In m ms
unfolding select_pending
select_pending-In rows ms m i =
    (In-keep (λ k. not (is_applied rows k.version)) m ms
      ((In-by_version m (keep (λ k. not (is_applied rows k.version)) ms)).0 i)).0
