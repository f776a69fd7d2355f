-- ===== src/Replay/Events.antt =====
-- Event selection and the chronological split of src/analyzer_ng/ml/eval.py.
pub mod Newest
pub mod Latest
use reportportal_analyzer_ng.Prelude.{
  ltb, leb, ◌==◌, if◌then◌else◌, length, ℕ, zero, suc, ◌*◌, Bool, true, false, ◌&&◌, ◌||◌, Option,
  none, some, List, [], ◌∷◌,
}
use reportportal_analyzer_ng.Text.{Text, split}
use reportportal_analyzer_ng.Decision.Types.{is_base, get_or, base}

-- A row of the label history. `features` is none where the snapshot is absent or empty, `ts` counts
-- microseconds, and the identifiers are the natural numbers that the database assigns.
pub record Event (V : Type 0) : Type 0 where
  pub project_id : Option ℕ
  pub item_id : Option ℕ
  pub ts : Option ℕ
  pub new_label : Option Text
  pub features : Option V

module _ {V : Type 0} where
  abbrev pub project : Event V → ℕ
  project r = get_or r.project_id 0

  abbrev pub item : Event V → ℕ
  item r = get_or r.item_id 0

  abbrev pub ts_key : Event V → ℕ
  ts_key r = get_or r.ts 0

  abbrev has_snapshot : Option V → Bool
  has_snapshot none = false
  has_snapshot (some v) = true

  unfoldable pub is_usable : Event V → Bool
  is_usable row = has_snapshot row.features && is_base (base row.new_label)

  abbrev pub same_key : Event V → Event V → Bool
  same_key a b = project a == project b && item a == item b

  -- the dictionary keeps the place of a key that it overwrites
  unfoldable pub put : Event V → List (Event V) → List (Event V)
  put r [] = r ∷ []
  put r (cur ∷ rest) =
      let later = put r rest in
      if same_key cur r
      then (if leb (ts_key cur) (ts_key r) then r ∷ rest else cur ∷ rest)
      else cur ∷ later

  unfoldable pub latest_of : List (Event V) → List (Event V) → List (Event V)
  unfolding is_usable put
  latest_of latest [] = latest
  latest_of latest (r ∷ rs) = latest_of (if is_usable r then put r latest else latest) rs

  -- the order of the keys `(ts, item_id)`
  abbrev pub before_eq : Event V → Event V → Bool
  before_eq a b = ltb (ts_key a) (ts_key b) || ts_key a == ts_key b && leb (item a) (item b)

  -- a stable sort
  unfoldable pub insert : Event V → List (Event V) → List (Event V)
  insert x [] = x ∷ []
  insert x (y ∷ ys) = let later = insert x ys in if before_eq x y then x ∷ y ∷ ys else y ∷ later

  unfoldable pub sorted : List (Event V) → List (Event V)
  unfolding insert
  sorted [] = []
  sorted (x ∷ xs) = insert x (sorted xs)

  unfoldable pub usable_events : List (Event V) → List (Event V)
  unfolding latest_of sorted
  usable_events rows = sorted (latest_of [] rows)

  -- the first `n`, and the others
  unfoldable pub split_at : ℕ → List (Event V) → List (Event V) × List (Event V)
  split_at zero xs = ([], xs)
  split_at (suc n) [] = ([], [])
  split_at (suc n) (x ∷ xs) = let (train, eval) = split_at n xs in (x ∷ train, eval)

  -- `cut n` is `int(n * train_frac)`
  unfoldable pub chronological_split : (ℕ → ℕ) → List (Event V) → List (Event V) × List (Event V)
  unfolding split_at
  chronological_split cut events = split_at (cut (length events)) events
