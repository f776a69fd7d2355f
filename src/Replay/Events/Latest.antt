-- ===== src/Replay/Events/Latest.antt =====
-- What the selected events are: usable, one for each item and the newest, in chronological order.
use mathlib.Core.Path.{subst}
use reportportal_analyzer_ng.Prelude.{
  min, ltb, ◌<◌, ◌≤◌, ◌⊎◌, Bool-cases, length, any, All, In, ℕ, zero, suc, ◌≡◌, refl, sym, ap, ◌∙◌,
  inl, inr, Bool, true, false, ◌||◌, List, [], ◌∷◌, ◌++◌, arith,
}
use reportportal_analyzer_ng.Replay.Events.{
  ts_key, item, Event, is_usable, same_key, latest_of, before_eq, insert, sorted, usable_events,
  split_at, chronological_split,
}
use reportportal_analyzer_ng.Replay.Events.Newest.{
  covers, IsUnique, latest_of-covers, latest_of-IsUnique, latest_of-All,
}

module _ {V : Type 0} where
  abbrev pub IsSorted : List (Event V) → Type 0
  IsSorted [] = Unit
  IsSorted (x ∷ xs) = All (λ y. before_eq x y ≡ true) xs × IsSorted xs

  any-insert :
      (p : Event V → Bool) (x : Event V) (l : List (Event V)) → any p (insert x l) ≡ p x || any p l
  unfolding insert
  any-insert p x [] = refl
  any-insert p x (y ∷ ys) = ground (arith, any-insert p x ys)

  any-sorted : (p : Event V → Bool) (l : List (Event V)) → any p (sorted l) ≡ any p l
  unfolding sorted
  any-sorted p [] = refl
  any-sorted p (x ∷ xs) = ground (arith, any-insert p x (sorted xs), any-sorted p xs)

  insert-All :
      (P : Event V → Type 0) (x : Event V) (l : List (Event V)) → P x → All P l → All P (insert x l)
  unfolding insert
  insert-All P x [] p a = (p, tt)
  insert-All P x (y ∷ ys) p a = elim (Bool-cases (before_eq x y)) [
    | inl e ↦ rw e (p, a)
    | inr e ↦ rw e (a.0, insert-All P x ys p a.1)
  ]

  sorted-All : (P : Event V → Type 0) (l : List (Event V)) → All P l → All P (sorted l)
  unfolding sorted
  sorted-All P [] a = tt
  sorted-All P (x ∷ xs) a = insert-All P x (sorted xs) a.0 (sorted-All P xs a.1)

  before_eq-All :
      (x y : Event V) (l : List (Event V))
      → before_eq x y ≡ true
      → All (λ z. before_eq y z ≡ true) l
      → All (λ z. before_eq x z ≡ true) l
  before_eq-All x y [] h a = tt
  before_eq-All x y (z ∷ zs) h a = let k = a.0 in (ground arith, before_eq-All x y zs h a.1)

  insert-IsSorted : (x : Event V) (l : List (Event V)) → IsSorted l → IsSorted (insert x l)
  unfolding insert
  insert-IsSorted x [] s = (tt, tt)
  insert-IsSorted x (y ∷ ys) s = elim (Bool-cases (before_eq x y)) [
    | inl e ↦ rw e ((e, before_eq-All x y ys e s.0), s)
    | inr e ↦
        rw e
          (insert-All (λ z. before_eq y z ≡ true) x ys (ground arith) s.0, insert-IsSorted x ys s.1)
  ]

  sorted-IsSorted : (l : List (Event V)) → IsSorted (sorted l)
  unfolding sorted
  sorted-IsSorted [] = tt
  sorted-IsSorted (x ∷ xs) = insert-IsSorted x (sorted xs) (sorted-IsSorted xs)

  insert-IsUnique :
      (x : Event V) (l : List (Event V))
      → any (λ y. same_key y x) l ≡ false
      → IsUnique l
      → IsUnique (insert x l)
  unfolding insert
  insert-IsUnique x [] n u = (refl, tt)
  insert-IsUnique x (y ∷ ys) n u = elim (Bool-cases (before_eq x y)) [
    | inl e ↦ rw e (n, u)
    | inr e ↦ rw e (
      any-insert (λ z. same_key z y) x ys ∙ ground (arith, u.0),
      insert-IsUnique x ys (ground arith) u.1,
    )
  ]

  sorted-IsUnique : (l : List (Event V)) → IsUnique l → IsUnique (sorted l)
  unfolding sorted
  sorted-IsUnique [] u = tt
  sorted-IsUnique (x ∷ xs) u =
      insert-IsUnique x (sorted xs) (any-sorted (λ y. same_key y x) xs ∙ u.0)
        (sorted-IsUnique xs u.1)

  All-weaken :
      (P Q : Event V → Type 0) (l : List (Event V))
      → ((x : Event V) → P x → Q x)
      → All P l
      → All Q l
  All-weaken P Q [] f a = tt
  All-weaken P Q (x ∷ xs) f a = (f x a.0, All-weaken P Q xs f a.1)

  -- earlier, or at the same time and of no later item
  abbrev pub IsEarlier : Event V → Event V → Type 0
  IsEarlier t e = (ts_key t < ts_key e) ⊎ ((ts_key t ≡ ts_key e) × (item t ≤ item e))

  before_eq-IsEarlier : (t e : Event V) → before_eq t e ≡ true → IsEarlier t e
  before_eq-IsEarlier t e h = elim (Bool-cases (ltb (ts_key t) (ts_key e))) [
    | inl k ↦ inl (ground arith)
    | inr k ↦ inr (ground arith, ground arith)
  ]

  -- in the order of their times
  abbrev pub IsChronological : List (Event V) → Type 0
  IsChronological [] = Unit
  IsChronological (x ∷ xs) = All (λ y. IsEarlier x y) xs × IsChronological xs

  sorted-IsChronological : (l : List (Event V)) → IsSorted l → IsChronological l
  sorted-IsChronological [] s = tt
  sorted-IsChronological (x ∷ xs) s = (
    All-weaken (λ y. before_eq x y ≡ true) (λ y. IsEarlier x y) xs (before_eq-IsEarlier x) s.0,
    sorted-IsChronological xs s.1,
  )

  -- what the selection of some rows promises
  pub record IsSelection (rows events : List (Event V)) : Type 0 where
    pub usable : All (λ e. is_usable e ≡ true) events
    pub given : All (λ e. In e rows) events
    pub unique : IsUnique events
    pub newest : All (λ r. is_usable r ≡ true → any (covers r) events ≡ true) rows
    pub in_order : IsSorted events
    pub chronological : IsChronological events

  All-true : (P : Event V → Type 0) (l : List (Event V)) → ((x : Event V) → P x) → All P l
  All-true P [] f = tt
  All-true P (x ∷ xs) f = (f x, All-true P xs f)

  All-given : (l : List (Event V)) → All (λ e. In e l) l
  All-given [] = tt
  All-given (x ∷ xs) =
      (inl refl, All-weaken (λ e. In e xs) (λ e. In e (x ∷ xs)) xs (λ e i. inr i) (All-given xs))

  -- The selected events are usable rows, one for each project and item, in the order of their times;
  -- for every usable row an event of the same project and item is selected that is at least as new.
  pub usable_events-IsSelection : (rows : List (Event V)) → IsSelection rows (usable_events rows)
  unfolding usable_events
  usable_events-IsSelection rows =
      let latest = latest_of [] rows in
      record {
        usable =
            sorted-All (λ e. is_usable e ≡ true) latest
              (latest_of-All (λ e. is_usable e ≡ true) [] rows tt
                (All-true (λ e. is_usable e ≡ true → is_usable e ≡ true) rows (λ e h. h)));
        given =
            sorted-All (λ e. In e rows) latest
              (latest_of-All (λ e. In e rows) [] rows tt
                (All-weaken (λ e. In e rows) (λ e. is_usable e ≡ true → In e rows) rows (λ e i h. i)
                  (All-given rows)));
        unique = sorted-IsUnique latest (latest_of-IsUnique [] rows tt);
        newest =
            All-weaken (λ r. is_usable r ≡ true → any (covers r) latest ≡ true)
              (λ r. is_usable r ≡ true → any (covers r) (sorted latest) ≡ true) rows
              (λ r f h. any-sorted (covers r) latest ∙ f h) (latest_of-covers [] rows);
        in_order = sorted-IsSorted latest;
        chronological = sorted-IsChronological (sorted latest) (sorted-IsSorted latest);
      }

  split_at_sound :
      (n : ℕ) (events : List (Event V))
      → IsSorted events
      → ((split_at n events).0 ++ (split_at n events).1 ≡ events)
        × All (λ t. All (λ e. before_eq t e ≡ true) (split_at n events).1) (split_at n events).0
  unfolding split_at
  split_at_sound zero xs s = (refl, tt)
  split_at_sound (suc n) [] s = (refl, tt)
  split_at_sound (suc n) (x ∷ xs) s =
      let (e, a) = split_at_sound n xs s.1 in
      (ap (λ l. x ∷ l) e, (All_right (split_at n xs).0 (split_at n xs).1 xs e s.0, a))
    where
      All_append : (P : Event V → Type 0) (l m : List (Event V)) → All P (l ++ m) → All P m
      All_append P [] m a = a
      All_append P (y ∷ ys) m a = All_append P ys m a.1

      All_right :
          (l m k : List (Event V))
          → l ++ m ≡ k
          → All (λ y. before_eq x y ≡ true) k
          → All (λ y. before_eq x y ≡ true) m
      All_right l m k e a =
          All_append (λ y. before_eq x y ≡ true) l m
            (subst (λ z. All (λ y. before_eq x y ≡ true) z) (sym e) a)

  length-split_at :
      (n : ℕ) (events : List (Event V)) → length (split_at n events).0 ≡ min n (length events)
  unfolding split_at
  length-split_at zero xs = omega arith
  length-split_at (suc n) [] = omega arith
  length-split_at (suc n) (x ∷ xs) = omega (arith, length-split_at n xs)

  -- The candidate is trained on as many of the selected events as the cut asks for, if there are so
  -- many; the split keeps every selected event in its place, and each event held out for evaluation is
  -- later than each that the candidate is trained on, or of the same time and of no smaller item.
  pub chronological_split-IsOrdered :
      (cut : ℕ → ℕ) (rows : List (Event V))
      → let events = usable_events rows in
        let (train, eval) = chronological_split cut events in
        (length train ≡ min (cut (length events)) (length events))
        × (train ++ eval ≡ events)
        × All (λ t. All (λ e. IsEarlier t e) eval) train
  unfolding chronological_split
  chronological_split-IsOrdered cut rows =
      let events = usable_events rows in
      let n = cut (length events) in
      let (whole, ordered) = split_at_sound n events (usable_events-IsSelection rows).in_order in
      let (train, eval) = split_at n events in
      (
        length-split_at n events,
        whole,
        All-weaken (λ t. All (λ e. before_eq t e ≡ true) eval) (λ t. All (λ e. IsEarlier t e) eval)
            train
            (λ t a.
              All-weaken (λ e. before_eq t e ≡ true) (λ e. IsEarlier t e) eval
                (before_eq-IsEarlier t) a)
            ordered,
      )
