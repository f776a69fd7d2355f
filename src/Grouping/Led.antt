-- ===== src/Grouping/Led.antt =====
-- Every group has a representative.
use reportportal_analyzer_ng.Prelude.{
  In, ◌≤◌, ◌<◌, ◌⊎◌, true, if◌then◌else◌, ltb, ◌==◌, Bool-cases, length, is_empty, All, ℕ, zero,
  suc, ◌≡◌, refl, inl, inr, Bool, false, Option, none, some, List, [], ◌∷◌, ◌++◌, map, arith,
}
use reportportal_analyzer_ng.Floats.{Floats, fzero, fmin, lt}
use reportportal_analyzer_ng.Grouping.{
  key_lt, Numpy, GroupItem, LaunchGroup, insert_by_id, by_id, put_bucket, buckets, leftovers,
  is_burst, new_group, add_member, close, add_all, merge_into, merge_from, add_at, attach_at,
  nearest, attach_all, finished, passes, group_launch,
}
use reportportal_analyzer_ng.Grouping.Leader.{representative_of-Leads}

module _ {V : Type 0} where
  is_empty-append : (xs : List (GroupItem V)) (y : GroupItem V) → is_empty (xs ++ y ∷ []) ≡ false
  is_empty-append [] y = refl
  is_empty-append (x ∷ xs) y = refl

  is_empty-insert_by_id :
      (x : GroupItem V) (l : List (GroupItem V)) → is_empty (insert_by_id x l) ≡ false
  unfolding insert_by_id
  is_empty-insert_by_id x [] = refl
  is_empty-insert_by_id x (y ∷ ys) = ground arith

  is_empty-by_id : (l : List (GroupItem V)) → is_empty l ≡ false → is_empty (by_id l) ≡ false
  unfolding by_id
  is_empty-by_id [] h = h
  is_empty-by_id (x ∷ xs) h = is_empty-insert_by_id x (by_id xs)

  abbrev Filled : ℕ × List (GroupItem V) → Type 0
  Filled b = is_empty b.1 ≡ false

  put_bucket-Filled :
      (item : GroupItem V) (l : List (ℕ × List (GroupItem V)))
      → All Filled l
      → All Filled (put_bucket item l)
  unfolding put_bucket
  put_bucket-Filled item [] a = (refl, tt)
  put_bucket-Filled item ((fp, members) ∷ rest) a = elim (Bool-cases (fp == item.exception_fp)) [
    | inl e ↦ rw e (is_empty-append members item, a.1)
    | inr e ↦ elim (Bool-cases (ltb item.exception_fp fp)) [
      | inl f ↦ rw (e, f) (refl, a)
      | inr f ↦ rw (e, f) (a.0, put_bucket-Filled item rest a.1)
    ]
  ]

  buckets-Filled :
      (l : List (ℕ × List (GroupItem V))) (items : List (GroupItem V))
      → All Filled l
      → All Filled (buckets l items)
  unfolding buckets
  buckets-Filled l [] a = a
  buckets-Filled l (i ∷ is) a = elim (Bool-cases (i.exception_fp == 0)) [
    | inl e ↦ rw e (buckets-Filled l is a)
    | inr e ↦ rw e (buckets-Filled (put_bucket i l) is (put_bucket-Filled i l a))
  ]

module _ {V : Type 0} where
  -- with a stack trace if the other has one; alike in that, with at least as many logs; alike in both,
  -- with no greater id
  abbrev pub IsPreferred : GroupItem V → GroupItem V → Type 0
  IsPreferred rep m =
      (m.has_stacktrace ≡ true → rep.has_stacktrace ≡ true)
      × (m.has_stacktrace ≡ rep.has_stacktrace
          → (m.log_count ≤ rep.log_count) × (m.log_count ≡ rep.log_count → rep.item_id ≤ m.item_id))

  key_lt-IsPreferred : (rep m : GroupItem V) → key_lt rep m ≡ false → IsPreferred rep m
  key_lt-IsPreferred rep m h =
      (λ t. ground arith, λ e. (ground (arith, e), λ f. ground (arith, e, f)))

  All-IsPreferred :
      (rep : GroupItem V) (l : List (GroupItem V))
      → All (λ m. key_lt rep m ≡ false) l
      → All (IsPreferred rep) l
  All-IsPreferred rep [] a = tt
  All-IsPreferred rep (m ∷ l) a = (key_lt-IsPreferred rep m a.0, All-IsPreferred rep l a.1)

module _ {F : Type 0} ⦃fl : Floats F⦄ where
  -- at least five failures of a new error hash, more than `burst_x` of the launch
  abbrev pub IsBurst : F → (ℕ → Bool) → ℕ → ℕ → ℕ → Type 0
  IsBurst burst_x is_new total hash size =
      (0 < total) × (is_new hash ≡ true) × (5 ≤ size) × (lt burst_x (fl.ratio size total) ≡ true)

  abbrev pub prior_of : ℕ → ℕ → F
  prior_of size total = fmin (fl.ratio 9 10) (fl.add (fl.ratio 5 10) (fl.ratio size total))

  prior_lem :
      (burst_x : F) (is_new : ℕ → Bool) (total hash size : ℕ) (prior : F)
      → prior ≡ (if is_burst burst_x is_new total hash size then prior_of size total else fzero)
      → (IsBurst burst_x is_new total hash size → prior ≡ prior_of size total)
        × (IsBurst burst_x is_new total hash size ⊎ (prior ≡ fzero))
  prior_lem burst_x is_new total hash size prior e =
      elim (Bool-cases (is_burst burst_x is_new total hash size)) [
        | inl b ↦ (λ h. rw b at e, inl (ground arith, ground arith, ground arith, ground arith))
        | inr b ↦ (λ h. let (t, n, s, l) = h in ground arith, inr (rw b at e))
      ]

module _ {F V : Type 0} ⦃fl : Floats F⦄ where
  abbrev Inhabited : LaunchGroup F V → Type 0
  Inhabited g = is_empty g.members ≡ false

  new_group-Inhabited :
      (np : Numpy F V) (l : List (ℕ × List (GroupItem V)))
      → All Filled l
      → All Inhabited (map (λ e. new_group np (by_id e.1)) l)
  unfolding new_group
  new_group-Inhabited np [] a = tt
  new_group-Inhabited np (b ∷ bs) a = (is_empty-by_id b.1 a.0, new_group-Inhabited np bs a.1)

  add_at-Inhabited :
      (np : Numpy F V) (place : ℕ) (item : GroupItem V) (gs : List (LaunchGroup F V))
      → All Inhabited gs
      → All Inhabited (add_at np place item gs)
  unfolding add_at add_member new_group
  add_at-Inhabited np place item [] a = (refl, tt)
  add_at-Inhabited np zero item (g ∷ gs) a = (is_empty-append g.members item, a.1)
  add_at-Inhabited np (suc place) item (g ∷ gs) a = (a.0, add_at-Inhabited np place item gs a.1)

  appended-Inhabited :
      (np : Numpy F V) (item : GroupItem V) (gs : List (LaunchGroup F V))
      → All Inhabited gs
      → All Inhabited (gs ++ new_group np (item ∷ []) ∷ [])
  unfolding new_group
  appended-Inhabited np item [] a = (refl, tt)
  appended-Inhabited np item (g ∷ gs) a = (a.0, appended-Inhabited np item gs a.1)

  attach_at-Inhabited :
      (np : Numpy F V) (o : Option ℕ) (item : GroupItem V) (gs : List (LaunchGroup F V))
      → All Inhabited gs
      → All Inhabited (attach_at np o item gs)
  attach_at-Inhabited np none item gs a = appended-Inhabited np item gs a
  attach_at-Inhabited np (some place) item gs a = add_at-Inhabited np place item gs a

  attach_all-Inhabited :
      (np : Numpy F V) (gs : List (LaunchGroup F V)) (items : List (GroupItem V))
      → All Inhabited gs
      → All Inhabited (attach_all np gs items)
  unfolding attach_all
  attach_all-Inhabited np gs [] a = a
  attach_all-Inhabited np gs (i ∷ is) a =
      attach_all-Inhabited np (attach_at np (nearest np i.emb gs) i gs) is
        (attach_at-Inhabited np (nearest np i.emb gs) i gs a)

  add_all-Inhabited :
      (np : Numpy F V) (g : LaunchGroup F V) (items : List (GroupItem V))
      → Inhabited g
      → Inhabited (add_all np g items)
  unfolding add_all add_member
  add_all-Inhabited np g [] a = a
  add_all-Inhabited np g (i ∷ is) a =
      add_all-Inhabited np (add_member np g i) is (is_empty-append g.members i)

  merge_into-Inhabited :
      (np : Numpy F V) (g : LaunchGroup F V) (gs : List (LaunchGroup F V))
      → Inhabited g
      → All Inhabited gs
      → All Inhabited (merge_into np g gs)
  unfolding merge_into
  merge_into-Inhabited np g [] h a = (h, tt)
  merge_into-Inhabited np g (e ∷ es) h a = elim (Bool-cases (close np e g)) [
    | inl b ↦ rw b (add_all-Inhabited np e g.members a.0, a.1)
    | inr b ↦ rw b (a.0, merge_into-Inhabited np g es h a.1)
  ]

  merge_from-Inhabited :
      (np : Numpy F V) (merged gs : List (LaunchGroup F V))
      → All Inhabited merged
      → All Inhabited gs
      → All Inhabited (merge_from np merged gs)
  unfolding merge_from
  merge_from-Inhabited np merged [] a b = a
  merge_from-Inhabited np merged (g ∷ gs) a b =
      merge_from-Inhabited np (merge_into np g merged) gs (merge_into-Inhabited np g merged b.0 a)
        b.1

  passes-Inhabited : (np : Numpy F V) (items : List (GroupItem V)) → All Inhabited (passes np items)
  passes-Inhabited np items =
      let start = map (λ e. new_group np (by_id e.1)) (buckets [] items) in
      merge_from-Inhabited np [] (attach_all np start (by_id (leftovers items))) tt (
        attach_all-Inhabited np start (by_id (leftovers items))
          (new_group-Inhabited np (buckets [] items) (buckets-Filled [] items tt)))

  -- the representative, and the prior of a burst
  abbrev pub IsLed : F → (ℕ → Bool) → ℕ → LaunchGroup F V → Type 0
  IsLed burst_x is_new total g =
      (rep : GroupItem V) × (g.representative ≡ some rep)
      × (In rep g.members × All (IsPreferred rep) g.members)
      × ((IsBurst burst_x is_new total rep.error_hash (length g.members)
            → g.si_prior ≡ prior_of (length g.members) total)
          × (IsBurst burst_x is_new total rep.error_hash (length g.members) ⊎ (g.si_prior ≡ fzero)))

  finished-IsLed :
      (burst_x : F) (is_new : ℕ → Bool) (total : ℕ) (gs : List (LaunchGroup F V))
      → All Inhabited gs
      → All (IsLed burst_x is_new total) (map (finished burst_x is_new total) gs)
  unfolding finished
  finished-IsLed burst_x is_new total [] a = tt
  finished-IsLed burst_x is_new total (g ∷ gs) a =
      let (rep, e, leads) = representative_of-Leads g.members a.0 in
      (
        (
          rep,
          e,
          (leads.0, All-IsPreferred rep g.members leads.1),
          prior_lem burst_x is_new total rep.error_hash (length g.members)
              (finished burst_x is_new total g).si_prior (rw e refl),
        ),
        finished-IsLed burst_x is_new total gs a.1,
      )

  -- Every group has a representative: one of its members, with a stack trace if any has one, with the
  -- most logs among those alike in that, and with the smallest id among those alike in both. A
  -- burst, that is at least five failures of a new error hash that are more than `burst_x` of the launch,
  -- has the prior one half and its share of the launch, at most nine tenths; any other group has zero.
  pub group_launch-IsLed :
      (np : Numpy F V) (burst_x : F) (is_new : ℕ → Bool) (items : List (GroupItem V))
      → All (IsLed burst_x is_new (length items)) (group_launch np burst_x is_new items)
  unfolding group_launch
  group_launch-IsLed np burst_x is_new items =
      finished-IsLed burst_x is_new (length items) (passes np items) (passes-Inhabited np items)
