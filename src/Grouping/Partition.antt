-- ===== src/Grouping/Partition.antt =====
-- The groups divide the items of a launch; what makes a representative and a burst.
use reportportal_analyzer_ng.Prelude.{
  ◌==◌, Bool-cases, length, keep, ℕ, zero, suc, ◌+◌, ◌≡◌, refl, inl, inr, Bool, Option, none, some,
  List, [], ◌∷◌, ◌++◌, map, arith,
}
use reportportal_analyzer_ng.Floats.{Floats}
use reportportal_analyzer_ng.Grouping.{
  Numpy, GroupItem, LaunchGroup, insert_by_id, by_id, put_bucket, buckets, leftovers, new_group,
  add_member, close, add_all, merge_into, merge_from, add_at, attach_at, nearest, attach_all,
  finished, passes, group_launch,
}

module _ {V : Type 0} (p : GroupItem V → Bool) where
  abbrev pub count : List (GroupItem V) → ℕ
  count items = length (keep p items)

  count-append : (xs ys : List (GroupItem V)) → count (xs ++ ys) ≡ count xs + count ys
  count-append [] ys = omega arith
  count-append (x ∷ xs) ys = ground (arith, count-append xs ys)

  count-insert_by_id :
      (x : GroupItem V) (l : List (GroupItem V)) → count (insert_by_id x l) ≡ count (x ∷ l)
  unfolding insert_by_id
  count-insert_by_id x [] = refl
  count-insert_by_id x (y ∷ ys) = ground (arith, count-insert_by_id x ys)

  count-by_id : (l : List (GroupItem V)) → count (by_id l) ≡ count l
  unfolding by_id
  count-by_id [] = refl
  count-by_id (x ∷ xs) = ground (arith, count-insert_by_id x (by_id xs), count-by_id xs)

  abbrev in_buckets : List (ℕ × List (GroupItem V)) → ℕ
  in_buckets [] = 0
  in_buckets ((fp, members) ∷ rest) = count members + in_buckets rest

  in_buckets-put_bucket :
      (item : GroupItem V) (l : List (ℕ × List (GroupItem V)))
      → in_buckets (put_bucket item l) ≡ count (item ∷ []) + in_buckets l
  unfolding put_bucket
  in_buckets-put_bucket item [] = omega arith
  in_buckets-put_bucket item ((fp, members) ∷ rest) =
      ground (arith, in_buckets-put_bucket item rest, count-append members (item ∷ []))

  in_buckets-buckets :
      (by_fp : List (ℕ × List (GroupItem V))) (items : List (GroupItem V))
      → in_buckets (buckets by_fp items) + count (leftovers items) ≡ in_buckets by_fp + count items
  unfolding buckets
  in_buckets-buckets by_fp [] = omega arith
  in_buckets-buckets by_fp (i ∷ is) = elim (Bool-cases (i.exception_fp == 0)) [
    | inl b ↦ ground (arith, in_buckets-buckets by_fp is)
    | inr b ↦
        ground (arith, in_buckets-buckets (put_bucket i by_fp) is, in_buckets-put_bucket i by_fp)
  ]

module _ {F V : Type 0} ⦃fl : Floats F⦄ (p : GroupItem V → Bool) where
  -- the members of all groups that pass
  abbrev pub placed : List (LaunchGroup F V) → ℕ
  placed [] = 0
  placed (g ∷ gs) = count p g.members + placed gs

  placed-append : (gs hs : List (LaunchGroup F V)) → placed (gs ++ hs) ≡ placed gs + placed hs
  placed-append [] hs = omega arith
  placed-append (g ∷ gs) hs = omega (arith, placed-append gs hs)

  placed-buckets :
      (np : Numpy F V) (l : List (ℕ × List (GroupItem V)))
      → placed (map (λ e. new_group np (by_id e.1)) l) ≡ in_buckets p l
  unfolding new_group
  placed-buckets np [] = refl
  placed-buckets np ((fp, members) ∷ rest) =
      omega (arith, placed-buckets np rest, count-by_id p members)

  placed-add_at :
      (np : Numpy F V) (place : ℕ) (item : GroupItem V) (gs : List (LaunchGroup F V))
      → placed (add_at np place item gs) ≡ placed gs + count p (item ∷ [])
  unfolding add_at add_member new_group
  placed-add_at np place item [] = omega arith
  placed-add_at np zero item (g ∷ gs) = ground (arith, count-append p g.members (item ∷ []))
  placed-add_at np (suc place) item (g ∷ gs) = omega (arith, placed-add_at np place item gs)

  placed-attach_at :
      (np : Numpy F V) (o : Option ℕ) (item : GroupItem V) (gs : List (LaunchGroup F V))
      → placed (attach_at np o item gs) ≡ placed gs + count p (item ∷ [])
  unfolding new_group
  placed-attach_at np none item gs = omega (arith, placed-append gs (new_group np (item ∷ []) ∷ []))
  placed-attach_at np (some place) item gs = placed-add_at np place item gs

  placed-attach_all :
      (np : Numpy F V) (gs : List (LaunchGroup F V)) (items : List (GroupItem V))
      → placed (attach_all np gs items) ≡ placed gs + count p items
  unfolding attach_all
  placed-attach_all np gs [] = omega arith
  placed-attach_all np gs (i ∷ is) = ground (
    arith,
    placed-attach_all np (attach_at np (nearest np i.emb gs) i gs) is,
    placed-attach_at np (nearest np i.emb gs) i gs,
  )

  count-add_all :
      (np : Numpy F V) (g : LaunchGroup F V) (items : List (GroupItem V))
      → count p (add_all np g items).members ≡ count p g.members + count p items
  unfolding add_all add_member
  count-add_all np g [] = omega arith
  count-add_all np g (i ∷ is) =
      ground (arith, count-add_all np (add_member np g i) is, count-append p g.members (i ∷ []))

  placed-merge_into :
      (np : Numpy F V) (g : LaunchGroup F V) (gs : List (LaunchGroup F V))
      → placed (merge_into np g gs) ≡ placed gs + count p g.members
  unfolding merge_into
  placed-merge_into np g [] = omega arith
  placed-merge_into np g (e ∷ es) = elim (Bool-cases (close np e g)) [
    | inl b ↦ rw b (omega (arith, count-add_all np e g.members))
    | inr b ↦ rw b (omega (arith, placed-merge_into np g es))
  ]

  placed-merge_from :
      (np : Numpy F V) (merged gs : List (LaunchGroup F V))
      → placed (merge_from np merged gs) ≡ placed merged + placed gs
  unfolding merge_from
  placed-merge_from np merged [] = omega arith
  placed-merge_from np merged (g ∷ gs) =
      omega (arith, placed-merge_from np (merge_into np g merged) gs, placed-merge_into np g merged)

  placed-finished :
      (burst_x : F) (is_new : ℕ → Bool) (total : ℕ) (gs : List (LaunchGroup F V))
      → placed (map (finished burst_x is_new total) gs) ≡ placed gs
  unfolding finished
  placed-finished burst_x is_new total [] = refl
  placed-finished burst_x is_new total (g ∷ gs) =
      omega (arith, placed-finished burst_x is_new total gs)

  -- Grouping loses no item and makes none: of the items that pass any test, the groups together hold
  -- as many as the launch does.
  pub placed-group_launch :
      (np : Numpy F V) (burst_x : F) (is_new : ℕ → Bool) (items : List (GroupItem V))
      → placed (group_launch np burst_x is_new items) ≡ count p items
  unfolding group_launch
  placed-group_launch np burst_x is_new items =
      let start = map (λ e. new_group np (by_id e.1)) (buckets [] items) in
      omega (
        arith,
        placed-finished burst_x is_new (length items) (passes np items),
        placed-merge_from np [] (attach_all np start (by_id (leftovers items))),
        placed-attach_all np start (by_id (leftovers items)),
        placed-buckets np (buckets [] items),
        count-by_id p (leftovers items),
        in_buckets-buckets p [] items,
      )
