-- ===== src/Replay/Events/Newest.antt =====
-- The dictionary of the latest events: what it holds of each item, and that it holds each item once.
use mathlib.Core.Path.{subst}
use reportportal_analyzer_ng.Prelude.{
  leb, Bool-cases, any, All, ◌≡◌, refl, sym, inl, inr, Bool, true, false, ◌&&◌, List, [], ◌∷◌,
  arith,
}
use reportportal_analyzer_ng.Replay.Events.{Event, ts_key, is_usable, same_key, put, latest_of}

module _ {V : Type 0} where
  -- an event of the same item that is at least as new
  abbrev pub covers : Event V → Event V → Bool
  covers r c = same_key c r && leb (ts_key r) (ts_key c)

  abbrev pub IsUnique : List (Event V) → Type 0
  IsUnique [] = Unit
  IsUnique (x ∷ xs) = (any (λ y. same_key y x) xs ≡ false) × IsUnique xs

  covers_refl : (r : Event V) → covers r r ≡ true
  covers_refl r = ground arith

  put-covers : (r : Event V) (l : List (Event V)) → any (covers r) (put r l) ≡ true
  unfolding put
  put-covers r [] = ground arith
  put-covers r (c ∷ cs) = ground (arith, put-covers r cs)

  put-keeps :
      (r x : Event V) (l : List (Event V))
      → any (covers x) l ≡ true
      → any (covers x) (put r l) ≡ true
  unfolding put
  put-keeps r x [] h = cc
  put-keeps r x (c ∷ cs) h = ground (arith, put-keeps r x cs)

  latest_of-keeps :
      (x : Event V) (l rows : List (Event V))
      → any (covers x) l ≡ true
      → any (covers x) (latest_of l rows) ≡ true
  unfolding latest_of
  latest_of-keeps x l [] h = h
  latest_of-keeps x l (r ∷ rs) h = elim (Bool-cases (is_usable r)) [
    | inl u ↦ rw u (latest_of-keeps x (put r l) rs (put-keeps r x l h))
    | inr u ↦ rw u (latest_of-keeps x l rs h)
  ]

  pub latest_of-covers :
      (l rows : List (Event V))
      → All (λ x. is_usable x ≡ true → any (covers x) (latest_of l rows) ≡ true) rows
  unfolding latest_of
  latest_of-covers l [] = tt
  latest_of-covers l (r ∷ rs) = elim (Bool-cases (is_usable r)) [
    | inl u ↦
        let e : latest_of l (r ∷ rs) ≡ latest_of (put r l) rs = rw u in
        subst (λ z. All (λ x. is_usable x ≡ true → any (covers x) z ≡ true) (r ∷ rs)) (sym e)
          (λ _. latest_of-keeps r (put r l) rs (put-covers r l), latest_of-covers (put r l) rs)
    | inr u ↦
        let e : latest_of l (r ∷ rs) ≡ latest_of l rs = rw u in
        subst (λ z. All (λ x. is_usable x ≡ true → any (covers x) z ≡ true) (r ∷ rs)) (sym e)
          (λ k. cc, latest_of-covers l rs)
  ]

  put-other :
      (r x : Event V) (l : List (Event V))
      → same_key r x ≡ false
      → any (λ y. same_key y x) l ≡ false
      → any (λ y. same_key y x) (put r l) ≡ false
  unfolding put
  put-other r x [] n h = ground arith
  put-other r x (c ∷ cs) n h = ground (arith, put-other r x cs)

  any-same_key :
      (r c : Event V) (l : List (Event V))
      → same_key c r ≡ true
      → any (λ y. same_key y c) l ≡ false
      → any (λ y. same_key y r) l ≡ false
  any-same_key r c [] e h = refl
  any-same_key r c (y ∷ ys) e h = ground (arith, any-same_key r c ys)

  put-IsUnique : (r : Event V) (l : List (Event V)) → IsUnique l → IsUnique (put r l)
  unfolding put
  put-IsUnique r [] u = (refl, tt)
  put-IsUnique r (c ∷ cs) u = elim (Bool-cases (same_key c r)) [
    | inl e ↦ elim (Bool-cases (leb (ts_key c) (ts_key r))) [
      | inl k ↦ rw (e, k) (any-same_key r c cs e u.0, u.1)
      | inr k ↦ rw (e, k) u
    ]
    | inr e ↦ rw e (put-other r c cs (ground arith) u.0, put-IsUnique r cs u.1)
  ]

  pub latest_of-IsUnique : (l rows : List (Event V)) → IsUnique l → IsUnique (latest_of l rows)
  unfolding latest_of
  latest_of-IsUnique l [] u = u
  latest_of-IsUnique l (r ∷ rs) u = elim (Bool-cases (is_usable r)) [
    | inl e ↦ rw e (latest_of-IsUnique (put r l) rs (put-IsUnique r l u))
    | inr e ↦ rw e (latest_of-IsUnique l rs u)
  ]

  put-All :
      (P : Event V → Type 0) (r : Event V) (l : List (Event V)) → P r → All P l → All P (put r l)
  unfolding put
  put-All P r [] p a = (p, tt)
  put-All P r (c ∷ cs) p a = elim (Bool-cases (same_key c r)) [
    | inl e ↦ elim (Bool-cases (leb (ts_key c) (ts_key r))) [
      | inl k ↦ rw (e, k) (p, a.1)
      | inr k ↦ rw (e, k) a
    ]
    | inr e ↦ rw e (a.0, put-All P r cs p a.1)
  ]

  pub latest_of-All :
      (P : Event V → Type 0) (l rows : List (Event V))
      → All P l
      → All (λ r. is_usable r ≡ true → P r) rows
      → All P (latest_of l rows)
  unfolding latest_of
  latest_of-All P l [] a b = a
  latest_of-All P l (r ∷ rs) a b = elim (Bool-cases (is_usable r)) [
    | inl u ↦ rw u (latest_of-All P (put r l) rs (put-All P r l (b.0 u) a) b.1)
    | inr u ↦ rw u (latest_of-All P l rs a b.1)
  ]
