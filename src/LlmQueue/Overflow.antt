-- ===== src/LlmQueue/Overflow.antt =====
-- What a full queue drops.
use reportportal_analyzer_ng.Prelude.{
  ltb, leb, ◌==◌, Bool-cases, Option-cases, length, any, All, ℕ, ◌+◌, ◌≤◌, ◌<◌, ◌≡◌, refl, ◌⊎◌, inl,
  inr, true, false, ◌&&◌, none, some, List, [], ◌∷◌, arith,
}
use reportportal_analyzer_ng.LlmQueue.{
  role_priority, LlmJob, Entry, LlmQueue, heappush, worst_priority, oldest_of, remove_seq, enqueue,
}

module _ {P : Type 0} where
  -- `s` is the number of the oldest entry among those of the least urgent priority `w`
  pub record IsWorst (w s : ℕ) (h : List (Entry P)) : Type 0 where
    pub none_worse : All (λ e. e.priority ≤ w) h
    pub none_older : All (λ e. e.priority ≡ w → s ≤ e.seq) h
    pub there : any (λ e. e.priority == w && e.seq == s) h ≡ true

  All-le-weaken :
      (p w : ℕ) (h : List (Entry P))
      → p ≤ w
      → All (λ e. e.priority ≤ p) h
      → All (λ e. e.priority ≤ w) h
  All-le-weaken p w [] l a = tt
  All-le-weaken p w (e ∷ rest) l a = (omega arith, All-le-weaken p w rest l a.1)

  nil_of_none : (h : List (Entry P)) → worst_priority h ≡ none → h ≡ []
  unfolding worst_priority
  nil_of_none [] e = refl
  nil_of_none (x ∷ rest) e = elim (Option-cases (worst_priority rest)) [
    | inl n ↦ ground (arith, n)
    | inr (p, n) ↦ ground (arith, n)
  ]

  worst_priority-bounds :
      (h : List (Entry P)) (w : ℕ) → worst_priority h ≡ some w → All (λ e. e.priority ≤ w) h
  unfolding worst_priority
  worst_priority-bounds [] w h = tt
  worst_priority-bounds (e ∷ rest) w h = elim (Option-cases (worst_priority rest)) [
    | inl n ↦ (ground (arith, n), rw (nil_of_none rest n) tt)
    | inr (p, n) ↦ (
      ground (arith, n),
      All-le-weaken p w rest (ground (arith, n)) (worst_priority-bounds rest p n),
    )
  ]

  worst_priority-there :
      (h : List (Entry P)) (w : ℕ) → worst_priority h ≡ some w → any (λ e. e.priority == w) h ≡ true
  unfolding worst_priority
  worst_priority-there [] w h = cc
  worst_priority-there (e ∷ rest) w h = elim (Option-cases (worst_priority rest)) [
    | inl n ↦ ground (arith, n)
    | inr (p, n) ↦ ground (arith, n, worst_priority-there rest p n)
  ]

  oldest_of-none :
      (w : ℕ) (h : List (Entry P)) → oldest_of w h ≡ none → any (λ e. e.priority == w) h ≡ false
  unfolding oldest_of
  oldest_of-none w [] n = refl
  oldest_of-none w (e ∷ rest) n = ground (arith, oldest_of-none w rest)

  All-vacuous :
      (w s : ℕ) (h : List (Entry P))
      → any (λ e. e.priority == w) h ≡ false
      → All (λ e. e.priority ≡ w → s ≤ e.seq) h
  All-vacuous w s [] n = tt
  All-vacuous w s (e ∷ rest) n = (λ p. ground arith, All-vacuous w s rest (ground arith))

  All-older :
      (w s t : ℕ) (h : List (Entry P))
      → s ≤ t
      → All (λ e. e.priority ≡ w → t ≤ e.seq) h
      → All (λ e. e.priority ≡ w → s ≤ e.seq) h
  All-older w s t [] l a = tt
  All-older w s t (e ∷ rest) l a = (λ p. let k = a.0 p in omega arith, All-older w s t rest l a.1)

  oldest_of-bounds :
      (w s : ℕ) (h : List (Entry P))
      → oldest_of w h ≡ some s
      → All (λ e. e.priority ≡ w → s ≤ e.seq) h
  unfolding oldest_of
  oldest_of-bounds w s [] h = tt
  oldest_of-bounds w s (e ∷ rest) h = elim (Option-cases (oldest_of w rest)) [
    | inl n ↦ (λ p. ground (arith, n), All-vacuous w s rest (oldest_of-none w rest n))
    | inr (t, n) ↦ (
      λ p. ground (arith, n),
      All-older w s t rest (ground (arith, n)) (oldest_of-bounds w t rest n),
    )
  ]

  oldest_of-there :
      (w s : ℕ) (h : List (Entry P))
      → oldest_of w h ≡ some s
      → any (λ e. e.priority == w && e.seq == s) h ≡ true
  unfolding oldest_of
  oldest_of-there w s [] h = cc
  oldest_of-there w s (e ∷ rest) h = elim (Option-cases (oldest_of w rest)) [
    | inl n ↦ ground (arith, n)
    | inr (t, n) ↦ ground (arith, n, oldest_of-there w t rest n)
  ]

  -- the oldest of the least urgent entries
  pub oldest_of-IsWorst :
      (h : List (Entry P)) (w : ℕ)
      → worst_priority h ≡ some w
      → (s : ℕ) × (oldest_of w h ≡ some s) × IsWorst w s h
  oldest_of-IsWorst h w e = elim (Option-cases (oldest_of w h)) [
    | inl n ↦ cc (worst_priority-there h w e, oldest_of-none w h n)
    | inr (s, n) ↦ (
      s,
      n,
      record {
        none_worse = worst_priority-bounds h w e;
        none_older = oldest_of-bounds w s h n;
        there = oldest_of-there w s h n;
      },
    )
  ]

  -- the branches of a full queue
  pub enqueue_lem :
      (maxsize : ℕ) (job : LlmJob P) (q : LlmQueue P) (p w : ℕ)
      → maxsize ≤ length q.heap
      → role_priority job.role ≡ some p
      → worst_priority q.heap ≡ some w
      → ((w < p) × (enqueue maxsize job q ≡ (record q { dropped = q.dropped + 1 }, none)))
        ⊎ ((p ≤ w)
            × ((s : ℕ) × IsWorst w s q.heap
                × (enqueue maxsize job q ≡ (
                  record q {
                    heap =
                        heappush
                          (record { priority = p; seq = q.seq; job = job })
                          (remove_seq s q.heap);
                    seq = q.seq + 1;
                    dropped = q.dropped + 1;
                  },
                  none,
                ))))
  unfolding enqueue
  enqueue_lem maxsize job q p w full known worst =
      let f : leb maxsize (length q.heap) ≡ true = ground arith in
      elim (Bool-cases (ltb w p)) [
        | inl b ↦ inl (ground arith, rw (f, worst, known, b))
        | inr b ↦
            let (s, o, i) = oldest_of-IsWorst q.heap w worst in
            inr (ground arith, (s, i, simp (f, worst, known, b, o)))
      ]
