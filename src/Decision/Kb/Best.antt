-- ===== src/Decision/Kb/Best.antt =====
-- The best known mode is one of those given, and none has a greater key.
use mathlib.Core.Path.{subst}
use reportportal_analyzer_ng.Prelude.{
  ◌≤◌, ◌≢◌, ◌∙◌, Bool-cases, All, In, ℕ, ◌≡◌, refl, sym, ap, ◌⊎◌, inl, inr, true, false, Option,
  none, some, List, [], ◌∷◌, arith,
}
use reportportal_analyzer_ng.Floats.{Floats}
use reportportal_analyzer_ng.Decision.Types.{Candidate, KbMatch}
use reportportal_analyzer_ng.Decision.Kb.{
  score_kb_candidate, key_lt, scored, scored_modes, max_key, max_key?, best_kb_match,
}

abbrev pub Pair : Type 0 → Type 0
Pair F = KbMatch F × Candidate F

module _ {F : Type 0} ⦃fl : Floats F⦄ where
  key_lt_trans : (a b c : KbMatch F) → key_lt b a ≡ false → key_lt c b ≡ false → key_lt c a ≡ false
  key_lt_trans a b c h k = ground (
    arith,
    fl.le_trans a.score_mode b.score_mode c.score_mode,
    fl.le_trans b.score_mode c.score_mode a.score_mode,
    fl.le_trans c.score_mode a.score_mode b.score_mode,
    fl.le_total a.score_mode b.score_mode,
    fl.le_total b.score_mode c.score_mode,
    fl.le_total a.score_mode c.score_mode,
  )

  key_lt_irrefl : (a : KbMatch F) → key_lt a a ≡ false
  key_lt_irrefl a = ground (arith, fl.le_refl a.score_mode)

  key_lt_asym : (a b : KbMatch F) → key_lt a b ≡ true → key_lt b a ≡ false
  key_lt_asym a b h = ground (arith, fl.le_total a.score_mode b.score_mode)

  -- the winner is the first pair or one of the others, and none beats it
  pub record IsBest (best : Pair F) (p : Pair F) (ps : List (Pair F)) : Type 0 where
    pub chosen : In best (p ∷ ps)
    pub greatest : All (λ q. key_lt best.0 q.0 ≡ false) (p ∷ ps)

  max_key-keeps :
      (best p : Pair F) (ps : List (Pair F))
      → key_lt best.0 p.0 ≡ false
      → max_key best (p ∷ ps) ≡ max_key best ps
  unfolding max_key
  max_key-keeps best p ps k = rw k

  max_key-takes :
      (best p : Pair F) (ps : List (Pair F))
      → key_lt best.0 p.0 ≡ true
      → max_key best (p ∷ ps) ≡ max_key p ps
  unfolding max_key
  max_key-takes best p ps k = rw k

  In-skip : (x a b : Pair F) (l : List (Pair F)) → In x (a ∷ l) → In x (a ∷ b ∷ l)
  In-skip x a b l (inl e) = inl e
  In-skip x a b l (inr i) = inr (inr i)

  max_key-IsBest : (best : Pair F) (ps : List (Pair F)) → IsBest (max_key best ps) best ps
  max_key-IsBest best [] =
      unfold max_key in record { chosen = inl refl; greatest = (key_lt_irrefl best.0, tt) }
  max_key-IsBest best (p ∷ ps) = elim (Bool-cases (key_lt best.0 p.0)) [
    | inl k ↦
        let b = max_key-IsBest p ps in
        subst (λ z. IsBest z best (p ∷ ps)) (sym (max_key-takes best p ps k))
          (record {
            chosen = inr b.chosen;
            greatest = (
              key_lt_trans best.0 p.0 (max_key p ps).0 (key_lt_asym best.0 p.0 k) b.greatest.0,
              b.greatest,
            );
          })
    | inr k ↦
        let b = max_key-IsBest best ps in
        subst (λ z. IsBest z best (p ∷ ps)) (sym (max_key-keeps best p ps k))
          (record {
            chosen = In-skip (max_key best ps) best p ps b.chosen;
            greatest = (
              b.greatest.0,
              (key_lt_trans p.0 best.0 (max_key best ps).0 k b.greatest.0, b.greatest.1),
            );
          })
  ]

  scored-In :
      (q : Pair F) (c : Candidate F) (o : Option ℕ) (rest : List (Pair F))
      → In q (scored c o rest)
      → (q ≡ (score_kb_candidate c, c)) ⊎ In q rest
  scored-In q c none rest i = inr i
  scored-In q c (some mode) rest i = i

  scored_modes-In :
      (q : Pair F) (cs : List (Candidate F))
      → In q (scored_modes cs)
      → In q.1 cs × (q.0 ≡ score_kb_candidate q.1)
  unfolding scored_modes
  scored_modes-In q [] i = absurd i
  scored_modes-In q (c ∷ cs) i = elim (scored-In q c c.mode_id (scored_modes cs) i) [
    | inl e ↦ (inl (ap (λ z. z.1) e), subst (λ z. z.0 ≡ score_kb_candidate z.1) (sym e) refl)
    | inr j ↦ let (k, e) = scored_modes-In q cs j in (inr k, e)
  ]

  first_best :
      (q : Pair F) (l : List (Pair F))
      → max_key? l ≡ some q
      → In q l × All (λ r. key_lt q.0 r.0 ≡ false) l
  first_best q [] h = cc
  first_best q (p ∷ ps) h =
      let b = max_key-IsBest p ps in
      let e : max_key p ps ≡ q = cc in
      subst (λ z. In z (p ∷ ps) × All (λ r. key_lt z.0 r.0 ≡ false) (p ∷ ps)) e
        (b.chosen, b.greatest)

  -- `a` is at least as good as `b`: a greater score, or the same score and no greater mode id
  abbrev pub IsAtLeast : KbMatch F → KbMatch F → Type 0
  IsAtLeast a b =
      (fl.le b.score_mode a.score_mode ≡ true)
      × (fl.le a.score_mode b.score_mode ≡ true → a.mode_id ≤ b.mode_id)

  key_lt-IsAtLeast : (a b : KbMatch F) → key_lt a b ≡ false → IsAtLeast a b
  key_lt-IsAtLeast a b h = (
    ground (arith, fl.le_total a.score_mode b.score_mode),
    λ k. ground (arith, fl.le_total a.score_mode b.score_mode),
  )

  In-scored_here :
      (c d : Candidate F) (m : ℕ) (o : Option ℕ) (rest : List (Pair F))
      → o ≡ some m
      → ◌≡◌ {A = Pair F} (score_kb_candidate c, c) (score_kb_candidate d, d)
      → In (score_kb_candidate c, c) (scored d o rest)
  In-scored_here c d m none rest f k = cc
  In-scored_here c d m (some n) rest f k = inl k

  -- a candidate of a mode is scored
  In-scored_modes :
      (c : Candidate F) (m : ℕ) (cs : List (Candidate F))
      → In c cs
      → c.mode_id ≡ some m
      → In (score_kb_candidate c, c) (scored_modes cs)
  unfolding scored_modes
  In-scored_modes c m [] i e = absurd i
  In-scored_modes c m (d ∷ ds) (inl same_one) e =
      In-scored_here c d m d.mode_id (scored_modes ds) (ap (λ k. k.mode_id) (sym same_one) ∙ e)
        (ap {B = Pair F} (λ k. (score_kb_candidate k, k)) same_one)
  In-scored_modes c m (d ∷ ds) (inr i) e =
      later (score_kb_candidate c, c) d d.mode_id (In-scored_modes c m ds i e)
    where
      later :
          (q : Pair F) (d : Candidate F) (o : Option ℕ)
          → In q (scored_modes ds)
          → In q (scored d o (scored_modes ds))
      later q d none k = k
      later q d (some n) k = inr k

  All-In : (P : Pair F → Type 0) (q : Pair F) (l : List (Pair F)) → All P l → In q l → P q
  All-In P q [] a i = absurd i
  All-In P q (p ∷ ps) a (inl e) = subst P (sym e) a.0
  All-In P q (p ∷ ps) a (inr i) = All-In P q ps a.1 i

  none_scored : (l : List (Pair F)) (q : Pair F) → max_key? l ≡ none → In q l → ⊥
  none_scored [] q h i = i
  none_scored (p ∷ ps) q h i = cc

  -- Where a best known mode is answered, it is the score of one of the candidates, and every candidate of
  -- a mode has a lower score, or the same score and no smaller mode id; where none is answered, no
  -- candidate has a mode.
  pub best_kb_match-IsGreatest :
      (cs : List (Candidate F))
      → ((q : Pair F)
          → best_kb_match cs ≡ some q
          → In q.1 cs
            × (q.0 ≡ score_kb_candidate q.1)
            × ((c : Candidate F) (m : ℕ)
                → In c cs
                → c.mode_id ≡ some m
                → IsAtLeast q.0 (score_kb_candidate c)))
        × (best_kb_match cs ≡ none → (c : Candidate F) (m : ℕ) → In c cs → c.mode_id ≢ some m)
  unfolding best_kb_match
  best_kb_match-IsGreatest cs = (
    λ q h.
        let (i, a) = first_best q (scored_modes cs) h in
        let (given, score) = scored_modes-In q cs i in
        (
          given,
          score,
          λ c m j e. key_lt-IsAtLeast q.0 (score_kb_candidate c) (
              All-In (λ r. key_lt q.0 r.0 ≡ false) (score_kb_candidate c, c) (scored_modes cs) a
                (In-scored_modes c m cs j e)),
        ),
    λ h c m j e.
        none_scored (scored_modes cs) (score_kb_candidate c, c) h (In-scored_modes c m cs j e),
  )
