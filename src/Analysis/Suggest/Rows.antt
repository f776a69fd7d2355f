-- ===== src/Analysis/Suggest/Rows.antt =====
-- What the rows of a reply are.
use mathlib.Core.Path.{subst}
use reportportal_analyzer_ng.Prelude.{
  Bool-cases, length, keep, any, ℕ, zero, suc, ◌+◌, ◌≤◌, ◌≡◌, refl, sym, ap, ◌∙◌, inl, inr, Bool,
  true, false, not, ◌&&◌, Option, none, some, List, [], ◌∷◌, ◌++◌, arith,
}
use reportportal_analyzer_ng.Floats.{Floats}
use reportportal_analyzer_ng.Text.{Text}
use reportportal_analyzer_ng.Decision.Types.{Label, same_label, Candidate, base_label}
use reportportal_analyzer_ng.Decision.Gbm.{truthy?, result}
use reportportal_analyzer_ng.Analysis.Evidence.{first_n}
use reportportal_analyzer_ng.Analysis.Suggest.{
  Shown, provenance_of, shows, before, extract, moved_first, reorder_for_judge, cosine_of,
  add_shown, add_candidates, declined_row, first_some, first_declined,
}

module _ {A : Type 0} where
  pub length-first_n : (n : ℕ) (xs : List A) → length (first_n n xs) ≤ n
  unfolding first_n
  length-first_n zero xs = omega arith
  length-first_n (suc n) [] = omega arith
  length-first_n (suc n) (x ∷ xs) = omega (arith, length-first_n n xs)

  -- how many pass the test
  abbrev pub count : (A → Bool) → List A → ℕ
  count p xs = length (keep p xs)

  pub count-append : (p : A → Bool) (xs ys : List A) → count p (xs ++ ys) ≡ count p xs + count p ys
  count-append p [] ys = omega arith
  count-append p (x ∷ xs) ys = ground (arith, count-append p xs ys)

  pub count-first_n : (p : A → Bool) (n : ℕ) (xs : List A) → count p (first_n n xs) ≤ count p xs
  unfolding first_n
  count-first_n p zero xs = omega arith
  count-first_n p (suc n) [] = omega arith
  count-first_n p (suc n) (x ∷ xs) = ground (arith, count-first_n p n xs)

  pub count-first_n_mono :
      (p : A → Bool) (n m : ℕ) (xs : List A)
      → n ≤ m
      → count p (first_n n xs) ≤ count p (first_n m xs)
  unfolding first_n
  count-first_n_mono p zero m xs h = omega arith
  count-first_n_mono p (suc n) zero xs h = omega (arith, h)
  count-first_n_mono p (suc n) (suc m) [] h = omega arith
  count-first_n_mono p (suc n) (suc m) (x ∷ xs) h =
      ground (arith, count-first_n_mono p n m xs (omega (arith, h)))

  pub count-keep : (p q : A → Bool) (xs : List A) → count p (keep q xs) ≤ count p xs
  count-keep p q [] = omega arith
  count-keep p q (x ∷ xs) = elim (Bool-cases (q x)) [
    | inl e ↦ rw e (ground (arith, count-keep p q xs))
    | inr e ↦ rw e (ground (arith, count-keep p q xs))
  ]

  pub count_split :
      (p q : A → Bool) (xs : List A)
      → count p (keep q xs) + count p (keep (λ x. not (q x)) xs) ≡ count p xs
  count_split p q [] = omega arith
  count_split p q (x ∷ xs) = elim (Bool-cases (q x)) [
    | inl e ↦ rw e (ground (arith, count_split p q xs))
    | inr e ↦ rw e (ground (arith, count_split p q xs))
  ]

  pub count-any : (p : A → Bool) (xs : List A) → any p xs ≡ false → count p xs ≡ 0
  count-any p [] h = refl
  count-any p (x ∷ xs) h = ground (arith, count-any p xs, h)

module _ {F : Type 0} where
  before-some :
      (s t : Shown F) (ts : List (Shown F)) (o : Option (Shown F × List (Shown F)))
      → before s o ≡ some (t, ts)
      → (us : List (Shown F)) × (o ≡ some (t, us)) × (ts ≡ s ∷ us)
  before-some s t ts none h = cc
  before-some s t ts (some (u, us)) h =
      let eu : u ≡ t = cc in let es : s ∷ us ≡ ts = cc in (us, ap (λ z. some (z, us)) eu, sym es)

  count-extract :
      (p : Shown F → Bool) (i : ℕ) (xs : List (Shown F)) (t : Shown F) (ts : List (Shown F))
      → extract i xs ≡ some (t, ts)
      → (count p (t ∷ ts) ≡ count p xs) × (shows i t ≡ true)
  unfolding extract
  count-extract p i [] t ts h = cc
  count-extract p i (x ∷ xs) t ts h = elim (Bool-cases (shows i x)) [
    | inl e ↦
        let k : some (x, xs) ≡ some (t, ts) = rw e at h in
        let ex : x ≡ t = cc in
        let exs : xs ≡ ts = cc in (rw (sym ex, sym exs) refl, ap (shows i) (sym ex) ∙ e)
    | inr e ↦
        let k : before x (extract i xs) ≡ some (t, ts) = rw e at h in
        let (us, f, g) = before-some x t ts (extract i xs) k in
        let (c, here) = count-extract p i xs t us f in
        (ap (λ z. count p (t ∷ z)) g ∙ ground (arith, c), here)
  ]

  moved_first_lem :
      (p : Shown F → Bool) (i : ℕ) (xs : List (Shown F)) (o : Option (Shown F × List (Shown F)))
      → extract i xs ≡ o
      → count p (moved_first xs o) ≡ count p xs
  moved_first_lem p i xs none h = refl
  moved_first_lem p i xs (some (t, ts)) h = (count-extract p i xs t ts h).0

  -- The verdict of the judge only moves rows: whatever is counted, there are as many after it.
  pub count-reorder_for_judge :
      (p : Shown F → Bool) (candidates : List (Shown F)) (verdict : Option ℕ) (auto : Bool)
      → count p (reorder_for_judge candidates verdict auto) ≡ count p candidates
  unfolding reorder_for_judge
  count-reorder_for_judge p candidates verdict true = refl
  count-reorder_for_judge p candidates none false = refl
  count-reorder_for_judge p candidates (some i) false =
      moved_first_lem p i candidates (extract i candidates) refl

module _ {F : Type 0} ⦃fl : Floats F⦄ where
  -- no item is shown twice
  abbrev pub Distinct : List (Shown F) → Type 0
  Distinct xs = (i : ℕ) → count (shows i) xs ≤ 1

  add_shown-Distinct :
      (result : List (Shown F)) (c : Candidate F) (i : Option ℕ) (t : Option Text)
      → Distinct result
      → Distinct (add_shown result c i t)
  add_shown-Distinct result c none t d = d
  add_shown-Distinct result c (some i) none d = d
  add_shown-Distinct result c (some i) (some t) d = elim (Bool-cases (any (shows i) result)) [
    | inl e ↦ rw e d
    | inr e ↦
        let new : Shown F = record {
          issue_type = t;
          item_id = i;
          score = cosine_of c;
          es_score = c.rrf_score;
          provenance = provenance_of c.label_source false;
        } in
        let none_yet = count-any (shows i) result e in
        rw e (λ j. ground (arith, count-append (shows j) result (new ∷ []), d j, none_yet))
  ]

  pub add_candidates-Distinct :
      (result : List (Shown F)) (cs : List (Candidate F))
      → Distinct result
      → Distinct (add_candidates result cs)
  unfolding add_candidates
  add_candidates-Distinct result [] d = d
  add_candidates-Distinct result (c ∷ cs) d =
      add_candidates-Distinct (add_shown result c c.item_id c.issue_type) cs
        (add_shown-Distinct result c c.item_id c.issue_type d)

  declined_row_new :
      (used : List (Shown F)) (confidence : F) (group : Label) (c : Candidate F) (i : Option ℕ)
      (t : Option Text) (s : Shown F)
      → declined_row used confidence group c i t ≡ some s
      → (any (shows s.item_id) used ≡ false) × (s.score ≡ confidence)
  declined_row_new used confidence group c none t s h = cc
  declined_row_new used confidence group c (some i) none s h = cc
  declined_row_new used confidence group c (some i) (some t) s h =
      elim (Bool-cases (not (any (shows i) used) && same_label (base_label t) group)) [
        | inl e ↦
            let k : some (record {
              issue_type = t;
              item_id = i;
              score = confidence;
              es_score = c.rrf_score;
              provenance = provenance_of c.label_source false;
            })
                ≡ some s =
              rw e at h in
            let unused : any (shows i) used ≡ false = ground (arith, e) in
            let same_item : i ≡ s.item_id = ap (λ o. item_or o) k in
            (
              subst (λ j. any (shows j) used ≡ false) same_item unused,
              sym (ap (λ o. score_or confidence o) k),
            )
        | inr e ↦ let k : none ≡ some s = rw e at h in cc
      ]
    where
      item_or : Option (Shown F) → ℕ
      item_or none = 0
      item_or (some s) = s.item_id

      score_or : F → Option (Shown F) → F
      score_or f none = f
      score_or f (some s) = s.score

  pub first_declined_new :
      (used : List (Shown F)) (confidence : F) (group : Label) (cs : List (Candidate F))
      (s : Shown F)
      → first_declined used confidence group cs ≡ some s
      → (any (shows s.item_id) used ≡ false) × (s.score ≡ confidence)
  unfolding first_declined
  first_declined_new used confidence group [] s h = cc
  first_declined_new used confidence group (c ∷ cs) s h =
      go (declined_row used confidence group c c.item_id (truthy? c.issue_type)) refl h
        (first_declined_new used confidence group cs s)
    where
      go :
          (o : Option (Shown F))
          → declined_row used confidence group c c.item_id (truthy? c.issue_type) ≡ o
          → first_some o (first_declined used confidence group cs) ≡ some s
          → (first_declined used confidence group cs ≡ some s
              → (any (shows s.item_id) used ≡ false) × (s.score ≡ confidence))
          → (any (shows s.item_id) used ≡ false) × (s.score ≡ confidence)
      go none e k f = f k
      go (some t) e k f =
          declined_row_new used confidence group c c.item_id (truthy? c.issue_type) s (e ∙ k)
