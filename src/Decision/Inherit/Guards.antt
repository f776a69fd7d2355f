-- ===== src/Decision/Inherit/Guards.antt =====
-- What an inherited match satisfies, and what cannot change it.
use mathlib.Core.Path.{subst}
use reportportal_analyzer_ng.Prelude.{
  ltb, ◌==◌, if◌then◌else◌, Bool-cases, length, keep, all, is_empty, All, In, All-In, In-keep,
  All-keep, ℕ, ◌≤◌, ◌≡◌, refl, sym, ◌∙◌, ◌≢◌, ◌⊎◌, inl, inr, Bool, true, false, ◌&&◌, Option, none,
  some, List, [], ◌∷◌, ◌++◌, arith,
}
use reportportal_analyzer_ng.Floats.{Floats}
use reportportal_analyzer_ng.Text.{Text, same_set, text_eq, text_eq_sound}
use reportportal_analyzer_ng.Decision.Types.{
  Label, pb, ab, si, nd, ti, unknown, is_base, LabelSource, is_human, is_ai, HashMatch, base_label,
  base_label-ne_ti,
}
use reportportal_analyzer_ng.Decision.Similarity.{identifier_jaccard}
use reportportal_analyzer_ng.Decision.Inherit.{
  stage_a_max_age, age, is_inheritable, stage_a_human_min_conf, agrees, discriminant_gate_blocked,
  stamp, newest_from, unanimous, supported, inherit_from, stage_a_inherit,
}

inheritable-base :
    (l : Label) (s : Option LabelSource)
    → l ≢ ti
    → is_inheritable l s ≡ true
    → (is_base l ≡ true) × (l ≡ nd → is_ai s ≡ false)
inheritable-base pb s n h = ground arith
inheritable-base ab s n h = ground arith
inheritable-base si s n h = ground arith
inheritable-base nd s n h = ground arith
inheritable-base ti s n h = absurd (n refl)
inheritable-base unknown s n h = ground arith

module _ {F : Type 0} ⦃fl : Floats F⦄ where
  newest_from-later :
      (best m : HashMatch F) (ms : List (HashMatch F))
      → ltb (stamp best) (stamp m) ≡ true
      → newest_from best (m ∷ ms) ≡ newest_from m ms
  unfolding newest_from
  newest_from-later best m ms b = rw b

  newest_from-earlier :
      (best m : HashMatch F) (ms : List (HashMatch F))
      → ltb (stamp best) (stamp m) ≡ false
      → newest_from best (m ∷ ms) ≡ newest_from best ms
  unfolding newest_from
  newest_from-earlier best m ms b = rw b

  In-skip :
      {x : HashMatch F} (a b : HashMatch F) (l : List (HashMatch F))
      → In x (a ∷ l)
      → In x (a ∷ b ∷ l)
  In-skip a b l (inl e) = inl e
  In-skip a b l (inr i) = inr (inr i)

  newest_from-In :
      (best : HashMatch F) (ms : List (HashMatch F)) → In (newest_from best ms) (best ∷ ms)
  newest_from-In best [] = inl (unfold newest_from in refl)
  newest_from-In best (m ∷ ms) = elim (Bool-cases (ltb (stamp best) (stamp m))) [
    | inl b ↦
        subst (λ z. In z (best ∷ m ∷ ms)) (sym (newest_from-later best m ms b))
          (inr (newest_from-In m ms))
    | inr b ↦
        subst (λ z. In z (best ∷ m ∷ ms)) (sym (newest_from-earlier best m ms b))
          (In-skip best m ms (newest_from-In best ms))
  ]

  newest_from-le :
      (best : HashMatch F) (ms : List (HashMatch F))
      → (stamp best ≤ stamp (newest_from best ms))
        × All (λ n. stamp n ≤ stamp (newest_from best ms)) ms
  newest_from-le best [] = unfold newest_from in (omega arith, tt)
  newest_from-le best (m ∷ ms) = elim (Bool-cases (ltb (stamp best) (stamp m))) [
    | inl b ↦
        let (l, a) = newest_from-le m ms in
        subst (λ z. (stamp best ≤ stamp z) × All (λ n. stamp n ≤ stamp z) (m ∷ ms))
          (sym (newest_from-later best m ms b)) (ground arith, (l, a))
    | inr b ↦
        let (l, a) = newest_from-le best ms in
        subst (λ z. (stamp best ≤ stamp z) × All (λ n. stamp n ≤ stamp z) (m ∷ ms))
          (sym (newest_from-earlier best m ms b)) (l, (ground arith, a))
  ]

  unanimous-All :
      (t : Text) (ms : List (HashMatch F))
      → all (λ n. text_eq n.issue_type t) ms ≡ true
      → All (λ n. n.issue_type ≡ t) ms
  unanimous-All t [] h = tt
  unanimous-All t (m ∷ ms) h =
      (text_eq_sound m.issue_type t (ground arith), unanimous-All t ms (ground arith))

  -- the two ways to be supported, of the matches that agree
  abbrev pub IsSupported : List (HashMatch F) → HashMatch F → Type 0
  IsSupported agreeing m =
      ((2 ≤ length agreeing) × All (λ n. n.issue_type ≡ m.issue_type) agreeing)
      ⊎ ((length agreeing ≡ 1)
          × (is_human m.label_source ≡ true)
          × (fl.le stage_a_human_min_conf m.confidence ≡ true))

  -- the guards of the specification, of the whole list of matches
  pub record IsInheritable (fp : ℕ) (matches : List (HashMatch F)) (statuses tokens : List Text)
      (now : ℕ) (m : HashMatch F) : Type 0 where
    pub hashed : fp ≢ 0
    pub there : In m matches
    pub agreeing : agrees statuses tokens m ≡ true
    pub same_statuses : same_set m.status_codes statuses ≡ true
    pub alike : fl.le (fl.ratio 5 10) (identifier_jaccard tokens m.msg_tokens) ≡ true
    pub newest : All (λ n. agrees statuses tokens n ≡ true → stamp n ≤ stamp m) matches
    pub fresh : age m.label_ts now ≤ stage_a_max_age
    pub supports : IsSupported (keep (agrees statuses tokens) matches) m
    pub based : is_base (base_label m.issue_type) ≡ true
    pub reviewed : base_label m.issue_type ≡ nd → is_ai m.label_source ≡ false

  -- what the tests of `inherit_from` say of the match that passes them
  pub record Passed (now : ℕ) (m : HashMatch F) (ms : List (HashMatch F)) (n : HashMatch F)
      : Type 0 where
    pub chosen : n ≡ newest_from m ms
    pub young : ltb stage_a_max_age (age n.label_ts now) ≡ false
    pub backed : supported m ms n ≡ true
    pub usable : is_inheritable (base_label n.issue_type) n.label_source ≡ true

  inherit_from-Passed :
      (now : ℕ) (m n : HashMatch F) (ms : List (HashMatch F))
      → inherit_from now (m ∷ ms) ≡ some n
      → Passed now m ms n
  unfolding inherit_from
  inherit_from-Passed now m n ms h = ground arith

  All-becomes :
      (t u : Text) (ms : List (HashMatch F))
      → t ≡ u
      → All (λ x. x.issue_type ≡ t) ms
      → All (λ x. x.issue_type ≡ u) ms
  All-becomes t u ms e a = subst (λ z. All (λ x. x.issue_type ≡ z) ms) e a

  supported-IsSupported :
      (m n : HashMatch F) (ms : List (HashMatch F))
      → In n (m ∷ ms)
      → supported m ms n ≡ true
      → IsSupported (m ∷ ms) n
  supported-IsSupported m n ms i h = elim (Bool-cases (ltb 0 (length ms) && unanimous m ms)) [
    | inl b ↦
        let a : All (λ x. x.issue_type ≡ m.issue_type) (m ∷ ms) =
          (refl, unanimous-All m.issue_type ms (ground arith)) in
        let e : n.issue_type ≡ m.issue_type =
          All-In (λ x. x.issue_type ≡ m.issue_type) n (m ∷ ms) a i in
        inl (ground arith, All-becomes m.issue_type n.issue_type (m ∷ ms) (sym e) a)
    | inr b ↦ inr (single ms h b)
  ]
    where
      single :
          (l : List (HashMatch F))
          → supported m l n ≡ true
          → (ltb 0 (length l) && unanimous m l) ≡ false
          → (length (m ∷ l) ≡ 1)
            × (is_human n.label_source ≡ true)
            × (fl.le stage_a_human_min_conf n.confidence ≡ true)
      single [] h b = ground arith
      single (x ∷ l) h b = ground arith

  inherit_from-IsInheritable :
      (fp : ℕ) (matches : List (HashMatch F)) (statuses tokens : List Text) (now : ℕ)
      (n : HashMatch F) (fs : List (HashMatch F))
      → fp ≢ 0
      → keep (agrees statuses tokens) matches ≡ fs
      → inherit_from now fs ≡ some n
      → IsInheritable fp matches statuses tokens now n
  inherit_from-IsInheritable fp matches statuses tokens now n [] p e h = unfold inherit_from in cc
  inherit_from-IsInheritable fp matches statuses tokens now n (m ∷ ms) p e h =
      let t = inherit_from-Passed now m n ms h in
      let i : In n (m ∷ ms) = subst (λ z. In z (m ∷ ms)) (sym t.chosen) (newest_from-In m ms) in
      let (j, a) = In-keep (agrees statuses tokens) n matches (subst (λ z. In n z) (sym e) i) in
      let (l, ls) = newest_from-le m ms in
      let le : All (λ x. stamp x ≤ stamp n) (m ∷ ms) =
        subst (λ z. All (λ x. stamp x ≤ stamp z) (m ∷ ms)) (sym t.chosen) (l, ls) in
      let (b, r) =
        inheritable-base (base_label n.issue_type) n.label_source (base_label-ne_ti n.issue_type)
          t.usable in
      record {
        hashed = p;
        there = j;
        agreeing = a;
        same_statuses = ground (arith, a);
        alike = ground (arith, a);
        newest =
            All-keep (λ x. stamp x ≤ stamp n) (agrees statuses tokens) matches
              (subst (λ z. All (λ x. stamp x ≤ stamp n) z) (sym e) le);
        fresh = let y = t.young in ground arith;
        supports = subst (λ z. IsSupported z n) (sym e) (supported-IsSupported m n ms i t.backed);
        based = b;
        reviewed = r;
      }

  -- An inherited match satisfies every guard: the query has a hash; the match is one of those given
  -- and agrees with the query on status codes and identifiers; no agreeing match is newer; it is at
  -- most 180 days old; the agreeing matches are at least two of one issue type, or one that a human
  -- labelled with confidence at least 0.9; its locator has a base group; no `nd` is AI-suggested.
  pub stage_a_inherit-IsInheritable :
      (fp : ℕ) (matches : List (HashMatch F)) (statuses tokens : List Text) (now : ℕ)
      (n : HashMatch F)
      → stage_a_inherit fp matches statuses tokens now ≡ some n
      → IsInheritable fp matches statuses tokens now n
  unfolding stage_a_inherit
  stage_a_inherit-IsInheritable fp matches statuses tokens now n h =
      inherit_from-IsInheritable fp matches statuses tokens now n
        (keep (agrees statuses tokens) matches) (unfold stage_a_inherit in ground arith) refl
        (unfold stage_a_inherit in ground arith)

  stage_a_of_filter :
      (fp : ℕ) (matches : List (HashMatch F)) (statuses tokens : List Text) (now : ℕ)
      → stage_a_inherit fp matches statuses tokens now
        ≡ (if fp == 0 then none else inherit_from now (keep (agrees statuses tokens) matches))
  unfolding stage_a_inherit
  stage_a_of_filter fp [] statuses tokens now = ground arith
  stage_a_of_filter fp (m ∷ ms) statuses tokens now = ground arith

  keep-skip :
      (p : HashMatch F → Bool) (before after : List (HashMatch F)) (other : HashMatch F)
      → p other ≡ false
      → keep p (before ++ other ∷ after) ≡ keep p (before ++ after)
  keep-skip p [] after other d = rw d
  keep-skip p (m ∷ ms) after other d = rw (keep-skip p ms after other d)

  -- A match that disagrees with the query on the discriminants changes nothing, wherever it stands.
  pub stage_a_inherit-ignores :
      (fp : ℕ) (before after : List (HashMatch F)) (statuses tokens : List Text) (now : ℕ)
      (other : HashMatch F)
      → agrees statuses tokens other ≡ false
      → stage_a_inherit fp (before ++ other ∷ after) statuses tokens now
        ≡ stage_a_inherit fp (before ++ after) statuses tokens now
  stage_a_inherit-ignores fp before after statuses tokens now other d =
      stage_a_of_filter fp (before ++ other ∷ after) statuses tokens now
      ∙ rw (keep-skip (agrees statuses tokens) before after other d)
          (sym (stage_a_of_filter fp (before ++ after) statuses tokens now))

  blocked_empty :
      (fp now : ℕ) (fs : List (HashMatch F))
      → is_empty fs ≡ true
      → (if fp == 0 then none else inherit_from now fs) ≡ none
  unfolding inherit_from
  blocked_empty fp now [] e = ground arith
  blocked_empty fp now (m ∷ ms) e = cc

  -- When the gate has rejected every match, nothing is inherited.
  pub blocked-never_inherits :
      (fp : ℕ) (matches : List (HashMatch F)) (statuses tokens : List Text) (now : ℕ)
      → discriminant_gate_blocked fp matches statuses tokens ≡ true
      → stage_a_inherit fp matches statuses tokens now ≡ none
  blocked-never_inherits fp matches statuses tokens now b =
      unfold discriminant_gate_blocked in
      rw (stage_a_of_filter fp matches statuses tokens now)
        (blocked_empty fp now (keep (agrees statuses tokens) matches) (ground arith))
