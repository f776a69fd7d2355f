-- ===== src/Scope/Table.antt =====
-- What each analyzer mode admits.
use reportportal_analyzer_ng.Prelude.{
  ◌==◌, if◌then◌else◌, Bool-cases, ◌≡◌, ◌≢◌, refl, ◌↔◌, Bool, true, false, not, ◌∙◌, Option, none,
  some, arith, inl, inr,
}
use reportportal_analyzer_ng.Text.{Text, codes, strip, text_eq, text_eq_sound, text_eq_refl}
use reportportal_analyzer_ng.Scope.{
  ScopeQuery, ScopeCandidate, is_ti, passes_base, in_analyze_scope,
}

-- what a mode of this name admits
abbrev pub Admits : Text → ScopeQuery → ScopeCandidate → Type 0
Admits name q cand = in_analyze_scope (some name) q cand ≡ true

-- labelled, with a defect group other than `ti`
abbrev pub IsEligible : ScopeCandidate → Type 0
IsEligible cand =
    (cand.is_labeled ≡ true) × ((g : Text) × (cand.issue_type_group ≡ some g) × (g ≢ codes "ti"))

some_inj : {s t : Text} → some s ≡ some t → t ≡ s
some_inj e = cc

is_ti-false : (o : Option Text) → (is_ti o ≡ false) ↔ ((g : Text) × (o ≡ some g) × (g ≢ codes "ti"))
is_ti-false none = (λ h. cc, λ h. let (g, e, n) = h in cc)
is_ti-false (some g) = (
  λ h. (g, refl, λ e. let k : text_eq (codes "ti") (codes "ti") ≡ false = rw e at h in cc),
  λ h.
      let (k, e, n) = h in
      elim (Bool-cases (text_eq g (codes "ti"))) [
        | inl b ↦ absurd (n (some_inj e ∙ text_eq_sound g (codes "ti") b))
        | inr b ↦ b
      ],
)

-- a test behind the base filter
guarded :
    (cand : ScopeCandidate) (c : Bool)
    → ((if not (passes_base cand) then false else c) ≡ true) ↔ (IsEligible cand × (c ≡ true))
unfolding passes_base
guarded cand c =
    let (to, from) = is_ti-false cand.issue_type_group in
    (
      λ h. ((ground arith, to (ground arith)), ground arith),
      λ h. let ((labelled, group), holds) = h in let t = from group in ground arith,
    )

same_text : (s t : Text) → (text_eq s t ≡ true) ↔ (s ≡ t)
same_text s t = (text_eq_sound s t, λ e. rw e (text_eq_refl t))

-- The filter on labelled candidates with a group other than `ti` holds in every mode. Beyond it,
-- CURRENT_LAUNCH admits exactly what is of the current launch, PREVIOUS_LAUNCH what is of the previous
-- one, ALL what is not of the current one, CURRENT_AND_THE_SAME_NAME what is of the same launch name,
-- and an unset mode everything; LAUNCH_NAME admits nothing of the current launch.
pub in_analyze_scope_lem :
    (analyzer_mode : Option Text) (q : ScopeQuery) (cand : ScopeCandidate)
    → (in_analyze_scope analyzer_mode q cand ≡ true → IsEligible cand)
      × (Admits (codes "CURRENT_LAUNCH") q cand
          ↔ (IsEligible cand × (cand.launch_id ≡ q.launch_id)))
      × (Admits (codes "PREVIOUS_LAUNCH") q cand
          ↔ (IsEligible cand × (cand.launch_id ≡ q.previous_launch_id)))
      × (Admits (codes "ALL") q cand ↔ (IsEligible cand × (cand.launch_id ≢ q.launch_id)))
      × (Admits (codes "CURRENT_AND_THE_SAME_NAME") q cand
          ↔ (IsEligible cand × (cand.launch_name ≡ q.launch_name)))
      × ((in_analyze_scope none q cand ≡ true) ↔ IsEligible cand)
      × (Admits (codes "LAUNCH_NAME") q cand → cand.launch_id ≢ q.launch_id)
unfolding in_analyze_scope strip
in_analyze_scope_lem analyzer_mode q cand =
    let (current, current') = guarded cand (cand.launch_id == q.launch_id) in
    let (previous, previous') = guarded cand (cand.launch_id == q.previous_launch_id) in
    let (other, other') = guarded cand (not (cand.launch_id == q.launch_id)) in
    let (name, name') = guarded cand (text_eq cand.launch_name q.launch_name) in
    let (sound, complete) = same_text cand.launch_name q.launch_name in
    let (every, every') = guarded cand true in
    (
      λ h. (every (ground arith)).0,
      (
        λ h. ((current h).0, ground (arith, (current h).1)),
        λ h. current' (h.0, ground (arith, h.1)),
      ),
      (
        λ h. ((previous h).0, ground (arith, (previous h).1)),
        λ h. previous' (h.0, ground (arith, h.1)),
      ),
      (
        λ h. ((other h).0, λ e. ground (arith, (other h).1, e)),
        λ h. other' (
          h.0,
          elim (Bool-cases (cand.launch_id == q.launch_id)) [
            | inl b ↦ absurd (h.1 (ground arith))
            | inr b ↦ ground arith
          ],
        ),
      ),
      (λ h. ((name h).0, sound (name h).1), λ h. name' (h.0, complete h.1)),
      (λ h. (every h).0, λ h. every' (h, refl)),
      λ h e. ground arith,
    )
