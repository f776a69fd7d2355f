-- ===== src/Grouping/Leader.antt =====
-- The representative of a list of items is the greatest.
use mathlib.Core.Path.{subst}
use reportportal_analyzer_ng.Prelude.{
  if◌then◌else◌, Bool-cases, is_empty, All, In, ◌≡◌, refl, sym, ap, inl, inr, Bool, true, false,
  some, List, [], ◌∷◌, arith,
}
use reportportal_analyzer_ng.Grouping.{GroupItem, key_lt, max_from, representative_of}

module _ {V : Type 0} where
  key_lt_trans : (a b c : GroupItem V) → key_lt a b ≡ true → key_lt b c ≡ true → key_lt a c ≡ true
  key_lt_trans a b c h k = ground (arith, h, k)

  key_lt_irrefl : (a : GroupItem V) → key_lt a a ≡ false
  key_lt_irrefl a = ground arith

  -- `rep` is the greatest of the items
  abbrev pub Leads : GroupItem V → List (GroupItem V) → Type 0
  Leads rep items = In rep items × All (λ m. key_lt rep m ≡ false) items

  All-lower :
      (best m : GroupItem V) (seen : List (GroupItem V))
      → key_lt best m ≡ true
      → All (λ k. key_lt best k ≡ false) seen
      → All (λ k. key_lt m k ≡ false) seen
  All-lower best m [] h a = tt
  All-lower best m (s ∷ seen) h a =
      let lower : key_lt m s ≡ false = elim (Bool-cases (key_lt m s)) [
        | inl e ↦ let bad : key_lt best s ≡ true = key_lt_trans best m s h e in cc (bad, a.0)
        | inr e ↦ e
      ] in
      (lower, All-lower best m seen h a.1)

  max_from_step :
      (best m : GroupItem V) (ms : List (GroupItem V)) (b : Bool)
      → key_lt best m ≡ b
      → max_from (if b then m else best) ms ≡ max_from best (m ∷ ms)
  unfolding max_from
  max_from_step best m ms b e = ap (λ b. max_from (if b then m else best) ms) (sym e)

  max_from-In :
      (best : GroupItem V) (items : List (GroupItem V)) → In (max_from best items) (best ∷ items)
  unfolding max_from
  max_from-In best [] = inl refl
  max_from-In best (m ∷ ms) = elim (Bool-cases (key_lt best m)) [
    | inl e ↦
        subst (λ x. In x (best ∷ m ∷ ms)) (max_from_step best m ms true e) (inr (max_from-In m ms))
    | inr e ↦
        subst (λ x. In x (best ∷ m ∷ ms)) (max_from_step best m ms false e)
          (elim (max_from-In best ms) [ inl f ↦ inl f | inr i ↦ inr (inr i) ])
  ]

  abbrev Tops : GroupItem V → List (GroupItem V) → Type 0
  Tops rep items = All (λ k. key_lt rep k ≡ false) items

  max_from_seen :
      (best : GroupItem V) (seen items : List (GroupItem V))
      → Tops best seen
      → Tops (max_from best items) seen
  unfolding max_from
  max_from_seen best seen [] a = a
  max_from_seen best seen (m ∷ ms) a = elim (Bool-cases (key_lt best m)) [
    | inl e ↦
        subst (λ x. Tops x seen) (max_from_step best m ms true e)
          (max_from_seen m seen ms (All-lower best m seen e a))
    | inr e ↦
        subst (λ x. Tops x seen) (max_from_step best m ms false e) (max_from_seen best seen ms a)
  ]

  max_from_all :
      (best : GroupItem V) (items : List (GroupItem V)) → Tops (max_from best items) (best ∷ items)
  unfolding max_from
  max_from_all best [] = (key_lt_irrefl best, tt)
  max_from_all best (m ∷ ms) = elim (Bool-cases (key_lt best m)) [
    | inl e ↦
        let before =
          max_from_seen m (best ∷ []) ms
            (All-lower best m (best ∷ []) e (key_lt_irrefl best, tt)) in
        subst (λ x. Tops x (best ∷ m ∷ ms)) (max_from_step best m ms true e)
          (before.0, max_from_all m ms)
    | inr e ↦
        let before = max_from_seen best (m ∷ []) ms (e, tt) in
        let rest = max_from_all best ms in
        subst (λ x. Tops x (best ∷ m ∷ ms)) (max_from_step best m ms false e)
          (rest.0, (before.0, rest.1))
  ]

  pub representative_of-Leads :
      (items : List (GroupItem V))
      → is_empty items ≡ false
      → (rep : GroupItem V) × (representative_of items ≡ some rep) × Leads rep items
  representative_of-Leads [] h = cc
  representative_of-Leads (m ∷ ms) h = (max_from m ms, refl, (max_from-In m ms, max_from_all m ms))
