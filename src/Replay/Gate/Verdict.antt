-- ===== src/Replay/Gate/Verdict.antt =====
-- When the gate lets a candidate replace an active model.
use reportportal_analyzer_ng.Prelude.{◌≡◌, refl, ap, ◌↔◌, true, false, Option, none, some, arith}
use reportportal_analyzer_ng.Decision.Types.{get_or}
use reportportal_analyzer_ng.Floats.{Floats}
use reportportal_analyzer_ng.Replay.Report.{EvalReport}
use reportportal_analyzer_ng.Replay.Gate.{
  auto_band_floor, gate_abstain_slack, f1_slack, imprecise, passes_gate,
}

module _ {F : Type 0} ⦃fl : Floats F⦄ where
  -- the three conditions on the reports of the candidate and of the active model
  pub record IsShippable (candidate active : EvalReport F) : Type 0 where
    pub accurate :
        fl.le (fl.sub active.macro_f1 (f1_slack candidate active)) candidate.macro_f1 ≡ true
    pub precise :
        (p : F)
        → candidate.auto_band_precision ≡ some p
        → (fl.le auto_band_floor p ≡ true)
          × ((a : F) → active.auto_band_precision ≡ some a → fl.le a p ≡ true)
    pub decided :
        fl.le candidate.abstain_rate (fl.add active.abstain_rate gate_abstain_slack) ≡ true

  imprecise_sound :
      (p : F) (c a : Option F)
      → imprecise c a ≡ false
      → c ≡ some p
      → (fl.le auto_band_floor p ≡ true) × ((q : F) → a ≡ some q → fl.le q p ≡ true)
  imprecise_sound p none a h e = cc
  imprecise_sound p (some c) none h e = (ground arith, λ q k. cc)
  imprecise_sound p (some c) (some a) h e = (
    ground (arith, fl.le_trans auto_band_floor a p, fl.le_total a auto_band_floor),
    λ q k. ground (
      arith,
      fl.le_trans a auto_band_floor p,
      fl.le_total a auto_band_floor,
      ap (λ z. fl.le (get_or z a) p) k,
    ),
  )

  imprecise_complete :
      (c a : Option F)
      → ((p : F)
          → c ≡ some p
          → (fl.le auto_band_floor p ≡ true) × ((q : F) → a ≡ some q → fl.le q p ≡ true))
      → imprecise c a ≡ false
  imprecise_complete none a h = refl
  imprecise_complete (some c) none h = let (k, l) = h c refl in ground arith
  imprecise_complete (some c) (some a) h = let (k, l) = h c refl in let m = l a refl in ground arith

  -- Against an active model the gate ships exactly a candidate that loses no more macro F1 than the
  -- slack allows, whose automatic band, where it has one, is as precise as the floor and as the active
  -- model's, and that abstains at most 0.05 more often.
  pub passes_gate-IsShippable :
      (candidate active : EvalReport F)
      → ((passes_gate candidate (some active)).ship ≡ true) ↔ IsShippable candidate active
  unfolding passes_gate
  passes_gate-IsShippable candidate active = (
    λ h. record {
      accurate = ground arith;
      precise = λ p e.
          imprecise_sound p candidate.auto_band_precision active.auto_band_precision (ground arith)
            e;
      decided = ground arith;
    },
    λ s.
        let a = s.accurate in
        let i =
          imprecise_complete candidate.auto_band_precision active.auto_band_precision s.precise in
        let d = s.decided in ground arith,
  )
