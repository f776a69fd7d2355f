-- ===== src/Decision/Kb.antt =====
-- Stage B of src/analyzer_ng/core/decision.py: scoring the known failure modes, and when one decides.
pub mod Best
use reportportal_analyzer_ng.Prelude.{
  ltb, leb, if◌then◌else◌, ℕ, Bool, ◌&&◌, ◌||◌, Option, none, some, List, [], ◌∷◌,
}
use reportportal_analyzer_ng.Floats.{Floats, lt, same, fzero, fone}
use reportportal_analyzer_ng.Text.{Text, codes, text_eq}
use reportportal_analyzer_ng.Decision.Types.{Candidate, KbMatch, get_or}

abbrev pub kb_strong_support : ℕ
kb_strong_support = 10

-- `mode_status or "candidate"`, and likewise for the numbers that may be absent
abbrev status_or : Option Text → Text
status_or none = codes "candidate"
status_or (some []) = codes "candidate"
status_or (some (c ∷ t)) = c ∷ t

module _ {F : Type 0} ⦃fl : Floats F⦄ where
  abbrev pub kb_strong_purity : F
  kb_strong_purity = fl.ratio 95 100

  abbrev pub kb_strong_score : F
  kb_strong_score = fl.ratio 85 100

  abbrev pub kb_confidence_cap : F
  kb_confidence_cap = fl.ratio 93 100

  unfoldable pub score_kb_candidate : Candidate F → KbMatch F
  score_kb_candidate cand =
      let cos = get_or cand.cosine fzero in
      let fp_overlap = if cand.same_exception_fp then fone else fzero in
      let score =
        fl.add
          (fl.add (fl.mul (fl.ratio 6 10) cos) (fl.mul (fl.ratio 25 100) cand.jaccard_templates))
          (fl.mul (fl.ratio 15 100) fp_overlap) in
      record {
        mode_id = get_or cand.mode_id 0;
        score_mode = score;
        purity = get_or cand.mode_purity fzero;
        support = get_or cand.mode_support 0;
        same_exception_fp = cand.same_exception_fp;
        status = status_or cand.mode_status;
      }

  -- the order of the keys `(score_mode, -mode_id)`
  abbrev pub key_lt : KbMatch F → KbMatch F → Bool
  key_lt a b =
      lt a.score_mode b.score_mode || same a.score_mode b.score_mode && ltb b.mode_id a.mode_id

  abbrev pub scored :
      Candidate F → Option ℕ → List (KbMatch F × Candidate F) → List (KbMatch F × Candidate F)
  scored c none rest = rest
  scored c (some mode) rest = (score_kb_candidate c, c) ∷ rest

  unfoldable pub scored_modes : List (Candidate F) → List (KbMatch F × Candidate F)
  unfolding score_kb_candidate
  scored_modes [] = []
  scored_modes (c ∷ cs) = scored c c.mode_id (scored_modes cs)

  -- `max(pairs, key=…)`: the first of the greatest, so a later one must be greater
  unfoldable pub max_key :
      KbMatch F × Candidate F → List (KbMatch F × Candidate F) → KbMatch F × Candidate F
  max_key best [] = best
  max_key best (p ∷ ps) = max_key (if key_lt best.0 p.0 then p else best) ps

  abbrev pub max_key? : List (KbMatch F × Candidate F) → Option (KbMatch F × Candidate F)
  max_key? [] = none
  max_key? (p ∷ ps) = some (max_key p ps)

  unfoldable pub best_kb_match : List (Candidate F) → Option (KbMatch F × Candidate F)
  unfolding scored_modes max_key
  best_kb_match candidates = max_key? (scored_modes candidates)

  unfoldable pub kb_short_circuit : KbMatch F → Bool
  kb_short_circuit kb =
      text_eq kb.status (codes "confirmed")
      && fl.le kb_strong_purity kb.purity
      && leb kb_strong_support kb.support
      && fl.le kb_strong_score kb.score_mode
