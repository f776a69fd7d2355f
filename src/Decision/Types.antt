-- ===== src/Decision/Types.antt =====
-- The data of src/analyzer_ng/core/decision.py, with the fields of `Candidate`
-- (src/analyzer_ng/db/repositories/models.py), `KBMatch`, `SeedSignal` and `FeatureContext`
-- (src/analyzer_ng/core/features.py) that the decision reads.
use reportportal_analyzer_ng.Prelude.{
  if◌then◌else◌, keep, ℕ, ◌+◌, ◌≡◌, refl, ◌≢◌, Bool, true, false, ◌||◌, Option, none, some, List,
  [], ◌∷◌, map, arith,
}
use reportportal_analyzer_ng.Text.{Text, codes, text_eq, between}

-- a base issue-type group; `ti` is the abstain outcome, and `unknown` the empty string
pub data Label : Type 0 where
  pb ab si nd ti unknown : Label

abbrev pub same_label : Label → Label → Bool
same_label pb pb = true
same_label ab ab = true
same_label si si = true
same_label nd nd = true
same_label ti ti = true
same_label unknown unknown = true
same_label _ _ = false

abbrev pub base_labels : List Label
base_labels = pb ∷ ab ∷ si ∷ nd ∷ []

-- `label in BASE_LABELS`
abbrev pub is_base : Label → Bool
is_base pb = true
is_base ab = true
is_base si = true
is_base nd = true
is_base _ = false

pub data LabelSource : Type 0 where
  rp human ai_suggested seed_source : LabelSource

abbrev pub is_human : Option LabelSource → Bool
is_human (some rp) = true
is_human (some human) = true
is_human _ = false

abbrev pub is_ai : Option LabelSource → Bool
is_ai (some ai_suggested) = true
is_ai _ = false

pub data Method : Type 0 where
  method_hash method_kb method_gbm method_rule_cold : Method

pub data Action : Type 0 where
  auto suggest abstain : Action

pub data AbstainReason : Type 0 where
  no_confident_rule gbm_below_suggest gbm_boilerplate_only_neighbor : AbstainReason

-- Hashes are the 64 bits of a signed column; only 0, "no hash", is told apart.
pub record HashMatch (F : Type 0) : Type 0 where
  pub item_id : ℕ
  pub issue_type : Text
  pub label_source : Option LabelSource
  pub label_ts : Option ℕ  -- microseconds since `datetime.min`
  pub confidence : F
  pub is_auto_analyzed : Bool
  pub status_codes : List Text
  pub msg_tokens : List Text

pub record Candidate (F : Type 0) : Type 0 where
  pub item_id : Option ℕ
  pub mode_id : Option ℕ
  pub cosine : Option F
  pub jaccard_templates : F
  pub issue_type : Option Text
  pub label_source : Option LabelSource
  pub same_error_hash : Bool
  pub same_exception_fp : Bool
  pub msg_text : Text
  pub mode_status : Option Text
  pub mode_purity : Option F
  pub mode_support : Option ℕ
  pub rrf_score : F
  pub launch_id : Option ℕ
  pub label_ts : Option ℕ  -- microseconds since `datetime.min`
  pub matched_by : Option Text

pub record KbMatch (F : Type 0) : Type 0 where
  pub mode_id : ℕ
  pub score_mode : F
  pub purity : F
  pub support : ℕ
  pub same_exception_fp : Bool
  pub status : Text

pub record SeedSignal (F : Type 0) : Type 0 where
  pub label : Text
  pub confidence : F

-- The discriminant columns of the snapshot, which the decision reads back, and the others.
pub record Features (F C : Type 0) : Type 0 where
  pub status_codes_present : F
  pub identifiers_present : F
  pub status_codes_match_top1 : F
  pub ident_jaccard_source : F
  pub identifier_jaccard_top1 : F
  pub hash_gate_blocked : F
  pub others : C

-- What `_with_candidates` folds into the context; `base` is the context that the caller gave.
pub record FeatureContext (F B : Type 0) : Type 0 where
  pub base : B
  pub candidates : List (Candidate F)
  pub candidate_ages_days : List F
  pub kb_best : Option (KbMatch F)
  pub seed : Option (SeedSignal F)
  pub query_status_codes : List Text
  pub query_msg_tokens : List Text
  pub top1_status_codes : List Text
  pub top1_msg_tokens : List Text
  pub has_hash_top1 : Bool
  pub gate_blocked : Bool

-- a served prediction; `probs` is `dict.get`
pub record GbmDecision (F : Type 0) : Type 0 where
  pub label : Text
  pub max_prob : F
  pub probs : Label → Option F
  pub model_version : Text

pub record DecisionInputs (F B C : Type 0) : Type 0 where
  pub exception_fp : ℕ
  pub hash_matches : List (HashMatch F)
  pub query_status_codes : List Text
  pub query_msg_tokens : List Text
  pub kb_candidates : List (Candidate F)
  pub seed : Option (SeedSignal F)
  pub stage_c : List (Candidate F)
  pub stage_c_ages_days : List F
  pub feature_ctx : B
  pub gbm_predict : Option (Features F C → Option (GbmDecision F))

pub record DecisionResult (F C : Type 0) : Type 0 where
  pub label : Label
  pub issue_type : Text
  pub confidence : F
  pub method : Method
  pub action : Action
  pub abstain_reason : Option AbstainReason
  pub relevant_item_id : Option ℕ
  pub matched_mode_id : Option ℕ
  pub features : Features F C
  pub probs : List (Label × F)
  pub model_version : Option Text
  pub stage_c : List (Candidate F)
  pub relevant_label_source : Option LabelSource
  pub relevant_is_auto_analyzed : Bool
  pub calibrated_max_prob : Option F

abbrev pub get_or {ℓ} : {A : Type ℓ} → Option A → A → A
get_or none d = d
get_or (some a) d = a

abbrev pub label_text : Label → Text
label_text pb = codes "pb"
label_text ab = codes "ab"
label_text si = codes "si"
label_text nd = codes "nd"
label_text ti = codes "ti"
label_text unknown = []

-- `DEFAULT_LOCATOR.get(base, base)`
abbrev pub default_locator : Label → Text
default_locator pb = codes "pb001"
default_locator ab = codes "ab001"
default_locator si = codes "si001"
default_locator nd = codes "nd001"
default_locator ti = codes "ti001"
default_locator unknown = []

unfoldable pub is_alpha : ℕ → Bool
is_alpha c = between b'a' b'z' c || between b'A' b'Z' c

to_lower : ℕ → ℕ
to_lower c = if between b'A' b'Z' c then c + 32 else c

unfoldable pub take_two : Text → Text
take_two (a ∷ b ∷ rest) = a ∷ b ∷ []
take_two t = t

base_of_prefix : Text → Label
base_of_prefix p =
    if text_eq p (codes "pb")
    then pb
    else if text_eq p (codes "ab")
    then ab
    else if text_eq p (codes "si")
    then si
    else if text_eq p (codes "nd")
    then nd
    else unknown

-- `base_group(issue_type) or ""`. A letter outside ASCII is in no base label, so to drop it as here
-- or to keep it as `isalpha` does gives the same answer.
unfoldable pub base_label : Text → Label
unfolding is_alpha to_lower take_two base_of_prefix
base_label t = base_of_prefix (map to_lower (keep is_alpha (take_two t)))

unfoldable pub base : Option Text → Label
unfolding base_label
base none = unknown
base (some t) = base_label t

base_custom : base (some (codes "PB_Regression")) ≡ pb
unfolding base
base_custom = refl

pub base_label-ne_ti : (t : Text) → base_label t ≢ ti
unfolding base_label
base_label-ne_ti t h = ground (arith, h)

-- The base of a locator is never `ti`.
pub base-ne_ti : (o : Option Text) → base o ≢ ti
unfolding base
base-ne_ti none h = cc
base-ne_ti (some t) h = base_label-ne_ti t h
