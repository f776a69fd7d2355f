-- ===== src/Engine/Screen.antt =====
-- The masked-truncation screen of src/analyzer_ng/llm/engine.py.
use reportportal_analyzer_ng.Prelude.{
  ◌==◌, if◌then◌else◌, keep, any, is_empty, ℕ, Bool, true, false, not, ◌||◌, Option, none, some,
  List, [], ◌∷◌, ◌++◌, map,
}
use reportportal_analyzer_ng.Text.{Text, codes, text_eq, member, is_space, rstrip}

-- A role's answer: the fields that hold strings, by name, the flag that the screen sets, and the rest.
pub record Output (O : Type 0) : Type 0 where
  pub texts : List (Text × Text)
  pub truncated : Bool
  pub others : O

abbrev pub terminal_chars : List ℕ
terminal_chars = b'.' ∷ b'!' ∷ b'?' ∷ 0x2026 ∷ 0x3002 ∷ 0xff01 ∷ 0xff1f ∷ []

abbrev pub trailing_closers : List ℕ
trailing_closers =
    b'"' ∷ b'\'' ∷ 0x201d ∷ 0x2019 ∷ 0x300d ∷ 0x300f ∷ 0xff09 ∷ b')' ∷ b']' ∷ b'}' ∷ []

abbrev pub hard_incomplete : List ℕ
hard_incomplete =
    b'{' ∷ b'[' ∷ b'(' ∷ b'<' ∷ b':' ∷ b',' ∷ b';' ∷ b'=' ∷ b'/' ∷ b'\\' ∷ b'-' ∷ 0x2013 ∷ 0x2014
    ∷ []

abbrev pub truncation_marker : Text
truncation_marker = b' ' ∷ 0x2026 ∷ []

abbrev pub one_of : List ℕ → ℕ → Bool
one_of chars c = any (λ d. c == d) chars

abbrev pub last? : Text → Option ℕ
last? [] = none
last? (c ∷ t) = let later = last? t in latest c later
  where
    latest : ℕ → Option ℕ → Option ℕ
    latest c none = some c
    latest c (some d) = some d

abbrev ends_in : List ℕ → Option ℕ → Bool
ends_in chars none = false
ends_in chars (some c) = one_of chars c

unfoldable pub ends_complete : Text → Bool
unfolding rstrip
ends_complete text =
    let core = rstrip (one_of trailing_closers) (rstrip is_space text) in
    if is_empty core then true else ends_in terminal_chars (last? core)

unfoldable pub ends_hard_incomplete : Text → Bool
unfolding rstrip
ends_hard_incomplete text =
    ends_in hard_incomplete (last? (rstrip (one_of trailing_closers) (rstrip is_space text)))

abbrev pub is_length : Option Text → Bool
is_length none = false
is_length (some reason) = text_eq reason (codes "length")

unfoldable pub looks_truncated : Text → Option Text → Bool
unfolding ends_hard_incomplete ends_complete
looks_truncated text finish_reason =
    if ends_hard_incomplete text
    then true
    else if not (is_length finish_reason)
    then false
    else not (ends_complete text)

-- the text up to and with the last character that passes, where there is one
pub up_to_last : (ℕ → Bool) → Text → Option Text
up_to_last p [] = none
up_to_last p (c ∷ t) = let later = up_to_last p t in extend p c later
  where
    extend : (ℕ → Bool) → ℕ → Option Text → Option Text
    extend p c (some u) = some (c ∷ u)
    extend p c none = if p c then some (c ∷ []) else none

abbrev but_last : Text → Text
but_last [] = []
but_last (c ∷ []) = []
but_last (c ∷ d ∷ t) = c ∷ but_last (d ∷ t)

-- `(trimmed[:cut] if cut > 0 else trimmed).rstrip()`, with `cut` the place of the last space
abbrev cut_at_space : Text → Option Text → Text
cut_at_space trimmed none = trimmed
cut_at_space trimmed (some []) = trimmed
cut_at_space trimmed (some (c ∷ [])) = trimmed
cut_at_space trimmed (some (c ∷ d ∷ t)) = but_last (c ∷ d ∷ t)

abbrev clipped_at : Text → Option Text → Text
clipped_at stripped (some sentence) = sentence
clipped_at stripped none =
    let trimmed = rstrip (λ c. one_of hard_incomplete c || c == b' ' || c == 9) stripped in
    rstrip is_space (cut_at_space trimmed (up_to_last (λ c. c == b' ') trimmed))

unfoldable pub clip_to_clean_end : Text → Text
unfolding rstrip up_to_last
clip_to_clean_end text =
    let stripped = rstrip is_space text in
    clipped_at stripped (up_to_last (one_of terminal_chars) stripped)

-- `output.get(name)` of a field that holds a string
abbrev pub field : List (Text × Text) → Text → Option Text
field [] name = none
field ((n, value) ∷ rest) name =
    let later = field rest name in if text_eq n name then some value else later

abbrev pub is_cut : Option Text → Option Text → Bool
is_cut none finish_reason = false
is_cut (some value) finish_reason = looks_truncated value finish_reason

-- the base of a value to which the marker is added
abbrev pub clean_base : Text → Text
clean_base value =
    if ends_hard_incomplete value
    then (if is_empty (clip_to_clean_end value)
        then rstrip is_space value
        else clip_to_clean_end value)
    else rstrip is_space value

module _ {O : Type 0} where
  unfoldable pub truncated_fields : List Text → Output O → Option Text → List Text
  unfolding looks_truncated
  truncated_fields free_text_fields output finish_reason =
      keep (λ name. is_cut (field output.texts name) finish_reason) free_text_fields

  unfoldable pub mark_truncated : Output O → List Text → Output O
  unfolding ends_hard_incomplete clip_to_clean_end
  mark_truncated output fields = record output {
    texts =
        map (λ e. (e.0, if member e.0 fields then clean_base e.1 ++ truncation_marker else e.1))
          output.texts;
    truncated = true;
  }
