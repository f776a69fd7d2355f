-- ===== src/Schema/Tests.antt =====
-- A verdict with a text, a list of short texts and an optional number.
use reportportal_analyzer_ng.Prelude.{◌≡◌, refl, false, none, some, [], ◌∷◌}
use reportportal_analyzer_ng.Text.{codes}
use reportportal_analyzer_ng.Schema.{
  type_object, type_array, type_string, type_number, type_null, Json, null, boolean, text, array,
  object, Items, no_items, item, no_members, member_of, Schema, enum, checks, any_item, each_item,
  no_properties, property, not_in_enum, wrong_type, too_long, too_many, missing, extra, validate,
  is_valid,
}
use reportportal_analyzer_ng.Schema.Conforms.{Conforms, validate-Conforms}

abbrev short_text : Schema
short_text = checks (some (type_string ∷ [])) (some 3) none any_item no_properties [] false

abbrev verdict : Schema
verdict =
    checks (some (type_object ∷ [])) none none any_item
      (property (codes "choice") (enum (codes "A" ∷ codes "B" ∷ [])) (
        property (codes "quotes")
          (checks (some (type_array ∷ [])) none (some 2) (each_item short_text) no_properties []
            false)
          (property (codes "score")
            (checks (some (type_number ∷ type_null ∷ [])) none none any_item no_properties [] false)
            no_properties)))
      (codes "choice" ∷ codes "quotes" ∷ []) false

abbrev answer : Json → Items → Json
answer choice quotes =
    object
      (member_of (codes "quotes") (array quotes) (member_of (codes "choice") choice no_members))

abbrev good : Json
good = answer (text (codes "B")) (item (text (codes "abc")) (item (text (codes "de")) no_items))

accepts : validate verdict good ≡ none
unfolding validate
accepts = refl

bad_choice : validate verdict (answer (text (codes "C")) no_items) ≡ some not_in_enum
unfolding validate
bad_choice = refl

long_quote :
    validate verdict (answer (text (codes "A")) (item (text (codes "abcd")) no_items))
    ≡ some too_long
unfolding validate
long_quote = refl

many_quotes :
    validate verdict (answer (text (codes "A")) (item null (item null (item null no_items))))
    ≡ some too_many
unfolding validate
many_quotes = refl

no_choice :
    validate verdict (object (member_of (codes "quotes") (array no_items) no_members))
    ≡ some missing
unfolding validate
no_choice = refl

unknown_key :
    validate verdict (
      object (
        member_of (codes "why") null (
          member_of
            (codes "quotes")
            (array no_items)
            (member_of (codes "choice") (text (codes "A")) no_members))))
    ≡ some extra
unfolding validate
unknown_key = refl

-- a Boolean is no number
boolean_score :
    validate verdict (
      object (
        member_of (codes "score") boolean (
          member_of
            (codes "quotes")
            (array no_items)
            (member_of (codes "choice") (text (codes "A")) no_members))))
    ≡ some wrong_type
unfolding validate
boolean_score = refl

rejects : is_valid null verdict ≡ false
unfolding validate is_valid
rejects = refl

validate-Conforms_example : Conforms verdict good
validate-Conforms_example = validate-Conforms verdict good accepts
