-- ===== src/Schema.antt =====
-- src/analyzer_ng/llm/schema.py: the validator of the model's answers. The members of an `enum` are
-- strings, as in every schema of the roles. A JSON number is an integer or a float, whose value no test
-- reads; the keys of an object are distinct, as those of a dictionary. A failure is the kind of the error
-- without its path.
pub mod Conforms
mod Tests
use reportportal_analyzer_ng.Prelude.{
  ltb, if◌then◌else◌, length, any, all, ℕ, suc, Bool, true, false, not, ◌&&◌, ◌||◌, Option, none,
  some, List,
}
use reportportal_analyzer_ng.Text.{Text, text_eq, member}

pub data TypeName : Type 0 where
  type_object type_array type_string type_integer type_number type_boolean type_null : TypeName

mutual
  pub data Json : Type 0 where
    null boolean integer float : Json
    text : Text → Json
    array : Items → Json
    object : Members → Json

  pub data Items : Type 0 where
    no_items : Items
    item : Json → Items → Items

  pub data Members : Type 0 where
    no_members : Members
    member_of : Text → Json → Members → Members

mutual
  -- a property list says what is absent by `none`
  pub data Schema : Type 0 where
    enum : List Text → Schema
    checks :
        Option (List TypeName)
        → Option ℕ
        → Option ℕ
        → ItemSchema
        → Properties
        → List Text
        → Bool
        → Schema

  pub data ItemSchema : Type 0 where
    any_item : ItemSchema
    each_item : Schema → ItemSchema

  pub data Properties : Type 0 where
    no_properties : Properties
    property : Text → Schema → Properties → Properties

pub data SchemaError : Type 0 where
  not_in_enum wrong_type too_long too_many missing extra : SchemaError

-- `isinstance` with the Booleans apart from the integers
abbrev pub is_type : Json → TypeName → Bool
is_type (object ms) type_object = true
is_type (array xs) type_array = true
is_type (text t) type_string = true
is_type integer type_integer = true
is_type integer type_number = true
is_type float type_number = true
is_type boolean type_boolean = true
is_type null type_null = true
is_type _ _ = false

abbrev pub first_error : Option SchemaError → Option SchemaError → Option SchemaError
first_error none later = later
first_error (some e) later = some e

abbrev pub error_if : Bool → SchemaError → Option SchemaError
error_if true e = some e
error_if false e = none

abbrev pub check_type : Json → Option (List TypeName) → Option SchemaError
check_type v none = none
check_type v (some types) = error_if (not (any (is_type v) types)) wrong_type

abbrev pub exceeds : ℕ → Option ℕ → Bool
exceeds n none = false
exceeds n (some limit) = ltb limit n

abbrev pub lookup : Text → Members → Option Json
lookup key no_members = none
lookup key (member_of k v ms) = let later = lookup key ms in if text_eq k key then some v else later

abbrev pub has_key : Option Json → Bool
has_key none = false
has_key (some v) = true

abbrev pub declares : Text → Properties → Bool
declares key no_properties = false
declares key (property k s ps) = let later = declares key ps in text_eq k key || later

abbrev pub all_declared : Members → Properties → Bool
all_declared no_members ps = true
all_declared (member_of k v ms) ps = declares k ps && all_declared ms ps

abbrev pub all_required : List Text → Members → Bool
all_required keys ms = all (λ key. has_key (lookup key ms)) keys

abbrev pub count_items : Items → ℕ
count_items no_items = 0
count_items (item v vs) = suc (count_items vs)

abbrev pub every_item : (Json → Option SchemaError) → Items → Option SchemaError
every_item check no_items = none
every_item check (item v vs) = first_error (check v) (every_item check vs)

abbrev pub when_there : (Json → Option SchemaError) → Option Json → Option SchemaError
when_there check none = none
when_there check (some v) = check v

abbrev pub check_length : Json → Option ℕ → Option SchemaError
check_length (text t) limit = error_if (exceeds (length t) limit) too_long
check_length v limit = none

abbrev pub check_items : (Json → Option SchemaError) → Json → Option ℕ → Option SchemaError
check_items check (array vs) limit =
    first_error (error_if (exceeds (count_items vs) limit) too_many) (every_item check vs)
check_items check v limit = none

abbrev pub check_members :
    (Members → Option SchemaError) → Json → List Text → Bool → Properties → Option SchemaError
check_members check (object ms) required additional ps =
    first_error (error_if (not (all_required required ms)) missing)
      (first_error (error_if (not additional && not (all_declared ms ps)) extra) (check ms))
check_members check v required additional ps = none

unfoldable mutual
  pub validate : Schema → Json → Option SchemaError
  validate (enum members) (text t) = error_if (not (member t members)) not_in_enum
  validate (enum members) v = some not_in_enum
  validate (checks types max_length max_items items ps required additional) v =
      first_error (check_type v types) (
        first_error (check_length v max_length) (
          first_error (check_items (validate_item items) v max_items)
            (check_members (validate_properties ps) v required additional ps)))

  pub validate_item : ItemSchema → Json → Option SchemaError
  validate_item any_item v = none
  validate_item (each_item s) v = validate s v

  pub validate_properties : Properties → Members → Option SchemaError
  validate_properties no_properties ms = none
  validate_properties (property k s ps) ms =
      first_error (when_there (validate s) (lookup k ms)) (validate_properties ps ms)

abbrev pub no_error : Option SchemaError → Bool
no_error none = true
no_error (some e) = false

unfoldable pub is_valid : Json → Schema → Bool
unfolding validate
is_valid v s = no_error (validate s v)
