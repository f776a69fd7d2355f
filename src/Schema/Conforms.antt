-- ===== src/Schema/Conforms.antt =====
-- What it means that an answer conforms to a schema.
use mathlib.Core.Path.{subst}
use reportportal_analyzer_ng.Prelude.{
  length, any, ℕ, ◌≤◌, ◌≡◌, refl, Bool, true, false, not, ◌&&◌, Option, none, some, List, arith,
}
use reportportal_analyzer_ng.Text.{Text, member}
use reportportal_analyzer_ng.Schema.{
  TypeName, Json, null, boolean, integer, float, text, array, object, Items, no_items, item,
  Members, Schema, enum, checks, ItemSchema, any_item, each_item, Properties, no_properties,
  property, SchemaError, not_in_enum, wrong_type, too_long, too_many, missing, extra, is_type,
  first_error, error_if, check_type, exceeds, lookup, all_declared, all_required, count_items,
  every_item, when_there, check_length, check_items, check_members, validate, validate_item,
  validate_properties,
}

-- every item has the property
abbrev pub AllItems : (Json → Type 0) → Items → Type 0
AllItems P no_items = Unit
AllItems P (item v vs) = P v × AllItems P vs

-- what is asked of the value itself, and not of the values in it
abbrev pub IsShaped : Option (List TypeName) → Option ℕ → Json → Type 0
IsShaped types max_length v =
    ((ts : List TypeName) → types ≡ some ts → any (is_type v) ts ≡ true)
    × ((t : Text) (limit : ℕ) → v ≡ text t → max_length ≡ some limit → length t ≤ limit)

unfoldable mutual
  pub Conforms : Schema → Json → Type 0
  Conforms (enum members) v = (t : Text) × (v ≡ text t) × (member t members ≡ true)
  Conforms (checks types max_length max_items items ps required additional) v =
      IsShaped types max_length v
      × ((vs : Items)
          → v ≡ array vs
          → ((limit : ℕ) → max_items ≡ some limit → count_items vs ≤ limit)
            × ConformsItems items vs)
      × ((ms : Members)
          → v ≡ object ms
          → (all_required required ms ≡ true)
            × (additional ≡ false → all_declared ms ps ≡ true)
            × ConformsProperties ps ms)

  pub ConformsItems : ItemSchema → Items → Type 0
  ConformsItems any_item vs = Unit
  ConformsItems (each_item s) vs = AllItems (Conforms s) vs

  -- a property that is there conforms to its schema
  pub ConformsProperties : Properties → Members → Type 0
  ConformsProperties no_properties ms = Unit
  ConformsProperties (property k s ps) ms =
      ((v : Json) → lookup k ms ≡ some v → Conforms s v) × ConformsProperties ps ms

first_error-none : (a b : Option SchemaError) → first_error a b ≡ none → (a ≡ none) × (b ≡ none)
first_error-none none b h = (refl, h)
first_error-none (some e) b h = cc

error_if-none : (b : Bool) (e : SchemaError) → error_if b e ≡ none → b ≡ false
error_if-none true e h = cc
error_if-none false e h = refl

check_type_sound :
    (v : Json) (types : Option (List TypeName)) (ts : List TypeName)
    → check_type v types ≡ none
    → types ≡ some ts
    → any (is_type v) ts ≡ true
check_type_sound v none ts h e = cc
check_type_sound v (some us) ts h e =
    let k = error_if-none (not (any (is_type v) us)) wrong_type h in
    let l : any (is_type v) us ≡ true = ground (arith, k) in
    let q : us ≡ ts = cc in subst (λ x. any (is_type v) x ≡ true) q l

exceeds_sound :
    (n : ℕ) (o : Option ℕ) (limit : ℕ) → exceeds n o ≡ false → o ≡ some limit → n ≤ limit
exceeds_sound n none limit h e = cc
exceeds_sound n (some m) limit h e =
    let q : m ≡ limit = cc in let l : n ≤ m = ground (arith, h) in subst (λ x. n ≤ x) q l

every_item_sound :
    (P : Json → Type 0) (check : Json → Option SchemaError)
    → ((v : Json) → check v ≡ none → P v)
    → (vs : Items) → every_item check vs ≡ none
    → AllItems P vs
every_item_sound P check f no_items h = tt
every_item_sound P check f (item v vs) h =
    let (a, b) = first_error-none (check v) (every_item check vs) h in
    (f v a, every_item_sound P check f vs b)

shaped :
    (types : Option (List TypeName)) (max_length : Option ℕ) (v : Json)
    → check_type v types ≡ none
    → check_length v max_length ≡ none
    → IsShaped types max_length v
shaped types max_length v h k = (
  λ ts e. check_type_sound v types ts h e,
  λ t limit e f.
      let l : check_length (text t) max_length ≡ none =
        subst (λ x. check_length x max_length ≡ none) e k in
      exceeds_sound (length t) max_length limit
        (error_if-none (exceeds (length t) max_length) too_long l) f,
)

mutual
  unfolding validate Conforms

  validate_sound : (s : Schema) (v : Json) → validate s v ≡ none → Conforms s v
  validate_sound (enum members) (text t) h =
      (t, refl, (let k = error_if-none (not (member t members)) not_in_enum h in ground (arith, k)))
  validate_sound (enum members) null h = cc
  validate_sound (enum members) boolean h = cc
  validate_sound (enum members) integer h = cc
  validate_sound (enum members) float h = cc
  validate_sound (enum members) (array vs) h = cc
  validate_sound (enum members) (object ms) h = cc
  validate_sound (checks types max_length max_items items ps required additional) v h =
      let in_items = check_items (validate_item items) v max_items in
      let in_members = check_members (validate_properties ps) v required additional ps in
      let (typed, h2) =
        first_error-none (check_type v types)
          (first_error (check_length v max_length) (first_error in_items in_members)) h in
      let (short, h3) =
        first_error-none (check_length v max_length) (first_error in_items in_members) h2 in
      let (fine_items, fine_members) = first_error-none in_items in_members h3 in
      (
        shaped types max_length v typed short,
        λ vs e.
            let k : check_items (validate_item items) (array vs) max_items ≡ none =
              subst (λ x. check_items (validate_item items) x max_items ≡ none) e fine_items in
            let (few, each) =
              first_error-none (error_if (exceeds (count_items vs) max_items) too_many)
                (every_item (validate_item items) vs) k in
            (
              λ limit f.
                  exceeds_sound (count_items vs) max_items limit
                    (error_if-none (exceeds (count_items vs) max_items) too_many few) f,
              items_sound items vs each,
            ),
        λ ms e.
            let k : check_members (validate_properties ps) (object ms) required additional ps
                ≡ none =
              subst (λ x. check_members (validate_properties ps) x required additional ps ≡ none) e
                fine_members in
            let closed = error_if (not additional && not (all_declared ms ps)) extra in
            let (has_all, k2) =
              first_error-none (error_if (not (all_required required ms)) missing)
                (first_error closed (validate_properties ps ms)) k in
            let (no_extra, k3) = first_error-none closed (validate_properties ps ms) k2 in
            let r = error_if-none (not (all_required required ms)) missing has_all in
            let x = error_if-none (not additional && not (all_declared ms ps)) extra no_extra in
            (ground (arith, r), λ a. ground (arith, x, a), properties_sound ps ms k3),
      )

  items_sound :
      (items : ItemSchema) (vs : Items)
      → every_item (validate_item items) vs ≡ none
      → ConformsItems items vs
  items_sound any_item vs h = tt
  items_sound (each_item s) vs h =
      every_item_sound (Conforms s) (validate s) (validate_sound s) vs h

  properties_sound :
      (ps : Properties) (ms : Members) → validate_properties ps ms ≡ none → ConformsProperties ps ms
  properties_sound no_properties ms h = tt
  properties_sound (property k s ps) ms h =
      let (here, later) =
        first_error-none (when_there (validate s) (lookup k ms)) (validate_properties ps ms) h in
      (
        λ v e. validate_sound s v (subst (λ o. when_there (validate s) o ≡ none) e here),
        properties_sound ps ms later,
      )

-- An answer that the validator accepts conforms to the schema, at every depth: an `enum` holds the
-- text; the value has one of the types, and as a text it is not too long; a list is not too long, and
-- each of its items conforms to the schema of the items; an object has the required keys, has none
-- beyond the declared ones where no other is allowed, and what it holds under a declared key
-- conforms to the schema of that key.
pub validate-Conforms : (s : Schema) (v : Json) → validate s v ≡ none → Conforms s v
validate-Conforms s v h = validate_sound s v h
