-- ===== src/Tool/Schema/Lossless.antt =====
-- What ToJSON of tool/tool.go writes of a property can be read back.
use agentpg.Base.{ℕ, ◌≡◌, refl, ◌∙◌, List, [], ◌∷◌, Option, none, some}
use agentpg.Base.Int.{ℤ}
use agentpg.Driver.{Bytes}
use agentpg.Tool.Schema.{
  Key, Fields, Constraints, PropertyDef, Items, Properties, text, texts, float, int, any, field,
  property, no_items, items_of, no_properties, with_property, when_text, when_texts, when_any,
  when_float, when_int, to_json, when_items, when_properties, to_names,
}
use agentpg.Tool.Schema.Reader.{read, read_fields, read_names}

-- One optional entry: `at` is what is read so far, as a function of the field that the entry is for.
module _ (nested : Items) (props : Properties) (rest : Fields) (key : Key) where
  read-when_text :
      (at : Bytes → Constraints) (o : Bytes)
      → ((v : Bytes)
          → read_fields (field key (text v) rest) (at []) nested props
            ≡ read_fields rest (at v) nested props)
      → read_fields (when_text key o rest) (at []) nested props
        ≡ read_fields rest (at o) nested props
  unfolding when_text
  read-when_text at [] h = refl
  read-when_text at (b ∷ bs) h = h (b ∷ bs)

  read-when_texts :
      (at : List Bytes → Constraints) (o : List Bytes)
      → ((v : List Bytes)
          → read_fields (field key (texts v) rest) (at []) nested props
            ≡ read_fields rest (at v) nested props)
      → read_fields (when_texts key o rest) (at []) nested props
        ≡ read_fields rest (at o) nested props
  unfolding when_texts
  read-when_texts at [] h = refl
  read-when_texts at (b ∷ bs) h = h (b ∷ bs)

  read-when_any :
      (at : Option Bytes → Constraints) (o : Option Bytes)
      → ((v : Bytes)
          → read_fields (field key (any v) rest) (at none) nested props
            ≡ read_fields rest (at (some v)) nested props)
      → read_fields (when_any key o rest) (at none) nested props
        ≡ read_fields rest (at o) nested props
  unfolding when_any
  read-when_any at none h = refl
  read-when_any at (some v) h = h v

  read-when_float :
      (at : Option ℕ → Constraints) (o : Option ℕ)
      → ((v : ℕ)
          → read_fields (field key (float v) rest) (at none) nested props
            ≡ read_fields rest (at (some v)) nested props)
      → read_fields (when_float key o rest) (at none) nested props
        ≡ read_fields rest (at o) nested props
  unfolding when_float
  read-when_float at none h = refl
  read-when_float at (some v) h = h v

  read-when_int :
      (at : Option ℤ → Constraints) (o : Option ℤ)
      → ((v : ℤ)
          → read_fields (field key (int v) rest) (at none) nested props
            ≡ read_fields rest (at (some v)) nested props)
      → read_fields (when_int key o rest) (at none) nested props
        ≡ read_fields rest (at o) nested props
  unfolding when_int
  read-when_int at none h = refl
  read-when_int at (some v) h = h v

-- What is read before a key: the fields from there on are empty.
abbrev before_required : Constraints → Constraints
before_required c = record c { required = [] }

abbrev before_max_items : Constraints → Constraints
before_max_items c = record (before_required c) { max_items = none }

abbrev before_min_items : Constraints → Constraints
before_min_items c = record (before_max_items c) { min_items = none }

abbrev before_pattern : Constraints → Constraints
before_pattern c = record (before_min_items c) { pattern = [] }

abbrev before_max_length : Constraints → Constraints
before_max_length c = record (before_pattern c) { max_length = none }

abbrev before_min_length : Constraints → Constraints
before_min_length c = record (before_max_length c) { min_length = none }

abbrev before_exclusive_maximum : Constraints → Constraints
before_exclusive_maximum c = record (before_min_length c) { exclusive_maximum = none }

abbrev before_exclusive_minimum : Constraints → Constraints
before_exclusive_minimum c = record (before_exclusive_maximum c) { exclusive_minimum = none }

abbrev before_maximum : Constraints → Constraints
before_maximum c = record (before_exclusive_minimum c) { maximum = none }

abbrev before_minimum : Constraints → Constraints
before_minimum c = record (before_maximum c) { minimum = none }

abbrev before_default : Constraints → Constraints
before_default c = record (before_minimum c) { default = none }

abbrev before_enum : Constraints → Constraints
before_enum c = record (before_default c) { enum = [] }

abbrev before_description : Constraints → Constraints
before_description c = record (before_enum c) { description = [] }

mutual
  unfolding read to_json

  read-written : (p : PropertyDef) → read (to_json p) ≡ some p
  read-written (property c nested props) =
      read-when_text no_items no_properties _ Key.description
        (λ v. record (before_enum c) { description = v }) c.description (λ v. refl)
      ∙ read-when_texts no_items no_properties _ Key.enum
          (λ v. record (before_default c) { enum = v }) c.enum (λ v. refl)
      ∙ read-when_any no_items no_properties _ Key.default
          (λ v. record (before_minimum c) { default = v }) c.default (λ v. refl)
      ∙ read-when_float no_items no_properties _ Key.minimum
          (λ v. record (before_maximum c) { minimum = v }) c.minimum (λ v. refl)
      ∙ read-when_float no_items no_properties _ Key.maximum
          (λ v. record (before_exclusive_minimum c) { maximum = v }) c.maximum (λ v. refl)
      ∙ read-when_float no_items no_properties _ Key.exclusive_minimum
          (λ v. record (before_exclusive_maximum c) { exclusive_minimum = v }) c.exclusive_minimum
          (λ v. refl)
      ∙ read-when_float no_items no_properties _ Key.exclusive_maximum
          (λ v. record (before_min_length c) { exclusive_maximum = v }) c.exclusive_maximum
          (λ v. refl)
      ∙ read-when_int no_items no_properties _ Key.min_length
          (λ v. record (before_max_length c) { min_length = v }) c.min_length (λ v. refl)
      ∙ read-when_int no_items no_properties _ Key.max_length
          (λ v. record (before_pattern c) { max_length = v }) c.max_length (λ v. refl)
      ∙ read-when_text no_items no_properties _ Key.pattern
          (λ v. record (before_min_items c) { pattern = v }) c.pattern (λ v. refl)
      ∙ read-when_items nested no_properties (before_min_items c) _
      ∙ read-when_int nested no_properties _ Key.min_items
          (λ v. record (before_max_items c) { min_items = v }) c.min_items (λ v. refl)
      ∙ read-when_int nested no_properties _ Key.max_items
          (λ v. record (before_required c) { max_items = v }) c.max_items (λ v. refl)
      ∙ read-when_properties nested props (before_required c) _
      ∙ read-when_texts nested props _ Key.required (λ v. record c { required = v }) c.required
          (λ v. refl)

  read-when_items :
      (nested : Items) (props : Properties) (c : Constraints) (rest : Fields)
      → read_fields (when_items nested rest) c no_items props ≡ read_fields rest c nested props
  read-when_items no_items props c rest = refl
  read-when_items (items_of p) props c rest = rw (read-written p) refl

  read-when_properties :
      (nested : Items) (props : Properties) (c : Constraints) (rest : Fields)
      → read_fields (when_properties props rest) c nested no_properties
        ≡ read_fields rest c nested props
  read-when_properties nested no_properties c rest = refl
  read-when_properties nested (with_property name p props) c rest =
      rw (read-written p, read-names props) refl

  read-names : (props : Properties) → read_names (to_names props) ≡ some props
  read-names no_properties = refl
  read-names (with_property name p props) = rw (read-written p, read-names props) refl

-- The document of a property, with all that is nested in it, can be read back: reading it gives the
-- property again.
pub read-to_json : (p : PropertyDef) → read (to_json p) ≡ some p
read-to_json p = read-written p
