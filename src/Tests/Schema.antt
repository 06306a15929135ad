-- ===== src/Tests/Schema.antt =====
-- A run of the theorem on schemas: an object with a list of texts.
use agentpg.Base.{◌≡◌, [], ◌∷◌, codes, some}
use agentpg.Base.Int.{pos}
use agentpg.Tool.Schema.{
  PropertyDef, property, no_items, items_of, no_properties, with_property, to_json,
}
use agentpg.Tool.Schema.Reader.{no_constraints, read}
use agentpg.Tool.Schema.Lossless.{read-to_json}

abbrev word : PropertyDef
word =
    property (record no_constraints { type = codes "string"; min_length = some (pos 1) }) no_items
      no_properties

abbrev words : PropertyDef
words =
    property (record no_constraints { type = codes "array"; max_items = some (pos 3) })
      (items_of word) no_properties

abbrev form : PropertyDef
form =
    property (record no_constraints { type = codes "object"; required = codes "words" ∷ [] })
      no_items (with_property (codes "words") words no_properties)

read-to_json_example : read (to_json form) ≡ some form
read-to_json_example = read-to_json form
