-- ===== src/Tool/Schema/Reader.antt =====
-- A reader of the document of a property, which goes through its keys as `json.Unmarshal` does into a
-- `PropertyDef`.
use agentpg.Base.{[], Option, none, some, ◌>>=◌}
use agentpg.Tool.Schema.{
  Key, Json, Fields, Names, Constraints, PropertyDef, Items, Properties, text, texts, float, int,
  any, object, by_name, end, field, no_names, named, property, no_items, items_of, no_properties,
  with_property,
}

abbrev pub no_constraints : Constraints
no_constraints = record {
  type = [];
  description = [];
  enum = [];
  default = none;
  minimum = none;
  maximum = none;
  exclusive_minimum = none;
  exclusive_maximum = none;
  min_length = none;
  max_length = none;
  pattern = [];
  min_items = none;
  max_items = none;
  required = [];
}

-- A value under a key of its type; `none` where the type is another.
abbrev pub set_value : Key → Json → Constraints → Option Constraints
set_value Key.type (text v) p = some (record p { type = v })
set_value Key.description (text v) p = some (record p { description = v })
set_value Key.enum (texts v) p = some (record p { enum = v })
set_value Key.default (any v) p = some (record p { default = some v })
set_value Key.minimum (float v) p = some (record p { minimum = some v })
set_value Key.maximum (float v) p = some (record p { maximum = some v })
set_value Key.exclusive_minimum (float v) p = some (record p { exclusive_minimum = some v })
set_value Key.exclusive_maximum (float v) p = some (record p { exclusive_maximum = some v })
set_value Key.min_length (int v) p = some (record p { min_length = some v })
set_value Key.max_length (int v) p = some (record p { max_length = some v })
set_value Key.pattern (text v) p = some (record p { pattern = v })
set_value Key.min_items (int v) p = some (record p { min_items = some v })
set_value Key.max_items (int v) p = some (record p { max_items = some v })
set_value Key.required (texts v) p = some (record p { required = v })
set_value _ _ p = none

unfoldable mutual
  pub read : Json → Option PropertyDef
  read (object fields) = read_fields fields no_constraints no_items no_properties
  read (text v) = none
  read (texts v) = none
  read (float v) = none
  read (int v) = none
  read (any v) = none
  read (by_name names) = none

  pub read_fields : Fields → Constraints → Items → Properties → Option PropertyDef
  read_fields end p nested props = some (property p nested props)
  read_fields (field Key.items value rest) p nested props = do
    element ← read value
    read_fields rest p (items_of element) props
  read_fields (field Key.properties value rest) p nested props = do
    inner ← read_properties value
    read_fields rest p nested inner
  read_fields (field key value rest) p nested props = do
    next ← set_value key value p
    read_fields rest next nested props

  pub read_properties : Json → Option Properties
  read_properties (by_name names) = read_names names
  read_properties value = none

  pub read_names : Names → Option Properties
  read_names no_names = some no_properties
  read_names (named name value names) = do
    p ← read value
    props ← read_names names
    some (with_property name p props)
