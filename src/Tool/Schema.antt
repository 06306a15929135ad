-- ===== src/Tool/Schema.antt =====
-- The schema of a tool's input in tool/tool.go, and the JSON document that the API gets of it. Maps
-- are lists of their entries, in any order. A key that the code writes is the constructor of its name;
-- a float is its bits, and the default value the bytes of its encoding.
pub mod Reader
pub mod Lossless
use agentpg.Base.{ℕ, Bool, List, [], ◌∷◌, codes, Option, none, some, bytes_eq, if◌then◌else◌}
use agentpg.Base.Int.{ℤ}
use agentpg.Driver.{Bytes}

pub data Key : Type 0 where
  type description enum default minimum maximum exclusive_minimum exclusive_maximum : Key
  min_length max_length pattern items min_items max_items properties required : Key

mutual
  pub data Json : Type 0 where
    text : Bytes → Json
    texts : List Bytes → Json
    float : ℕ → Json
    int : ℤ → Json
    any : Bytes → Json
    object : Fields → Json
    by_name : Names → Json

  pub data Fields : Type 0 where
    end : Fields
    field : Key → Json → Fields → Fields

  pub data Names : Type 0 where
    no_names : Names
    named : Bytes → Json → Names → Names

-- The fields of `PropertyDef` that are no properties themselves; nil is `none`, or empty.
pub record Constraints : Type 0 where
  pub type : Bytes
  pub description : Bytes
  pub enum : List Bytes
  pub default : Option Bytes
  pub minimum : Option ℕ
  pub maximum : Option ℕ
  pub exclusive_minimum : Option ℕ
  pub exclusive_maximum : Option ℕ
  pub min_length : Option ℤ
  pub max_length : Option ℤ
  pub pattern : Bytes
  pub min_items : Option ℤ
  pub max_items : Option ℤ
  pub required : List Bytes

mutual
  pub data PropertyDef : Type 0 where
    property : Constraints → Items → Properties → PropertyDef

  -- `Items`
  pub data Items : Type 0 where
    no_items : Items
    items_of : PropertyDef → Items

  pub data Properties : Type 0 where
    no_properties : Properties
    with_property : Bytes → PropertyDef → Properties → Properties

unfoldable pub when_text : Key → Bytes → Fields → Fields
when_text key [] rest = rest
when_text key (b ∷ bs) rest = field key (text (b ∷ bs)) rest

unfoldable pub when_texts : Key → List Bytes → Fields → Fields
when_texts key [] rest = rest
when_texts key (b ∷ bs) rest = field key (texts (b ∷ bs)) rest

unfoldable pub when_any : Key → Option Bytes → Fields → Fields
when_any key none rest = rest
when_any key (some value) rest = field key (any value) rest

unfoldable pub when_float : Key → Option ℕ → Fields → Fields
when_float key none rest = rest
when_float key (some value) rest = field key (float value) rest

unfoldable pub when_int : Key → Option ℤ → Fields → Fields
when_int key none rest = rest
when_int key (some value) rest = field key (int value) rest

-- `ToJSON` of `PropertyDef`, and its loop over the nested properties.
unfoldable mutual
  pub to_json : PropertyDef → Json
  to_json (property p nested props) = object (
      field Key.type (text p.type) (
        when_text Key.description p.description (
          when_texts Key.enum p.enum (
            when_any Key.default p.default (
              when_float Key.minimum p.minimum (
                when_float Key.maximum p.maximum (
                  when_float Key.exclusive_minimum p.exclusive_minimum (
                    when_float Key.exclusive_maximum p.exclusive_maximum (
                      when_int Key.min_length p.min_length (
                        when_int Key.max_length p.max_length (
                          when_text Key.pattern p.pattern (
                            when_items nested (
                              when_int Key.min_items p.min_items (
                                when_int Key.max_items p.max_items (
                                  when_properties props
                                    (when_texts Key.required p.required end))))))))))))))))

  pub when_items : Items → Fields → Fields
  when_items no_items rest = rest
  when_items (items_of p) rest = field Key.items (to_json p) rest

  pub when_properties : Properties → Fields → Fields
  when_properties no_properties rest = rest
  when_properties (with_property name p props) rest =
      field Key.properties (by_name (named name (to_json p) (to_names props))) rest

  pub to_names : Properties → Names
  to_names no_properties = no_names
  to_names (with_property name p props) = named name (to_json p) (to_names props)

pub record ToolSchema : Type 0 where
  pub type : Bytes
  pub properties : Properties
  pub required : List Bytes
  pub description : Bytes

-- `Validate`, true where it returns no error.
unfoldable pub validate : ToolSchema → Bool
validate schema = bytes_eq schema.type (codes "object")

-- `ToJSON` of `ToolSchema`
unfoldable pub schema_json : ToolSchema → Json
schema_json schema = object (
    field Key.type (text schema.type) (
      when_text Key.description schema.description
        (when_properties schema.properties (when_texts Key.required schema.required end))))
