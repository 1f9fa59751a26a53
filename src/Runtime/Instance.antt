-- ===== src/Runtime/Instance.antt =====
-- crates/mim-runtime/src/instance.rs and oid.rs: the instances of MIM classes. The `Value` of the
-- serde_json crate is a parameter.
use ainext_gen_c.Base.{
  List, [], ◌∷◌, ◌++◌, Bool, Option, none, some, Text, text, text_eq, is_empty, trim, find, Map,
  Result, ok, err, if◌then◌else◌,
}
use ainext_gen_c.Core.Nillable.{Nillable, nil, NilReason}
use ainext_gen_c.Model.Metadata.{Metadata}

-- the cases of `serde_json::Value`, over the values inside: a number with its text, an object with
-- its members, and an array or null
pub data JsonView (Value : Type 0) : Type 0 where
  string_view number_view : Text → JsonView Value
  bool_view : Bool → JsonView Value
  object_view : Map Value → JsonView Value
  other_view : JsonView Value

-- `serde_json::Value`, with `Value::String`, the cases of a value, and its compact text
pub record Json : Type 1 where
  pub Value : Type 0
  pub of_text : Text → Value
  pub view : Value → JsonView Value
  pub to_string : Value → Text

-- `Value::as_str`
unfoldable pub as_str : (json : Json) → json.Value → Option Text
as_str json v = elim (json.view v) [ string_view s ↦ some s | _ ↦ none ]

-- `ObjectIdentifier(String)`
abbrev pub ObjectIdentifier : Type 0
ObjectIdentifier = Text

-- `ObjectIdentifier::new`, with the message of its error
unfoldable pub new_oid : Text → Result Text ObjectIdentifier
new_oid s = if is_empty (trim s) then err (text "object identifier must not be empty") else ok s

pub record PropertyValue (json : Json) : Type 0 where
  pub name : Text
  pub semantic_id : Option Text
  pub value : Nillable json.Value

-- `MimInstance`: the associations are an `IndexMap`, and a `SemanticId` is its canonical text
pub record MimInstance (json : Json) : Type 0 where
  pub oid : ObjectIdentifier
  pub class_name : Text
  pub class_semantic_id : Text
  pub metadata : Metadata
  pub properties : List (PropertyValue json)
  pub associations : Map (List ObjectIdentifier)

module _ (json : Json) where
  -- `PropertyValue::string`
  unfoldable pub string_property : Text → Text → PropertyValue json
  string_property name v = record {
    name = name;
    semantic_id = none;
    value = Nillable.value (json.of_text v);
  }

  -- `PropertyValue::nil`
  unfoldable pub nil_property : Text → NilReason → PropertyValue json
  nil_property name reason = record { name = name; semantic_id = none; value = nil reason }

  unfoldable pub with_property : MimInstance json → PropertyValue json → MimInstance json
  with_property i p = record i { properties = i.properties ++ p ∷ [] }

  -- `MimInstance::property`
  unfoldable pub property : MimInstance json → Text → Option (PropertyValue json)
  property i name = find (λ (p : PropertyValue json). text_eq p.name name) i.properties
