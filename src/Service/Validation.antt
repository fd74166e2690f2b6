-- ===== src/Service/Validation.antt =====
-- src/n8n_operator/registry/validation.py: the errors of a call's arguments. `jsonschema` is a port.
pub mod Pointer
use n8n_operator.Base.{
  Bool, false, not, ◌||◌, Option, none, some, List, [], ◌∷◌, ◌++◌, Text, codes, text_eq, text_in,
  if◌then◌else◌, ◌==◌,
}
use n8n_operator.Json.{Json, Items, Fields, obj, arr, str, bool, end, field, nil, cons}
use n8n_operator.Service.Ports.{JsonSchema, SchemaError}

-- `ArgumentError`
pub record ArgumentError : Type 0 where
  pub path : Text
  pub code : Text
  pub message : Text

-- `ArgumentError.to_dict`
pub to_dict : ArgumentError → Json
to_dict e = obj (
    field (codes "path") (str e.path)
      (field (codes "code") (str e.code) (field (codes "message") (str e.message) end)))

-- `.replace("~", "~0").replace("/", "~1")`
unfoldable pub escape_segment : Text → Text
escape_segment [] = []
escape_segment (c ∷ s) =
    let rest = escape_segment s in
    if c == b'~' then b'~' ∷ b'0' ∷ rest else if c == b'/' then b'~' ∷ b'1' ∷ rest else c ∷ rest

-- `_json_pointer`, of the segments as `str` prints them.
unfoldable pub json_pointer : List Text → Text
json_pointer [] = []
json_pointer (s ∷ segments) = b'/' ∷ (escape_segment s ++ json_pointer segments)

-- `_VALIDATOR_CODES`
abbrev validator_codes : List (Text × Text)
validator_codes =
    (codes "type", codes "TYPE")
    ∷ (codes "enum", codes "ENUM")
    ∷ (codes "const", codes "ENUM")
    ∷ (codes "minLength", codes "MIN_LENGTH")
    ∷ (codes "maxLength", codes "MAX_LENGTH")
    ∷ (codes "pattern", codes "PATTERN")
    ∷ (codes "format", codes "FORMAT")
    ∷ (codes "minimum", codes "MINIMUM")
    ∷ (codes "maximum", codes "MAXIMUM")
    ∷ (codes "exclusiveMinimum", codes "MINIMUM")
    ∷ (codes "exclusiveMaximum", codes "MAXIMUM")
    ∷ (codes "multipleOf", codes "MULTIPLE_OF")
    ∷ (codes "minItems", codes "MIN_ITEMS")
    ∷ (codes "maxItems", codes "MAX_ITEMS")
    ∷ (codes "uniqueItems", codes "UNIQUE_ITEMS")
    ∷ (codes "minProperties", codes "MIN_PROPERTIES")
    ∷ (codes "maxProperties", codes "MAX_PROPERTIES")
    ∷ []

look_up : Text → List (Text × Text) → Option Text
look_up k [] = none
look_up k ((j, v) ∷ rest) = if text_eq j k then some v else look_up k rest

-- A `dict`'s `get`.
unfoldable pub get_field : Text → Fields → Option Json
get_field k end = none
get_field k (field j v fs) = if text_eq j k then some v else get_field k fs

abbrev keys : Fields → List Text
keys end = []
keys (field k v fs) = k ∷ keys fs

-- The fields of an object; no other value has any.
unfoldable pub fields_of : Json → Fields
fields_of (obj fs) = fs
fields_of _ = end

-- The strings of a list.
strings : Items → List Text
strings nil = []
strings (cons (str s) xs) = s ∷ strings xs
strings (cons _ xs) = strings xs

unfoldable pub required_fields : Fields → List Text
unfolding strings get_field
required_fields schema = elim (get_field (codes "required") schema) [
  | some (arr xs) ↦ strings xs
  | _ ↦ []
]

known_fields : Fields → List Text
unfolding get_field
known_fields schema = elim (get_field (codes "properties") schema) [
  | some (obj fs) ↦ keys fs
  | _ ↦ []
]

is_closed : Fields → Bool
unfolding get_field
is_closed schema = elim (get_field (codes "additionalProperties") schema) [
  | some (bool b) ↦ not b
  | _ ↦ false
]

module _ (js : JsonSchema) where
  required_error : Text → ArgumentError
  required_error name = record {
    path = json_pointer (name ∷ []);
    code = codes "REQUIRED";
    message = codes "Field " ++ (js.repr name ++ codes " is required.");
  }

  missing_fields : List Text → Fields → List ArgumentError
  missing_fields [] arguments = []
  missing_fields (name ∷ names) arguments =
      let rest = missing_fields names arguments in
      if text_in name (keys arguments) then rest else required_error name ∷ rest

  unknown_fields : List Text → List Text → List ArgumentError
  unknown_fields known [] = []
  unknown_fields known (name ∷ names) =
      let rest = unknown_fields known names in
      if text_in name known
      then rest
      else record {
        path = json_pointer (name ∷ []);
        code = codes "ADDITIONAL_PROPERTY";
        message =
            codes "Unknown field "
            ++ (js.repr name ++ codes "; this workflow accepts no extra fields.");
      }
        ∷ rest

  code_of : Text → Text
  unfolding look_up
  code_of validator = elim (look_up validator validator_codes) [
    | some code ↦ code
    | none ↦ js.upper validator
  ]

  other_errors : List SchemaError → List ArgumentError
  unfolding code_of
  other_errors [] = []
  other_errors (e ∷ es) =
      let rest = other_errors es in
      if text_eq e.validator (codes "required")
        || text_eq e.validator (codes "additionalProperties")
      then rest
      else record {
        path = json_pointer e.absolute_path;
        code = code_of e.validator;
        message = e.message;
      }
        ∷ rest

  -- `validate_arguments`
  unfoldable pub validate_arguments : Json → Json → List ArgumentError
  unfolding missing_fields unknown_fields other_errors required_error known_fields is_closed
  validate_arguments input_schema arguments =
      let schema = fields_of input_schema in
      let given = fields_of arguments in
      missing_fields (required_fields schema) given
      ++ ((if is_closed schema then unknown_fields (known_fields schema) (keys given) else [])
          ++ other_errors (js.iter_errors input_schema arguments))

abbrev pub error_items : List ArgumentError → Items
error_items [] = nil
error_items (e ∷ es) = cons (to_dict e) (error_items es)
