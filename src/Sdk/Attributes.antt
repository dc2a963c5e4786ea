-- ===== src/Sdk/Attributes.antt =====
-- src/sdk.cc: the reading of attributes from arrays of PHP.
use opentelemetry_php_ext.Common.{List, [], ◌∷◌, Option, none, some, Bytes, c_str}
use opentelemetry_php_ext.Span.{KeyValue, set_string_attribute}

-- A value of PHP: an array with its JSON, a string, or anything else with its text.
pub data Zval : Type 0 where
  array string scalar : Bytes → Zval

-- The text that an attribute gets, from a `char *` except for the JSON.
abbrev pub value_text : Zval → Bytes
value_text (array json) = json
value_text (string s) = c_str s
value_text (scalar s) = c_str s

-- One element of the array of `opentelemetry_add_span`: its `key` and its `value`, if it has them.
abbrev pub Entry : Type 0
Entry = Option Bytes × Option Zval

-- An element without `key` or `value` is read through a null pointer.
unfoldable pub read_entries : List Entry → List KeyValue → Option (List KeyValue)
read_entries [] attributes = some attributes
read_entries ((some k, some v) ∷ entries) attributes =
    read_entries entries (set_string_attribute attributes (c_str k) (value_text v))
read_entries (_ ∷ entries) attributes = none

-- The pairs of the array of `opentelemetry_add_event`; those without a string for a key are passed
-- over.
unfoldable pub read_pairs : List (Option Bytes × Zval) → List KeyValue → List KeyValue
read_pairs [] attributes = attributes
read_pairs ((some k, v) ∷ pairs) attributes =
    read_pairs pairs (set_string_attribute attributes (c_str k) (value_text v))
read_pairs ((none, v) ∷ pairs) attributes = read_pairs pairs attributes
