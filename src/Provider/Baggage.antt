-- ===== src/Provider/Baggage.antt =====
-- src/provider.cc: the baggage, a `tsl::robin_map` of texts, and its header.
use opentelemetry_php_ext.Common.{
  Bool, true, false, List, [], ◌∷◌, ◌++◌, Option, none, some, Bytes, text, bytes_eq, is_empty,
  if◌then◌else◌, ◌>>=◌,
}
use opentelemetry_php_ext.Text.{explode}
use opentelemetry_php_ext.Span.{Resource, set_string_attribute}
use opentelemetry_php_ext.Provider.State.{Slot, ResourcePtr, null, own, in_request, Baggage}

-- `baggage[key] = value`.
unfoldable pub insert : Bytes → Bytes → Baggage → Baggage
insert k v [] = (k, v) ∷ []
insert k v ((j, w) ∷ b) = if bytes_eq j k then (k, v) ∷ b else (j, w) ∷ insert k v b

-- `set_string_attribute(getResource()->add_attributes(), key, value)`.
abbrev pub add_to : Bytes → Bytes → Resource → Resource
add_to k v r = record { attributes = set_string_attribute r.attributes k v }

add_in_request : Bytes → Bytes → Slot → Option Slot
add_in_request k v t = do
  r ← t.request
  given ← r.resource
  some (record t { request = some (record r { resource = some (add_to k v given) }) })

add_behind : Bytes → Bytes → Slot → ResourcePtr → Option Slot
unfolding add_in_request
add_behind k v t null = none
add_behind k v t (own r) = some (record t { resource = own (add_to k v r) })
add_behind k v t in_request = add_in_request k v t

unfoldable pub add_resource_attribute : Bytes → Bytes → Slot → Option Slot
unfolding add_behind
add_resource_attribute k v t = add_behind k v t t.resource

unfoldable pub add_baggage : Bytes → Bytes → Slot → Option Slot
unfolding insert add_resource_attribute
add_baggage k v t = add_resource_attribute k v (record t { baggage = insert k v t.baggage })

-- `getBaggage`; on the command line a missing entry is made empty, as it reads already.
abbrev pub get_baggage : Slot → Baggage
get_baggage t = t.baggage

-- One item of the header; an item that is no pair is passed over.
unfoldable pub parse_item : List Bytes → Slot → Option Slot
unfolding add_baggage
parse_item (k ∷ v ∷ []) t = add_baggage k v t
parse_item kv t = some t

unfoldable pub parse_items : List Bytes → Slot → Option Slot
unfolding parse_item
parse_items [] t = some t
parse_items (item ∷ items) t = do t' ← parse_item (explode (text "=") item) t; parse_items items t'

unfoldable pub parse_baggage : Bytes → Slot → Option Slot
unfolding parse_items
parse_baggage tracebaggage t =
    if is_empty tracebaggage then some t else parse_items (explode (text ",") tracebaggage) t

-- The loop of `formatBaggageHeader`, over the entries in the order in which they are visited.
unfoldable pub format_entries : Bool → Bytes → Baggage → Bytes
format_entries first header [] = header
format_entries first header ((k, v) ∷ b) =
    format_entries false (((if first then header else header ++ text ",") ++ k) ++ text "=" ++ v) b

-- `order` is the iteration order of the map, which the map's library does not promise.
unfoldable pub format_baggage : (Baggage → Baggage) → Slot → Bytes
unfolding format_entries
format_baggage order t = format_entries true [] (order t.baggage)
