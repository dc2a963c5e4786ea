-- ===== src/Provider/State.antt =====
-- src/provider.cc, include/provider.h: what one Provider holds for one process. Outside the command
-- line these are its plain fields (`request`, `firstSpan`, `is_sampled`, `baggage`, …); on the
-- command line they are the entries of its maps under the parent's pid (`requests`, `firstSpans`,
-- `sampled_map`, `baggage_map`, …), where a missing entry reads as null, false or empty.
-- `resourceSpans` always points into the request, which has one ResourceSpans; a pointer to a span is
-- the span's index in that request.
use opentelemetry_php_ext.Common.{
  ℕ, Bool, false, not, ◌&&◌, List, [], ◌∷◌, ◌++◌, Option, none, some, Bytes, text, is_empty,
  if◌then◌else◌, ◌>>=◌, length, take, get_elem?, set,
}
use opentelemetry_php_ext.Text.{explode}
use opentelemetry_php_ext.Text.Decimal.{to_string}
use opentelemetry_php_ext.Span.{ℤ, KeyValue, unset, Span, Resource, Request, set_string_attribute}

-- Where the `Resource` pointer leads: nowhere, to an object of its own, or to the one that the
-- request owns since `set_allocated_resource`.
pub data ResourcePtr : Type 0 where
  null : ResourcePtr
  own : Resource → ResourcePtr
  in_request : ResourcePtr

abbrev pub Baggage : Type 0
Baggage = List (Bytes × Bytes)

pub record Slot : Type 0 where
  pub request : Option Request
  pub resource : ResourcePtr
  pub first_span : Option ℕ
  pub is_sampled : Bool
  pub redis_exception : Bytes
  pub baggage : Baggage

abbrev pub empty_slot : Slot
empty_slot = record {
  request = none;
  resource = null;
  first_span = none;
  is_sampled = false;
  redis_exception = [];
  baggage = [];
}

-- The settings and facts of the process that the provider reads. `max_time_consuming` is the value
-- converted to `unsigned long`.
pub record Settings : Type 0 where
  pub service_name : Bytes
  pub ipv4 : Bytes
  pub hostname : Bytes
  pub platform_name : Bytes
  pub pid : ℕ
  pub resource_attributes : Bytes
  pub sample_ratio_based : ℤ
  pub max_time_consuming : ℕ

-- What the system gives to one `createSpan`: two random UUIDs and the time.
pub record Fresh : Type 0 where
  pub trace_uuid : Bytes
  pub span_uuid : Bytes
  pub now : ℕ

-- One `key=value` item of `resource_attributes`; other items are passed over.
add_item : List KeyValue → List Bytes → List KeyValue
add_item attributes (k ∷ v ∷ []) =
    if not (is_empty k) && not (is_empty v) then set_string_attribute attributes k v else attributes
add_item attributes kv = attributes

add_items : List KeyValue → List Bytes → List KeyValue
unfolding add_item
add_items attributes [] = attributes
add_items attributes (item ∷ items) =
    add_items (add_item attributes (explode (text "=") item)) items

unfoldable pub new_resource : Settings → Resource
unfolding add_items
new_resource s =
    let a1 = set_string_attribute [] (text "service.name") s.service_name in
    let a2 = set_string_attribute a1 (text "net.host.ip") s.ipv4 in
    let a3 = set_string_attribute a2 (text "net.host.name") s.hostname in
    let a4 = set_string_attribute a3 (text "os.type") s.platform_name in
    let a5 = set_string_attribute a4 (text "process.pid") (to_string s.pid) in
    let a6 = set_string_attribute a5 (text "telemetry.sdk.language") (text "php") in
    record {
      attributes =
          if is_empty s.resource_attributes
          then a6
          else add_items a6 (explode (text ",") s.resource_attributes);
    }

-- `getTracer`: the request that stands, or a new one with its resource.
abbrev open_request : Settings → Slot → Option Request → Slot
open_request s t (some r) = t
open_request s t none = record t {
  request = some (record { resource = none; spans = [] });
  resource = own (new_resource s);
}

unfoldable pub get_tracer : Settings → Slot → Slot
get_tracer s t = open_request s t t.request

-- `*span` and an assignment through the pointer; a pointer into no request faults.
abbrev pub span_at : Slot → ℕ → Option Span
span_at t i = do r ← t.request; get_elem? r.spans i

abbrev pub set_span : Slot → ℕ → Span → Slot
set_span t i span = elim t.request [
  | none ↦ t
  | some r ↦ record t { request = some (record r { spans = set r.spans i span }) }
]

-- `*firstOneSpan()`.
abbrev pub latest_span : Slot → Option Span
latest_span t = do i ← t.first_span; span_at t i

-- The trace id of a new span: that of the first span, if there is one.
abbrev inherited_id : Slot → Fresh → Option ℕ → Option Bytes
inherited_id t fresh none = some (take 16 fresh.trace_uuid)
inherited_id t fresh (some i) = do first ← span_at t i; some first.trace_id

abbrev append_span : Slot → Span → Option (ℕ × Slot)
append_span t span = do
  r ← t.request
  some (length r.spans, record t { request = some (record r { spans = r.spans ++ span ∷ [] }) })

-- The result is the pointer to the new span.
unfoldable pub create_span : Settings → Fresh → Bytes → ℕ → Slot → Option (ℕ × Slot)
unfolding get_tracer
create_span s fresh name kind t = do
  let t' = get_tracer s t
  trace_id ← inherited_id t' fresh t'.first_span
  append_span t' (record {
    trace_id = trace_id;
    span_id = take 8 fresh.span_uuid;
    parent_span_id = [];
    name = name;
    kind = kind;
    start_time_unix_nano = fresh.now;
    end_time_unix_nano = 0;
    attributes = [];
    events = [];
    status = record { code = unset; message = [] };
  })

unfoldable pub create_first_span : Settings → Fresh → Bytes → ℕ → Slot → Option (ℕ × Slot)
unfolding create_span
create_first_span s fresh name kind t = do
  created ← create_span s fresh name kind t
  some (created.0, record (created.1) { first_span = some (created.0) })
