-- ===== src/Sdk/Additions.antt =====
-- src/sdk.cc: attributes and events that PHP adds to the first span.
use opentelemetry_php_ext.Common.{ℕ, ◌≡◌, refl, List, [], ◌∷◌, ◌++◌, Option, some, Bytes, c_str}
use opentelemetry_php_ext.Span.{Span, set_string_attribute}
use opentelemetry_php_ext.Provider.State.{Slot, latest_span}
use opentelemetry_php_ext.Provider.Endings.{get_elem?-set_self}
use opentelemetry_php_ext.Provider.Traces.{IsOpen}
use opentelemetry_php_ext.Provider.Changes.{set_span-open, set_span-IsOpen, changed}
use opentelemetry_php_ext.Sdk.{on_first, add_to_first, add_event}
use opentelemetry_php_ext.Sdk.Attributes.{Zval, read_pairs}

-- The first span becomes `y`, and the request stays open.
abbrev pub Becomes : Option Slot → Span → Type 0
Becomes r y = (q : Slot) × (r ≡ some q) × (latest_span q ≡ some y) × IsOpen q

on_first-Becomes :
    (f : Span → Span) (t : Slot) (o : IsOpen t)
    → (f o.first).trace_id ≡ o.first.trace_id
    → (f o.first).span_id ≡ o.first.span_id
    → Becomes (on_first f t) (f o.first)
on_first-Becomes f t o same_trace same_span =
    let y = f o.first in
    (
      changed t o.request o.index y,
      rw (o.has_first, o.has_request, o.at_index),
      rw (o.has_first) (get_elem?-set_self o.request.spans o.index o.first y o.at_index),
      rw (← set_span-open t o o.index y)
          (set_span-IsOpen t o o.index o.first y o.at_index same_trace same_span),
    )

-- On an open request an attribute and an event that PHP adds go behind those of the first span; the
-- rest of that span is as it was, and the request stays open.
pub additions-IsOpen :
    (t : Slot) (o : IsOpen t) (k v name : Bytes) (now : ℕ) (pairs : List (Option Bytes × Zval))
    → Becomes (add_to_first (k, v) t) (record (o.first) {
      attributes = set_string_attribute o.first.attributes (c_str k) (c_str v);
    })
      × Becomes (add_event now (name, pairs) t) (record (o.first) {
        events =
            o.first.events
            ++ record { name = c_str name; time_unix_nano = now; attributes = read_pairs pairs [] }
              ∷ [];
      })
additions-IsOpen t o k v name now pairs =
    (on_first-Becomes _ t o refl refl, on_first-Becomes _ t o refl refl)
