-- ===== src/Sdk/Spans.antt =====
-- src/sdk.cc: what the functions for PHP add to a trace.
use opentelemetry_php_ext.Common.{
  take, ℕ, ◌==◌, refl, Bool, true, List, [], ◌∷◌, some, c_str, if◌then◌else◌, All-append,
}
use opentelemetry_php_ext.Span.{ok, error, Span, KeyValue}
use opentelemetry_php_ext.Provider.State.{Slot, Fresh}
use opentelemetry_php_ext.Provider.Traces.{IsOpen, Member, new_span, push, get_elem?-append}
use opentelemetry_php_ext.Core.Globals.{Globals, World}
use opentelemetry_php_ext.Sdk.{SpanArguments, described, status_error}

abbrev pub pushed : (t : Slot) → IsOpen t → Span → Slot
pushed t o y = record t { request = some (push o.request y) }

-- A span of the trace may be appended.
abbrev pub pushed-IsOpen :
    (t : Slot) (o : IsOpen t) (y : Span) → Member o.first.trace_id y → IsOpen (pushed t o y)
pushed-IsOpen t o y member = record {
  request = push o.request y;
  index = o.index;
  first = o.first;
  has_request = refl;
  has_first = o.has_first;
  at_index = get_elem?-append o.request.spans (y ∷ []) o.index o.first o.at_index;
  members = All-append (Member o.first.trace_id) o.request.spans (y ∷ []) o.members (member, tt);
}

module _ (w : World) (fresh : Fresh) (g : Globals) (now : ℕ) (a : SpanArguments) (t : Slot)
    (o : IsOpen t) (attributes : List KeyValue) where
  -- The new span before it ends, and the process with it.
  abbrev pub added : Span
  added =
      described a o.first.span_id attributes (new_span o.first.trace_id fresh (c_str a.name) a.kind)

  abbrev pub filled : Slot
  filled = pushed t o added

  -- The span and the process as the call leaves them.
  abbrev pub last_added : Span
  last_added = record {
    trace_id = o.first.trace_id;
    span_id = take 8 fresh.span_uuid;
    parent_span_id = o.first.span_id;
    name = c_str a.name;
    kind = a.kind;
    start_time_unix_nano = a.start_time_unix_nano;
    end_time_unix_nano = now;
    attributes = attributes;
    events = [];
    status =
        if a.status_code == status_error
        then record { code = error; message = c_str a.status_message }
        else record { code = ok; message = [] };
  }

  abbrev pub sampled_after : Bool
  sampled_after = if a.status_code == status_error then true else t.is_sampled
