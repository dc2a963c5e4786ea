-- ===== src/Sdk.antt =====
-- src/sdk.cc: the functions that the extension gives to PHP. The arguments are what
-- `zend_parse_parameters` makes of them, `none` where it fails; the result is what PHP gets.
pub mod Attributes
pub mod Scripts
pub mod Calls
pub mod Spans
pub mod Additions
use opentelemetry_php_ext.Common.{
  ℕ, zero, suc, ◌==◌, ◌%◌, ◌+◌, Bool, true, false, not, ◌&&◌, ◌||◌, List, [], ◌∷◌, ◌++◌, Option,
  none, some, Bytes, text, c_str, is_empty, if◌then◌else◌, ◌>>=◌,
}
use opentelemetry_php_ext.Span.{ℤ, pos, negsuc, KeyValue, Span, Event, set_string_attribute}
use opentelemetry_php_ext.Provider.{Host, Provider, slot, change_slot, count}
use opentelemetry_php_ext.Provider.State.{
  Slot, Fresh, Baggage, span_at, set_span, latest_span, create_span,
}
use opentelemetry_php_ext.Provider.Finish.{set_sampled, ok_end, error_end}
use opentelemetry_php_ext.Provider.TraceParent.{magnitude, format_trace_parent}
use opentelemetry_php_ext.Provider.Baggage.{add_baggage, add_resource_attribute, format_baggage}
use opentelemetry_php_ext.Core.Globals.{
  Globals, World, is_has_provider, find_server_string, change_provider,
}
use opentelemetry_php_ext.Core.Tracer.{start_tracer}
use opentelemetry_php_ext.Core.Lifecycle.{Times, shutdown_tracer}
use Attributes.{Zval, Entry, read_entries, read_pairs}

-- The arguments of `opentelemetry_start_cli_tracer`, all optional.
pub record CliArguments : Type 0 where
  pub traceparent : Option Bytes
  pub baggage : Option Bytes
  pub kind : ℕ

-- A `char *` that may be null, where the null pointer stands for the empty text.
abbrev pub text_of : Option Bytes → Bytes
text_of none = []
text_of (some s) = c_str s

abbrev start_with : World → Fresh → Option CliArguments → Globals → Option (Bool × Globals)
start_with w fresh none g = some (false, g)
start_with w fresh (some a) g = do
  q ←
      start_tracer w fresh (text_of a.traceparent) (text_of a.baggage) a.kind
        (record g { is_started_cli_tracer = true })
  some (true, q)

unfoldable pub opentelemetry_start_cli_tracer :
    World → Fresh → Option CliArguments → Globals → Option (Bool × Globals)
unfolding start_tracer
opentelemetry_start_cli_tracer w fresh args g =
    if not w.host.is_cli || (not g.cli_enable || g.is_started_cli_tracer)
    then some (false, g)
    else start_with w fresh args g

unfoldable pub opentelemetry_shutdown_cli_tracer : World → Times → Globals → Option (Bool × Globals)
unfolding shutdown_tracer
opentelemetry_shutdown_cli_tracer w times g =
    if not w.host.is_cli || (not g.cli_enable || not g.is_started_cli_tracer)
    then some (false, g)
    else (do q ← shutdown_tracer w times g; some (true, q))

-- `formatTraceParentHeader(firstOneSpan())`.
abbrev header_of : World → ℕ → Globals → Option Provider → Option Bytes
header_of w now g none = some []
header_of w now g (some p) = do
  span ← latest_span (slot w.host p)
  format_trace_parent g.settings now span (slot w.host p)

unfoldable pub opentelemetry_get_traceparent : World → ℕ → Globals → Option Bytes
unfolding format_trace_parent slot
opentelemetry_get_traceparent w now g = header_of w now g g.provider

abbrev baggage_of : (Baggage → Baggage) → World → Option Provider → Bytes
baggage_of order w none = []
baggage_of order w (some p) = c_str (format_baggage order (slot w.host p))

unfoldable pub opentelemetry_get_baggage : (Baggage → Baggage) → World → Globals → Bytes
unfolding format_baggage slot
opentelemetry_get_baggage order w g = baggage_of order w g.provider

-- The shape of the functions that change the state of the process: false without a provider or
-- without the arguments, else the change and true.
abbrev given {ℓ} :
    {A : Type ℓ} → World → (A → Slot → Option Slot) → Option A → Globals → Option (Bool × Globals)
given w f none g = some (false, g)
given w f (some a) g = do q ← change_provider (change_slot w.host (f a)) g; some (true, q)

abbrev pub reply {ℓ} :
    {A : Type ℓ} → World → (A → Slot → Option Slot) → Option A → Globals → Option (Bool × Globals)
reply w f args g = if is_has_provider g then given w f args g else some (false, g)

-- A text made from a null pointer faults.
add_pair : Option Bytes × Option Bytes → Slot → Option Slot
add_pair (some k, some v) t = add_baggage (c_str k) (c_str v) t
add_pair _ t = none

unfoldable pub opentelemetry_add_baggage :
    World → Option (Option Bytes × Option Bytes) → Globals → Option (Bool × Globals)
unfolding add_pair is_has_provider change_provider change_slot
opentelemetry_add_baggage w args g = reply w add_pair args g

-- `count() % sample_ratio_based == 0` with an empty header; the argument is not asked.
abbrev takes_part : World → Globals → Provider → Option Bool
takes_part w g p =
    if is_empty (find_server_string w (text "HTTP_TRACEPARENT"))
    then (if magnitude g.settings.sample_ratio_based == 0
        then none
        else some ((count p % magnitude g.settings.sample_ratio_based) == 0))
    else some false

-- What becomes of the flag, if anything.
abbrev choice : World → Globals → Provider → ℤ → Option (Option Bool)
choice w g p (pos zero) = some (some false)
choice w g p (pos (suc zero)) = some (some true)
choice w g p ratio = do taken ← takes_part w g p; some (if taken then some true else none)

abbrev set_choice : Option Bool → Slot → Option Slot
set_choice none t = some t
set_choice (some b) t = some (set_sampled b t)

abbrev set_ratio : World → Option ℤ → Globals → Option Provider → Option Globals
set_ratio w args g none = some g
set_ratio w none g (some p) = some g
set_ratio w (some ratio) g (some p) = do
  chosen ← choice w g p ratio
  q ← change_slot w.host (set_choice chosen) p
  some (record g { provider = some q })

unfoldable pub opentelemetry_set_sample_ratio_based : World → Option ℤ → Globals → Option Globals
unfolding find_server_string count set_sampled change_slot
opentelemetry_set_sample_ratio_based w args g = set_ratio w args g g.provider

unfoldable pub opentelemetry_get_service_name : Globals → Bytes
opentelemetry_get_service_name g = g.settings.service_name

unfoldable pub opentelemetry_get_service_ip : Globals → Bytes
opentelemetry_get_service_ip g = c_str g.settings.ipv4

unfoldable pub opentelemetry_get_ppid : World → ℕ
opentelemetry_get_ppid w = w.host.ppid

-- `STATUS_CODE_ERROR`, a number on the wire.
abbrev pub status_error : ℕ
status_error = 2

pub record SpanArguments : Type 0 where
  pub name : Bytes
  pub kind : ℕ
  pub start_time_unix_nano : ℕ
  pub status_code : ℕ
  pub status_message : Bytes
  pub attributes : List Entry

-- The span with its parent, its time and its attributes, before it ends.
abbrev pub described : SpanArguments → Bytes → List KeyValue → Span → Span
described a parent_id attributes span = record span {
  parent_span_id = parent_id;
  start_time_unix_nano = a.start_time_unix_nano;
  attributes = attributes;
}

unfoldable pub add_span : World → Fresh → Globals → ℕ → SpanArguments → Slot → Option Slot
unfolding create_span read_entries ok_end error_end
add_span w fresh g now a t = do
  parent ← latest_span t
  created ← create_span g.settings fresh (c_str a.name) a.kind t
  span ← span_at (created.1) (created.0)
  attributes ← read_entries a.attributes span.attributes
  let filled = set_span (created.1) (created.0) (described a parent.span_id attributes span)
  (if a.status_code == status_error
      then error_end now (created.0) (c_str a.status_message) filled
      else ok_end now (created.0) filled)

unfoldable pub opentelemetry_add_span :
    World → Fresh → ℕ → Option SpanArguments → Globals → Option (Bool × Globals)
unfolding add_span is_has_provider change_provider change_slot
opentelemetry_add_span w fresh now args g = reply w (add_span w fresh g now) args g

abbrev add_to_resource : Bytes × Bytes → Slot → Option Slot
add_to_resource (k, v) t = add_resource_attribute (c_str k) (c_str v) t

unfoldable pub opentelemetry_add_resource_attribute :
    World → Option (Bytes × Bytes) → Globals → Option (Bool × Globals)
unfolding add_resource_attribute is_has_provider change_provider change_slot
opentelemetry_add_resource_attribute w args g = reply w add_to_resource args g

-- A change of `*firstOneSpan()`.
abbrev pub on_first : (Span → Span) → Slot → Option Slot
on_first f t = do i ← t.first_span; span ← span_at t i; some (set_span t i (f span))

abbrev pub add_to_first : Bytes × Bytes → Slot → Option Slot
add_to_first (k, v) t =
    on_first
      (λ span. record span {
        attributes = set_string_attribute span.attributes (c_str k) (c_str v);
      })
      t

unfoldable pub opentelemetry_add_attribute :
    World → Option (Bytes × Bytes) → Globals → Option (Bool × Globals)
unfolding is_has_provider change_provider change_slot
opentelemetry_add_attribute w args g = reply w add_to_first args g

abbrev pub add_event : ℕ → Bytes × List (Option Bytes × Zval) → Slot → Option Slot
add_event now (name, pairs) t =
    on_first
      (λ span. record span {
        events =
            span.events
            ++ record { name = c_str name; time_unix_nano = now; attributes = read_pairs pairs [] }
              ∷ [];
      })
      t

unfoldable pub opentelemetry_add_event :
    World → ℕ → Option (Bytes × List (Option Bytes × Zval)) → Globals → Option (Bool × Globals)
unfolding read_pairs is_has_provider change_provider change_slot
opentelemetry_add_event w now args g = reply w (add_event now) args g
