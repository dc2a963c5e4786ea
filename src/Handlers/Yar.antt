-- ===== src/Handlers/Yar.antt =====
-- src/zend_hook_yar.cc: the handlers of Yar_Client::__call and of the constructor of Yar_Server.
use opentelemetry_php_ext.Common.{
  ℕ, suc, ◌==◌, List, [], ◌∷◌, ◌++◌, Option, none, some, Bytes, text, c_str, is_empty,
  if◌then◌else◌, ◌>>=◌,
}
use opentelemetry_php_ext.Span.{KeyValue, kind_client, kind_server, set_string_attribute}
use opentelemetry_php_ext.Provider.{slot}
use opentelemetry_php_ext.Provider.State.{Fresh, Baggage, span_at}
use opentelemetry_php_ext.Provider.Finish.{ok_end}
use opentelemetry_php_ext.Provider.TraceParent.{format_trace_parent}
use opentelemetry_php_ext.Provider.Baggage.{format_baggage}
use opentelemetry_php_ext.Core.Globals.{Globals, World, do_effect, set_headers}
use opentelemetry_php_ext.Sdk.Attributes.{Zval, array, string, scalar}
use opentelemetry_php_ext.Handlers.{
  Call, Run, around, run_original, command_name, span_name, lower, add_stacktrace,
}
use opentelemetry_php_ext.Handlers.Peers.{set_statement}

-- The two headers of a client span, as C strings. `order` is the order in which the map of the
-- baggage gives its entries.
unfoldable pub trace_headers : World → (Baggage → Baggage) → ℕ → ℕ → Globals → Option (List Bytes)
unfolding slot format_trace_parent format_baggage
trace_headers w order now i g = do
  p ← g.provider
  span ← span_at (slot w.host p) i
  parent ← format_trace_parent g.settings now span (slot w.host p)
  some (
      c_str (text "traceparent: " ++ parent)
      ∷ c_str (text "baggage: " ++ format_baggage order (slot w.host p))
      ∷ [])

-- The call of `setopt` with `YAR_OPT_HEADER`.
unfoldable pub yar_headers : World → (Baggage → Baggage) → ℕ → ℕ → Globals → Option Globals
unfolding trace_headers
yar_headers w order now i g = do
  headers ← trace_headers w order now i g
  some (do_effect (set_headers headers) g)

-- The loop over the arguments: the text of the call, and the attributes.
unfoldable pub yar_arguments : ℕ → List Zval → Bytes → List KeyValue → Bytes × List KeyValue
yar_arguments i [] command attributes = (command, attributes)
yar_arguments i (array json ∷ args) command attributes =
    yar_arguments (suc i) args (command ++ json) attributes
yar_arguments i (string s ∷ args) command attributes =
    yar_arguments (suc i) args (command ++ lower (c_str s) ++ text " ")
      (if i == 1 then set_string_attribute attributes (text "rpc.method") (c_str s) else attributes)
yar_arguments i (scalar s ∷ args) command attributes =
    yar_arguments (suc i) args (command ++ lower (c_str s) ++ text " ") attributes

abbrev yar_service : Option Bytes → List KeyValue → List KeyValue
yar_service none attributes = attributes
yar_service (some uri) attributes = set_string_attribute attributes (text "rpc.service") (c_str uri)

abbrev yar_call : Option Bytes → Bytes × List KeyValue → List KeyValue
yar_call uri (command, attributes) =
    if is_empty command
    then attributes
    else yar_service uri (set_statement (text "rpc.call") command attributes)

-- `uri` is the property `_uri` of the client, if it has it.
unfoldable pub yar_client_attributes : Option Bytes → Call → List KeyValue
unfolding yar_arguments set_statement
yar_client_attributes uri c = yar_call uri (
    yar_arguments 1 c.args []
      (set_string_attribute (add_stacktrace c.callers []) (text "rpc.system") (text "yar")))

abbrev pub yar_client_run :
    World → (Baggage → Baggage) → ℕ → Call → Run → Option ℕ → Globals → Option Globals
yar_client_run w order now c run none g =
    run_original run g.engine.yar_client_class.originals (command_name c) g
yar_client_run w order now c run (some i) g = do
  h ← yar_headers w order now i g
  run_original run h.engine.yar_client_class.originals (command_name c) h

-- `opentelemetry_yar_client_handler`; the headers are formatted at the time `sent`.
unfoldable pub yar_client_handler :
    World
    → Fresh
    → ℕ
    → ℕ
    → (Baggage → Baggage)
    → Option Bytes
    → Call
    → Run
    → Globals
    → Option Globals
unfolding yar_client_attributes yar_headers
yar_client_handler w fresh sent now order uri c run g =
    around w fresh (span_name c) kind_client (some (yar_client_attributes uri c))
      (yar_client_run w order sent c run) (ok_end now) g

-- `rpc.system` is set with a provider and without one, through a pointer that without one has no
-- value.
abbrev pub yar_server_run : Call → Run → Option ℕ → Globals → Option Globals
yar_server_run c run none g = none
yar_server_run c run (some i) g =
    run_original run g.engine.yar_server_class.originals (command_name c) g

-- `opentelemetry_yar_server_handler`.
unfoldable pub yar_server_handler : World → Fresh → ℕ → Call → Run → Globals → Option Globals
yar_server_handler w fresh now c run g =
    around w fresh (span_name c) kind_server
      (some (set_string_attribute (add_stacktrace c.callers []) (text "rpc.system") (text "yar")))
      (yar_server_run c run) (ok_end now) g
