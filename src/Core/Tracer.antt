-- ===== src/Core/Tracer.antt =====
-- src/core.cc: `start_tracer`, the start of a trace in this process.
use opentelemetry_php_ext.Common.{
  ℕ, ◌-◌, ◌==◌, Bool, true, false, not, ◌&&◌, ◌||◌, List, [], ◌∷◌, Option, none, some, Bytes, text,
  is_empty, if◌then◌else◌, ◌>>=◌,
}
use opentelemetry_php_ext.Text.{is_equal}
use opentelemetry_php_ext.Text.Decimal.{to_string, strtol}
use opentelemetry_php_ext.Span.{
  ℤ, pos, negsuc, KeyValue, kind_unspecified, kind_internal, set_string_attribute,
  set_int64_attribute,
}
use opentelemetry_php_ext.Provider.{
  Host, Provider, new_provider, slot, set_slot, change_slot, increase, count,
}
use opentelemetry_php_ext.Provider.State.{
  Slot, Settings, Fresh, span_at, set_span, create_first_span,
}
use opentelemetry_php_ext.Provider.Finish.{clean}
use opentelemetry_php_ext.Provider.TraceParent.{parse_trace_parent}
use opentelemetry_php_ext.Provider.Baggage.{parse_baggage}
use opentelemetry_php_ext.Core.Globals.{Globals, World, find_server_string, change_provider}
use opentelemetry_php_ext.Core.Consumers.{init_consumers}

-- What the two branches of `start_tracer` take from the request.
pub record Start : Type 0 where
  pub uri : Bytes
  pub kind : ℕ
  pub traceparent : Bytes
  pub tracebaggage : Bytes
  pub attributes : List KeyValue → List KeyValue

-- `request_uri` up to the first `?`.
unfoldable pub path_of : Bytes → Bytes
path_of [] = []
path_of (c ∷ s) = let rest = path_of s in if c == b'?' then [] else c ∷ rest

abbrev signed : ℕ × Bool → ℤ
signed (n, false) = pos n
signed (n, true) = if n == 0 then pos 0 else negsuc (n - 1)

-- The attributes of the first span on the command line.
unfoldable pub cli_attributes : World → Globals → List KeyValue → List KeyValue
unfolding find_server_string
cli_attributes w g a =
    let a1 =
      set_string_attribute a (text "process.executable.name")
        (find_server_string w (text "SCRIPT_NAME")) in
    let a2 = set_string_attribute a1 (text "process.command_args") w.argv_json in
    set_string_attribute a2 (text "process.pid") (to_string g.settings.pid)

abbrev add_params : Option Bytes → List KeyValue → List KeyValue
add_params none a = a
add_params (some post) a = set_string_attribute a (text "http.params") post

-- The attributes of the first span of a web request; the parameters of a POST are recorded.
unfoldable pub web_attributes : World → Globals → List KeyValue → List KeyValue
unfolding find_server_string is_equal strtol
web_attributes w g a =
    let method = find_server_string w (text "REQUEST_METHOD") in
    let a1 = set_string_attribute a (text "http.method") method in
    let a2 = if is_equal method (text "POST") then add_params w.post_json a1 else a1 in
    let a3 = set_string_attribute a2 (text "http.host") (find_server_string w (text "HTTP_HOST")) in
    let a4 =
      set_string_attribute a3 (text "http.target") (find_server_string w (text "REQUEST_URI")) in
    let a5 =
      set_string_attribute a4 (text "http.client_ip") (find_server_string w (text "REMOTE_ADDR")) in
    let a6 =
      set_string_attribute a5 (text "http.user_agent")
        (find_server_string w (text "HTTP_USER_AGENT")) in
    let a7 = set_string_attribute a6 (text "net.host.ip") g.settings.ipv4 in
    set_int64_attribute a7 (text "net.host.port")
      (signed (strtol (find_server_string w (text "SERVER_PORT"))))

-- On the command line the caller gives the header and the baggage, else the request does.
unfoldable pub begin : World → Globals → Bytes → Bytes → ℕ → Start
unfolding cli_attributes web_attributes path_of
begin w g traceparent tracebaggage kind =
    if w.host.is_cli
    then record {
      uri = find_server_string w (text "SCRIPT_NAME");
      kind = if kind == kind_unspecified then kind_internal else kind;
      traceparent = traceparent;
      tracebaggage = tracebaggage;
      attributes = cli_attributes w g;
    }
    else record {
      uri = path_of (find_server_string w (text "REQUEST_URI"));
      kind = kind;
      traceparent = find_server_string w (text "HTTP_TRACEPARENT");
      tracebaggage = find_server_string w (text "HTTP_BAGGAGE");
      attributes = web_attributes w g;
    }

-- The first span, the header, the baggage and the attributes, in that order.
unfoldable pub start_trace : Settings → ℕ → Fresh → Start → Slot → Option Slot
unfolding create_first_span parse_trace_parent parse_baggage
start_trace s count fresh b t = do
  created ← create_first_span s fresh b.uri b.kind t
  adopted ← parse_trace_parent s count b.traceparent created.1
  loaded ← parse_baggage b.tracebaggage adopted
  span ← span_at loaded (created.0)
  some (set_span loaded (created.0) (record span { attributes = b.attributes span.attributes }))

-- `new Provider()` if there is none.
unfoldable pub or_new : Option Provider → Provider
or_new none = new_provider
or_new (some p) = p

unfoldable pub clean_provider : Host → Provider → Provider
unfolding slot set_slot clean
clean_provider h p = set_slot h (clean h.is_cli (slot h p)) p

-- Outside the command line the default name of the service gives way to the server's.
unfoldable pub name_service : World → Globals → Globals
unfolding find_server_string
name_service w g =
    let name = find_server_string w g.service_name_key in
    if not w.host.is_cli
      && (is_equal g.settings.service_name (text "opentelemetry") && not (is_empty name))
    then record g { settings = record (g.settings) { service_name = name } }
    else g

-- The command line is traced only if that is enabled and has been asked for.
unfoldable pub is_idle_cli : World → Globals → Bool
is_idle_cli w g =
    (w.host.is_cli && not g.cli_enable)
    || (w.host.is_cli && (g.cli_enable && not g.is_started_cli_tracer))

-- The preparation: consumers, provider, counter, curl headers, name.
unfoldable pub prepare : World → Globals → Globals
unfolding init_consumers or_new clean_provider increase name_service
prepare w g =
    let g1 = init_consumers w g in
    let p = increase (clean_provider w.host (or_new g1.provider)) in
    name_service w (record g1 { provider = some p; curl_header = [] })

abbrev pub trace_in : World → Globals → Fresh → Start → Globals → Option Globals
trace_in w s fresh b =
    change_provider (λ p. change_slot w.host (start_trace s.settings (count p) fresh b) p)

unfoldable pub start_tracer : World → Fresh → Bytes → Bytes → ℕ → Globals → Option Globals
unfolding is_idle_cli prepare begin start_trace change_provider change_slot count
start_tracer w fresh traceparent tracebaggage kind g =
    if is_idle_cli w g
    then some g
    else let ready = prepare w g in
      trace_in w ready fresh (begin w ready traceparent tracebaggage kind) ready
