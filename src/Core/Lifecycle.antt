-- ===== src/Core/Lifecycle.antt =====
-- src/core.cc: the end of a trace, and the entry points of the module (opentelemetry.cc).
use opentelemetry_php_ext.Common.{
  ℕ, Bool, false, not, ◌&&◌, ◌||◌, List, [], ◌∷◌, ◌++◌, Option, none, some, if◌then◌else◌, ◌>>=◌,
}
use opentelemetry_php_ext.Span.{Request, kind_server}
use opentelemetry_php_ext.Provider.{Provider, slot, set_slot}
use opentelemetry_php_ext.Provider.State.{
  Slot, Settings, Fresh, ResourcePtr, null, own, in_request, get_tracer,
}
use opentelemetry_php_ext.Provider.Finish.{ok_end, is_sampled}
use opentelemetry_php_ext.Hooks.{register_zend_hook, unregister_zend_hook}
use opentelemetry_php_ext.Core.Globals.{Globals, World, Effect, send}
use opentelemetry_php_ext.Core.Consumers.{init_consumers, clean_consumers, queue_name}
use opentelemetry_php_ext.Core.Tracer.{start_tracer, clean_provider}

-- The times that are read when a trace ends: for the end of the first span, and for the duration.
pub record Times : Type 0 where
  pub ended : ℕ
  pub checked : ℕ

-- `set_allocated_resource(getResource())`; a resource that the request owns already would be freed
-- under its own pointer.
give : Slot → Request → ResourcePtr → Option Slot
give t r null = some (record t { request = some (record r { resource = none }) })
give t r (own x) =
    some (record t { request = some (record r { resource = some x }); resource = in_request })
give t r in_request = none

unfoldable pub give_resource : Settings → Slot → Option Slot
unfolding give get_tracer
give_resource s t = do let t' = get_tracer s t; r ← t'.request; give t' r t'.resource

-- `exporterOpenTelemetry`: a queue that is full or gone only leaves a line in the log.
unfoldable pub export_request : World → Slot → Option (List Effect)
export_request w t = do r ← t.request; some (if w.queue_takes r then send r ∷ [] else [])

-- The requests that leave, if the trace is collected and sampled.
unfoldable pub report : World → Globals → ℕ → Slot → Option (List Effect)
unfolding is_sampled export_request
report w g now t =
    if g.enable_collect
    then (is_sampled g.settings now t >>= λ sampled.
        (if sampled then export_request w t else some []))
    else some []

-- The end of the first span `i`.
unfoldable pub finish_trace : World → Globals → Times → ℕ → Slot → Option (Slot × List Effect)
unfolding ok_end give_resource report
finish_trace w g times i t = do
  ended ← ok_end times.ended i t
  given ← give_resource g.settings ended
  sent ← report w g times.checked given
  some (given, sent)

-- After the reports the provider is cleaned, and on the command line it goes.
unfoldable pub dispose : World → Provider → Option Provider
unfolding clean_provider
dispose w p = let cleaned = clean_provider w.host p in if w.host.is_cli then none else some cleaned

abbrev pub close_trace : World → Globals → Times → Provider → Option ℕ → Option Globals
close_trace w g times p none = some g
close_trace w g times p (some i) = do
  done ← finish_trace w g times i (slot w.host p)
  some (record g { provider = dispose w (set_slot w.host done.0 p); effects = g.effects ++ done.1 })

-- `zval_dtor(curl_header)` and the flag of the command line.
abbrev pub stopped : Globals → Globals
stopped g = record g { is_started_cli_tracer = false; curl_header = [] }

unfoldable pub shutdown_tracer : World → Times → Globals → Option Globals
unfolding finish_trace dispose slot set_slot
shutdown_tracer w times g =
    if w.host.is_cli && (not g.cli_enable || not g.is_started_cli_tracer)
    then some (record g { is_started_cli_tracer = false })
    else (do
      p ← g.provider
      closed ← close_trace w g times p (slot w.host p).first_span
      some (stopped closed))

-- Disabled, or on the command line without leave.
unfoldable pub is_off : World → Globals → Bool
is_off w g = not g.enable || (w.host.is_cli && not g.cli_enable)

-- The making of the log's directory is left out.
unfoldable pub module_init : World → Globals → Globals
unfolding is_off init_consumers register_zend_hook
module_init w g =
    if is_off w g
    then g
    else let named = record g {
      message_queue_name = queue_name g;
      settings = record (g.settings) { hostname = w.hostname; ipv4 = w.machine_ip };
    } in
      let ready = if not w.host.is_cli then init_consumers w named else named in
      record ready { engine = register_zend_hook ready.enabled ready.engine }

unfoldable pub module_shutdown : World → Globals → Globals
unfolding is_off clean_consumers unregister_zend_hook
module_shutdown w g =
    if is_off w g
    then g
    else let cleaned =
        if g.enable && (w.host.is_cli && (g.cli_enable && g.is_init_consumers))
        then clean_consumers g
        else g in
      record cleaned { engine = unregister_zend_hook cleaned.enabled cleaned.engine }

unfoldable pub request_init : World → Fresh → Globals → Option Globals
unfolding start_tracer
request_init w fresh g =
    if not g.enable || w.host.is_cli then some g else start_tracer w fresh [] [] kind_server g

unfoldable pub request_shutdown : World → Times → Globals → Option Globals
unfolding shutdown_tracer
request_shutdown w times g =
    if not g.enable || w.host.is_cli then some g else shutdown_tracer w times g
