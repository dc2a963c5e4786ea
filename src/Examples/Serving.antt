-- ===== src/Examples/Serving.antt =====
-- Tests: whole web requests (src/core.cc with the hooks).
use opentelemetry_php_ext.Common.{
  inl, inr, c_str, ℕ, ◌≡◌, refl, true, false, [], ◌∷◌, Option, none, some, text, bytes_eq,
  if◌then◌else◌,
}
use opentelemetry_php_ext.Text.Explode.{implode}
use opentelemetry_php_ext.Provider.Propagation.{fields}
use opentelemetry_php_ext.Hooks.Registry.{Group, hook}
use opentelemetry_php_ext.Core.Globals.{Globals, World, find_server_string}
use opentelemetry_php_ext.Handlers.{Run}
use opentelemetry_php_ext.Handlers.Behaviours.{nothing-Behaves}
use opentelemetry_php_ext.Requests.{HookedCall, memcached, WebRequest}
use opentelemetry_php_ext.Requests.Carried.{IsRoot}
use opentelemetry_php_ext.Requests.Served.{IsServable, ServesAll}
use opentelemetry_php_ext.Core.Lifecycle.{module_init, module_shutdown}
use opentelemetry_php_ext.Core.Settled.{self-SameHooks}
use opentelemetry_php_ext.Hooks.Unregister.{IsRestored}
use opentelemetry_php_ext.Entry.{opentelemetry_module_entry, run_process}
use opentelemetry_php_ext.Entry.Process.{run_process-ServesAll}
use opentelemetry_php_ext.Examples.Data.{
  globals, world, web, fresh, first, times, trace_uuid-IsUuid, span_uuid-IsUuid, span_id-IsId,
}
use opentelemetry_php_ext.Examples.Hooked.{quiet, cache, cache_get}

-- A process that another one calls.
abbrev called : World
called = record world {
  server = λ key.
      if bytes_eq key (text "HTTP_TRACEPARENT")
      then some (implode (text "-") (fields first true))
      else none;
}

abbrev reading : HookedCall
reading = record { fresh = fresh; now = 9; entry = memcached (λ host. false) cache cache_get }

abbrev request : WebRequest
request = record { world = called; fresh = fresh; times = times; script = reading ∷ reading ∷ [] }

carried :
    find_server_string called (text "HTTP_TRACEPARENT") ≡ implode (text "-") (fields first true)
unfolding find_server_string c_str
carried = refl

request-IsServable : IsServable web quiet request
request-IsServable = record {
  same_host = refl;
  readable = inl (first, true, trace_uuid-IsUuid, span_id-IsId, carried);
  trace_uuid = trace_uuid-IsUuid;
  span_uuid = span_uuid-IsUuid;
  runnable = ((span_uuid-IsUuid, tt), ((span_uuid-IsUuid, tt), tt));
  behaves = λ h. nothing-Behaves called;
}

-- The same request without a header.
abbrev root : WebRequest
root = record request { world = world }

no_header : IsRoot world
unfolding find_server_string c_str
no_header = refl

root-IsServable : IsServable web quiet root
root-IsServable = record {
  same_host = refl;
  readable = inr no_header;
  trace_uuid = trace_uuid-IsUuid;
  span_uuid = span_uuid-IsUuid;
  runnable = ((span_uuid-IsUuid, tt), ((span_uuid-IsUuid, tt), tt));
  behaves = λ h. nothing-Behaves world;
}

-- Every function of PHP calls a method of Redis, whose handler reads from Memcached, and so on.
abbrev calling_back : Run → ℕ → Globals → Option Globals
calling_back run n g = run (hook Group.redis) g

run_process-ServesAll_example :
    (m : Globals) × ServesAll quiet (request ∷ root ∷ []) (module_init called globals) m
    × (run_process opentelemetry_module_entry quiet called (request ∷ root ∷ []) globals
        ≡ some (module_shutdown called m))
    × IsRestored globals.engine (module_shutdown called m).engine
run_process-ServesAll_example =
    run_process-ServesAll called quiet (request ∷ root ∷ []) globals refl refl refl refl
      (λ h g. self-SameHooks g) (request-IsServable, (root-IsServable, tt))
