-- ===== src/Examples/Tracing.antt =====
-- Tests of whole traces: src/core.cc.
use opentelemetry_php_ext.Common.{◌≡◌, refl, false, [], some, arith, text, ◌>>=◌}
use opentelemetry_php_ext.Provider.{slot, count}
use opentelemetry_php_ext.Provider.State.{empty_slot}
use opentelemetry_php_ext.Provider.Endings.{IsTidy}
use opentelemetry_php_ext.Provider.Sampling.{parse-empty_ratio}
use opentelemetry_php_ext.Provider.Traces.{opened}
use opentelemetry_php_ext.Core.Globals.{Globals}
use opentelemetry_php_ext.Core.Tracer.{Start, start_tracer, or_new, is_idle_cli, begin, prepare}
use opentelemetry_php_ext.Core.Lifecycle.{shutdown_tracer}
use opentelemetry_php_ext.Core.Starts.{IsLive}
use opentelemetry_php_ext.Core.Cycles.{IdleIn}
use opentelemetry_php_ext.Core.Traces.{IsReadable, whole_trace}
use opentelemetry_php_ext.Examples.Data.{
  settings, web, globals, world, times, provider, running_live, fresh, trace_uuid-IsUuid,
  span_uuid-IsUuid,
}

abbrev traced : Globals
traced = record globals { provider = some provider }

slot_provider-IsLive : IsLive (slot web provider)
unfolding slot
slot_provider-IsLive = running_live

abbrev beginning : Start
beginning = record {
  uri = text "/";
  kind = 2;
  traceparent = [];
  tracebaggage = text "a=b";
  attributes = λ a. a;
}

not_idle : is_idle_cli world globals ≡ false
unfolding is_idle_cli
not_idle = refl

IsTidy-start : IsTidy (slot world.host (or_new globals.provider))
unfolding slot or_new
IsTidy-start = (refl, refl, refl, refl)

readable_start : IsReadable world globals fresh [] [] 2
unfolding prepare begin count
readable_start = (
  opened settings fresh (text "/") 2 empty_slot,
  parse-empty_ratio settings 2 1 (opened settings fresh (text "/") 2 empty_slot) refl (omega arith),
)

whole_trace_example :
    (q : Globals) × ((start_tracer world fresh [] [] 2 globals >>= shutdown_tracer world times)
      ≡ some q)
    × (q.is_started_cli_tracer ≡ false)
    × IdleIn world.host q.provider
    × IsTidy (slot world.host (or_new q.provider))
whole_trace_example =
    whole_trace world globals fresh times [] [] 2 not_idle IsTidy-start trace_uuid-IsUuid
      span_uuid-IsUuid readable_start
