-- ===== src/Examples/Scripts.antt =====
-- Tests of the functions for PHP: src/sdk.cc.
use opentelemetry_php_ext.Common.{◌≡◌, refl, true, false, [], ◌∷◌, none, some, arith, text, c_str}
use opentelemetry_php_ext.Provider.{slot, count}
use opentelemetry_php_ext.Provider.State.{empty_slot}
use opentelemetry_php_ext.Provider.Endings.{IsTidy}
use opentelemetry_php_ext.Provider.Sampling.{parse-empty_ratio}
use opentelemetry_php_ext.Provider.Traces.{opened}
use opentelemetry_php_ext.Core.Globals.{Globals, World, is_has_provider}
use opentelemetry_php_ext.Core.Tracer.{or_new, begin, prepare}
use opentelemetry_php_ext.Core.Traces.{IsReadable}
use opentelemetry_php_ext.Sdk.{
  CliArguments, SpanArguments, opentelemetry_start_cli_tracer, opentelemetry_shutdown_cli_tracer,
}
use opentelemetry_php_ext.Sdk.Attributes.{string}
use opentelemetry_php_ext.Sdk.Scripts.{marked, shutdown_cli_tracer-start_cli_tracer}
use opentelemetry_php_ext.Examples.Data.{
  settings, globals, world, cli, times, fresh, trace_uuid-IsUuid, span_uuid-IsUuid,
}

abbrev arguments : SpanArguments
arguments = record {
  name = text "job";
  kind = 3;
  start_time_unix_nano = 5500000;
  status_code = 2;
  status_message = text "late";
  attributes = (some (text "k"), some (string (text "v"))) ∷ [];
}

abbrev cli_world : World
cli_world = record world { host = cli }

abbrev idle : Globals
idle = record globals { is_started_cli_tracer = false }

abbrev cli_arguments : CliArguments
cli_arguments = record { traceparent = none; baggage = some (text "a=b"); kind = 0 }

IsTidy-idle : IsTidy (slot cli (or_new idle.provider))
unfolding slot or_new
IsTidy-idle = (refl, refl, refl, refl)

readable_script : IsReadable cli_world (marked idle) fresh [] (text "a=b") 0
unfolding prepare begin count
readable_script = (
  opened settings fresh [] 1 empty_slot,
  parse-empty_ratio settings 2 1 (opened settings fresh [] 1 empty_slot) refl (omega arith),
)

shutdown_cli_tracer-start_cli_tracer_example :
    (mid q : Globals) × (opentelemetry_start_cli_tracer cli_world fresh (some cli_arguments) idle
      ≡ some (true, mid))
    × (opentelemetry_shutdown_cli_tracer cli_world times mid ≡ some (true, q))
    × (q.is_started_cli_tracer ≡ false)
    × (is_has_provider q ≡ false)
unfolding c_str
shutdown_cli_tracer-start_cli_tracer_example =
    shutdown_cli_tracer-start_cli_tracer cli_world fresh times cli_arguments idle refl refl refl
      IsTidy-idle trace_uuid-IsUuid span_uuid-IsUuid readable_script
