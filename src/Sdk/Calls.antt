-- ===== src/Sdk/Calls.antt =====
-- src/sdk.cc: the calls without a provider, and the setting of the ratio.
use opentelemetry_php_ext.Common.{ℕ, suc, ◌≡◌, refl, false, List, [], Option, none, some, Bytes}
use opentelemetry_php_ext.Span.{ℤ, pos}
use opentelemetry_php_ext.Provider.State.{Fresh, Baggage}
use opentelemetry_php_ext.Core.Globals.{Globals, World, is_has_provider}
use opentelemetry_php_ext.Sdk.{
  SpanArguments, opentelemetry_get_traceparent, opentelemetry_get_baggage,
  opentelemetry_add_baggage, opentelemetry_set_sample_ratio_based, opentelemetry_add_span,
  opentelemetry_add_resource_attribute, opentelemetry_add_attribute, opentelemetry_add_event,
}
use opentelemetry_php_ext.Sdk.Attributes.{Zval}

-- Without a provider none of these calls faults or changes anything: the headers are empty, the ratio is not set,
-- and what adds something returns false, whatever the arguments.
pub calls_without_provider :
    (w : World) (fresh : Fresh) (now : ℕ) (order : Baggage → Baggage) (g : Globals)
    (pair : Option (Option Bytes × Option Bytes)) (ratio : Option ℤ) (span : Option SpanArguments)
    (attribute : Option (Bytes × Bytes)) (event : Option (Bytes × List (Option Bytes × Zval)))
    → g.provider ≡ none
    → (opentelemetry_get_traceparent w now g ≡ some [])
      × (opentelemetry_get_baggage order w g ≡ [])
      × (opentelemetry_add_baggage w pair g ≡ some (false, g))
      × (opentelemetry_set_sample_ratio_based w ratio g ≡ some g)
      × (opentelemetry_add_span w fresh now span g ≡ some (false, g))
      × (opentelemetry_add_resource_attribute w attribute g ≡ some (false, g))
      × (opentelemetry_add_attribute w attribute g ≡ some (false, g))
      × (opentelemetry_add_event w now event g ≡ some (false, g))
unfolding opentelemetry_get_traceparent opentelemetry_get_baggage opentelemetry_add_baggage
    opentelemetry_set_sample_ratio_based opentelemetry_add_span opentelemetry_add_resource_attribute
    opentelemetry_add_attribute opentelemetry_add_event is_has_provider
calls_without_provider w fresh now order g pair ratio span attribute event e =
    (rw e, rw e, rw e, rw e, rw e, rw e, rw e, rw e)

-- A ratio of 2 or more makes the call decide by the ratio of the settings, so that any two such
-- arguments do the same.
pub set_sample_ratio_ignores :
    (w : World) (g : Globals) (n m : ℕ)
    → opentelemetry_set_sample_ratio_based w (some (pos (suc (suc n)))) g
      ≡ opentelemetry_set_sample_ratio_based w (some (pos (suc (suc m)))) g
unfolding opentelemetry_set_sample_ratio_based
set_sample_ratio_ignores w g n m = refl
