-- ===== src/Sdk/Scripts.antt =====
-- src/sdk.cc: a script on the command line that starts and ends its trace.
use opentelemetry_php_ext.Common.{◌≡◌, refl, sym, ap, ◌∙◌, Bool, true, false, not, ◌&&◌, ◌||◌, some}
use opentelemetry_php_ext.Provider.{slot}
use opentelemetry_php_ext.Provider.State.{Fresh}
use opentelemetry_php_ext.Provider.Endings.{IsTidy}
use opentelemetry_php_ext.Provider.Traces.{IsUuid}
use opentelemetry_php_ext.Core.Globals.{Globals, World, is_has_provider}
use opentelemetry_php_ext.Core.Tracer.{start_tracer, or_new, is_idle_cli}
use opentelemetry_php_ext.Core.Lifecycle.{Times, shutdown_tracer}
use opentelemetry_php_ext.Core.Cycles.{shutdown_tracer-IsLive}
use opentelemetry_php_ext.Core.Traces.{IsReadable, start_tracer-IsLive}
use opentelemetry_php_ext.Sdk.{
  CliArguments, text_of, opentelemetry_start_cli_tracer, opentelemetry_shutdown_cli_tracer,
}

-- The globals as the trace starts.
abbrev pub marked : Globals → Globals
marked g = record g { is_started_cli_tracer = true }

start_lem :
    (w : World) (fresh : Fresh) (a : CliArguments) (g q : Globals)
    → (not w.host.is_cli || (not g.cli_enable || g.is_started_cli_tracer)) ≡ false
    → start_tracer w fresh (text_of a.traceparent) (text_of a.baggage) a.kind (marked g) ≡ some q
    → opentelemetry_start_cli_tracer w fresh (some a) g ≡ some (true, q)
unfolding opentelemetry_start_cli_tracer
start_lem w fresh a g q pass started = rw (pass, started)

shutdown_lem :
    (w : World) (times : Times) (g q : Globals)
    → (not w.host.is_cli || (not g.cli_enable || not g.is_started_cli_tracer)) ≡ false
    → shutdown_tracer w times g ≡ some q
    → opentelemetry_shutdown_cli_tracer w times g ≡ some (true, q)
unfolding opentelemetry_shutdown_cli_tracer
shutdown_lem w times g q pass done = rw (pass, done)

-- The guards of a command line that is enabled.
open_guard : (c e s : Bool) → c ≡ true → e ≡ true → s ≡ false → (not c || (not e || s)) ≡ false
open_guard c e s hc he hs = rw (hc, he, hs)

idle_guard : (c e : Bool) → e ≡ true → ((c && not e) || (c && (e && not true))) ≡ false
idle_guard true e he = rw he
idle_guard false e he = refl

busy_guard : (c e s : Bool) → e ≡ true → s ≡ true → (c && (not e || not s)) ≡ false
busy_guard true e s he hs = rw (he, hs)
busy_guard false e s he hs = refl

-- On an enabled command line without a running trace, and on a process that was left tidy, a script
-- whose header can be read starts a trace and ends it, and both calls return true. Then no provider is
-- left, and the flag is down for the next start.
pub shutdown_cli_tracer-start_cli_tracer :
    (w : World) (fresh : Fresh) (times : Times) (a : CliArguments) (g : Globals)
    → w.host.is_cli ≡ true
    → g.cli_enable ≡ true
    → g.is_started_cli_tracer ≡ false
    → IsTidy (slot w.host (or_new g.provider))
    → IsUuid fresh.trace_uuid
    → IsUuid fresh.span_uuid
    → IsReadable w (marked g) fresh (text_of a.traceparent) (text_of a.baggage) a.kind
    → (mid q : Globals) × (opentelemetry_start_cli_tracer w fresh (some a) g ≡ some (true, mid))
      × (opentelemetry_shutdown_cli_tracer w times mid ≡ some (true, q))
      × (q.is_started_cli_tracer ≡ false)
      × (is_has_provider q ≡ false)
unfolding is_idle_cli
shutdown_cli_tracer-start_cli_tracer w fresh times a g cli enable stopped tidy u v readable =
    let asked = idle_guard w.host.is_cli g.cli_enable enable in
    let (mid, p, started, has, same_enable, same_started, live) =
      start_tracer-IsLive w (marked g) fresh (text_of a.traceparent) (text_of a.baggage) a.kind
        asked tidy u v readable in
    let enable' = same_enable ∙ enable in
    let busy =
      busy_guard w.host.is_cli mid.cli_enable mid.is_started_cli_tracer enable' same_started in
    let (q, done, _, down, gone, _) = shutdown_tracer-IsLive w mid times p live busy has in
    (
      mid,
      q,
      start_lem w fresh a g mid
          (open_guard w.host.is_cli g.cli_enable g.is_started_cli_tracer cli enable stopped)
          started,
      shutdown_lem w times mid q
          (open_guard w.host.is_cli mid.cli_enable (not mid.is_started_cli_tracer) cli enable'
            (ap not same_started))
          done,
      down,
      sym (ap (λ c. c && is_has_provider q) cli) ∙ gone,
    )
