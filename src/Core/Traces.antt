-- ===== src/Core/Traces.antt =====
-- src/core.cc: a whole trace, from `start_tracer` to `shutdown_tracer`.
use mathlib.Core.Path.{subst}
use opentelemetry_php_ext.Common.{
  ℕ, ◌≡◌, refl, sym, ap, ◌∙◌, Bool, true, false, not, ◌&&◌, ◌||◌, [], Option, none, some, Bytes,
  ◌>>=◌, inl, inr, Bool-cases,
}
use opentelemetry_php_ext.Provider.{Host, Provider, slot, set_slot, change_slot, increase, count}
use opentelemetry_php_ext.Provider.State.{Slot, Fresh}
use opentelemetry_php_ext.Provider.Finish.{clean}
use opentelemetry_php_ext.Provider.TraceParent.{parse_trace_parent}
use opentelemetry_php_ext.Provider.Isolation.{slot-set_slot}
use opentelemetry_php_ext.Provider.Endings.{IsTidy, clean-IsTidy}
use opentelemetry_php_ext.Provider.Traces.{IsUuid, opened}
use opentelemetry_php_ext.Core.Globals.{Globals, World, change_provider}
use opentelemetry_php_ext.Core.Tracer.{
  Start, start_tracer, start_trace, prepare, begin, is_idle_cli, clean_provider, trace_in, or_new,
  name_service,
}
use opentelemetry_php_ext.Core.Consumers.{init_consumers}
use opentelemetry_php_ext.Core.Lifecycle.{Times, shutdown_tracer}
use opentelemetry_php_ext.Core.Starts.{IsLive, start_trace-IsLive}
use opentelemetry_php_ext.Core.Preserved.{init_consumers-SameTracer, name_service-SameTracer}
use opentelemetry_php_ext.Core.Cycles.{IdleIn, shutdown_tracer-IsLive}

-- The provider that a trace starts on.
abbrev pub first_provider : World → Globals → Provider
first_provider w g = increase (clean_provider w.host (or_new g.provider))

slot-increase : (h : Host) (p : Provider) → slot h (increase p) ≡ slot h p
unfolding increase slot
slot-increase h p = refl

prepare_lem :
    (w : World) (g : Globals)
    → ((prepare w g).provider ≡ some (first_provider w g))
      × ((prepare w g).cli_enable ≡ g.cli_enable)
      × ((prepare w g).is_started_cli_tracer ≡ g.is_started_cli_tracer)
unfolding prepare name_service
prepare_lem w g =
    let g1 = init_consumers w g in
    let (a, c, d, _, _, _, _) = init_consumers-SameTracer w g in
    let p = increase (clean_provider w.host (or_new g1.provider)) in
    let g2 = record g1 { provider = some p; curl_header = [] } in
    let (a', c', d', _, _, _, _) = name_service-SameTracer w g2 in
    (a' ∙ ap (λ x. some (increase (clean_provider w.host (or_new x)))) a, c' ∙ c, d' ∙ d)

first_provider-slot :
    (w : World) (g : Globals)
    → slot w.host (first_provider w g) ≡ clean w.host.is_cli (slot w.host (or_new g.provider))
unfolding clean_provider
first_provider-slot w g =
    slot-increase w.host (clean_provider w.host (or_new g.provider))
    ∙ slot-set_slot w.host _ (or_new g.provider)

module _ (w : World) (g : Globals) (fresh : Fresh) (traceparent tracebaggage : Bytes)
    (kind : ℕ) where
  -- What the trace starts with.
  abbrev pub start : Start
  start = begin w (prepare w g) traceparent tracebaggage kind

  -- The clean process in which it starts.
  abbrev pub before : Slot
  before = clean w.host.is_cli (slot w.host (or_new g.provider))

  -- Reading the header does not fault.
  abbrev pub IsReadable : Type 0
  IsReadable =
      (q : Slot) × (parse_trace_parent (prepare w g).settings (count (first_provider w g))
          start.traceparent (opened (prepare w g).settings fresh start.uri start.kind before)
        ≡ some q)

  trace_in_lem :
      (b : Start) (x : Globals) (p : Provider) (t : Slot)
      → x.provider ≡ some p
      → start_trace x.settings (count p) fresh b (slot w.host p) ≡ some t
      → trace_in w x fresh b x ≡ some (record x { provider = some (set_slot w.host t p) })
  unfolding change_provider change_slot
  trace_in_lem b x p t has made = rw (has, made)

  -- On a process that was left tidy, a start that is asked for and whose header can be read returns,
  -- with a trace under way in a provider that belongs to the process.
  pub start_tracer-IsLive :
      is_idle_cli w g ≡ false
      → IsTidy (slot w.host (or_new g.provider))
      → IsUuid fresh.trace_uuid
      → IsUuid fresh.span_uuid
      → IsReadable
      → (q : Globals) × (p : Provider) × (start_tracer w fresh traceparent tracebaggage kind g
          ≡ some q)
        × (q.provider ≡ some p)
        × (q.cli_enable ≡ g.cli_enable)
        × (q.is_started_cli_tracer ≡ g.is_started_cli_tracer)
        × IsLive (slot w.host p)
  unfolding start_tracer
  start_tracer-IsLive asked tidy u v (adopted, e) =
      let (no_request, no_first, _, _, _) =
        clean-IsTidy w.host.is_cli (slot w.host (or_new g.provider)) tidy in
      let ready = prepare w g in
      let (t, made, live, _) =
        start_trace-IsLive ready.settings (count (first_provider w g)) fresh start before no_request
          no_first u adopted v e in
      let (has, same_enable, same_started) = prepare_lem w g in
      let q = set_slot w.host t (first_provider w g) in
      (
        record ready { provider = some q },
        q,
        rw asked (
            trace_in_lem start ready (first_provider w g) t has (
              ap (start_trace ready.settings (count (first_provider w g)) fresh start)
                (first_provider-slot w g)
              ∙ made)),
        refl,
        same_enable,
        same_started,
        subst (λ x. IsLive x) (sym (slot-set_slot w.host t (first_provider w g))) live,
      )

-- What `start_tracer` lets through, `shutdown_tracer` does not stop.
asked-busy :
    (cli enable started : Bool)
    → ((cli && not enable) || (cli && (enable && not started))) ≡ false
    → (cli && (not enable || not started)) ≡ false
asked-busy true true true h = refl
asked-busy true true false h = cc
asked-busy true false started h = cc
asked-busy false enable started h = refl

-- A provider that stays is tidy, and so is a new one.
pub IdleIn-IsTidy : (h : Host) (p : Option Provider) → IdleIn h p → IsTidy (slot h (or_new p))
unfolding or_new slot
IdleIn-IsTidy h none i = elim (Bool-cases h.is_cli) [
  | inl e ↦ rw e (refl, refl, refl, refl)
  | inr e ↦ rw e (refl, refl, refl, refl)
]
IdleIn-IsTidy h (some p) i =
    rw (i.no_request) (i.no_first, i.not_sampled, i.no_baggage, i.no_exception)

-- A whole trace on a process that was left tidy returns, if it is asked for and its header can be
-- read: then the provider is gone, or the process has no request and no first span, is not sampled, and
-- has neither baggage nor an exception of Redis; the command line's flag is down, and the process is
-- tidy for the next trace.
pub whole_trace :
    (w : World) (g : Globals) (fresh : Fresh) (times : Times) (traceparent tracebaggage : Bytes)
    (kind : ℕ)
    → is_idle_cli w g ≡ false
    → IsTidy (slot w.host (or_new g.provider))
    → IsUuid fresh.trace_uuid
    → IsUuid fresh.span_uuid
    → IsReadable w g fresh traceparent tracebaggage kind
    → (q : Globals) × ((start_tracer w fresh traceparent tracebaggage kind g
          >>= shutdown_tracer w times)
        ≡ some q)
      × (q.is_started_cli_tracer ≡ false)
      × IdleIn w.host q.provider
      × IsTidy (slot w.host (or_new q.provider))
unfolding is_idle_cli
whole_trace w g fresh times traceparent tracebaggage kind asked tidy u v readable =
    let (mid, p, started, has, same_enable, same_started, live) =
      start_tracer-IsLive w g fresh traceparent tracebaggage kind asked tidy u v readable in
    let busy = asked-busy w.host.is_cli g.cli_enable g.is_started_cli_tracer asked in
    let busy' : (w.host.is_cli && (not mid.cli_enable || not mid.is_started_cli_tracer)) ≡ false =
      rw (same_enable, same_started) busy in
    let (q, done, _, down, _, idle) = shutdown_tracer-IsLive w mid times p live busy' has in
    (
      q,
      ap (λ r. r >>= shutdown_tracer w times) started ∙ done,
      down,
      idle,
      IdleIn-IsTidy w.host q.provider idle,
    )
