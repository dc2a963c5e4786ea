-- ===== src/Requests/Served.antt =====
-- src/core.cc with the hooks: what is left of the web requests that a process serves.
use mathlib.Core.Path.{subst}
use opentelemetry_php_ext.Common.{
  ◌⊎◌, ◌==◌, ℕ, ◌≡◌, refl, sym, ap, ◌∙◌, false, not, ◌&&◌, ◌||◌, List, [], ◌∷◌, ◌++◌, some, ◌>>=◌,
  All, suc, ◌<◌, length, set, arith,
}
use opentelemetry_php_ext.Span.{Span, kind_server}
use opentelemetry_php_ext.Provider.{Host, Provider, slot}
use opentelemetry_php_ext.Provider.State.{Slot}
use opentelemetry_php_ext.Provider.Endings.{IsTidy, get_elem?-set_ne}
use opentelemetry_php_ext.Provider.Traces.{IsOpen, IsUuid}
use opentelemetry_php_ext.Core.Globals.{Globals, World}
use opentelemetry_php_ext.Core.Tracer.{start_tracer, is_idle_cli, or_new}
use opentelemetry_php_ext.Core.Lifecycle.{Times, shutdown_tracer}
use opentelemetry_php_ext.Provider.TraceParent.{magnitude}
use opentelemetry_php_ext.Core.Settled.{SameHooks, some-Always}
use opentelemetry_php_ext.Handlers.Settled.{AllSettle}
use opentelemetry_php_ext.Core.Starts.{IsLive, HasResource}
use opentelemetry_php_ext.Core.Reports.{reports, delivered, last_first}
use opentelemetry_php_ext.Core.Cycles.{IdleIn, shutdown_tracer-IsLive}
use opentelemetry_php_ext.Core.Traces.{start_tracer-IsLive, IdleIn-IsTidy}
use opentelemetry_php_ext.Handlers.{Run}
use opentelemetry_php_ext.Handlers.Traced.{index-length}
use opentelemetry_php_ext.Handlers.Behaviours.{AllBehave}
use opentelemetry_php_ext.Requests.Children.{
  IsRunnable, HasChildren, no_call, untraced, has_child, HasChildren-le, same-HasChildren, Ran,
}
use opentelemetry_php_ext.Requests.Spans.{run_script-Ran}
use opentelemetry_php_ext.Requests.Carried.{CarriesParent, IsRoot, HasRatio, served-IsReadable}
use opentelemetry_php_ext.Requests.Settled.{serve-Settles}
use opentelemetry_php_ext.Requests.{HookedCall, run_script, WebRequest, serve, serve_all}

-- A web request of a process, on methods of PHP that return and keep the request.
pub record IsServable (h : Host) (run : Run) (r : WebRequest) : Type 0 where
  pub same_host : r.world.host ≡ h
  pub readable : CarriesParent r.world ⊎ IsRoot r.world
  pub trace_uuid : IsUuid r.fresh.trace_uuid
  pub span_uuid : IsUuid r.fresh.span_uuid
  pub runnable : All IsRunnable r.script
  pub behaves : AllBehave r.world run

-- A web request ran its script on a trace that was under way, and its shutdown then sent what the
-- trace reports, and nothing else. The request that is reported, if it is collected, sampled or slow,
-- and taken by the queue, holds behind the first span a span for each traced call of the script, in
-- their order: under the first span, with the id and the start that the call drew, and ended at the
-- time of the call's end. No request, first span, flag, baggage or exception of Redis is left.
pub record Serves (run : Run) (r : WebRequest) (g : Globals) (q : Globals) : Type 0 where
  pub ran : Globals
  pub provider : Provider
  pub live : IsLive (slot r.world.host provider)
  pub script_ran :
      (start_tracer r.world r.fresh [] [] kind_server g >>= run_script r.world run r.script)
      ≡ some ran
  pub served : serve run r g ≡ some q
  pub sent :
      q.effects ≡ ran.effects ++ reports r.world ran r.times (slot r.world.host provider) live
  pub children :
      HasChildren r.world live.is_open.first
        (delivered r.world ran r.times (slot r.world.host provider) live).spans
        1
        r.script
  pub idle : IdleIn r.world.host q.provider
  pub tidy : IsTidy (slot r.world.host (or_new q.provider))

-- The end of the first span leaves those behind it.
set-HasChildren :
    (w : World) (first y : Span) (spans : List Span) (index n : ℕ) (script : List HookedCall)
    → index < n
    → HasChildren w first spans n script
    → HasChildren w first (set spans index y) n script
set-HasChildren w first y spans index _ _ low (no_call n) = no_call n
set-HasChildren w first y spans index _ _ low (untraced n h rest e c) =
    untraced n h rest e (set-HasChildren w first y spans index n rest low c)
set-HasChildren w first y spans index _ _ low (has_child n i h rest e le (x, at, a, b, d, f, k) c) =
    has_child n i h rest e le
      (x, get_elem?-set_ne spans index i y (λ same. omega arith) ∙ at, a, b, d, f, k)
      (set-HasChildren w first y spans index (suc i) rest (omega arith) c)

module _ (w : World) (ran : Globals) (times : Times) (script : List HookedCall) (t u : Slot)
    (o : IsOpen t) (l : Ran w script t o u) (res : HasResource u) where
  -- The trace after its script.
  abbrev live_after : IsLive u
  live_after = record { is_open = l.keeps.after; has_resource = res }

  first_below : o.index < length o.request.spans
  first_below = index-length o.request.spans o.index o.first o.at_index

  children_delivered :
      HasChildren w l.keeps.after.first (delivered w ran times u live_after).spans 1 script
  children_delivered =
      let low = first_below in
      let same : l.keeps.after.index ≡ o.index = l.keeps.same_index in
      HasChildren-le w l.keeps.after.first (delivered w ran times u live_after).spans 1
        (length o.request.spans) script (omega arith)
        (same-HasChildren w l.keeps.after.first o.first (delivered w ran times u live_after).spans
          (length o.request.spans) script (sym l.keeps.same_trace) (sym l.keeps.same_span)
          (set-HasChildren w o.first (last_first w ran times u live_after)
            l.keeps.after.request.spans l.keeps.after.index (length o.request.spans) script
            (omega arith) l.children))

same-HasResource : (t q : Slot) → q.resource ≡ t.resource → HasResource t → HasResource q
same-HasResource t q same (x, e) = (x, same ∙ e)

serve-Serves :
    (run : Run) (r : WebRequest) (g : Globals)
    → r.world.host.is_cli ≡ false
    → IsServable r.world.host run r
    → HasRatio g
    → IsTidy (slot r.world.host (or_new g.provider))
    → (q : Globals) × Serves run r g q
unfolding serve is_idle_cli
serve-Serves run r g web h ratio tidy =
    let w = r.world in
    let asked : is_idle_cli w g ≡ false = rw web refl in
    let readable = served-IsReadable w g r.fresh web h.readable ratio h.trace_uuid h.span_uuid in
    let (mid, p, started, has, _, _, live) =
      start_tracer-IsLive w g r.fresh [] [] kind_server asked tidy h.trace_uuid h.span_uuid
        readable in
    let (ran, p2, t2, runs, has2, is_slot2, left) =
      run_script-Ran w run h.behaves r.script h.runnable mid p (slot w.host p) has refl
        live.is_open in
    let l : Ran w r.script (slot w.host p) live.is_open (slot w.host p2) =
      subst (λ x. Ran w r.script (slot w.host p) live.is_open x) (sym is_slot2) left in
    let res =
      same-HasResource (slot w.host p) (slot w.host p2) l.keeps.same_resource live.has_resource in
    let live2 =
      live_after w ran r.times r.script (slot w.host p) (slot w.host p2) live.is_open l res in
    let busy : (w.host.is_cli && (not ran.cli_enable || not ran.is_started_cli_tracer)) ≡ false =
      ap (λ b. b && (not ran.cli_enable || not ran.is_started_cli_tracer)) web in
    let (q, done, sent, _, _, idle) = shutdown_tracer-IsLive w ran r.times p2 live2 busy has2 in
    let both : (start_tracer w r.fresh [] [] kind_server g >>= run_script w run r.script)
        ≡ some ran =
      ap (λ m. m >>= run_script w run r.script) started ∙ runs in
    (
      q,
      record {
        ran = ran;
        provider = p2;
        live = live2;
        script_ran = both;
        served =
            ap (λ m. m >>= λ x. run_script w run r.script x >>= shutdown_tracer w r.times) started
            ∙ ap (λ m. m >>= shutdown_tracer w r.times) runs
            ∙ done;
        sent = sent;
        children =
            children_delivered w ran r.times r.script (slot w.host p) (slot w.host p2) live.is_open
              l res;
        idle = idle;
        tidy = IdleIn-IsTidy w.host q.provider idle;
      },
    )

-- What one web request after another leaves.
pub data ServesAll (run : Run) : List WebRequest → Globals → Globals → Type 0 where
  served_none : (g : Globals) → ServesAll run [] g g
  served_next :
      (r : WebRequest) (requests : List WebRequest) (g m q : Globals)
      → Serves run r g m
      → ServesAll run requests m q
      → ServesAll run (r ∷ requests) g q

pub serve_all-ServesAll :
    (h : Host) (run : Run) (requests : List WebRequest) (g : Globals)
    → h.is_cli ≡ false
    → AllSettle run
    → All (IsServable h run) requests
    → HasRatio g
    → IsTidy (slot h (or_new g.provider))
    → (q : Globals) × (serve_all run requests g ≡ some q)
      × ServesAll run requests g q
      × IsTidy (slot h (or_new q.provider))
unfolding serve_all
serve_all-ServesAll h run [] g web settles ok ratio tidy = (g, refl, served_none g, tidy)
serve_all-ServesAll h run (r ∷ requests) g web settles (servable, ok) ratio tidy =
    let same = servable.same_host in
    let (m, s) =
      serve-Serves run r g (ap (λ x. x.is_cli) same ∙ web)
        (subst (λ x. IsServable x run r) (sym same) servable) ratio
        (subst (λ x. IsTidy (slot x (or_new g.provider))) (sym same) tidy) in
    let (_, _, _, _, same_ratio) =
      some-Always (SameHooks g) (serve run r g) m (serve-Settles run settles r g) s.served in
    let (q, e, rest, left) =
      serve_all-ServesAll h run requests m web settles ok
        (ap (λ x. magnitude x == 0) same_ratio ∙ ratio)
        (subst (λ x. IsTidy (slot x (or_new m.provider))) same s.tidy) in
    (
      q,
      ap (λ x. x >>= serve_all run requests) s.served ∙ e,
      served_next r requests g m q s rest,
      left,
    )
