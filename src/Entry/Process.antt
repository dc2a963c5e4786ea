-- ===== src/Entry/Process.antt =====
-- opentelemetry.cc: whole processes outside the command line.
use mathlib.Core.Path.{subst}
use opentelemetry_php_ext.Common.{
  ◌==◌, ◌≡◌, refl, sym, ap, ◌∙◌, Bool, true, false, not, ◌||◌, if◌then◌else◌, List, [], ◌∷◌, Option,
  none, some, All, ◌>>=◌,
}
use opentelemetry_php_ext.Span.{kind_server}
use opentelemetry_php_ext.Provider.{slot}
use opentelemetry_php_ext.Provider.Endings.{IsTidy}
use opentelemetry_php_ext.Core.Globals.{Globals, World}
use opentelemetry_php_ext.Core.Tracer.{start_tracer, or_new}
use opentelemetry_php_ext.Core.Lifecycle.{
  is_off, module_init, module_shutdown, request_init, request_shutdown, shutdown_tracer,
}
use opentelemetry_php_ext.Core.Modules.{module_init-provider, module_shutdown-SameHooks}
use opentelemetry_php_ext.Core.Settled.{
  SameHooks, self-SameHooks, Settles, then-Settles, some-Always, Always, start_tracer-Settles,
}
use opentelemetry_php_ext.Core.Traces.{IdleIn-IsTidy}
use opentelemetry_php_ext.Hooks.Unregister.{IsRestored}
use opentelemetry_php_ext.Handlers.{Run}
use opentelemetry_php_ext.Handlers.Settled.{AllSettle}
use opentelemetry_php_ext.Requests.{WebRequest, run_script, serve, serve_all}
use opentelemetry_php_ext.Provider.TraceParent.{magnitude}
use opentelemetry_php_ext.Requests.Carried.{HasRatio}
use opentelemetry_php_ext.Requests.Served.{IsServable, ServesAll, serve_all-ServesAll}
use opentelemetry_php_ext.Requests.Settled.{run_script-Settles, serve-Settles}
use opentelemetry_php_ext.Entry.{opentelemetry_module_entry, run_request, run_requests, run_process}

else_on :
    (enable cli : Bool) (x y : Option Globals)
    → enable ≡ true
    → cli ≡ false
    → (if not enable || cli then x else y) ≡ y
else_on true false x y on web = refl
else_on true true x y on web = absurd (cc web)
else_on false cli x y on web = absurd (cc on)

-- While the extension is enabled, and outside the command line, the calls around a request start and
-- end the trace.
request_init_on :
    (r : WebRequest) (g : Globals)
    → g.enable ≡ true
    → r.world.host.is_cli ≡ false
    → request_init r.world r.fresh g ≡ start_tracer r.world r.fresh [] [] kind_server g
unfolding request_init
request_init_on r g on web =
    else_on g.enable r.world.host.is_cli (some g) (start_tracer r.world r.fresh [] [] kind_server g)
      on web

request_shutdown_on :
    (r : WebRequest) (g : Globals)
    → g.enable ≡ true
    → r.world.host.is_cli ≡ false
    → request_shutdown r.world r.times g ≡ shutdown_tracer r.world r.times g
unfolding request_shutdown
request_shutdown_on r g on web =
    else_on g.enable r.world.host.is_cli (some g) (shutdown_tracer r.world r.times g) on web

-- Steps that agree where the one before them may end.
same-bind :
    (P : Globals → Type 0) (r : Option Globals) (f h : Globals → Option Globals)
    → Always P r
    → ((g : Globals) → P g → f g ≡ h g)
    → (r >>= f) ≡ (r >>= h)
same-bind P none f h k e = refl
same-bind P (some g) f h k e = e g k

-- A request outside the command line.
abbrev pub IsWeb : WebRequest → Type 0
IsWeb r = r.world.host.is_cli ≡ false

module _ (run : Run) (settles : AllSettle run) where
  run_request-serve :
      (r : WebRequest) (g : Globals)
      → g.enable ≡ true
      → IsWeb r
      → run_request opentelemetry_module_entry run r g ≡ serve run r g
  unfolding run_request opentelemetry_module_entry serve
  run_request-serve r g on web =
      let script = run_script r.world run r.script in
      let begun = start_tracer r.world r.fresh [] [] kind_server g in
      ap (λ m. m >>= λ x. script x >>= request_shutdown r.world r.times)
        (request_init_on r g on web)
      ∙ same-bind (SameHooks g) begun _ _ (start_tracer-Settles r.world r.fresh [] [] kind_server g)
          (λ m (a, _, _, _, _).
            same-bind (SameHooks m) (script m) _ _
              (run_script-Settles r.world run settles r.script m)
              (λ x (b, _, _, _, _). request_shutdown_on r x (b ∙ a ∙ on) web))

  -- The requests of an enabled process are those of `serve_all`.
  run_requests-serve_all :
      (requests : List WebRequest) (g : Globals)
      → g.enable ≡ true
      → All IsWeb requests
      → run_requests opentelemetry_module_entry run requests g ≡ serve_all run requests g
  unfolding run_requests serve_all
  run_requests-serve_all [] g on web = refl
  run_requests-serve_all (r ∷ requests) g on (web, rest) =
      ap (λ m. m >>= run_requests opentelemetry_module_entry run requests)
        (run_request-serve r g on web)
      ∙ same-bind (SameHooks g) (serve run r g) _ _ (serve-Settles run settles r g)
          (λ m (a, _, _, _, _). run_requests-serve_all requests m (a ∙ on) rest)

  serve_all-Settles : (requests : List WebRequest) → Settles (serve_all run requests)
  unfolding serve_all
  serve_all-Settles [] g = self-SameHooks g
  serve_all-Settles (r ∷ requests) g =
      then-Settles g (serve run r g) (serve_all run requests) (serve-Settles run settles r g)
        (serve_all-Settles requests)

servable-IsWeb :
    (w : World) (run : Run) (requests : List WebRequest)
    → w.host.is_cli ≡ false
    → All (IsServable w.host run) requests
    → All IsWeb requests
servable-IsWeb w run [] web h = tt
servable-IsWeb w run (r ∷ requests) web (s, h) =
    (ap (λ x. x.is_cli) s.same_host ∙ web, servable-IsWeb w run requests web h)

web_on : (w : World) (g : Globals) → g.enable ≡ true → w.host.is_cli ≡ false → is_off w g ≡ false
unfolding is_off
web_on w g on web = rw (on, web) refl

-- A process outside the command line whose settings enable the extension, from its start without a
-- provider to its end: if PHP's own functions return, keep an open request, and leave the switches,
-- the hooks and the ratio, the ratio is not 0, every request carries the header of a sender or none,
-- and the calls can be read, then it serves all its requests: each runs its script on an open trace, which holds at its end a span for
-- each traced call, in their order, and sends that trace exactly if it is collected, sampled or slow,
-- and taken by the queue; and at the end of the process PHP's functions, methods, error callback and
-- exception hook are what they were before its start.
pub run_process-ServesAll :
    (w : World) (run : Run) (requests : List WebRequest) (g : Globals)
    → w.host.is_cli ≡ false
    → g.enable ≡ true
    → g.provider ≡ none
    → HasRatio g
    → AllSettle run
    → All (IsServable w.host run) requests
    → (m : Globals) × ServesAll run requests (module_init w g) m
      × (run_process opentelemetry_module_entry run w requests g ≡ some (module_shutdown w m))
      × IsRestored g.engine (module_shutdown w m).engine
unfolding run_process opentelemetry_module_entry
run_process-ServesAll w run requests g web on fresh ratio settles ok =
    let begun = module_init w g in
    let (same, on', same_ratio) = module_init-provider w g (web_on w g on web) in
    let tidy : IsTidy (slot w.host (or_new begun.provider)) =
      subst (λ p. IsTidy (slot w.host (or_new p))) (sym (same ∙ fresh))
        (IdleIn-IsTidy w.host none tt) in
    let (m, e, served, _) =
      serve_all-ServesAll w.host run requests begun web settles ok
        (ap (λ x. magnitude x == 0) same_ratio ∙ ratio) tidy in
    let whole =
      run_requests-serve_all run settles requests begun (on' ∙ on)
        (servable-IsWeb w run requests web ok)
      ∙ e in
    (
      m,
      served,
      ap (λ r. r >>= λ q. some (module_shutdown w q)) whole,
      module_shutdown-SameHooks w g m (
          some-Always (SameHooks begun) (serve_all run requests begun) m
            (serve_all-Settles run settles requests begun) e),
    )
