-- ===== src/Core/Modules.antt =====
-- src/core.cc: the module's start and shutdown around the life of the process.
use mathlib.Core.Path.{subst}
use opentelemetry_php_ext.Common.{
  ◌≡◌, refl, sym, ap, ◌∙◌, Bool, true, false, not, ◌&&◌, if◌then◌else◌, inl, inr, Bool-cases,
}
use opentelemetry_php_ext.Hooks.{register_zend_hook, unregister_zend_hook}
use opentelemetry_php_ext.Hooks.Engine
use opentelemetry_php_ext.Hooks.Unregister.{IsRestored, unregister-register_zend_hook}
use opentelemetry_php_ext.Core.Globals.{Globals, World}
use opentelemetry_php_ext.Core.Consumers.{init_consumers, clean_consumers, queue_name}
use opentelemetry_php_ext.Core.Lifecycle.{is_off, module_init, module_shutdown}
use opentelemetry_php_ext.Core.Settled.{SameHooks, self-SameHooks}
use opentelemetry_php_ext.Core.Preserved.{SameTracer, if-SameTracer, init_consumers-SameTracer}

IsRestored-off : (e : Engine.Engine) → IsRestored e e
IsRestored-off e = record {
  functions = refl;
  redis = refl;
  rediscluster = refl;
  memcached = refl;
  pdo = refl;
  pdostatement = refl;
  yar_client = refl;
  yar_server = refl;
  error_cb = refl;
  throw_exception_hook = refl;
}

-- The globals of `module_init` before the hooks are registered.
abbrev ready : World → Globals → Globals
ready w g =
    let named = record g {
      message_queue_name = queue_name g;
      settings = record (g.settings) { hostname = w.hostname; ipv4 = w.machine_ip };
    } in
    if not w.host.is_cli then init_consumers w named else named

ready-SameTracer : (w : World) (g : Globals) → SameTracer g (ready w g)
ready-SameTracer w g =
    let named = record g {
      message_queue_name = queue_name g;
      settings = record (g.settings) { hostname = w.hostname; ipv4 = w.machine_ip };
    } in
    if-SameTracer (not w.host.is_cli) g (init_consumers w named) named
      (init_consumers-SameTracer w named) (refl, refl, refl, refl, refl, refl, refl)

module_init_on :
    (w : World) (g : Globals)
    → is_off w g ≡ false
    → module_init w g
      ≡ record (ready w g) { engine = register_zend_hook (ready w g).enabled (ready w g).engine }
unfolding module_init
module_init_on w g on = rw on

module_shutdown_on :
    (w : World) (g : Globals)
    → is_off w g ≡ false
    → (module_shutdown w g).engine ≡ unregister_zend_hook g.enabled g.engine
unfolding module_shutdown clean_consumers
module_shutdown_on w g on =
    rw on (cleaned (g.enable && (w.host.is_cli && (g.cli_enable && g.is_init_consumers))))
  where
    cleaned :
        (b : Bool)
        → unregister_zend_hook
            (if b then clean_consumers g else g).enabled
            (if b then clean_consumers g else g).engine
          ≡ unregister_zend_hook g.enabled g.engine
    cleaned true = refl
    cleaned false = refl

module_init_off : (w : World) (g : Globals) → is_off w g ≡ true → module_init w g ≡ g
unfolding module_init
module_init_off w g off = rw off

module_shutdown_off : (w : World) (g : Globals) → is_off w g ≡ true → module_shutdown w g ≡ g
unfolding module_shutdown
module_shutdown_off w g off = rw off

module_init_facts :
    (w : World) (g : Globals)
    → is_off w g ≡ false
    → (is_off w (module_init w g) ≡ false)
      × ((module_init w g).enabled ≡ g.enabled)
      × ((module_init w g).engine ≡ register_zend_hook g.enabled g.engine)
unfolding is_off
module_init_facts w g on =
    let (_, c, _, e, f, h, _) = ready-SameTracer w g in
    let q = module_init_on w g on in
    (
      ap (is_off w) q ∙ (rw (c, e) on),
      ap (λ x. x.enabled) q ∙ f,
      ap (λ x. x.engine) q
          ∙ ap (λ x. register_zend_hook x (ready w g).engine) f
          ∙ ap (register_zend_hook g.enabled) h,
    )

-- The start of the module leaves the provider, the switch and the ratio.
pub module_init-provider :
    (w : World) (g : Globals)
    → is_off w g ≡ false
    → ((module_init w g).provider ≡ g.provider)
      × ((module_init w g).enable ≡ g.enable)
      × ((module_init w g).settings.sample_ratio_based ≡ g.settings.sample_ratio_based)
module_init-provider w g on =
    let (a, _, _, c, _, _, r) = ready-SameTracer w g in
    let q = module_init_on w g on in
    (
      ap (λ x. x.provider) q ∙ a,
      ap (λ x. x.enable) q ∙ c,
      ap (λ x. x.settings.sample_ratio_based) q ∙ r,
    )

same-is_off : (w : World) (g q : Globals) → SameHooks g q → is_off w q ≡ is_off w g
unfolding is_off
same-is_off w g q (a, b, _, _, _) = rw (a, b) refl

-- What the start of the module set, its shutdown takes back, whatever came between them, as long as
-- that left the switches and the hooks.
pub module_shutdown-SameHooks :
    (w : World) (g m : Globals)
    → SameHooks (module_init w g) m
    → IsRestored g.engine (module_shutdown w m).engine
module_shutdown-SameHooks w g m same = elim (Bool-cases (is_off w g)) [
  | inl off ↦
      let q = module_init_off w g off in
      let (_, _, _, engine, _) = same in
      let off' = same-is_off w (module_init w g) m same ∙ ap (is_off w) q ∙ off in
      subst (λ e. IsRestored g.engine e)
        (sym (ap (λ x. x.engine) (module_shutdown_off w m off') ∙ engine ∙ ap (λ x. x.engine) q))
        (IsRestored-off g.engine)
  | inr on ↦
      let (on', enabled, hooked) = module_init_facts w g on in
      let (_, _, enabled', engine, _) = same in
      let off' = same-is_off w (module_init w g) m same ∙ on' in
      subst (λ e. IsRestored g.engine e)
        (sym (
          module_shutdown_on w m off'
          ∙ ap (λ x. unregister_zend_hook x m.engine) (enabled' ∙ enabled)
          ∙ ap (unregister_zend_hook g.enabled) (engine ∙ hooked)))
        (unregister-register_zend_hook g.enabled g.engine)
]

-- Whatever the settings, PHP's functions, methods, error callback and exception hook are after the
-- module's shutdown what they were before its start.
pub module_shutdown-module_init :
    (w : World) (g : Globals) → IsRestored g.engine (module_shutdown w (module_init w g)).engine
module_shutdown-module_init w g =
    module_shutdown-SameHooks w g (module_init w g) (self-SameHooks (module_init w g))
