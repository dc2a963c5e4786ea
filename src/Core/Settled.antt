-- ===== src/Core/Settled.antt =====
-- src/core.cc: what decides whether hooks are set stays as it is through the calls of a request.
use opentelemetry_php_ext.Common.{
  ℕ, ◌≡◌, refl, ◌∙◌, Bool, true, false, [], Option, none, some, Bytes, if◌then◌else◌, ◌>>=◌, not,
  ◌&&◌, ◌||◌,
}
use opentelemetry_php_ext.Provider.{Provider, slot, increase}
use opentelemetry_php_ext.Provider.State.{Fresh}
use opentelemetry_php_ext.Core.Globals.{Globals, World, change_provider}
use opentelemetry_php_ext.Core.Consumers.{init_consumers}
use opentelemetry_php_ext.Core.Tracer.{
  or_new, clean_provider, prepare, trace_in, begin, is_idle_cli, start_tracer,
}
use opentelemetry_php_ext.Core.Lifecycle.{Times, finish_trace, close_trace, shutdown_tracer}
use opentelemetry_php_ext.Core.Preserved.{init_consumers-SameTracer, name_service-SameTracer}

-- The settings that switch the extension on, the state of PHP that the hooks are kept in, and the ratio
-- of the traces that are sampled.
abbrev pub SameHooks : Globals → Globals → Type 0
SameHooks g q =
    (q.enable ≡ g.enable)
    × (q.cli_enable ≡ g.cli_enable)
    × (q.enabled ≡ g.enabled)
    × (q.engine ≡ g.engine)
    × (q.settings.sample_ratio_based ≡ g.settings.sample_ratio_based)

abbrev pub self-SameHooks : (g : Globals) → SameHooks g g
self-SameHooks g = (refl, refl, refl, refl, refl)

pub trans-SameHooks : (g x y : Globals) → SameHooks g x → SameHooks x y → SameHooks g y
trans-SameHooks g x y (a, b, c, d, r) (a', b', c', d', r') =
    (a' ∙ a, b' ∙ b, c' ∙ c, d' ∙ d, r' ∙ r)

-- What is returned, if anything is, is as `P` says.
abbrev pub Always {ℓ} : {A : Type ℓ} → (A → Type 0) → Option A → Type 0
Always P none = Unit
Always P (some a) = P a

pub bind-Always {ℓ m} :
    {A : Type ℓ} {B : Type m} (P : B → Type 0) (r : Option A) (f : A → Option B)
    → ((a : A) → r ≡ some a → Always P (f a))
    → Always P (r >>= f)
bind-Always P none f h = tt
bind-Always P (some a) f h = h a refl

pub if-Always {ℓ} :
    {A : Type ℓ} (P : A → Type 0) (b : Bool) (x y : Option A)
    → Always P x
    → Always P y
    → Always P (if b then x else y)
if-Always P true x y h k = h
if-Always P false x y h k = k

pub some-Always {ℓ} :
    {A : Type ℓ} (P : A → Type 0) (r : Option A) (a : A) → Always P r → r ≡ some a → P a
some-Always P none a h e = absurd (cc e)
some-Always P (some x) a h e = subst_in h (cc e)
  where
    subst_in : P x → x ≡ a → P a
    subst_in p q = rw (← q) p

-- A call leaves them as they are.
abbrev pub Settles : (Globals → Option Globals) → Type 0
Settles f = (g : Globals) → Always (SameHooks g) (f g)

-- One call after another.
pub then-Settles :
    (g : Globals) (r : Option Globals) (f : Globals → Option Globals)
    → Always (SameHooks g) r
    → Settles f
    → Always (SameHooks g) (r >>= f)
then-Settles g none f h k = tt
then-Settles g (some x) f h k = onward (f x) (k x)
  where
    onward : (r : Option Globals) → Always (SameHooks x) r → Always (SameHooks g) r
    onward none l = tt
    onward (some y) l = trans-SameHooks g x y h l

pub change_provider-Settles : (f : Provider → Option Provider) → Settles (change_provider f)
unfolding change_provider
change_provider-Settles f g =
    bind-Always (SameHooks g) g.provider _
      (λ p _. bind-Always (SameHooks g) (f p) _ (λ q _. self-SameHooks g))

pub prepare-SameHooks : (w : World) (g : Globals) → SameHooks g (prepare w g)
unfolding prepare
prepare-SameHooks w g =
    let (_, a, _, b, c, d, r) = init_consumers-SameTracer w g in
    let g1 = init_consumers w g in
    let p = increase (clean_provider w.host (or_new g1.provider)) in
    let (_, a', _, b', c', d', r') =
      name_service-SameTracer w (record g1 { provider = some p; curl_header = [] }) in
    (b' ∙ b, a' ∙ a, c' ∙ c, d' ∙ d, r' ∙ r)

pub start_tracer-Settles :
    (w : World) (fresh : Fresh) (traceparent tracebaggage : Bytes) (kind : ℕ)
    → Settles (start_tracer w fresh traceparent tracebaggage kind)
unfolding start_tracer
start_tracer-Settles w fresh traceparent tracebaggage kind g =
    let ready = prepare w g in
    if-Always (SameHooks g) (is_idle_cli w g) (some g)
      (trace_in w ready fresh (begin w ready traceparent tracebaggage kind) ready)
      (self-SameHooks g)
      (then-Settles g (some ready)
        (trace_in w ready fresh (begin w ready traceparent tracebaggage kind))
        (prepare-SameHooks w g) (change_provider-Settles _))

close_trace-Always :
    (w : World) (g : Globals) (times : Times) (p : Provider) (first : Option ℕ)
    → Always (SameHooks g) (close_trace w g times p first)
close_trace-Always w g times p none = self-SameHooks g
close_trace-Always w g times p (some i) =
    bind-Always (SameHooks g) (finish_trace w g times i (slot w.host p)) _
      (λ done _. self-SameHooks g)

pub shutdown_tracer-Settles : (w : World) (times : Times) → Settles (shutdown_tracer w times)
unfolding shutdown_tracer
shutdown_tracer-Settles w times g =
    if-Always (SameHooks g) (w.host.is_cli && (not g.cli_enable || not g.is_started_cli_tracer)) _ _
      (self-SameHooks g)
      (bind-Always (SameHooks g) g.provider _ (λ p _.
        then-Settles g (close_trace w g times p (slot w.host p).first_span) _
          (close_trace-Always w g times p (slot w.host p).first_span) (λ q. self-SameHooks q)))
