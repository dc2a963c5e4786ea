-- ===== src/Core/Cycles.antt =====
-- src/core.cc: whole calls of `start_tracer` and `shutdown_tracer`, and the ones that do nothing.
use mathlib.Core.Path.{subst}
use opentelemetry_php_ext.Common.{
  ◌≡◌, refl, sym, ap, ◌∙◌, Bool, true, false, not, ◌&&◌, ◌||◌, [], ◌++◌, Option, none, some, arith,
  if◌then◌else◌, ◌>>=◌,
}
use opentelemetry_php_ext.Span.{Request}
use opentelemetry_php_ext.Provider.{Host, Provider, slot, set_slot}
use opentelemetry_php_ext.Provider.State.{Slot}
use opentelemetry_php_ext.Provider.Finish.{clean}
use opentelemetry_php_ext.Provider.Isolation.{slot-set_slot}
use opentelemetry_php_ext.Core.Globals.{Globals, World, is_has_provider, has_provider}
use opentelemetry_php_ext.Core.Tracer.{clean_provider}
use opentelemetry_php_ext.Core.Lifecycle.{Times, dispose, shutdown_tracer, stopped, close_trace}
use opentelemetry_php_ext.Core.Starts.{IsLive}
use opentelemetry_php_ext.Core.Reports.{after_give, delivered, reports, finish_trace-IsLive}

-- The process has no request and no first span, is not sampled, and has neither baggage nor an
-- exception of Redis. The pointer to the resource may still be set; the next trace sets it anew.
pub record IsIdle (t : Slot) : Type 0 where
  pub no_request : t.request ≡ none
  pub no_first : t.first_span ≡ none
  pub not_sampled : t.is_sampled ≡ false
  pub no_baggage : t.baggage ≡ []
  pub no_exception : t.redis_exception ≡ []

-- A provider that stays is idle in this process.
abbrev pub IdleIn : Host → Option Provider → Type 0
IdleIn h none = Unit
IdleIn h (some p) = IsIdle (slot h p)

clean-IsIdle : (cli : Bool) (t : Slot) (r : Request) → t.request ≡ some r → IsIdle (clean cli t)
unfolding clean
clean-IsIdle true t r e = ground arith
clean-IsIdle false t r e = ground arith

clean_provider-IsIdle :
    (h : Host) (p : Provider) (r : Request)
    → (slot h p).request ≡ some r
    → IsIdle (slot h (clean_provider h p))
unfolding clean_provider
clean_provider-IsIdle h p r e =
    subst (λ t. IsIdle t) (sym (slot-set_slot h (clean h.is_cli (slot h p)) p))
      (clean-IsIdle h.is_cli (slot h p) r e)

kept :
    (h : Host) (b : Bool) (p : Provider) → IsIdle (slot h p) → IdleIn h (if b then none else some p)
kept h true p i = tt
kept h false p i = i

dispose-IdleIn :
    (w : World) (p : Provider) (r : Request)
    → (slot w.host p).request ≡ some r
    → IdleIn w.host (dispose w p)
unfolding dispose
dispose-IdleIn w p r e =
    kept w.host w.host.is_cli (clean_provider w.host p) (clean_provider-IsIdle w.host p r e)

dispose-cli : (w : World) (p : Provider) → (w.host.is_cli && has_provider (dispose w p)) ≡ false
unfolding dispose
dispose-cli w p = pick w.host.is_cli
  where
    pick :
        (b : Bool)
        → (b && has_provider (if b then none else some (clean_provider w.host p))) ≡ false
    pick true = refl
    pick false = refl

-- What `shutdown_tracer` does past its guard, with a provider.
shutdown_tracer_lem :
    (w : World) (g : Globals) (times : Times) (p : Provider)
    → (w.host.is_cli && (not g.cli_enable || not g.is_started_cli_tracer)) ≡ false
    → g.provider ≡ some p
    → shutdown_tracer w times g
      ≡ (close_trace w g times p (slot w.host p).first_span >>= λ c. some (stopped c))
unfolding shutdown_tracer
shutdown_tracer_lem w g times p busy has = rw (busy, has)

module _ (w : World) (g : Globals) (times : Times) (p : Provider) (l : IsLive (slot w.host p)) where
  abbrev remaining : Option Provider
  remaining = dispose w (set_slot w.host (after_give w g times (slot w.host p) l) p)

  abbrev pub closed : Globals
  closed = record g {
    provider = remaining;
    effects = g.effects ++ reports w g times (slot w.host p) l;
  }

  close_trace-IsLive : close_trace w g times p (slot w.host p).first_span ≡ some closed
  close_trace-IsLive =
      ap (close_trace w g times p) l.is_open.has_first
      ∙ ap
          (λ r. r >>= λ done. some (record g {
            provider = dispose w (set_slot w.host done.0 p);
            effects = g.effects ++ done.1;
          }))
          (finish_trace-IsLive w g times (slot w.host p) l)

  remaining-IdleIn : IdleIn w.host remaining
  remaining-IdleIn =
      dispose-IdleIn w (set_slot w.host (after_give w g times (slot w.host p) l) p)
        (delivered w g times (slot w.host p) l)
        (ap (λ t. t.request) (slot-set_slot w.host (after_give w g times (slot w.host p) l) p))

-- The shutdown of a trace that is under way returns. It puts the request into the queue if it is
-- collected, sampled or slow, and taken by the queue, and nothing else; then nothing of the trace is
-- left in this process, and on the command line the provider is gone.
pub shutdown_tracer-IsLive :
    (w : World) (g : Globals) (times : Times) (p : Provider) (l : IsLive (slot w.host p))
    → (w.host.is_cli && (not g.cli_enable || not g.is_started_cli_tracer)) ≡ false
    → g.provider ≡ some p
    → (q : Globals) × (shutdown_tracer w times g ≡ some q)
      × (q.effects ≡ g.effects ++ reports w g times (slot w.host p) l)
      × (q.is_started_cli_tracer ≡ false)
      × ((w.host.is_cli && is_has_provider q) ≡ false)
      × IdleIn w.host q.provider
unfolding is_has_provider
shutdown_tracer-IsLive w g times p l busy has = (
  stopped (closed w g times p l),
  shutdown_tracer_lem w g times p busy has
      ∙ ap (λ r. r >>= λ c. some (stopped c)) (close_trace-IsLive w g times p l),
  refl,
  refl,
  dispose-cli w (set_slot w.host (after_give w g times (slot w.host p) l) p),
  remaining-IdleIn w g times p l,
)
