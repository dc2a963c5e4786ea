-- ===== src/Handlers/Thrown.antt =====
-- src/zend_hook_exception.cc with src/zend_hook_redis.cc: an exception of Redis that is thrown while
-- the handler of Redis runs the method.
use mathlib.Core.Path.{subst}
use opentelemetry_php_ext.Common.{
  ℕ, ◌≡◌, refl, sym, ap, ◌∙◌, true, List, Option, none, some, Bytes, text, c_str, if◌then◌else◌,
  ◌>>=◌, arith,
}
use opentelemetry_php_ext.Span.{Span, KeyValue, kind_internal}
use opentelemetry_php_ext.Text.{is_equal}
use opentelemetry_php_ext.Provider.{Host, Provider, slot, change_slot}
use opentelemetry_php_ext.Provider.State.{Slot, Fresh, span_at, set_span}
use opentelemetry_php_ext.Provider.Finish.{error_end, set_sampled, set_redis_exception}
use opentelemetry_php_ext.Provider.Isolation.{slot-set_slot}
use opentelemetry_php_ext.Core.Globals.{Globals, World, change_provider}
use opentelemetry_php_ext.Core.Settled.{SameHooks, Always, bind-Always, some-Always}
use opentelemetry_php_ext.Hooks.Registry.{null}
use opentelemetry_php_ext.Handlers.{Run, open_span, close_span, around}
use opentelemetry_php_ext.Handlers.Errors.{caller_name}
use opentelemetry_php_ext.Handlers.Exceptions.{
  PhpException, exception_attributes, keep_message, keep_exception, record_exception, run_hook,
  throw_exception_hook,
}
use opentelemetry_php_ext.Handlers.Settled.{AllSettle, record_exception-Settles}

-- The message is kept for Redis in this process, if there is a provider.
abbrev pub Kept : Host → Bytes → Option Provider → Type 0
Kept h m none = Unit
Kept h m (some p) = (slot h p).redis_exception ≡ m

set_span-exception :
    (t : Slot) (i : ℕ) (x : Span) → (set_span t i x).redis_exception ≡ t.redis_exception
set_span-exception t i x = ground arith

error_end-exception :
    (now i : ℕ) (message : Bytes) (t : Slot)
    → Always (λ q. q.redis_exception ≡ t.redis_exception) (error_end now i message t)
unfolding error_end set_sampled
error_end-exception now i message t =
    bind-Always (λ q. q.redis_exception ≡ t.redis_exception) (span_at t i) _
      (λ x _. set_span-exception t i _)

change_slot-Always :
    (h : Host) (m : Bytes) (f : Slot → Option Slot) (p : Provider)
    → Always (λ t. t.redis_exception ≡ m) (f (slot h p))
    → Always (λ q. (slot h q).redis_exception ≡ m) (change_slot h f p)
unfolding change_slot
change_slot-Always h m f p k =
    bind-Always (λ q. (slot h q).redis_exception ≡ m) (f (slot h p)) _
      (λ t e.
        ap (λ x. x.redis_exception) (slot-set_slot h t p)
        ∙ some-Always (λ x. x.redis_exception ≡ m) (f (slot h p)) t k e)

module _ (w : World) (m : Bytes) where
  -- A way to end a span that leaves the message leaves it in the process.
  close_span-Kept :
      (finish : ℕ → Slot → Option Slot) (span : Option ℕ) (g : Globals)
      → ((i : ℕ) (t : Slot) → Always (λ q. q.redis_exception ≡ t.redis_exception) (finish i t))
      → Kept w.host m g.provider
      → Always (λ q. Kept w.host m q.provider) (close_span w finish span g)
  unfolding close_span
  close_span-Kept finish span g leaves k = from g.provider refl k
    where
      from :
          (o : Option Provider)
          → g.provider ≡ o
          → Kept w.host m o
          → Always
              (λ q. Kept w.host m q.provider)
              (elim o [
                | none ↦ some g
                | some p ↦ span >>= λ i.
                    change_slot w.host (finish i) p >>= λ q. some (record g { provider = some q })
              ])
      from none e k = subst (λ o. Kept w.host m o) (sym e) tt
      from (some p) e k =
          bind-Always (λ q. Kept w.host m q.provider) span _
            (λ i _.
              bind-Always (λ q. Kept w.host m q.provider) (change_slot w.host (finish i) p) _
                (λ q changed.
                  some-Always (λ x. (slot w.host x).redis_exception ≡ m)
                    (change_slot w.host (finish i) p) q
                    (change_slot-Always w.host m (finish i) p (
                      subst (λ x. Always (λ t. t.redis_exception ≡ x) (finish i (slot w.host p))) k
                        (leaves i (slot w.host p))))
                    changed))

  around-Kept :
      (fresh : Fresh) (name : Bytes) (kind : ℕ) (attributes : Option (List KeyValue))
      (run : Option ℕ → Globals → Option Globals) (finish : ℕ → Slot → Option Slot) (g : Globals)
      → ((i : Option ℕ) (h : Globals) → Always (λ q. Kept w.host m q.provider) (run i h))
      → ((i : ℕ) (t : Slot) → Always (λ q. q.redis_exception ≡ t.redis_exception) (finish i t))
      → Always (λ q. Kept w.host m q.provider) (around w fresh name kind attributes run finish g)
  around-Kept fresh name kind attributes run finish g keeps leaves =
      bind-Always (λ q. Kept w.host m q.provider) (open_span w fresh name kind attributes g) _
        (λ opened _.
          bind-Always (λ q. Kept w.host m q.provider) (run opened.0 opened.1) _
            (λ q ran. close_span-Kept finish opened.0 q leaves (
              some-Always (λ x. Kept w.host m x.provider) (run opened.0 opened.1) q
                (keeps opened.0 opened.1) ran)))

module _ (w : World) (fresh : Fresh) (now : ℕ) (e : PhpException)
    (of_redis : is_equal (text "RedisException") e.class_of ≡ true) where
  keep_exception-Kept :
      (g : Globals) → Always (λ q. Kept w.host (c_str e.message) q.provider) (keep_exception w e g)
  unfolding keep_exception change_provider change_slot set_redis_exception
  keep_exception-Kept g =
      let keep : Globals → Option Globals =
        change_provider (change_slot w.host (keep_message (c_str e.message))) in
      subst
        (λ b. Always (λ q. Kept w.host (c_str e.message) q.provider) (if b then keep g else some g))
        (sym of_redis)
        (bind-Always (λ q. Kept w.host (c_str e.message) q.provider) g.provider _
          (λ p _. ap (λ x. x.redis_exception) (slot-set_slot w.host _ p)))

  record_exception-Kept :
      (g : Globals)
      → Always (λ q. Kept w.host (c_str e.message) q.provider) (record_exception w fresh now e g)
  unfolding record_exception
  record_exception-Kept g = from g.provider refl
    where
      from :
          (o : Option Provider)
          → g.provider ≡ o
          → Always
              (λ q. Kept w.host (c_str e.message) q.provider)
              (elim o [
                | none ↦ some g
                | some p ↦ caller_name e.caller (slot w.host p) >>= λ name.
                    around w fresh name kind_internal
                      (some (exception_attributes e))
                      (λ i. keep_exception w e)
                      (λ i. error_end now i (c_str e.message))
                      g
              ])
      from none is_none = subst (λ o. Kept w.host (c_str e.message) o) (sym is_none) tt
      from (some p) _ =
          bind-Always (λ q. Kept w.host (c_str e.message) q.provider)
            (caller_name e.caller (slot w.host p)) _
            (λ name _.
              around-Kept w (c_str e.message) fresh name kind_internal _ _ _ g
                (λ i. keep_exception-Kept) (λ i. error_end-exception now i (c_str e.message)))

  -- Without another hook, an exception of Redis that is thrown leaves its message.
  pub throw_exception_hook-Kept :
      (run : Run) (g : Globals)
      → AllSettle run
      → g.engine.original_throw_exception_hook ≡ null
      → Always
          (λ q. Kept w.host (c_str e.message) q.provider)
          (throw_exception_hook w fresh now (some e) run g)
  unfolding throw_exception_hook
  throw_exception_hook-Kept run g settles no_other =
      bind-Always (λ q. Kept w.host (c_str e.message) q.provider) (record_exception w fresh now e g)
        _
        (λ q recorded.
          let (_, _, _, same, _) =
            some-Always (SameHooks g) (record_exception w fresh now e g) q
              (record_exception-Settles run settles w fresh now e g) recorded in
          subst (λ h. Always (λ x. Kept w.host (c_str e.message) x.provider) (run_hook run h q))
            (sym (ap (λ x. x.original_throw_exception_hook) same ∙ no_other))
            (some-Always (λ x. Kept w.host (c_str e.message) x.provider)
              (record_exception w fresh now e g) q (record_exception-Kept g) recorded))
