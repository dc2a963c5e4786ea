-- ===== src/Handlers/Alerts.antt =====
-- What errors and exceptions leave: src/zend_hook_error.cc, src/zend_hook_exception.cc, and with
-- src/zend_hook_redis.cc the message that is kept for Redis.
use opentelemetry_php_ext.Common.{
  ℕ, ◌≡◌, refl, ap, ◌∙◌, true, false, ◌&&◌, [], ◌∷◌, Option, none, some, Bytes, c_str,
  if◌then◌else◌, ◌>>=◌, is_empty,
}
use opentelemetry_php_ext.Span.{Span, kind_internal}
use opentelemetry_php_ext.Provider.{Provider, slot}
use opentelemetry_php_ext.Provider.State.{Slot, Fresh, span_at, set_span}
use opentelemetry_php_ext.Provider.Finish.{
  set_redis_exception, clear_redis_exception, get_redis_exception, is_redis_exception, error_end,
  ok_end, set_sampled,
}
use opentelemetry_php_ext.Provider.Endings.{error_end_lem, failed, span_at-set_span}
use opentelemetry_php_ext.Provider.Traces.{IsOpen, IsUuid, latest-open}
use opentelemetry_php_ext.Core.Globals.{Globals, World, is_has_provider, has_provider}
use opentelemetry_php_ext.Hooks.Registry.{Handler, native, hook, null}
use opentelemetry_php_ext.Handlers.{Run, around}
use opentelemetry_php_ext.Handlers.Frames.{Stack, find_trace_add_scope_name}
use opentelemetry_php_ext.Handlers.Finishing.{error_end-Finishes}
use opentelemetry_php_ext.Handlers.Traced.{
  Answers, Behaves, Traced, child_span, around-Traced, after-Traced, same-Answers,
}
use opentelemetry_php_ext.Handlers.Behaviours.{AllBehave, nothing-Behaves}
use opentelemetry_php_ext.Handlers.Noticed.{
  first_error-Behaves, keep_exception-Behaves, error_span_end-Finishes,
}
use opentelemetry_php_ext.Handlers.Errors.{
  PhpError, level_of, is_collector, caller_name, known_name, error_attributes, record_error,
  error_cb, first_error, error_span_end,
}
use opentelemetry_php_ext.Handlers.Exceptions.{
  PhpException, exception_attributes, record_exception, run_hook, throw_exception_hook,
  keep_exception,
}
use opentelemetry_php_ext.Handlers.Redis.{redis_end}

-- The name of the frame that runs, or else of the first span.
abbrev pub running_name : Stack → Span → Bytes
running_name (some f ∷ callers) first = find_trace_add_scope_name f
running_name (none ∷ callers) first = first.name
running_name [] first = first.name

caller_name-open :
    (callers : Stack) (t : Slot) (o : IsOpen t)
    → caller_name callers t ≡ some (running_name callers o.first)
unfolding caller_name
caller_name-open [] t o = rw (latest-open t o)
caller_name-open (none ∷ callers) t o = rw (latest-open t o)
caller_name-open (some f ∷ callers) t o = refl

module _ (w : World) (fresh : Fresh) (now : ℕ) (run : Run) (all : AllBehave w run)
    (uuid : IsUuid fresh.span_uuid) (g : Globals) (p : Provider) (t : Slot)
    (has : g.provider ≡ some p) (is_slot : slot w.host p ≡ t) (o : IsOpen t) where
  record_error_lem :
      (e : PhpError)
      → record_error w fresh now e g
        ≡ around w fresh
            (known_name (running_name e.caller o.first))
            kind_internal
            (some (error_attributes e))
            (λ i. first_error w now e)
            (error_span_end now e)
            g
  unfolding record_error
  record_error_lem e =
      let rest : Bytes → Option Globals = (λ name.
        around w fresh (known_name name) kind_internal (some (error_attributes e))
          (λ i. first_error w now e) (error_span_end now e) g) in
      ap (λ m. m >>= λ q. caller_name e.caller (slot w.host q) >>= rest) has
      ∙ ap (λ q. caller_name e.caller q >>= rest) is_slot
      ∙ ap (λ m. m >>= rest) (caller_name-open e.caller t o)

  pub error_cb-Traced :
      (e : PhpError)
      → is_collector g.error_level (level_of e.type_of) ≡ true
      → Answers w (error_cb w fresh now e run g) (
          Traced t o now (
            child_span t o fresh
              (known_name (running_name e.caller o.first))
              kind_internal
              (error_attributes e)))
  unfolding error_cb is_has_provider
  error_cb-Traced e collected =
      let name = known_name (running_name e.caller o.first) in
      let both : (is_collector g.error_level (level_of e.type_of) && is_has_provider g) ≡ true =
        ap (λ b. b && is_has_provider g) collected ∙ ap has_provider has in
      let recorded : (if is_collector g.error_level (level_of e.type_of) && is_has_provider g
            then record_error w fresh now e g
            else some g)
          ≡ around w fresh name kind_internal (some (error_attributes e)) (λ i. first_error w now e)
              (error_span_end now e) g =
        ap (λ b. if b then record_error w fresh now e g else some g) both ∙ record_error_lem e in
      after-Traced w t o now (child_span t o fresh name kind_internal (error_attributes e)) _
        (λ h. run h.engine.original_error_cb h)
        (same-Answers w _ _ _ recorded (
          around-Traced w fresh name kind_internal (error_attributes e) (λ i. first_error w now e)
            (error_span_end now e) now
            (λ n x g p t has is_slot o at. first_error-Behaves w now e g p t has is_slot o)
            (error_span_end-Finishes now e) uuid g p t has is_slot o))
        (λ h. all h.engine.original_error_cb h)

  record_exception_lem :
      (e : PhpException)
      → record_exception w fresh now e g
        ≡ around w fresh
            (running_name e.caller o.first)
            kind_internal
            (some (exception_attributes e))
            (λ i. keep_exception w e)
            (λ i. error_end now i (c_str e.message))
            g
  unfolding record_exception
  record_exception_lem e =
      let rest : Bytes → Option Globals = (λ name.
        around w fresh name kind_internal (some (exception_attributes e)) (λ i. keep_exception w e)
          (λ i. error_end now i (c_str e.message)) g) in
      ap (λ m. elim m [ none ↦ some g | some q ↦ caller_name e.caller (slot w.host q) >>= rest ])
        has
      ∙ ap (λ q. caller_name e.caller q >>= rest) is_slot
      ∙ ap (λ m. m >>= rest) (caller_name-open e.caller t o)

  pub run_hook-Behaves : (h : Handler) → Behaves w (run_hook run h)
  run_hook-Behaves (native n) = all (native n)
  run_hook-Behaves (hook group) = all (hook group)
  run_hook-Behaves null = nothing-Behaves w

  -- Before PHP 8, and on an open request, an exception that is thrown leaves a span of its own under
  -- the first one, of the name of the running function, and ended; the hook that was there before
  -- runs.
  pub throw_exception_hook-Traced :
      (e : PhpException)
      → Answers w (throw_exception_hook w fresh now (some e) run g) (
          Traced t o now (
            child_span t o fresh
              (running_name e.caller o.first)
              kind_internal
              (exception_attributes e)))
  unfolding throw_exception_hook
  throw_exception_hook-Traced e =
      let name = running_name e.caller o.first in
      after-Traced w t o now (child_span t o fresh name kind_internal (exception_attributes e)) _
        (λ h. run_hook run h.engine.original_throw_exception_hook h)
        (same-Answers w _ _ _ (record_exception_lem e) (
          around-Traced w fresh name kind_internal (exception_attributes e)
            (λ i. keep_exception w e) (λ i. error_end now i (c_str e.message)) now
            (λ n x g p t has is_slot o at. keep_exception-Behaves w e g p t has is_slot o)
            (error_end-Finishes now (c_str e.message)) uuid g p t has is_slot o))
        (λ h. run_hook-Behaves h.engine.original_throw_exception_hook h)

-- A message that is kept for Redis, and is not empty, is the error of the first span that ends as a
-- call of Redis, and makes the request sampled; it is then taken back, so that the next such span
-- ends well.
pub redis_end-set_redis_exception :
    (now later i j : ℕ) (message : Bytes) (t : Slot) (x : Span)
    → span_at t i ≡ some x
    → is_empty message ≡ false
    → (q : Slot) × (redis_end now i (set_redis_exception message t) ≡ some q)
      × (span_at q i ≡ some (failed now message x))
      × (q.is_sampled ≡ true)
      × (redis_end later j q ≡ ok_end later j q)
unfolding redis_end set_redis_exception get_redis_exception is_redis_exception clear_redis_exception
    set_sampled
redis_end-set_redis_exception now later i j message t x at full =
    let kept : Slot = set_redis_exception message t in
    (
      clear_redis_exception (set_sampled true (set_span kept i (failed now message x))),
      rw (full, error_end_lem now i message kept x at),
      span_at-set_span kept i x (failed now message x) at,
      refl,
      refl,
    )
