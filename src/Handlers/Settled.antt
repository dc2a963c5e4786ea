-- ===== src/Handlers/Settled.antt =====
-- The handlers leave the switches of the extension and the state of its hooks as they are.
use opentelemetry_php_ext.Common.{
  ℕ, List, Option, none, some, Bytes, text, bytes_eq, ◌>>=◌, ◌&&◌, Option-cases, inl, inr, is_empty,
  c_str,
}
use opentelemetry_php_ext.Span.{KeyValue}
use opentelemetry_php_ext.Text.{is_equal}
use opentelemetry_php_ext.Provider.{change_slot, slot}
use opentelemetry_php_ext.Provider.State.{Slot, Fresh, Baggage}
use opentelemetry_php_ext.Provider.Child.{create_child}
use opentelemetry_php_ext.Core.Globals.{Globals, World, is_has_provider}
use opentelemetry_php_ext.Core.Settled.{
  SameHooks, self-SameHooks, Always, bind-Always, if-Always, Settles, then-Settles,
  change_provider-Settles,
}
use opentelemetry_php_ext.Hooks.Registry.{Handler, Table, null, native, hook}
use opentelemetry_php_ext.Handlers.{
  Call, Run, open_span, close_span, around, describe, run_original, class_name, command_name,
}
use opentelemetry_php_ext.Handlers.Frames.{find_code_stacktrace}
use opentelemetry_php_ext.Handlers.Redis.{redis_original}
use opentelemetry_php_ext.Handlers.Yar.{trace_headers, yar_client_run, yar_headers, yar_server_run}
use opentelemetry_php_ext.Handlers.Errors.{
  PhpError, caller_name, first_error, record_error, error_cb, is_collector, level_of,
}
use opentelemetry_php_ext.Handlers.Exceptions.{
  PhpException, keep_message, keep_exception, record_exception, run_hook, throw_exception_hook,
}

open_span-Always :
    (w : World) (fresh : Fresh) (name : Bytes) (kind : ℕ) (attributes : Option (List KeyValue))
    (g : Globals)
    → Always (λ opened. SameHooks g opened.1) (open_span w fresh name kind attributes g)
unfolding open_span
open_span-Always w fresh name kind attributes g = elim (Option-cases g.provider) [
  | inl e ↦ rw e (self-SameHooks g)
  | inr (p, e) ↦ rw e (
      bind-Always (λ opened. SameHooks g opened.1)
        (create_child g.settings fresh name kind (slot w.host p)) _
        (λ created _.
          bind-Always (λ opened. SameHooks g opened.1) attributes _
            (λ l _.
              bind-Always (λ opened. SameHooks g opened.1) (describe l created.0 created.1) _
                (λ t _. self-SameHooks g))))
]

close_span-Settles :
    (w : World) (finish : ℕ → Slot → Option Slot) (span : Option ℕ)
    → Settles (close_span w finish span)
unfolding close_span
close_span-Settles w finish span g = elim (Option-cases g.provider) [
  | inl e ↦ rw e (self-SameHooks g)
  | inr (p, e) ↦ rw e (
      bind-Always (SameHooks g) span _ (λ i _.
        bind-Always (SameHooks g) (change_slot w.host (finish i) p) _ (λ q _. self-SameHooks g)))
]

pub around-Settles :
    (w : World) (fresh : Fresh) (name : Bytes) (kind : ℕ) (attributes : Option (List KeyValue))
    (run : Option ℕ → Globals → Option Globals) (finish : ℕ → Slot → Option Slot)
    → ((i : Option ℕ) → Settles (run i))
    → Settles (around w fresh name kind attributes run finish)
around-Settles w fresh name kind attributes run finish h g =
    after (open_span w fresh name kind attributes g)
      (open_span-Always w fresh name kind attributes g)
  where
    after :
        (r : Option (Option ℕ × Globals))
        → Always (λ opened. SameHooks g opened.1) r
        → Always
            (SameHooks g)
            (r >>= λ opened. run opened.0 opened.1 >>= close_span w finish opened.0)
    after none k = tt
    after (some (i, q)) k =
        then-Settles g (some q) (λ x. run i x >>= close_span w finish i) k
          (λ x.
            then-Settles x (run i x) (close_span w finish i) (h i x)
              (close_span-Settles w finish i))

-- What PHP's functions are taken to do.
abbrev pub AllSettle : Run → Type 0
AllSettle run = (h : Handler) → Settles (run h)

module _ (run : Run) (all : AllSettle run) where
  pub run_original-Settles :
      (originals : Table) (cmd : Bytes) → Settles (run_original run originals cmd)
  unfolding run_original
  run_original-Settles originals cmd g = elim (Option-cases (originals cmd)) [
    | inl e ↦ rw (e, run_original) (self-SameHooks g)
    | inr (h, e) ↦ rw (e, run_original) (all h g)
  ]

  pub redis_original-Settles : (c : Call) → Settles (redis_original run c)
  unfolding redis_original
  redis_original-Settles c g =
      if-Always (SameHooks g) (bytes_eq (class_name c) (text "Redis")) _ _
        (run_original-Settles g.engine.redis_class.originals (command_name c) g)
        (if-Always (SameHooks g) (bytes_eq (class_name c) (text "RedisCluster")) _ _
          (run_original-Settles g.engine.rediscluster_class.originals (command_name c) g)
          (self-SameHooks g))

  pub yar_server_run-Settles : (c : Call) (i : Option ℕ) → Settles (yar_server_run c run i)
  yar_server_run-Settles c none g = tt
  yar_server_run-Settles c (some i) g =
      run_original-Settles g.engine.yar_server_class.originals (command_name c) g

  pub run_hook-Settles : (h : Handler) → Settles (run_hook run h)
  run_hook-Settles (native n) g = all (native n) g
  run_hook-Settles (hook group) g = all (hook group) g
  run_hook-Settles null g = self-SameHooks g

  module _ (w : World) (fresh : Fresh) (now : ℕ) where
    first_error-Settles : (e : PhpError) → Settles (first_error w now e)
    unfolding first_error
    first_error-Settles e g =
        if-Always (SameHooks g) (e.is_reported && is_empty (find_code_stacktrace e.caller)) _ _
          (change_provider-Settles _ g) (self-SameHooks g)

    record_error-Settles : (e : PhpError) → Settles (record_error w fresh now e)
    unfolding record_error
    record_error-Settles e g = bind-Always (SameHooks g) g.provider _ (λ p _.
        bind-Always (SameHooks g) (caller_name e.caller (slot w.host p)) _
          (λ name _. around-Settles w fresh _ _ _ _ _ (λ i. first_error-Settles e) g))

    pub error_cb-Settles : (e : PhpError) → Settles (error_cb w fresh now e run)
    unfolding error_cb
    error_cb-Settles e g =
        then-Settles g _ (λ g1. run g1.engine.original_error_cb g1)
          (if-Always (SameHooks g)
            (is_collector g.error_level (level_of e.type_of) && is_has_provider g) _ _
            (record_error-Settles e g) (self-SameHooks g))
          (λ g1. all g1.engine.original_error_cb g1)

    keep_exception-Settles : (e : PhpException) → Settles (keep_exception w e)
    unfolding keep_exception
    keep_exception-Settles e g =
        if-Always (SameHooks g) (is_equal (text "RedisException") e.class_of) _ (some g)
          (change_provider-Settles (change_slot w.host (keep_message (c_str e.message))) g)
          (self-SameHooks g)

    pub record_exception-Settles : (e : PhpException) → Settles (record_exception w fresh now e)
    unfolding record_exception
    record_exception-Settles e g = elim (Option-cases g.provider) [
      | inl f ↦ rw (record_exception, f) (self-SameHooks g)
      | inr (p, f) ↦
          rw (record_exception, f)
            (bind-Always (SameHooks g) (caller_name e.caller (slot w.host p)) _
              (λ name _. around-Settles w fresh _ _ _ _ _ (λ i. keep_exception-Settles e) g))
    ]

    pub throw_exception_hook-Settles :
        (e : PhpException) → Settles (throw_exception_hook w fresh now (some e) run)
    unfolding throw_exception_hook
    throw_exception_hook-Settles e g =
        then-Settles g (record_exception w fresh now e g)
          (λ g1. run_hook run g1.engine.original_throw_exception_hook g1)
          (record_exception-Settles e g)
          (λ g1. run_hook-Settles g1.engine.original_throw_exception_hook g1)

    pub yar_client_run-Settles :
        (order : Baggage → Baggage) (c : Call) (i : Option ℕ)
        → Settles (yar_client_run w order now c run i)
    unfolding yar_headers
    yar_client_run-Settles order c none g =
        run_original-Settles g.engine.yar_client_class.originals (command_name c) g
    yar_client_run-Settles order c (some i) g =
        then-Settles g (yar_headers w order now i g)
          (λ h. run_original run h.engine.yar_client_class.originals (command_name c) h)
          (bind-Always (SameHooks g) (trace_headers w order now i g) _
            (λ headers _. self-SameHooks g))
          (λ h. run_original-Settles h.engine.yar_client_class.originals (command_name c) h)
