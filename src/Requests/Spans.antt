-- ===== src/Requests/Spans.antt =====
-- src/core.cc with the hooks: a script enters its handlers, and each leaves its span.
use opentelemetry_php_ext.Common.{
  ℕ, ◌≡◌, refl, List, [], ◌∷◌, some, inl, inr, Bool-cases, All, ap, not, if◌then◌else◌, length,
}
use opentelemetry_php_ext.Provider.{Provider, slot}
use opentelemetry_php_ext.Provider.State.{Slot, Fresh}
use opentelemetry_php_ext.Provider.Traces.{IsOpen, IsUuid}
use opentelemetry_php_ext.Core.Globals.{Globals, World}
use opentelemetry_php_ext.Handlers.{Run}
use opentelemetry_php_ext.Handlers.Errors.{PhpError, error_cb, level_of, is_collector}
use opentelemetry_php_ext.Handlers.Exceptions.{throw_exception_hook, throw_exception_hook_8}
use opentelemetry_php_ext.Handlers.Kept.{self-Keeps}
use opentelemetry_php_ext.Handlers.Traced.{Answers, Behaves, same-Answers}
use opentelemetry_php_ext.Handlers.Behaviours.{AllBehave}
use opentelemetry_php_ext.Handlers.Calls.{
  redis_handler-Traced, memcached_handler-Traced, pdo_handler-Traced, pdo_statement_handler-Traced,
  mysqli_handler-Traced, yar_client_handler-Traced, yar_server_handler-Traced,
}
use opentelemetry_php_ext.Handlers.Alerts.{
  run_hook-Behaves, error_cb-Traced, throw_exception_hook-Traced,
}
use opentelemetry_php_ext.Requests.{
  HookEntry, redis, memcached, pdo, pdo_statement, mysqli, yar_client, yar_server, php_error,
  php_exception, HookedCall, enter, run_script, IsComputable,
}
use opentelemetry_php_ext.Requests.Children.{
  IsRunnable, is_traced, no_call, Leaves, Ran, Traced-Leaves, Keeps-Leaves, Traced-Keeps, cons-Ran,
}

module _ (w : World) (run : Run) (all : AllBehave w run) where
  -- An error that is not collected goes to the callback that was there before.
  error_cb-Behaves :
      (fresh : Fresh) (now : ℕ) (e : PhpError)
      → IsUuid fresh.span_uuid
      → Behaves w (error_cb w fresh now e run)
  unfolding error_cb
  error_cb-Behaves fresh now e uuid g p t has is_slot o =
      elim (Bool-cases (is_collector g.error_level (level_of e.type_of))) [
        | inl collected ↦
            Traced-Keeps w _ t o now _
              (error_cb-Traced w fresh now run all uuid g p t has is_slot o e collected)
        | inr passed ↦ rw (error_cb, passed) (all g.engine.original_error_cb g p t has is_slot o)
      ]

  enter-Leaves :
      (fresh : Fresh) (now : ℕ) (entry : HookEntry)
      → IsUuid fresh.span_uuid
      → IsComputable entry
      → (g : Globals) (p : Provider) (t : Slot) → g.provider ≡ some p
      → slot w.host p ≡ t
      → (o : IsOpen t)
      → Answers w
          (enter w run fresh now entry g)
          (Leaves w (record { fresh = fresh; now = now; entry = entry }) t o)
  unfolding throw_exception_hook_8
  enter-Leaves fresh now (redis is_address client c) uuid computes g p t has is_slot o =
      let (a, e) = computes g.engine.commands.redis_keys in
      Traced-Leaves w (record { fresh = fresh; now = now; entry = (redis is_address client c) }) _ t
        o _ _ _
        (redis_handler-Traced w fresh now c run all uuid g p t has is_slot o is_address client a e)
  enter-Leaves fresh now (memcached is_address client c) uuid computes g p t has is_slot o =
      Traced-Leaves w (record { fresh = fresh; now = now; entry = (memcached is_address client c) })
        _ t o _ _ _
        (memcached_handler-Traced w fresh now c run all uuid g p t has is_slot o is_address client)
  enter-Leaves fresh now (pdo is_address dbh errors c) uuid (a, e) g p t has is_slot o =
      Traced-Leaves w (record { fresh = fresh; now = now; entry = (pdo is_address dbh errors c) }) _
        t o _ _ _
        (pdo_handler-Traced w fresh now c run all uuid g p t has is_slot o is_address dbh errors a
          e)
  enter-Leaves fresh now (pdo_statement is_address stmt errors c) uuid (a, e) g p t has is_slot o =
      Traced-Leaves w
        (record { fresh = fresh; now = now; entry = (pdo_statement is_address stmt errors c) }) _ t
        o _ _ _
        (pdo_statement_handler-Traced w fresh now c run all uuid g p t has is_slot o is_address stmt
          errors a e)
  enter-Leaves fresh now (mysqli is_address server c) uuid computes g p t has is_slot o =
      Traced-Leaves w (record { fresh = fresh; now = now; entry = (mysqli is_address server c) }) _
        t o _ _ _
        (mysqli_handler-Traced w fresh now c run all uuid g p t has is_slot o is_address server)
  enter-Leaves fresh now (yar_client sent order uri c) uuid computes g p t has is_slot o =
      Traced-Leaves w (record { fresh = fresh; now = now; entry = (yar_client sent order uri c) }) _
        t o _ _ _
        (yar_client_handler-Traced w fresh now c run all uuid g p t has is_slot o sent order uri)
  enter-Leaves fresh now (yar_server c) uuid computes g p t has is_slot o =
      Traced-Leaves w (record { fresh = fresh; now = now; entry = (yar_server c) }) _ t o _ _ _
        (yar_server_handler-Traced w fresh now c run all uuid g p t has is_slot o)
  enter-Leaves fresh now (php_error e) uuid computes g p t has is_slot o =
      Keeps-Leaves w (record { fresh = fresh; now = now; entry = php_error e }) _ t o refl
        (error_cb-Behaves fresh now e uuid g p t has is_slot o)
  enter-Leaves fresh now (php_exception e) uuid computes g p t has is_slot o =
      let h : HookedCall = record { fresh = fresh; now = now; entry = php_exception e } in
      elim (Bool-cases w.is_php_8) [
        | inl later ↦ Keeps-Leaves w h _ t o (ap not later) (
            same-Answers w _ _ _
              (ap
                (λ b.
                  (if b
                      then throw_exception_hook_8 run
                      else throw_exception_hook w fresh now (some e) run)
                    g)
                later)
              (run_hook-Behaves w fresh now run all uuid g p t has is_slot o
                g.engine.original_throw_exception_hook g p t has is_slot o))
        | inr before ↦ Traced-Leaves w h _ t o _ _ _ (
            same-Answers w _ _ _
              (ap
                (λ b.
                  (if b
                      then throw_exception_hook_8 run
                      else throw_exception_hook w fresh now (some e) run)
                    g)
                before)
              (throw_exception_hook-Traced w fresh now run all uuid g p t has is_slot o e))
      ]

  pub enter-Behaves :
      (call : HookedCall) → IsRunnable call → Behaves w (enter w run call.fresh call.now call.entry)
  enter-Behaves call (uuid, computes) g p t has is_slot o =
      let (g1, p1, t1, e1, has1, is_slot1, l) =
        enter-Leaves call.fresh call.now call.entry uuid computes g p t has is_slot o in
      (g1, p1, t1, e1, has1, is_slot1, l.keeps)

  -- A script runs to its end, and leaves its spans.
  pub run_script-Ran :
      (script : List HookedCall)
      → All IsRunnable script
      → (g : Globals) (p : Provider) (t : Slot) → g.provider ≡ some p
      → slot w.host p ≡ t
      → (o : IsOpen t) → Answers w (run_script w run script g) (Ran w script t o)
  unfolding run_script
  run_script-Ran [] h g p t has is_slot o = (
    g,
    p,
    t,
    refl,
    has,
    is_slot,
    record { keeps = self-Keeps t o; children = no_call (length o.request.spans) },
  )
  run_script-Ran (x ∷ script) ((uuid, computes), h) g p t has is_slot o =
      let (g1, p1, t1, e1, has1, is_slot1, l) =
        enter-Leaves x.fresh x.now x.entry uuid computes g p t has is_slot o in
      let (g2, p2, t2, e2, has2, is_slot2, rest) =
        run_script-Ran script h g1 p1 t1 has1 is_slot1 l.keeps.after in
      (
        g2,
        p2,
        t2,
        rw e1 e2,
        has2,
        is_slot2,
        cons-Ran w (is_traced w x.entry) x script t o t1 t2 l refl rest,
      )
