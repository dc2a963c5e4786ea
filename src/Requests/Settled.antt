-- ===== src/Requests/Settled.antt =====
-- src/core.cc with the hooks: scripts leave the switches and the hooks of the extension as they are.
use opentelemetry_php_ext.Common.{
  ℕ, zero, suc, List, [], ◌∷◌, Option, some, Bool, true, false, if◌then◌else◌,
}
use opentelemetry_php_ext.Core.Globals.{Globals, World}
use opentelemetry_php_ext.Core.Settled.{
  Always, SameHooks, self-SameHooks, Settles, then-Settles, start_tracer-Settles,
  shutdown_tracer-Settles,
}
use opentelemetry_php_ext.Span.{kind_server}
use opentelemetry_php_ext.Core.Tracer.{start_tracer}
use opentelemetry_php_ext.Core.Lifecycle.{shutdown_tracer}
use opentelemetry_php_ext.Provider.State.{Fresh}
use opentelemetry_php_ext.Hooks.Registry.{Group, native, hook, null}
use opentelemetry_php_ext.Handlers.{Run, command_name}
use opentelemetry_php_ext.Handlers.Redis.{redis_handler}
use opentelemetry_php_ext.Handlers.Memcached.{memcached_handler}
use opentelemetry_php_ext.Handlers.Pdo.{pdo_handler}
use opentelemetry_php_ext.Handlers.PdoStatement.{pdo_statement_handler}
use opentelemetry_php_ext.Handlers.Mysqli.{mysqli_handler}
use opentelemetry_php_ext.Handlers.Yar.{yar_client_handler, yar_server_handler}
use opentelemetry_php_ext.Handlers.Exceptions.{throw_exception_hook, throw_exception_hook_8}
use opentelemetry_php_ext.Handlers.Settled.{
  AllSettle, around-Settles, run_original-Settles, redis_original-Settles, yar_server_run-Settles,
  yar_client_run-Settles, run_hook-Settles, error_cb-Settles, throw_exception_hook-Settles,
}
use opentelemetry_php_ext.Requests.{
  HookEntry, redis, memcached, pdo, pdo_statement, mysqli, yar_client, yar_server, php_error,
  php_exception, HookedCall, WebRequest, enter, run_script, php_run, serve,
}

pub enter-Settles :
    (w : World) (run : Run)
    → AllSettle run
    → (fresh : Fresh) (now : ℕ) (entry : HookEntry) → Settles (enter w run fresh now entry)
unfolding redis_handler memcached_handler pdo_handler pdo_statement_handler mysqli_handler
    yar_client_handler yar_server_handler throw_exception_hook_8
enter-Settles w run all fresh now (redis is_address client c) g =
    around-Settles w fresh _ _ _ _ _ (λ i. redis_original-Settles run all c) g
enter-Settles w run all fresh now (memcached is_address client c) g =
    around-Settles w fresh _ _ _ _ _
      (λ i h. run_original-Settles run all h.engine.memcached_class.originals (command_name c) h) g
enter-Settles w run all fresh now (pdo is_address dbh errors c) g =
    around-Settles w fresh _ _ _ _ _
      (λ i h. run_original-Settles run all h.engine.pdo_class.originals (command_name c) h) g
enter-Settles w run all fresh now (pdo_statement is_address stmt errors c) g =
    around-Settles w fresh _ _ _ _ _
      (λ i h. run_original-Settles run all h.engine.pdostatement_class.originals (command_name c) h)
      g
enter-Settles w run all fresh now (mysqli is_address server c) g =
    around-Settles w fresh _ _ _ _ _
      (λ i h. run_original-Settles run all h.engine.mysqli_originals (command_name c) h) g
enter-Settles w run all fresh now (yar_client sent order uri c) g =
    around-Settles w fresh _ _ _ _ _ (yar_client_run-Settles run all w fresh sent order c) g
enter-Settles w run all fresh now (yar_server c) g =
    around-Settles w fresh _ _ _ _ _ (yar_server_run-Settles run all c) g
enter-Settles w run all fresh now (php_error e) g = error_cb-Settles run all w fresh now e g
enter-Settles w run all fresh now (php_exception e) g = by w.is_php_8
  where
    by :
        (b : Bool)
        → Always (SameHooks g) (
            (if b
                then throw_exception_hook_8 run
                else throw_exception_hook w fresh now (some e) run)
              g)
    by true = run_hook-Settles run all g.engine.original_throw_exception_hook g
    by false = throw_exception_hook-Settles run all w fresh now e g

pub run_script-Settles :
    (w : World) (run : Run)
    → AllSettle run
    → (script : List HookedCall) → Settles (run_script w run script)
unfolding run_script
run_script-Settles w run all [] g = self-SameHooks g
run_script-Settles w run all (h ∷ script) g =
    then-Settles g (enter w run h.fresh h.now h.entry g) (run_script w run script)
      (enter-Settles w run all h.fresh h.now h.entry g) (run_script-Settles w run all script)

pub serve-Settles : (run : Run) → AllSettle run → (r : WebRequest) → Settles (serve run r)
unfolding serve
serve-Settles run all r g =
    then-Settles g (start_tracer r.world r.fresh [] [] kind_server g) _
      (start_tracer-Settles r.world r.fresh [] [] kind_server g)
      (λ m.
        then-Settles m (run_script r.world run r.script m) (shutdown_tracer r.world r.times)
          (run_script-Settles r.world run all r.script m) (shutdown_tracer-Settles r.world r.times))

-- To whatever depth handlers are entered inside one another.
pub php_run-AllSettle :
    (w : World) (natives : Run → ℕ → Globals → Option Globals) (calls : ℕ → Group → HookedCall)
    (depth : ℕ)
    → ((run : Run) → AllSettle run → (n : ℕ) → Settles (natives run n))
    → AllSettle (php_run w natives calls depth)
unfolding php_run
php_run-AllSettle w natives calls zero keep h g = self-SameHooks g
php_run-AllSettle w natives calls (suc depth) keep (native n) g =
    keep (php_run w natives calls depth) (php_run-AllSettle w natives calls depth keep) n g
php_run-AllSettle w natives calls (suc depth) keep (hook group) g =
    enter-Settles w (php_run w natives calls depth) (php_run-AllSettle w natives calls depth keep)
      (calls depth group).fresh (calls depth group).now (calls depth group).entry g
php_run-AllSettle w natives calls (suc depth) keep null g = self-SameHooks g
