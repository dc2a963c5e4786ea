-- ===== src/Requests.antt =====
-- src/core.cc with the hooks: web requests, each from `start_tracer` through the hooked calls of its
-- script to `shutdown_tracer`, as `opentelemetry_request_init` and `opentelemetry_request_shutdown`
-- call these while the extension is enabled.
pub mod Children
pub mod Spans
pub mod Carried
pub mod Served
pub mod Nested
pub mod Settled
use opentelemetry_php_ext.Common.{
  ℕ, zero, suc, ◌≡◌, List, [], ◌∷◌, Option, some, Bytes, ◌>>=◌, if◌then◌else◌,
}
use opentelemetry_php_ext.Span.{ℤ, KeyValue, kind_server}
use opentelemetry_php_ext.Provider.State.{Fresh, Baggage}
use opentelemetry_php_ext.Core.Globals.{Globals, World}
use opentelemetry_php_ext.Core.Tracer.{start_tracer}
use opentelemetry_php_ext.Core.Lifecycle.{Times, shutdown_tracer}
use opentelemetry_php_ext.Hooks.Registry.{Group, Handler, native, hook, null}
use opentelemetry_php_ext.Handlers.{Call, Run}
use opentelemetry_php_ext.Handlers.Peers.{IsAddress}
use opentelemetry_php_ext.Handlers.Redis.{RedisClient, redis_attributes, redis_handler}
use opentelemetry_php_ext.Handlers.Memcached.{MemcachedClient, memcached_handler}
use opentelemetry_php_ext.Handlers.Sources.{Connection}
use opentelemetry_php_ext.Handlers.Pdo.{PdoErrors, pdo_attributes, pdo_handler}
use opentelemetry_php_ext.Handlers.PdoStatement.{
  Statement, StatementErrors, statement_attributes, pdo_statement_handler,
}
use opentelemetry_php_ext.Handlers.Mysqli.{mysqli_handler}
use opentelemetry_php_ext.Handlers.Yar.{yar_server_handler, yar_client_handler}
use opentelemetry_php_ext.Handlers.Errors.{PhpError, error_cb}
use opentelemetry_php_ext.Handlers.Exceptions.{
  PhpException, throw_exception_hook, throw_exception_hook_8,
}

-- What PHP enters a hook with, and what the clients answer.
pub data HookEntry : Type 0 where
  redis : IsAddress → RedisClient → Call → HookEntry
  memcached : IsAddress → MemcachedClient → Call → HookEntry
  pdo : IsAddress → Option Connection → Option PdoErrors → Call → HookEntry
  pdo_statement : IsAddress → Option Statement → Option StatementErrors → Call → HookEntry
  mysqli : IsAddress → Option (Bytes × ℤ) → Call → HookEntry
  yar_client : ℕ → (Baggage → Baggage) → Option Bytes → Call → HookEntry
  yar_server : Call → HookEntry
  php_error : PhpError → HookEntry
  php_exception : PhpException → HookEntry

-- One entry, with the ids that it draws and the time at which it ends.
pub record HookedCall : Type 0 where
  pub fresh : Fresh
  pub now : ℕ
  pub entry : HookEntry

abbrev enter : World → Run → Fresh → ℕ → HookEntry → Globals → Option Globals
enter w run fresh now (redis is_address client c) =
    redis_handler w fresh now is_address client c run
enter w run fresh now (memcached is_address client c) =
    memcached_handler w fresh now is_address client c run
enter w run fresh now (pdo is_address dbh errors c) =
    pdo_handler w fresh now is_address dbh errors c run
enter w run fresh now (pdo_statement is_address stmt errors c) =
    pdo_statement_handler w fresh now is_address stmt errors c run
enter w run fresh now (mysqli is_address server c) =
    mysqli_handler w fresh now is_address server c run
enter w run fresh now (yar_client sent order uri c) =
    yar_client_handler w fresh sent now order uri c run
enter w run fresh now (yar_server c) = yar_server_handler w fresh now c run
enter w run fresh now (php_error e) = error_cb w fresh now e run
enter w run fresh now (php_exception e) =
    if w.is_php_8 then throw_exception_hook_8 run else throw_exception_hook w fresh now (some e) run

-- The handlers that a script enters, one after another.
unfoldable pub run_script : World → Run → List HookedCall → Globals → Option Globals
run_script w run [] g = some g
run_script w run (h ∷ script) g = enter w run h.fresh h.now h.entry g >>= run_script w run script

-- Reading the arguments of the call does not fault or throw: a port of Redis is a number, and the
-- user of a PDO is a text.
abbrev pub IsComputable : HookEntry → Type 0
IsComputable (redis is_address client c) =
    (keys : List Bytes) → (a : List KeyValue) × (redis_attributes is_address client keys c ≡ some a)
IsComputable (pdo is_address dbh errors c) =
    (a : List KeyValue) × (pdo_attributes is_address dbh c ≡ some a)
IsComputable (pdo_statement is_address stmt errors c) =
    (a : List KeyValue) × (statement_attributes is_address stmt c ≡ some a)
IsComputable entry = Unit

-- PHP's own functions on a process with hooks, to a depth of calls: a function of PHP's may call
-- others, hooked or not, as `natives` says; a handler is entered with the call that `calls` gives for
-- the depth and its group.
unfoldable pub php_run :
    World → (Run → ℕ → Globals → Option Globals) → (ℕ → Group → HookedCall) → ℕ → Run
php_run w natives calls zero h g = some g
php_run w natives calls (suc depth) (native n) g = natives (php_run w natives calls depth) n g
php_run w natives calls (suc depth) (hook group) g =
    let call = calls depth group in
    enter w (php_run w natives calls depth) call.fresh call.now call.entry g
php_run w natives calls (suc depth) null g = some g

-- A web request, as the process meets it.
pub record WebRequest : Type 0 where
  pub world : World
  pub fresh : Fresh
  pub times : Times
  pub script : List HookedCall

unfoldable pub serve : Run → WebRequest → Globals → Option Globals
unfolding run_script start_tracer shutdown_tracer
serve run r g = do
  started ← start_tracer r.world r.fresh [] [] kind_server g
  ran ← run_script r.world run r.script started
  shutdown_tracer r.world r.times ran

-- The requests that one process serves in turn.
unfoldable pub serve_all : Run → List WebRequest → Globals → Option Globals
unfolding serve
serve_all run [] g = some g
serve_all run (r ∷ requests) g = serve run r g >>= serve_all run requests
