-- ===== src/Entry.antt =====
-- opentelemetry.cc: what PHP calls of the extension, and when: `PHP_MINIT_FUNCTION` when a process
-- starts, once its settings are read, `PHP_RINIT_FUNCTION` and `PHP_RSHUTDOWN_FUNCTION` around each
-- request, and `PHP_MSHUTDOWN_FUNCTION` when the process ends. The table of the settings is in
-- Ini.antt.
pub mod Process
use opentelemetry_php_ext.Common.{List, [], ◌∷◌, Option, some, ◌>>=◌}
use opentelemetry_php_ext.Provider.State.{Fresh}
use opentelemetry_php_ext.Core.Globals.{Globals, World}
use opentelemetry_php_ext.Core.Lifecycle.{
  Times, module_init, module_shutdown, request_init, request_shutdown,
}
use opentelemetry_php_ext.Handlers.{Run}
use opentelemetry_php_ext.Requests.{WebRequest, run_script}

-- The functions of a module that PHP calls; each reports success.
pub record ModuleEntry : Type 0 where
  pub module_startup_func : World → Globals → Globals
  pub module_shutdown_func : World → Globals → Globals
  pub request_startup_func : World → Fresh → Globals → Option Globals
  pub request_shutdown_func : World → Times → Globals → Option Globals

-- `opentelemetry_module_entry`.
unfoldable pub opentelemetry_module_entry : ModuleEntry
opentelemetry_module_entry = record {
  module_startup_func = module_init;
  module_shutdown_func = module_shutdown;
  request_startup_func = request_init;
  request_shutdown_func = request_shutdown;
}

-- One request, as PHP runs it with a module.
unfoldable pub run_request : ModuleEntry → Run → WebRequest → Globals → Option Globals
unfolding run_script
run_request entry run r g = do
  started ← entry.request_startup_func r.world r.fresh g
  ran ← run_script r.world run r.script started
  entry.request_shutdown_func r.world r.times ran

unfoldable pub run_requests : ModuleEntry → Run → List WebRequest → Globals → Option Globals
unfolding run_request
run_requests entry run [] g = some g
run_requests entry run (r ∷ requests) g =
    run_request entry run r g >>= run_requests entry run requests

-- A process: its start, its requests, and its end.
unfoldable pub run_process : ModuleEntry → Run → World → List WebRequest → Globals → Option Globals
unfolding run_requests
run_process entry run w requests g = do
  served ← run_requests entry run requests (entry.module_startup_func w g)
  some (entry.module_shutdown_func w served)
