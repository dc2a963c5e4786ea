-- ===== src/Examples/Tables.antt =====
-- Tests of the hooks and of the module's life: src/zend_hook.cc and src/core.cc.
use opentelemetry_php_ext.Common.{◌≡◌, refl, true, [], ◌∷◌, ◌++◌, none, if◌then◌else◌}
use opentelemetry_php_ext.Hooks.{register_zend_hook, unregister_zend_hook}
use opentelemetry_php_ext.Hooks.Registry.{Hooked}
use opentelemetry_php_ext.Hooks.Unregister.{IsRestored, unregister-register_zend_hook}
use opentelemetry_php_ext.Core.Globals.{remove_queue, open_queue, is_receiver_grpc, is_receiver_udp}
use opentelemetry_php_ext.Core.Consumers.{init_consumers}
use opentelemetry_php_ext.Core.Lifecycle.{module_init, module_shutdown}
use opentelemetry_php_ext.Core.Modules.{module_shutdown-module_init}
use opentelemetry_php_ext.Core.Rounds.{rounds, used_name, used_nums, init_consumers-effects}
use opentelemetry_php_ext.Examples.Data.{functions, engine, enabled, globals, world}

abbrev table : Hooked
table = record { table = functions; originals = λ k. none }

unregister-register_zend_hook_example :
    IsRestored engine (unregister_zend_hook enabled (register_zend_hook enabled engine))
unregister-register_zend_hook_example = unregister-register_zend_hook enabled engine

module_shutdown-module_init_example :
    IsRestored globals.engine (module_shutdown world (module_init world globals)).engine
module_shutdown-module_init_example = module_shutdown-module_init world globals

init_consumers-effects_example :
    ((init_consumers world globals).effects
      ≡ globals.effects
        ++ remove_queue (used_name globals)
          ∷ (if world.queue_opens
              then open_queue (used_name globals)
                ∷ rounds
                    (is_receiver_grpc globals)
                    (is_receiver_udp globals)
                    (used_nums world globals)
                    0
              else []))
    × ((init_consumers world globals).is_init_consumers ≡ true)
init_consumers-effects_example = init_consumers-effects world globals refl
