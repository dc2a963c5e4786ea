-- ===== src/Hooks/Engine.antt =====
-- src/zend_hook.cc and the `register_zend_hook_*` functions: what they change in the engine and in
-- the static variables of the hooks.
use opentelemetry_php_ext.Common.{ℕ, List, [], Bytes}
use opentelemetry_php_ext.Hooks.Names.{
  curl_functions, mec_keys_commands, mec_str_keys_commands, mec_hit_keys_commands,
  pdo_keys_commands, pdo_stm_keys_commands, client_keys_commands, server_keys_commands,
}
use opentelemetry_php_ext.Hooks.RedisNames.{redis_keys_commands}
use opentelemetry_php_ext.Hooks.MysqliNames.{mysqli_keys_commands}
use opentelemetry_php_ext.Hooks.CurlErrors.{error_maps}
use opentelemetry_php_ext.Hooks.Registry.{
  error, exception, curl, memcached, redis, rediscluster, pdo, pdo_statement, mysqli, yar_client,
  yar_server, Handler, hook, Table, register_all, unregister_all, ClassHook, hook_class,
  unhook_class,
}

-- The vectors of names that the hooks fill when they register and clear when they unregister.
pub record Commands : Type 0 where
  pub redis_keys : List Bytes
  pub mec_keys : List Bytes
  pub mec_str_keys : List Bytes
  pub mec_hit_keys : List Bytes
  pub pdo_keys : List Bytes
  pub pdo_stm_keys : List Bytes
  pub mysqli_keys : List Bytes
  pub client_keys : List Bytes
  pub server_keys : List Bytes
  pub curl_errors : List (ℕ × Bytes)

-- `functions` is the function table; each class has the table of its methods.
pub record Engine : Type 0 where
  pub functions : Table
  pub curl_originals : Table
  pub mysqli_originals : Table
  pub redis_class : ClassHook
  pub rediscluster_class : ClassHook
  pub memcached_class : ClassHook
  pub pdo_class : ClassHook
  pub pdostatement_class : ClassHook
  pub yar_client_class : ClassHook
  pub yar_server_class : ClassHook
  pub error_cb : Handler
  pub original_error_cb : Handler
  pub throw_exception_hook : Handler
  pub original_throw_exception_hook : Handler
  pub commands : Commands

unfoldable pub register_error : Engine → Engine
register_error e = record e { original_error_cb = e.error_cb; error_cb = hook error }

unfoldable pub unregister_error : Engine → Engine
unregister_error e = record e { error_cb = e.original_error_cb }

unfoldable pub register_exception : Engine → Engine
register_exception e = record e {
  original_throw_exception_hook = e.throw_exception_hook;
  throw_exception_hook = hook exception;
}

unfoldable pub unregister_exception : Engine → Engine
unregister_exception e = record e { throw_exception_hook = e.original_throw_exception_hook }

-- The originals of curl are four variables, one for each function.
unfoldable pub register_curl : Engine → Engine
register_curl e =
    let h =
      register_all curl curl_functions
        (record { table = e.functions; originals = e.curl_originals }) in
    record e {
      functions = h.table;
      curl_originals = h.originals;
      commands = record (e.commands) { curl_errors = error_maps };
    }

unfoldable pub unregister_curl : Engine → Engine
unregister_curl e =
    let h =
      unregister_all curl_functions
        (record { table = e.functions; originals = e.curl_originals }) in
    record e { functions = h.table; commands = record (e.commands) { curl_errors = [] } }

unfoldable pub register_yar : Engine → Engine
register_yar e = record e {
  yar_client_class = hook_class yar_client client_keys_commands e.yar_client_class;
  yar_server_class = hook_class yar_server server_keys_commands e.yar_server_class;
  commands = record (e.commands) {
    client_keys = client_keys_commands;
    server_keys = server_keys_commands;
  };
}

unfoldable pub unregister_yar : Engine → Engine
unregister_yar e = record e {
  yar_client_class = unhook_class e.commands.client_keys e.yar_client_class;
  yar_server_class = unhook_class e.commands.server_keys e.yar_server_class;
  commands = record (e.commands) { client_keys = []; server_keys = [] };
}

unfoldable pub register_memcached : Engine → Engine
register_memcached e = record e {
  memcached_class = hook_class memcached mec_keys_commands e.memcached_class;
  commands = record (e.commands) {
    mec_keys = mec_keys_commands;
    mec_str_keys = mec_str_keys_commands;
    mec_hit_keys = mec_hit_keys_commands;
  };
}

unfoldable pub unregister_memcached : Engine → Engine
unregister_memcached e = record e {
  memcached_class = unhook_class e.commands.mec_keys e.memcached_class;
  commands = record (e.commands) { mec_keys = []; mec_str_keys = []; mec_hit_keys = [] };
}

unfoldable pub register_redis : Engine → Engine
register_redis e = record e {
  redis_class = hook_class redis redis_keys_commands e.redis_class;
  rediscluster_class = hook_class rediscluster redis_keys_commands e.rediscluster_class;
  commands = record (e.commands) { redis_keys = redis_keys_commands };
}

unfoldable pub unregister_redis : Engine → Engine
unregister_redis e = record e {
  redis_class = unhook_class e.commands.redis_keys e.redis_class;
  rediscluster_class = unhook_class e.commands.redis_keys e.rediscluster_class;
  commands = record (e.commands) { redis_keys = [] };
}

unfoldable pub register_pdo : Engine → Engine
register_pdo e = record e {
  pdo_class = hook_class pdo pdo_keys_commands e.pdo_class;
  commands = record (e.commands) { pdo_keys = pdo_keys_commands };
}

unfoldable pub unregister_pdo : Engine → Engine
unregister_pdo e = record e {
  pdo_class = unhook_class e.commands.pdo_keys e.pdo_class;
  commands = record (e.commands) { pdo_keys = [] };
}

unfoldable pub register_pdo_statement : Engine → Engine
register_pdo_statement e = record e {
  pdostatement_class = hook_class pdo_statement pdo_stm_keys_commands e.pdostatement_class;
  commands = record (e.commands) { pdo_stm_keys = pdo_stm_keys_commands };
}

unfoldable pub unregister_pdo_statement : Engine → Engine
unregister_pdo_statement e = record e {
  pdostatement_class = unhook_class e.commands.pdo_stm_keys e.pdostatement_class;
  commands = record (e.commands) { pdo_stm_keys = [] };
}

unfoldable pub register_mysqli : Engine → Engine
register_mysqli e =
    let h =
      register_all mysqli mysqli_keys_commands
        (record { table = e.functions; originals = e.mysqli_originals }) in
    record e {
      functions = h.table;
      mysqli_originals = h.originals;
      commands = record (e.commands) { mysqli_keys = mysqli_keys_commands };
    }

unfoldable pub unregister_mysqli : Engine → Engine
unregister_mysqli e =
    let h =
      unregister_all e.commands.mysqli_keys
        (record { table = e.functions; originals = e.mysqli_originals }) in
    record e { functions = h.table; commands = record (e.commands) { mysqli_keys = [] } }
