-- ===== src/Hooks/Unregister.antt =====
-- src/zend_hook.cc: unregistering undoes registering.
use opentelemetry_php_ext.Common.{◌≡◌, arith}
use opentelemetry_php_ext.Hooks.Names.{
  curl_functions, mec_keys_commands, pdo_keys_commands, pdo_stm_keys_commands, client_keys_commands,
  server_keys_commands,
}
use opentelemetry_php_ext.Hooks.RedisNames.{redis_keys_commands}
use opentelemetry_php_ext.Hooks.MysqliNames.{mysqli_keys_commands}
use opentelemetry_php_ext.Hooks.Registry.{
  redis, rediscluster, memcached, pdo, pdo_statement, yar_client, yar_server, curl, mysqli,
}
use opentelemetry_php_ext.Hooks.Restore.{unregister-register}
use opentelemetry_php_ext.Hooks.Engine
use opentelemetry_php_ext.Hooks.Engine.{
  register_error, unregister_error, register_exception, unregister_exception, register_curl,
  unregister_curl, register_yar, unregister_yar, register_memcached, unregister_memcached,
  register_redis, unregister_redis, register_pdo, unregister_pdo, register_pdo_statement,
  unregister_pdo_statement, register_mysqli, unregister_mysqli,
}
use opentelemetry_php_ext.Hooks.{Enabled, register_zend_hook, unregister_zend_hook}
use opentelemetry_php_ext.Hooks.Undo.{unhook-hook, functions_back, on}
use opentelemetry_php_ext.Hooks.Distinct.{
  distinct_redis, distinct_mysqli, distinct_memcached, distinct_curl, distinct_pdo,
  distinct_statement, distinct_client, distinct_server, apart_functions,
}

-- All that PHP dispatches by is as it was.
pub record IsRestored (e q : Engine.Engine) : Type 0 where
  pub functions : q.functions ≡ e.functions
  pub redis : q.redis_class.class_table ≡ e.redis_class.class_table
  pub rediscluster : q.rediscluster_class.class_table ≡ e.rediscluster_class.class_table
  pub memcached : q.memcached_class.class_table ≡ e.memcached_class.class_table
  pub pdo : q.pdo_class.class_table ≡ e.pdo_class.class_table
  pub pdostatement : q.pdostatement_class.class_table ≡ e.pdostatement_class.class_table
  pub yar_client : q.yar_client_class.class_table ≡ e.yar_client_class.class_table
  pub yar_server : q.yar_server_class.class_table ≡ e.yar_server_class.class_table
  pub error_cb : q.error_cb ≡ e.error_cb
  pub throw_exception_hook : q.throw_exception_hook ≡ e.throw_exception_hook

module _ (g : Enabled) (e : Engine.Engine) where
  -- The engine after both.
  abbrev both : Engine.Engine
  both = unregister_zend_hook g (register_zend_hook g e)

  back_redis : both.redis_class.class_table ≡ e.redis_class.class_table
  unfolding register_zend_hook unregister_zend_hook register_error unregister_error
      register_exception unregister_exception register_curl unregister_curl register_yar
      unregister_yar register_memcached unregister_memcached register_redis unregister_redis
      register_pdo unregister_pdo register_pdo_statement unregister_pdo_statement register_mysqli
      unregister_mysqli
  back_redis = ground (arith, unhook-hook redis redis_keys_commands e.redis_class distinct_redis)

  back_rediscluster : both.rediscluster_class.class_table ≡ e.rediscluster_class.class_table
  unfolding register_zend_hook unregister_zend_hook register_error unregister_error
      register_exception unregister_exception register_curl unregister_curl register_yar
      unregister_yar register_memcached unregister_memcached register_redis unregister_redis
      register_pdo unregister_pdo register_pdo_statement unregister_pdo_statement register_mysqli
      unregister_mysqli
  back_rediscluster =
      ground
        (arith, unhook-hook rediscluster redis_keys_commands e.rediscluster_class distinct_redis)

  back_memcached : both.memcached_class.class_table ≡ e.memcached_class.class_table
  unfolding register_zend_hook unregister_zend_hook register_error unregister_error
      register_exception unregister_exception register_curl unregister_curl register_yar
      unregister_yar register_memcached unregister_memcached register_redis unregister_redis
      register_pdo unregister_pdo register_pdo_statement unregister_pdo_statement register_mysqli
      unregister_mysqli
  back_memcached =
      ground (arith, unhook-hook memcached mec_keys_commands e.memcached_class distinct_memcached)

  back_pdo : both.pdo_class.class_table ≡ e.pdo_class.class_table
  unfolding register_zend_hook unregister_zend_hook register_error unregister_error
      register_exception unregister_exception register_curl unregister_curl register_yar
      unregister_yar register_memcached unregister_memcached register_redis unregister_redis
      register_pdo unregister_pdo register_pdo_statement unregister_pdo_statement register_mysqli
      unregister_mysqli
  back_pdo = ground (arith, unhook-hook pdo pdo_keys_commands e.pdo_class distinct_pdo)

  back_statement : both.pdostatement_class.class_table ≡ e.pdostatement_class.class_table
  unfolding register_zend_hook unregister_zend_hook register_error unregister_error
      register_exception unregister_exception register_curl unregister_curl register_yar
      unregister_yar register_memcached unregister_memcached register_redis unregister_redis
      register_pdo unregister_pdo register_pdo_statement unregister_pdo_statement register_mysqli
      unregister_mysqli
  back_statement = ground (
    arith,
    unhook-hook pdo_statement pdo_stm_keys_commands e.pdostatement_class distinct_statement,
  )

  back_client : both.yar_client_class.class_table ≡ e.yar_client_class.class_table
  unfolding register_zend_hook unregister_zend_hook register_error unregister_error
      register_exception unregister_exception register_curl unregister_curl register_yar
      unregister_yar register_memcached unregister_memcached register_redis unregister_redis
      register_pdo unregister_pdo register_pdo_statement unregister_pdo_statement register_mysqli
      unregister_mysqli
  back_client =
      ground (arith, unhook-hook yar_client client_keys_commands e.yar_client_class distinct_client)

  back_server : both.yar_server_class.class_table ≡ e.yar_server_class.class_table
  unfolding register_zend_hook unregister_zend_hook register_error unregister_error
      register_exception unregister_exception register_curl unregister_curl register_yar
      unregister_yar register_memcached unregister_memcached register_redis unregister_redis
      register_pdo unregister_pdo register_pdo_statement unregister_pdo_statement register_mysqli
      unregister_mysqli
  back_server =
      ground (arith, unhook-hook yar_server server_keys_commands e.yar_server_class distinct_server)

  back_error : both.error_cb ≡ e.error_cb
  unfolding register_zend_hook unregister_zend_hook register_error unregister_error
      register_exception unregister_exception register_curl unregister_curl register_yar
      unregister_yar register_memcached unregister_memcached register_redis unregister_redis
      register_pdo unregister_pdo register_pdo_statement unregister_pdo_statement register_mysqli
      unregister_mysqli
  back_error = ground arith

  back_exception : both.throw_exception_hook ≡ e.throw_exception_hook
  unfolding register_zend_hook unregister_zend_hook register_error unregister_error
      register_exception unregister_exception register_curl unregister_curl register_yar
      unregister_yar register_memcached unregister_memcached register_redis unregister_redis
      register_pdo unregister_pdo register_pdo_statement unregister_pdo_statement register_mysqli
      unregister_mysqli
  back_exception = ground arith

  back_functions : both.functions ≡ e.functions
  unfolding register_zend_hook unregister_zend_hook register_error unregister_error
      register_exception unregister_exception register_curl unregister_curl register_yar
      unregister_yar register_memcached unregister_memcached register_redis unregister_redis
      register_pdo unregister_pdo register_pdo_statement unregister_pdo_statement register_mysqli
      unregister_mysqli
  back_functions = ground (
    arith,
    unregister-register curl curl_functions (on e.functions e.curl_originals) distinct_curl,
    unregister-register mysqli mysqli_keys_commands (on e.functions e.mysqli_originals)
        distinct_mysqli,
    functions_back curl mysqli curl_functions mysqli_keys_commands e.functions e.curl_originals
        e.mysqli_originals distinct_curl distinct_mysqli apart_functions,
  )

-- Whatever hooks are enabled and whatever the tables held, unregistering after registering leaves
-- every function, every method of a hooked class, the error callback and the exception hook with the
-- handlers that they had before.
pub unregister-register_zend_hook :
    (g : Enabled) (e : Engine.Engine)
    → IsRestored e (unregister_zend_hook g (register_zend_hook g e))
unregister-register_zend_hook g e = record {
  functions = back_functions g e;
  redis = back_redis g e;
  rediscluster = back_rediscluster g e;
  memcached = back_memcached g e;
  pdo = back_pdo g e;
  pdostatement = back_statement g e;
  yar_client = back_client g e;
  yar_server = back_server g e;
  error_cb = back_error g e;
  throw_exception_hook = back_exception g e;
}
