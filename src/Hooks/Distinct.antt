-- ===== src/Hooks/Distinct.antt =====
-- src/zend_hook_*.cc: no list of hooked names holds a name twice.
use opentelemetry_php_ext.Common.{◌≡◌, refl, true}
use opentelemetry_php_ext.Hooks.Names.{
  curl_functions, mec_keys_commands, pdo_keys_commands, pdo_stm_keys_commands, client_keys_commands,
  server_keys_commands,
}
use opentelemetry_php_ext.Hooks.RedisNames.{redis_keys_commands}
use opentelemetry_php_ext.Hooks.MysqliNames.{mysqli_keys_commands}
use opentelemetry_php_ext.Hooks.Restore.{distinct, has}
use opentelemetry_php_ext.Hooks.Undo.{apart}

pub distinct_redis : distinct redis_keys_commands ≡ true
unfolding distinct redis_keys_commands
distinct_redis = refl

pub distinct_mysqli : distinct mysqli_keys_commands ≡ true
unfolding distinct mysqli_keys_commands
distinct_mysqli = refl

pub distinct_memcached : distinct mec_keys_commands ≡ true
unfolding distinct mec_keys_commands
distinct_memcached = refl

pub distinct_curl : distinct curl_functions ≡ true
unfolding distinct curl_functions
distinct_curl = refl

pub distinct_pdo : distinct pdo_keys_commands ≡ true
unfolding distinct pdo_keys_commands
distinct_pdo = refl

pub distinct_statement : distinct pdo_stm_keys_commands ≡ true
unfolding distinct has pdo_stm_keys_commands
distinct_statement = refl

pub distinct_client : distinct client_keys_commands ≡ true
unfolding distinct has client_keys_commands
distinct_client = refl

pub distinct_server : distinct server_keys_commands ≡ true
unfolding distinct has server_keys_commands
distinct_server = refl

pub apart_functions : apart curl_functions mysqli_keys_commands ≡ true
unfolding apart has curl_functions mysqli_keys_commands
apart_functions = refl
