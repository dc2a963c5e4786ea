-- ===== src/Hooks/Names.antt =====
-- The functions that the hooks replace, as the `register_zend_hook_*` functions list them.
use opentelemetry_php_ext.Common.{List, [], ◌∷◌, Bytes, text}

-- src/zend_hook_curl.cc: the four functions that are bound one by one.
unfoldable pub curl_functions : List Bytes
curl_functions =
    text "curl_exec" ∷ text "curl_setopt" ∷ text "curl_setopt_array" ∷ text "curl_close" ∷ []

-- src/zend_hook_memcached.cc
unfoldable pub mec_keys_commands : List Bytes
mec_keys_commands =
    text "set"
    ∷ text "setbykey"
    ∷ text "setmulti"
    ∷ text "setmultibykey"
    ∷ text "add"
    ∷ text "addbykey"
    ∷ text "replace"
    ∷ text "replacebykey"
    ∷ text "append"
    ∷ text "appendbykey"
    ∷ text "prepend"
    ∷ text "prependbykey"
    ∷ text "cas"
    ∷ text "casbykey"
    ∷ text "get"
    ∷ text "getbykey"
    ∷ text "getmulti"
    ∷ text "getmultibykey"
    ∷ text "getallkeys"
    ∷ text "delete"
    ∷ text "deletebykey"
    ∷ text "deletemulti"
    ∷ text "deletemultibykey"
    ∷ text "increment"
    ∷ text "incrementbykey"
    ∷ text "decrement"
    ∷ text "decrementbykey"
    ∷ text "getstats"
    ∷ text "ispersistent"
    ∷ text "ispristine"
    ∷ text "flush"
    ∷ text "flushbuffers"
    ∷ text "getdelayed"
    ∷ text "getdelayedbykey"
    ∷ text "fetch"
    ∷ text "fetchall"
    ∷ text "getserverlist"
    ∷ text "resetserverlist"
    ∷ text "getversion"
    ∷ text "quit"
    ∷ text "setsaslauthdata"
    ∷ text "touch"
    ∷ text "touchbykey"
    ∷ []

-- src/zend_hook_memcached.cc: commands whose first argument is a key.
unfoldable pub mec_str_keys_commands : List Bytes
mec_str_keys_commands =
    text "set"
    ∷ text "setbykey"
    ∷ text "setmulti"
    ∷ text "setmultibykey"
    ∷ text "add"
    ∷ text "addbykey"
    ∷ text "replace"
    ∷ text "replacebykey"
    ∷ text "append"
    ∷ text "appendbykey"
    ∷ text "prepend"
    ∷ text "prependbykey"
    ∷ text "cas"
    ∷ text "casbykey"
    ∷ text "get"
    ∷ text "getbykey"
    ∷ text "getmulti"
    ∷ text "getmultibykey"
    ∷ text "getallkeys"
    ∷ text "delete"
    ∷ text "deletebykey"
    ∷ text "deletemulti"
    ∷ text "deletemultibykey"
    ∷ text "increment"
    ∷ text "incrementbykey"
    ∷ text "decrement"
    ∷ text "decrementbykey"
    ∷ []

-- src/zend_hook_memcached.cc: commands that may hit or miss.
unfoldable pub mec_hit_keys_commands : List Bytes
mec_hit_keys_commands =
    text "get" ∷ text "getbykey" ∷ text "getmulti" ∷ text "getmultibykey" ∷ text "getallkeys" ∷ []

-- src/zend_hook_pdo.cc
unfoldable pub pdo_keys_commands : List Bytes
pdo_keys_commands =
    text "__construct"
    ∷ text "begintransaction"
    ∷ text "rollback"
    ∷ text "commit"
    ∷ text "exec"
    ∷ text "query"
    ∷ []

-- src/zend_hook_pdo_statement.cc
unfoldable pub pdo_stm_keys_commands : List Bytes
pdo_stm_keys_commands = text "execute" ∷ []

-- src/zend_hook_yar.cc
unfoldable pub client_keys_commands : List Bytes
client_keys_commands = text "__call" ∷ []

-- src/zend_hook_yar.cc
unfoldable pub server_keys_commands : List Bytes
server_keys_commands = text "__construct" ∷ []
