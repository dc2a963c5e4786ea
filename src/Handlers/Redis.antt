-- ===== src/Handlers/Redis.antt =====
-- src/zend_hook_redis.cc: the handler of the methods of Redis and RedisCluster.
use opentelemetry_php_ext.Common.{
  ℕ, suc, ◌==◌, ◌&&◌, not, List, [], ◌∷◌, ◌++◌, Option, none, some, Bytes, text, c_str, bytes_eq,
  if◌then◌else◌, ◌>>=◌,
}
use opentelemetry_php_ext.Span.{ℤ, KeyValue, kind_client, set_string_attribute, set_int64_attribute}
use opentelemetry_php_ext.Text.{is_equal}
use opentelemetry_php_ext.Text.Decimal.{stoll}
use opentelemetry_php_ext.Provider.State.{Slot, Fresh}
use opentelemetry_php_ext.Provider.Finish.{
  is_redis_exception, get_redis_exception, clear_redis_exception, ok_end, error_end,
}
use opentelemetry_php_ext.Core.Globals.{Globals, World}
use opentelemetry_php_ext.Sdk.Attributes.{Zval, array, string, scalar}
use opentelemetry_php_ext.Handlers.{
  Call, Run, around, run_original, class_name, command_name, span_name, lower, add_stacktrace,
}
use opentelemetry_php_ext.Handlers.Peers.{
  is_member, IsAddress, set_peer, set_peer_port, set_statement,
}

-- What the client answers: `gethost`, if that is a string, and `getport`, if that is a number.
pub record RedisClient : Type 0 where
  pub gethost : Option Bytes
  pub getport : Option ℤ

unfoldable pub redis_peer : IsAddress → RedisClient → List KeyValue → List KeyValue
unfolding set_peer_port
redis_peer is_address client attributes = elim client.gethost [
  | none ↦ attributes
  | some host ↦ elim client.getport [
    | none ↦ attributes
    | some port ↦ set_peer_port is_address (c_str host) port attributes
  ]
]

-- The attribute of argument `i`, whose text is `value`; `std::stoll` throws, and nothing catches it.
unfoldable pub redis_argument :
    IsAddress → Bytes → ℕ → Bytes → List KeyValue → Option (List KeyValue)
unfolding set_peer
redis_argument is_address cmd i value attributes =
    if (i == 1) && not (is_equal cmd (text "connect"))
    then some (set_string_attribute attributes (text "db.cache.key") value)
    else if (i == 1) && is_equal cmd (text "connect")
    then some (set_peer is_address value attributes)
    else if (i == 2) && is_equal cmd (text "connect")
    then (do port ← stoll value; some (set_int64_attribute attributes (text "net.peer.port") port))
    else some attributes

-- The loop over the arguments: the text of the command, and the attributes.
unfoldable pub redis_arguments :
    IsAddress → Bytes → ℕ → List Zval → Bytes → List KeyValue → Option (Bytes × List KeyValue)
unfolding redis_argument
redis_arguments is_address cmd i [] command attributes = some (command, attributes)
redis_arguments is_address cmd i (array json ∷ args) command attributes =
    redis_arguments is_address cmd (suc i) args (command ++ json) attributes
redis_arguments is_address cmd i (string s ∷ args) command attributes = do
  more ← redis_argument is_address cmd i (c_str s) attributes
  redis_arguments is_address cmd (suc i) args (command ++ (lower (c_str s) ++ text " ")) more
redis_arguments is_address cmd i (scalar s ∷ args) command attributes = do
  more ← redis_argument is_address cmd i (c_str s) attributes
  redis_arguments is_address cmd (suc i) args (command ++ (lower (c_str s) ++ text " ")) more

unfoldable pub redis_attributes :
    IsAddress → RedisClient → List Bytes → Call → Option (List KeyValue)
unfolding redis_peer redis_arguments is_member set_statement
redis_attributes is_address client keys c =
    let cmd = command_name c in
    let a1 = set_string_attribute [] (text "db.system") (text "redis") in
    let a2 = set_string_attribute a1 (text "db.operation") cmd in
    let a3 = add_stacktrace c.callers a2 in
    let a4 = set_string_attribute a3 (text "net.transport") (text "IP.TCP") in
    let a5 = if is_member keys cmd then redis_peer is_address client a4 else a4 in
    do
      read ← redis_arguments is_address cmd 1 c.args (cmd ++ text " ") a5
      some (set_statement (text "db.statement") (read.0) (read.1))

-- The original of the class that the method is of.
unfoldable pub redis_original : Run → Call → Globals → Option Globals
redis_original run c g =
    if bytes_eq (class_name c) (text "Redis")
    then run_original run g.engine.redis_class.originals (command_name c) g
    else if bytes_eq (class_name c) (text "RedisCluster")
    then run_original run g.engine.rediscluster_class.originals (command_name c) g
    else some g

-- An exception that was kept for Redis is the end of the span, and is taken back.
unfoldable pub redis_end : ℕ → ℕ → Slot → Option Slot
redis_end now i t =
    if is_redis_exception t
    then (do q ← error_end now i (get_redis_exception t) t; some (clear_redis_exception q))
    else ok_end now i t

-- `opentelemetry_redis_handler`.
unfoldable pub redis_handler :
    World → Fresh → ℕ → IsAddress → RedisClient → Call → Run → Globals → Option Globals
unfolding redis_attributes redis_original redis_end
redis_handler w fresh now is_address client c run g =
    around w fresh (span_name c) kind_client
      (redis_attributes is_address client g.engine.commands.redis_keys c)
      (λ i. redis_original run c) (redis_end now) g
