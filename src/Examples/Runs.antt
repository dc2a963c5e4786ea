-- ===== src/Examples/Runs.antt =====
-- Tests: the handlers run on concrete calls (src/zend_hook_redis.cc, src/zend_hook_pdo.cc,
-- src/zend_hook_curl.cc, src/utils.cc, src/otel_exporter.cc).
use opentelemetry_php_ext.Common.{◌≡◌, refl, true, false, [], ◌∷◌, none, some, text, c_str, map}
use opentelemetry_php_ext.Span.{pos, negsuc, string_value, int_value}
use opentelemetry_php_ext.Text.{is_equal, trim, explode, is_prefix}
use opentelemetry_php_ext.Text.Decimal.{stoll, strtol, to_string}
use opentelemetry_php_ext.Sdk.Attributes.{array, string, scalar}
use opentelemetry_php_ext.Handlers.{Call, lower, function_name, command_name, add_stacktrace}
use opentelemetry_php_ext.Handlers.Frames.{find_code_stacktrace}
use opentelemetry_php_ext.Handlers.Peers.{set_peer, set_peer_port, set_statement, is_member}
use opentelemetry_php_ext.Handlers.Redis.{
  RedisClient, redis_attributes, redis_argument, redis_arguments, redis_peer,
}
use opentelemetry_php_ext.Handlers.Sources.{set_source, set_source_item, tokens, error_text}
use opentelemetry_php_ext.Handlers.Errors.{level_of}

abbrev client : RedisClient
client = record { gethost = some (text "10.0.0.9"); getport = some (pos 6379) }

abbrev connect : Call
connect = record {
  func = record { function_name = some (text "Connect"); scope = none; is_static = false };
  callers = [];
  args = string (text "b") ∷ string (text "x1") ∷ [];
}

abbrev get : Call
get = record {
  func = record { function_name = some (text "GET"); scope = none; is_static = false };
  callers = [];
  args = string (text "Key") ∷ array (text "[1]") ∷ scalar (text "2") ∷ [];
}

-- A port that is no number ends the process.
connect_throws : redis_attributes (λ host. false) client [] connect ≡ none
unfolding redis_attributes redis_arguments redis_argument set_peer command_name function_name lower
    c_str is_equal stoll add_stacktrace find_code_stacktrace is_member
connect_throws = refl

get_attributes :
    redis_attributes (λ host. true) client (text "get" ∷ []) get
    ≡ some (
        record { key = text "db.system"; value = string_value (text "redis") }
        ∷ record { key = text "db.operation"; value = string_value (text "get") }
        ∷ record { key = text "net.transport"; value = string_value (text "IP.TCP") }
        ∷ record { key = text "net.peer.ip"; value = string_value (text "10.0.0.9") }
        ∷ record { key = text "net.peer.port"; value = int_value (pos 6379) }
        ∷ record { key = text "db.cache.key"; value = string_value (text "Key") }
        ∷ record { key = text "db.statement"; value = string_value (text "get key [1]2") }
        ∷ [])
unfolding redis_attributes redis_arguments redis_argument redis_peer set_peer set_peer_port
    command_name function_name lower c_str is_equal add_stacktrace find_code_stacktrace is_member
    set_statement trim
get_attributes = refl

source_attributes :
    set_source (λ host. false) true (text "mysql:host=db;port=3306;dbname=shop;") []
    ≡ record {
      key = text "db.connection_string";
      value = string_value (text "mysql:host=db;port=3306;dbname=shop;");
    }
      ∷ record { key = text "net.peer.name"; value = string_value (text "db") }
      ∷ record { key = text "net.peer.port"; value = int_value (pos 3306) }
      ∷ record { key = text "db.name"; value = string_value (text "shop") }
      ∷ record { key = text "net.transport"; value = string_value (text "IP.TCP") }
      ∷ []
unfolding set_source set_source_item set_peer tokens explode strtol is_prefix
source_attributes = refl

error_message :
    error_text (text "42000") (negsuc 4) (text "syntax") ≡ text "SQLSTATE[42000] [-5] syntax"
unfolding error_text c_str to_string
error_message = refl

numbers :
    map stoll (text " +12x" ∷ text "-0" ∷ text "9223372036854775808" ∷ text "" ∷ [])
    ≡ some (pos 12) ∷ some (pos 0) ∷ none ∷ none ∷ []
unfolding stoll
numbers = refl

levels :
    map level_of (1 ∷ 512 ∷ 8192 ∷ 3 ∷ [])
    ≡ text "PHP_ERROR_FATAL"
      ∷ text "PHP_ERROR_WARNING"
      ∷ text "PHP_ERROR_NOTICE"
      ∷ text "PHP_ERROR_3"
      ∷ []
unfolding level_of to_string
levels = refl
