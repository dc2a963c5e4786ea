-- ===== src/Handlers/Mysqli.antt =====
-- src/zend_hook_mysqli.cc: the handler of the functions and methods of mysqli.
use opentelemetry_php_ext.Common.{
  ℕ, List, [], ◌∷◌, Option, none, some, Bytes, text, c_str, bytes_eq, if◌then◌else◌,
}
use opentelemetry_php_ext.Span.{ℤ, KeyValue, kind_client, set_string_attribute}
use opentelemetry_php_ext.Provider.State.{Fresh}
use opentelemetry_php_ext.Provider.Finish.{ok_end}
use opentelemetry_php_ext.Core.Globals.{Globals, World}
use opentelemetry_php_ext.Sdk.Attributes.{Zval, string}
use opentelemetry_php_ext.Handlers.{
  Call, Run, around, run_original, class_name, command_name, span_name, add_stacktrace,
}
use opentelemetry_php_ext.Handlers.Peers.{IsAddress, set_peer_port}

-- The statement is the first argument of a method, and the second of a function.
abbrev first_argument : List Zval → Option Zval
first_argument [] = none
first_argument (a ∷ args) = some a

abbrev second_argument : List Zval → Option Zval
second_argument [] = none
second_argument (a ∷ args) = first_argument args

unfoldable pub mysqli_statement : Call → Option Zval
mysqli_statement c =
    if bytes_eq (class_name c) (text "mysqli")
    then first_argument c.args
    else second_argument c.args

abbrev with_statement : Option Zval → List KeyValue → List KeyValue
with_statement (some (string s)) attributes =
    set_string_attribute attributes (text "db.statement") (c_str s)
with_statement statement attributes = attributes

-- The host and the port of the connection, if it is there.
abbrev with_server : IsAddress → Option (Bytes × ℤ) → List KeyValue → List KeyValue
with_server is_address none attributes = attributes
with_server is_address (some (host, port)) attributes =
    set_peer_port is_address (c_str host) port
      (set_string_attribute attributes (text "net.transport") (text "IP.TCP"))

unfoldable pub mysqli_attributes : IsAddress → Option (Bytes × ℤ) → Call → List KeyValue
unfolding mysqli_statement set_peer_port
mysqli_attributes is_address server c = with_server is_address server (
    with_statement (mysqli_statement c)
      (add_stacktrace c.callers (set_string_attribute [] (text "db.system") (text "mysql"))))

-- `opentelemetry_mysqli_handler`.
unfoldable pub mysqli_handler :
    World → Fresh → ℕ → IsAddress → Option (Bytes × ℤ) → Call → Run → Globals → Option Globals
unfolding mysqli_attributes
mysqli_handler w fresh now is_address server c run g =
    around w fresh (span_name c) kind_client (some (mysqli_attributes is_address server c))
      (λ i h. run_original run h.engine.mysqli_originals (command_name c) h) (ok_end now) g
