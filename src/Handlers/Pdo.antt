-- ===== src/Handlers/Pdo.antt =====
-- src/zend_hook_pdo.cc: the handler of the methods of PDO.
use opentelemetry_php_ext.Common.{
  ℕ, not, true, List, [], ◌∷◌, Option, none, some, Bytes, text, c_str, bytes_eq, is_empty,
  if◌then◌else◌, ◌>>=◌,
}
use opentelemetry_php_ext.Span.{KeyValue, kind_client, set_string_attribute}
use opentelemetry_php_ext.Provider.State.{Slot, Fresh}
use opentelemetry_php_ext.Provider.Finish.{ok_end, error_end}
use opentelemetry_php_ext.Core.Globals.{Globals, World}
use opentelemetry_php_ext.Sdk.Attributes.{Zval, string}
use opentelemetry_php_ext.Handlers.{
  Call, Run, around, run_original, function_name, command_name, span_name, add_stacktrace,
}
use opentelemetry_php_ext.Handlers.Peers.{IsAddress}
use opentelemetry_php_ext.Handlers.Sources.{
  Connection, set_source, copy_driver_name, DriverError, error_text, is_error_none,
}

-- The connection after the call: its error code, that of its statement, if there is one, and what
-- `fetch_err` gives, if the driver has it and it answers.
pub record PdoErrors : Type 0 where
  pub error_code : Bytes
  pub query_error_code : Option Bytes
  pub fetch_err : Option DriverError

-- The second argument is read as a string without a test.
abbrev pdo_user : List Zval → List KeyValue → Option (List KeyValue)
pdo_user (string user ∷ args) attributes =
    some (set_string_attribute attributes (text "db.user") (c_str user))
pdo_user args attributes = none

-- A first argument that is a string: the statement, or on the constructor the source. The result is
-- the source and the attributes.
unfoldable pub pdo_argument : Bytes → List Zval → List KeyValue → Option (Bytes × List KeyValue)
pdo_argument name (string s ∷ args) attributes =
    if not (bytes_eq name (text "__construct"))
    then some ([], set_string_attribute attributes (text "db.statement") (c_str s))
    else (do more ← pdo_user args attributes; some (c_str s, more))
pdo_argument name args attributes = some ([], attributes)

unfoldable pub pdo_operation : Bytes → List KeyValue → List KeyValue
pdo_operation name attributes =
    if bytes_eq name (text "__construct")
    then set_string_attribute attributes (text "db.operation") (text "connect")
    else if bytes_eq name (text "begintransaction")
    then set_string_attribute attributes (text "db.operation") (text "begin")
    else if bytes_eq name (text "rollback")
    then set_string_attribute attributes (text "db.operation") (text "rollback")
    else if bytes_eq name (text "commit")
    then set_string_attribute attributes (text "db.operation") (text "commit")
    else attributes

-- The name of the driver, if it has one.
abbrev pub driver_name : Option (Option Bytes) → Option Bytes
driver_name none = none
driver_name (some name) = name

-- `db_type`, empty if the driver has no name, and the attributes with it.
unfoldable pub pdo_driver : Option Bytes → List KeyValue → Option (Bytes × List KeyValue)
pdo_driver none attributes = some ([], attributes)
pdo_driver (some name) attributes = do
  db_type ← copy_driver_name name
  some (db_type, set_string_attribute attributes (text "db.system") db_type)

unfoldable pub set_user : Option Bytes → List KeyValue → List KeyValue
set_user none attributes = attributes
set_user (some user) attributes = set_string_attribute attributes (text "db.user") (c_str user)

-- The data source takes the place of the argument, if the driver has a name.
abbrev chosen_source : Option Bytes → Bytes → Bytes → Bytes
chosen_source none db_type source = source
chosen_source (some own) db_type source = if is_empty db_type then source else c_str own

abbrev with_source : IsAddress → Bytes → List KeyValue → List KeyValue
with_source is_address source attributes =
    if is_empty source then attributes else set_source is_address true source attributes

-- Without a name of a driver the system is taken for MySQL.
abbrev default_system : Option Bytes → List KeyValue → List KeyValue
default_system none attributes = set_string_attribute attributes (text "db.system") (text "mysql")
default_system (some name) attributes = attributes

unfoldable pub pdo_connection :
    IsAddress → Option Connection → Bytes → List KeyValue → Option (List KeyValue)
unfolding pdo_driver set_user
pdo_connection is_address none source attributes = some (default_system none attributes)
pdo_connection is_address (some dbh) source attributes = do
  driver ← pdo_driver (driver_name dbh.driver) attributes
  let a2 = set_user dbh.username (driver.1)
  let a3 = with_source is_address (chosen_source dbh.data_source (driver.0) source) a2
  some (default_system (driver_name dbh.driver) a3)

unfoldable pub pdo_attributes : IsAddress → Option Connection → Call → Option (List KeyValue)
unfolding pdo_argument pdo_operation pdo_connection
pdo_attributes is_address dbh c = do
  read ← pdo_argument (function_name c) c.args (add_stacktrace c.callers [])
  pdo_connection is_address dbh (read.0) (pdo_operation (function_name c) (read.1))

-- The code that is reported: of the connection, or of its statement.
abbrev query_error : Option Bytes → Option Bytes
query_error none = none
query_error (some code) = if is_error_none code then none else some code

unfoldable pub pdo_error : PdoErrors → Option Bytes
pdo_error e =
    if is_error_none e.error_code then query_error e.query_error_code else some e.error_code

-- The message, which takes a text of the driver's.
abbrev pdo_message : Bytes → Option DriverError → Option Bytes
pdo_message code none = none
pdo_message code (some e) = elim e.supp [
  | none ↦ none
  | some supp ↦ some (error_text code e.native_code supp)
]

abbrev pub pdo_failure : PdoErrors → Option Bytes → Option Bytes
pdo_failure e none = none
pdo_failure e (some code) = pdo_message code e.fetch_err

abbrev pub end_with : ℕ → Option Bytes → ℕ → Slot → Option Slot
end_with now none i t = ok_end now i t
end_with now (some message) i t = error_end now i message t

unfoldable pub pdo_end : ℕ → Option PdoErrors → ℕ → Slot → Option Slot
unfolding pdo_error
pdo_end now none i t = ok_end now i t
pdo_end now (some e) i t = end_with now (pdo_failure e (pdo_error e)) i t

-- `opentelemetry_pdo_handler`; `dbh` is the connection before the call.
unfoldable pub pdo_handler :
    World
    → Fresh
    → ℕ
    → IsAddress
    → Option Connection
    → Option PdoErrors
    → Call
    → Run
    → Globals
    → Option Globals
unfolding pdo_attributes pdo_end
pdo_handler w fresh now is_address dbh errors c run g =
    around w fresh (span_name c) kind_client (pdo_attributes is_address dbh c)
      (λ i h. run_original run h.engine.pdo_class.originals (command_name c) h) (pdo_end now errors)
      g
