-- ===== src/Handlers/PdoStatement.antt =====
-- src/zend_hook_pdo_statement.cc: the handler of PDOStatement::execute.
use opentelemetry_php_ext.Common.{
  ℕ, false, List, [], ◌++◌, Option, none, some, Bytes, text, c_str, is_empty, if◌then◌else◌, ◌>>=◌,
}
use opentelemetry_php_ext.Span.{KeyValue, kind_client, set_string_attribute}
use opentelemetry_php_ext.Provider.State.{Slot, Fresh}
use opentelemetry_php_ext.Provider.Finish.{ok_end, error_end}
use opentelemetry_php_ext.Core.Globals.{Globals, World}
use opentelemetry_php_ext.Handlers.{
  Call, Run, around, run_original, command_name, span_name, add_stacktrace,
}
use opentelemetry_php_ext.Handlers.Peers.{IsAddress}
use opentelemetry_php_ext.Handlers.Sources.{
  Connection, set_source, copy_driver_name, DriverError, error_text, is_error_none,
}
use opentelemetry_php_ext.Handlers.Pdo.{set_user}

-- A statement: its text, and its connection.
pub record Statement : Type 0 where
  pub query_string : Bytes
  pub dbh : Option Connection

-- The statement after the call.
pub record StatementErrors : Type 0 where
  pub error_code : Bytes
  pub fetch_err : Option DriverError

-- The system, and the name of the driver where it has one.
abbrev statement_driver : Option Bytes → List KeyValue → Option (Bytes × List KeyValue)
statement_driver none attributes = some ([], attributes)
statement_driver (some name) attributes = do
  db_type ← copy_driver_name name
  some (db_type, set_string_attribute attributes (text "db.system") db_type)

abbrev statement_system : Option Bytes → List KeyValue → List KeyValue
statement_system none attributes = set_string_attribute attributes (text "db.system") (text "mysql")
statement_system (some name) attributes = attributes

abbrev statement_source : IsAddress → Bytes → Option Bytes → List KeyValue → List KeyValue
statement_source is_address db_type none attributes = attributes
statement_source is_address db_type (some source) attributes =
    if is_empty db_type then attributes else set_source is_address false (c_str source) attributes

-- A statement without a connection, and a connection without a driver, are read through a null
-- pointer.
unfoldable pub statement_attributes : IsAddress → Option Statement → Call → Option (List KeyValue)
unfolding set_user
statement_attributes is_address none c = some (add_stacktrace c.callers [])
statement_attributes is_address (some stmt) c = do
  dbh ← stmt.dbh
  driver_name ← dbh.driver
  let a1 =
      set_string_attribute (add_stacktrace c.callers []) (text "db.statement")
        (c_str stmt.query_string)
  driver ← statement_driver driver_name a1
  let a3 = statement_system driver_name (set_user dbh.username (driver.1))
  some (statement_source is_address (driver.0) dbh.data_source a3)

-- The message: `"SQLSTATE[%s]"`, or with the driver's code and text where there is a text.
abbrev pub statement_message : Bytes → Option DriverError → Bytes
statement_message code none = text "SQLSTATE[" ++ c_str code ++ text "]"
statement_message code (some e) = elim e.supp [
  | none ↦ text "SQLSTATE[" ++ c_str code ++ text "]"
  | some supp ↦ error_text code e.native_code supp
]

unfoldable pub statement_end : ℕ → Option StatementErrors → ℕ → Slot → Option Slot
statement_end now none i t = ok_end now i t
statement_end now (some e) i t =
    if is_error_none e.error_code
    then ok_end now i t
    else error_end now i (statement_message e.error_code e.fetch_err) t

-- `opentelemetry_pdo_statement_handler`; `stmt` is the statement before the call.
unfoldable pub pdo_statement_handler :
    World
    → Fresh
    → ℕ
    → IsAddress
    → Option Statement
    → Option StatementErrors
    → Call
    → Run
    → Globals
    → Option Globals
unfolding statement_attributes statement_end
pdo_statement_handler w fresh now is_address stmt errors c run g =
    around w fresh (span_name c) kind_client (statement_attributes is_address stmt c)
      (λ i h. run_original run h.engine.pdostatement_class.originals (command_name c) h)
      (statement_end now errors) g
