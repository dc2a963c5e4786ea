-- ===== src/Handlers/Sources.antt =====
-- src/zend_hook_pdo.cc, src/zend_hook_pdo_statement.cc: what both read of a connection, and the
-- text of an error.
use opentelemetry_php_ext.Common.{
  ℕ, zero, suc, Bool, true, false, ◌&&◌, ◌||◌, List, [], ◌∷◌, ◌++◌, Option, none, some, Bytes, text,
  c_str, bytes_eq, leb, length, if◌then◌else◌,
}
use opentelemetry_php_ext.Span.{ℤ, pos, negsuc, KeyValue, set_string_attribute, set_int64_attribute}
use opentelemetry_php_ext.Text.{explode, is_equal}
use opentelemetry_php_ext.Text.Decimal.{strtol, to_string}
use opentelemetry_php_ext.Handlers.Peers.{IsAddress, set_peer}

-- A connection: its driver, if that is set, and the driver's name, the user, and the data source.
pub record Connection : Type 0 where
  pub driver : Option (Option Bytes)
  pub username : Option Bytes
  pub data_source : Option Bytes

-- A regex token iterator gives no token for an empty text behind the last delimiter.
drop_last_empty : List Bytes → List Bytes
drop_last_empty [] = []
drop_last_empty (x ∷ []) = x ∷ []
drop_last_empty (x ∷ [] ∷ []) = x ∷ []
drop_last_empty (x ∷ (c ∷ y) ∷ []) = x ∷ (c ∷ y) ∷ []
drop_last_empty (x ∷ y ∷ z ∷ rest) = x ∷ drop_last_empty (y ∷ z ∷ rest)

unfoldable pub tokens : Bytes → Bytes → List Bytes
unfolding drop_last_empty
tokens delimiter s = drop_last_empty (explode delimiter s)

abbrev to_int : ℕ × Bool → ℤ
to_int (n, false) = pos n
to_int (zero, true) = pos zero
to_int (suc n, true) = negsuc n

-- Whether `k` is `key`, or, where the prefix of the driver may stand, is `key` behind "mysql:".
abbrev is_key : Bool → Bytes → Bytes → Bool
is_key prefixed key k = bytes_eq k key || (prefixed && bytes_eq k (text "mysql:" ++ key))

unfoldable pub set_source_item : IsAddress → Bool → List Bytes → List KeyValue → List KeyValue
unfolding set_peer
set_source_item is_address prefixed (k ∷ v ∷ more) attributes =
    if is_key prefixed (text "host") k
    then set_peer is_address v attributes
    else if is_key prefixed (text "port") k
    then set_int64_attribute attributes (text "net.peer.port") (to_int (strtol v))
    else if is_key prefixed (text "dbname") k
    then set_string_attribute attributes (text "db.name") v
    else attributes
set_source_item is_address prefixed kv attributes = attributes

set_source_items : IsAddress → Bool → List Bytes → List KeyValue → List KeyValue
unfolding set_source_item tokens
set_source_items is_address prefixed [] attributes = attributes
set_source_items is_address prefixed (item ∷ items) attributes =
    set_source_items is_address prefixed items
      (set_source_item is_address prefixed (tokens (text "=") item) attributes)

-- The attributes of a data source.
unfoldable pub set_source : IsAddress → Bool → Bytes → List KeyValue → List KeyValue
unfolding set_source_items tokens
set_source is_address prefixed source attributes =
    set_string_attribute
      (set_source_items is_address prefixed (tokens (text ";") source)
        (set_string_attribute attributes (text "db.connection_string") source))
      (text "net.transport") (text "IP.TCP")

-- `memcpy` of the driver's name into 64 bytes, which must leave a zero behind it.
unfoldable pub copy_driver_name : Bytes → Option Bytes
copy_driver_name name = if leb 64 (length name) then none else some (c_str name)

-- What `fetch_err` gives: the code of the driver, 0 if there is none, and a text, if there is one.
pub record DriverError : Type 0 where
  pub native_code : ℤ
  pub supp : Option Bytes

abbrev int_text : ℤ → Bytes
int_text (pos n) = to_string n
int_text (negsuc n) = b'-' ∷ to_string (suc n)

-- `"SQLSTATE[%s] [%ld] %s"`.
unfoldable pub error_text : Bytes → ℤ → Bytes → Bytes
error_text code native supp =
    text "SQLSTATE[" ++ c_str code ++ text "] [" ++ int_text native ++ text "] " ++ c_str supp

-- `PDO_ERR_NONE`.
unfoldable pub is_error_none : Bytes → Bool
is_error_none code = is_equal code (text "00000")
