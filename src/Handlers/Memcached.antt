-- ===== src/Handlers/Memcached.antt =====
-- src/zend_hook_memcached.cc: the handler of the methods of Memcached.
use opentelemetry_php_ext.Common.{
  ℕ, suc, ◌==◌, Bool, true, false, List, [], ◌∷◌, ◌++◌, Option, none, some, Bytes, text, c_str,
  if◌then◌else◌, ◌>>=◌,
}
use opentelemetry_php_ext.Span.{ℤ, KeyValue, kind_client, set_string_attribute, set_bool_attribute}
use opentelemetry_php_ext.Text.{is_equal}
use opentelemetry_php_ext.Provider.State.{Slot, Fresh, span_at, set_span}
use opentelemetry_php_ext.Provider.Finish.{ok_end, error_end}
use opentelemetry_php_ext.Core.Globals.{Globals, World}
use opentelemetry_php_ext.Sdk.Attributes.{Zval, array, string, scalar}
use opentelemetry_php_ext.Handlers.{
  Call, Run, around, run_original, command_name, span_name, add_stacktrace,
}
use opentelemetry_php_ext.Handlers.Peers.{is_member, IsAddress, set_peer_port, set_statement}

-- What the client answers: `getserverbykey`, the host and the port of the array that it gives, and
-- `getresultmessage` after the call, if that is a string.
pub record MemcachedClient : Type 0 where
  pub getserverbykey : Bytes → Option (Bytes × ℤ)
  pub getresultmessage : Option Bytes

abbrev set_server : IsAddress → Option (Bytes × ℤ) → List KeyValue → List KeyValue
set_server is_address none attributes = attributes
set_server is_address (some (host, port)) attributes =
    set_peer_port is_address (c_str host) port
      (set_string_attribute attributes (text "net.transport") (text "IP.TCP"))

-- The attributes of a first argument that is a string: the key, and the server of the key.
unfoldable pub memcached_key :
    IsAddress → MemcachedClient → List Bytes → Bytes → Bytes → List KeyValue → List KeyValue
unfolding set_peer_port
memcached_key is_address client str_keys cmd key attributes =
    let a1 = set_string_attribute attributes (text "db.cache.key") key in
    if is_member str_keys cmd then set_server is_address (client.getserverbykey key) a1 else a1

-- The loop over the arguments: the text of the command, and the attributes.
unfoldable pub memcached_arguments :
    IsAddress
    → MemcachedClient
    → List Bytes
    → Bytes
    → ℕ
    → List Zval
    → Bytes
    → List KeyValue
    → Bytes × List KeyValue
unfolding memcached_key
memcached_arguments is_address client str_keys cmd i [] command attributes = (command, attributes)
memcached_arguments is_address client str_keys cmd i (array json ∷ args) command attributes =
    memcached_arguments is_address client str_keys cmd (suc i) args (command ++ json) attributes
memcached_arguments is_address client str_keys cmd i (string s ∷ args) command attributes =
    memcached_arguments is_address client str_keys cmd (suc i) args (command ++ c_str s ++ text " ")
      (if i == 1
        then memcached_key is_address client str_keys cmd (c_str s) attributes
        else attributes)
memcached_arguments is_address client str_keys cmd i (scalar s ∷ args) command attributes =
    memcached_arguments is_address client str_keys cmd (suc i) args (command ++ c_str s ++ text " ")
      attributes

unfoldable pub memcached_attributes :
    IsAddress → MemcachedClient → List Bytes → Call → List KeyValue
unfolding memcached_arguments set_statement
memcached_attributes is_address client str_keys c =
    let cmd = command_name c in
    let a1 = set_string_attribute [] (text "db.system") (text "memcached") in
    let a2 = set_string_attribute a1 (text "db.operation") cmd in
    let a3 = add_stacktrace c.callers a2 in
    let read = memcached_arguments is_address client str_keys cmd 1 c.args (cmd ++ text " ") a3 in
    set_statement (text "db.statement") (read.0) (read.1)

abbrev pub set_hit : Bool → ℕ → Slot → Option Slot
set_hit hit i t = do
  span ← span_at t i
  some (
      set_span t i
        (record span { attributes = set_bool_attribute span.attributes (text "db.cache.hit") hit }))

-- How the span ends, by the result message of the client.
abbrev pub memcached_result : ℕ → Bool → Option Bytes → ℕ → Slot → Option Slot
memcached_result now hits none i t = error_end now i (text "UN_KNOW") t
memcached_result now hits (some message) i t =
    if is_equal message (text "SUCCESS")
    then (if hits then set_hit true i t else some t) >>= ok_end now i
    else if is_equal message (text "NOT FOUND")
    then set_hit false i t >>= ok_end now i
    else error_end now i (c_str message) t

unfoldable pub memcached_end : ℕ → MemcachedClient → List Bytes → Bytes → ℕ → Slot → Option Slot
unfolding is_member
memcached_end now client hit_keys cmd i t =
    memcached_result now (is_member hit_keys cmd) client.getresultmessage i t

-- `opentelemetry_memcached_handler`.
unfoldable pub memcached_handler :
    World → Fresh → ℕ → IsAddress → MemcachedClient → Call → Run → Globals → Option Globals
unfolding memcached_attributes memcached_end
memcached_handler w fresh now is_address client c run g =
    around w fresh (span_name c) kind_client
      (some (memcached_attributes is_address client g.engine.commands.mec_str_keys c))
      (λ i h. run_original run h.engine.memcached_class.originals (command_name c) h)
      (memcached_end now client g.engine.commands.mec_hit_keys (command_name c)) g
