-- ===== src/Handlers/Commands.antt =====
-- src/zend_hook_redis.cc: the attributes of a call that does not connect.
use opentelemetry_php_ext.Common.{
  ℕ, suc, ◌≡◌, sym, ap, ◌∙◌, false, List, [], ◌∷◌, ◌++◌, some, Bytes, text, c_str, arith,
  append_assoc, append-nil, if◌then◌else◌, ◌>>=◌,
}
use opentelemetry_php_ext.Span.{KeyValue, set_string_attribute}
use opentelemetry_php_ext.Text.{is_equal}
use opentelemetry_php_ext.Sdk.Attributes.{Zval, array, string, scalar}
use opentelemetry_php_ext.Handlers.{Call, lower, command_name, add_stacktrace}
use opentelemetry_php_ext.Handlers.Peers.{IsAddress, is_member, set_statement}
use opentelemetry_php_ext.Handlers.Redis.{
  RedisClient, redis_peer, redis_argument, redis_arguments, redis_attributes,
}

-- The arguments as a statement has them: arrays as their JSON, other values in small letters and
-- with a blank behind them.
abbrev pub command_text : List Zval → Bytes
command_text [] = []
command_text (array json ∷ args) = json ++ command_text args
command_text (string s ∷ args) = (lower (c_str s) ++ text " ") ++ command_text args
command_text (scalar s ∷ args) = (lower (c_str s) ++ text " ") ++ command_text args

-- The key: a first argument that is no array.
abbrev pub with_key : List Zval → List KeyValue → List KeyValue
with_key (string s ∷ args) attributes =
    set_string_attribute attributes (text "db.cache.key") (c_str s)
with_key (scalar s ∷ args) attributes =
    set_string_attribute attributes (text "db.cache.key") (c_str s)
with_key args attributes = attributes

module _ (is_address : IsAddress) (cmd : Bytes) (e : is_equal cmd (text "connect") ≡ false) where
  argument_first :
      (value : Bytes) (attributes : List KeyValue)
      → redis_argument is_address cmd 1 value attributes
        ≡ some (set_string_attribute attributes (text "db.cache.key") value)
  unfolding redis_argument
  argument_first value attributes = rw e

  argument_later :
      (i : ℕ) (value : Bytes) (attributes : List KeyValue)
      → redis_argument is_address cmd (suc (suc i)) value attributes ≡ some attributes
  unfolding redis_argument
  argument_later i value attributes = rw e (ground arith)

  arguments_later :
      (i : ℕ) (args : List Zval) (command : Bytes) (attributes : List KeyValue)
      → redis_arguments is_address cmd (suc (suc i)) args command attributes
        ≡ some (command ++ command_text args, attributes)
  unfolding redis_arguments
  arguments_later i [] command attributes =
      ap (λ s. some (s, attributes)) (sym (append-nil command))
  arguments_later i (array json ∷ args) command attributes =
      arguments_later (suc i) args (command ++ json) attributes
      ∙ ap (λ s. some (s, attributes)) (append_assoc command json (command_text args))
  arguments_later i (string s ∷ args) command attributes =
      rw (argument_later i (c_str s) attributes) (
        arguments_later (suc i) args (command ++ (lower (c_str s) ++ text " ")) attributes
        ∙ ap (λ r. some (r, attributes))
            (append_assoc command (lower (c_str s) ++ text " ") (command_text args)))
  arguments_later i (scalar s ∷ args) command attributes =
      rw (argument_later i (c_str s) attributes) (
        arguments_later (suc i) args (command ++ (lower (c_str s) ++ text " ")) attributes
        ∙ ap (λ r. some (r, attributes))
            (append_assoc command (lower (c_str s) ++ text " ") (command_text args)))

  arguments_all :
      (args : List Zval) (command : Bytes) (attributes : List KeyValue)
      → redis_arguments is_address cmd 1 args command attributes
        ≡ some (command ++ command_text args, with_key args attributes)
  unfolding redis_arguments
  arguments_all [] command attributes = ap (λ s. some (s, attributes)) (sym (append-nil command))
  arguments_all (array json ∷ args) command attributes =
      arguments_later 0 args (command ++ json) attributes
      ∙ ap (λ s. some (s, attributes)) (append_assoc command json (command_text args))
  arguments_all (string s ∷ args) command attributes =
      let keyed = set_string_attribute attributes (text "db.cache.key") (c_str s) in
      rw (argument_first (c_str s) attributes) (
        arguments_later 0 args (command ++ (lower (c_str s) ++ text " ")) keyed
        ∙ ap (λ r. some (r, keyed))
            (append_assoc command (lower (c_str s) ++ text " ") (command_text args)))
  arguments_all (scalar s ∷ args) command attributes =
      let keyed = set_string_attribute attributes (text "db.cache.key") (c_str s) in
      rw (argument_first (c_str s) attributes) (
        arguments_later 0 args (command ++ (lower (c_str s) ++ text " ")) keyed
        ∙ ap (λ r. some (r, keyed))
            (append_assoc command (lower (c_str s) ++ text " ") (command_text args)))

-- What is set before the arguments are read.
abbrev pub before_arguments : IsAddress → RedisClient → List Bytes → Call → List KeyValue
before_arguments is_address client keys c =
    let a1 = set_string_attribute [] (text "db.system") (text "redis") in
    let a2 = set_string_attribute a1 (text "db.operation") (command_name c) in
    let a3 = add_stacktrace c.callers a2 in
    let a4 = set_string_attribute a3 (text "net.transport") (text "IP.TCP") in
    if is_member keys (command_name c) then redis_peer is_address client a4 else a4

-- A call of Redis that does not connect gets its attributes, whatever its arguments: the key is the
-- first argument, unless that is an array, and the statement is the command with all its arguments
-- in order.
pub redis_attributes-command_text :
    (is_address : IsAddress) (client : RedisClient) (keys : List Bytes) (c : Call)
    → is_equal (command_name c) (text "connect") ≡ false
    → redis_attributes is_address client keys c
      ≡ some (
          set_statement
            (text "db.statement")
            ((command_name c ++ text " ") ++ command_text c.args)
            (with_key c.args (before_arguments is_address client keys c)))
unfolding redis_attributes
redis_attributes-command_text is_address client keys c e =
    ap (λ m. m >>= λ read. some (set_statement (text "db.statement") (read.0) (read.1)))
      (arguments_all is_address (command_name c) e c.args (command_name c ++ text " ")
        (before_arguments is_address client keys c))
