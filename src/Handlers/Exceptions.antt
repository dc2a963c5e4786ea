-- ===== src/Handlers/Exceptions.antt =====
-- src/zend_hook_exception.cc: the hook for exceptions that are thrown.
use opentelemetry_php_ext.Common.{
  ℕ, List, [], ◌++◌, Option, none, some, Bytes, text, c_str, if◌then◌else◌, ◌>>=◌,
}
use opentelemetry_php_ext.Span.{KeyValue, kind_internal, set_string_attribute}
use opentelemetry_php_ext.Text.{is_equal}
use opentelemetry_php_ext.Text.Decimal.{to_string}
use opentelemetry_php_ext.Provider.{slot, change_slot}
use opentelemetry_php_ext.Provider.State.{Slot, Fresh}
use opentelemetry_php_ext.Provider.Finish.{error_end, set_redis_exception}
use opentelemetry_php_ext.Core.Globals.{Globals, World, change_provider}
use opentelemetry_php_ext.Hooks.Registry.{Handler, null}
use opentelemetry_php_ext.Handlers.{Run, around}
use opentelemetry_php_ext.Handlers.Frames.{Stack, find_code_stacktrace}
use opentelemetry_php_ext.Handlers.Errors.{caller_name}

-- An exception: its class, its properties, and the frames that run.
pub record PhpException : Type 0 where
  pub class_of : Bytes
  pub message : Bytes
  pub file : Bytes
  pub line : ℕ
  pub caller : Stack

unfoldable pub exception_attributes : PhpException → List KeyValue
exception_attributes e =
    let a1 = set_string_attribute [] (text "exception.type") (c_str e.class_of) in
    let a2 = set_string_attribute a1 (text "exception.message") (c_str e.message) in
    let place = c_str e.file ++ text ":" ++ to_string e.line in
    let a3 = set_string_attribute a2 (text "exception.stacktrace") place in
    set_string_attribute a3 (text "code.stacktrace") (find_code_stacktrace e.caller)

abbrev pub keep_message : Bytes → Slot → Option Slot
keep_message message t = some (set_redis_exception message t)

-- The message of a `RedisException` is kept for the handler of Redis.
unfoldable pub keep_exception : World → PhpException → Globals → Option Globals
unfolding change_provider change_slot set_redis_exception
keep_exception w e g =
    if is_equal (text "RedisException") e.class_of
    then change_provider (change_slot w.host (keep_message (c_str e.message))) g
    else some g

-- The span of an exception. Its end stands before its attributes in the code, which are set on the
-- same span.
unfoldable pub record_exception : World → Fresh → ℕ → PhpException → Globals → Option Globals
record_exception w fresh now e g = elim g.provider [
  | none ↦ some g
  | some p ↦ do
    name ← caller_name e.caller (slot w.host p)
    around w fresh name kind_internal (some (exception_attributes e)) (λ i. keep_exception w e)
        (λ i. error_end now i (c_str e.message)) g
]

abbrev pub run_hook : Run → Handler → Globals → Option Globals
run_hook run null g = some g
run_hook run h g = run h g

-- `opentelemetry_throw_exception_hook` before PHP 8; a null pointer is no exception. The hook that
-- it took the place of comes last, if there is one.
unfoldable pub throw_exception_hook :
    World → Fresh → ℕ → Option PhpException → Run → Globals → Option Globals
unfolding record_exception
throw_exception_hook w fresh now none run g = run_hook run g.engine.original_throw_exception_hook g
throw_exception_hook w fresh now (some e) run g = do
  g1 ← record_exception w fresh now e g
  run_hook run g1.engine.original_throw_exception_hook g1

-- The same from PHP 8 on.
unfoldable pub throw_exception_hook_8 : Run → Globals → Option Globals
throw_exception_hook_8 run g = run_hook run g.engine.original_throw_exception_hook g
