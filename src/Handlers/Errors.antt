-- ===== src/Handlers/Errors.antt =====
-- src/zend_hook_error.cc: the callback for errors of PHP.
use opentelemetry_php_ext.Common.{
  ℕ, ◌==◌, ◌&&◌, ◌||◌, not, Bool, false, List, [], ◌∷◌, ◌++◌, Option, some, Bytes, text, c_str,
  bytes_eq, is_empty, if◌then◌else◌, ◌>>=◌,
}
use opentelemetry_php_ext.Span.{KeyValue, kind_internal, set_string_attribute}
use opentelemetry_php_ext.Text.{is_equal}
use opentelemetry_php_ext.Text.Decimal.{to_string}
use opentelemetry_php_ext.Provider.{slot, change_slot}
use opentelemetry_php_ext.Provider.State.{Slot, Fresh, latest_span}
use opentelemetry_php_ext.Provider.Finish.{ok_end, error_end}
use opentelemetry_php_ext.Core.Globals.{Globals, World, is_has_provider, change_provider}
use opentelemetry_php_ext.Handlers.{Run, around}
use opentelemetry_php_ext.Handlers.Frames.{Stack, find_trace_add_scope_name, find_code_stacktrace}

-- An error: its type, whether it is of those that `error_reporting` names, its place, its text, and
-- the frames that run.
pub record PhpError : Type 0 where
  pub type_of : ℕ
  pub is_reported : Bool
  pub filename : Bytes
  pub lineno : ℕ
  pub message : Bytes
  pub caller : Stack

abbrev is_one_of : ℕ → List ℕ → Bool
is_one_of n [] = false
is_one_of n (m ∷ ms) = n == m || is_one_of n ms

-- E_ERROR, E_PARSE, E_CORE_ERROR, E_COMPILE_ERROR, E_USER_ERROR, E_RECOVERABLE_ERROR; E_WARNING,
-- E_CORE_WARNING, E_COMPILE_WARNING, E_USER_WARNING; E_NOTICE, E_USER_NOTICE, E_STRICT,
-- E_DEPRECATED, E_USER_DEPRECATED.
unfoldable pub level_of : ℕ → Bytes
level_of type_of =
    if is_one_of type_of (1 ∷ 4 ∷ 16 ∷ 64 ∷ 256 ∷ 4096 ∷ [])
    then text "PHP_ERROR_FATAL"
    else if is_one_of type_of (2 ∷ 32 ∷ 128 ∷ 512 ∷ [])
    then text "PHP_ERROR_WARNING"
    else if is_one_of type_of (8 ∷ 1024 ∷ 2048 ∷ 8192 ∷ 16384 ∷ [])
    then text "PHP_ERROR_NOTICE"
    else text "PHP_ERROR_" ++ to_string type_of

-- `isCollector`.
unfoldable pub is_collector : Bytes → Bytes → Bool
is_collector error_level level =
    if is_equal (text "E_NONE") error_level
    then false
    else if is_equal (text "E_ERROR") error_level
        && (bytes_eq level (text "PHP_ERROR_WARNING") || bytes_eq level (text "PHP_ERROR_NOTICE"))
    then false
    else not (is_equal (text "E_WARNING") error_level && bytes_eq level (text "PHP_ERROR_NOTICE"))

-- The name of the frame, or that of the first span, which is read through its pointer.
unfoldable pub caller_name : Stack → Slot → Option Bytes
caller_name (some f ∷ callers) t = some (find_trace_add_scope_name f)
caller_name callers t = do first ← latest_span t; some first.name

abbrev pub known_name : Bytes → Bytes
known_name name = if is_empty name then text "unknow_function_name" else name

abbrev unless_empty : Bytes → Bytes → List KeyValue → List KeyValue
unless_empty key [] attributes = attributes
unless_empty key (c ∷ s) attributes = set_string_attribute attributes key (c ∷ s)

unfoldable pub error_attributes : PhpError → List KeyValue
unfolding level_of
error_attributes e =
    let a1 = set_string_attribute [] (text "exception.type") (level_of e.type_of) in
    let a2 = unless_empty (text "exception.message") (c_str e.message) a1 in
    let place = c_str e.filename ++ text ":" ++ to_string e.lineno in
    let a3 = unless_empty (text "exception.stacktrace") place a2 in
    unless_empty (text "code.stacktrace") (find_code_stacktrace e.caller) a3

abbrev pub end_first : ℕ → Bytes → Slot → Option Slot
end_first now message t = do i ← t.first_span; error_end now i message t

-- A reported error outside any function is the error of the first span too.
unfoldable pub first_error : World → ℕ → PhpError → Globals → Option Globals
unfolding change_provider change_slot
first_error w now e g =
    if e.is_reported && is_empty (find_code_stacktrace e.caller)
    then change_provider (change_slot w.host (end_first now (c_str e.message))) g
    else some g

unfoldable pub error_span_end : ℕ → PhpError → ℕ → Slot → Option Slot
error_span_end now e i t =
    if e.is_reported then error_end now i (c_str e.message) t else ok_end now i t

-- What is recorded of an error that is collected.
unfoldable pub record_error : World → Fresh → ℕ → PhpError → Globals → Option Globals
record_error w fresh now e g = do
  p ← g.provider
  name ← caller_name e.caller (slot w.host p)
  around w fresh (known_name name) kind_internal (some (error_attributes e))
      (λ i. first_error w now e) (error_span_end now e) g

-- `opentelemetry_error_cb`: the callback that it took the place of comes last. It is not tested for a
-- null pointer; PHP sets its own callback before it starts any module, so that there always is one.
unfoldable pub error_cb : World → Fresh → ℕ → PhpError → Run → Globals → Option Globals
unfolding is_collector level_of is_has_provider record_error
error_cb w fresh now e run g = do
  g1 ←
      if is_collector g.error_level (level_of e.type_of) && is_has_provider g
      then record_error w fresh now e g
      else some g
  run g1.engine.original_error_cb g1
