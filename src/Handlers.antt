-- ===== src/Handlers.antt =====
-- The handlers that the extension puts in place of PHP's (src/zend_hook_redis.cc,
-- src/zend_hook_memcached.cc and the others): what they have in common. A handler opens a span under
-- the first one, runs the function that it stands for, and ends the span.
pub mod Frames
pub mod Kept
pub mod Finishing
pub mod Traced
pub mod Peers
pub mod Redis
pub mod Memcached
pub mod Sources
pub mod Pdo
pub mod PdoStatement
pub mod Mysqli
pub mod Errors
pub mod Exceptions
pub mod Yar
pub mod Behaviours
pub mod Calls
pub mod Noticed
pub mod Alerts
pub mod Settled
pub mod Thrown
pub mod Failures
pub mod Commands
pub mod Curl
pub mod CurlOptions
pub mod Transfers
pub mod Executions
use opentelemetry_php_ext.Common.{
  ℕ, ◌+◌, ◌&&◌, List, [], ◌∷◌, ◌++◌, map, Option, none, some, Bytes, text, c_str, leb,
  if◌then◌else◌, ◌>>=◌,
}
use opentelemetry_php_ext.Span.{KeyValue, set_string_attribute}
use opentelemetry_php_ext.Provider.{slot, set_slot, change_slot}
use opentelemetry_php_ext.Provider.State.{Slot, Fresh, span_at, set_span}
use opentelemetry_php_ext.Provider.Child.{create_child}
use opentelemetry_php_ext.Core.Globals.{Globals, World, change_provider}
use opentelemetry_php_ext.Hooks.Registry.{Handler, null, Table}
use opentelemetry_php_ext.Sdk.Attributes.{Zval}
use Frames.{Func, Stack, find_trace_add_scope_name, find_code_stacktrace}

-- A call of a function of PHP's: the function, the frames below the call, and the arguments.
pub record Call : Type 0 where
  pub func : Func
  pub callers : Stack
  pub args : List Zval

abbrev text_or_empty : Option Bytes → Bytes
text_or_empty none = []
text_or_empty (some s) = c_str s

unfoldable pub class_name : Call → Bytes
class_name c = text_or_empty c.func.scope

unfoldable pub function_name : Call → Bytes
function_name c = text_or_empty c.func.function_name

abbrev to_lower : ℕ → ℕ
to_lower c = if leb b'A' c && leb c b'Z' then c + 32 else c

-- `std::transform(…, ::tolower)` in the locale "C".
unfoldable pub lower : Bytes → Bytes
lower s = map to_lower s

-- `cmd`.
unfoldable pub command_name : Call → Bytes
unfolding function_name lower
command_name c = lower (function_name c)

-- The name that the span gets.
unfoldable pub span_name : Call → Bytes
span_name c = find_trace_add_scope_name c.func

abbrev with_stacktrace : Bytes → List KeyValue → List KeyValue
with_stacktrace [] attributes = attributes
with_stacktrace (c ∷ s) attributes =
    set_string_attribute attributes (text "code.stacktrace") (c ∷ s)

-- `code.stacktrace`, unless the stack has no name.
unfoldable pub add_stacktrace : Stack → List KeyValue → List KeyValue
add_stacktrace callers attributes = with_stacktrace (find_code_stacktrace callers) attributes

abbrev describe : List KeyValue → ℕ → Slot → Option Slot
describe attributes i t = do
  span ← span_at t i
  some (set_span t i (record span { attributes = span.attributes ++ attributes }))

-- What every handler does first: with a provider, a span under the first span of the process, and
-- its attributes. The result is the pointer to the span; without a provider it stays as it was,
-- without a value.
unfoldable pub open_span :
    World → Fresh → Bytes → ℕ → Option (List KeyValue) → Globals → Option (Option ℕ × Globals)
unfolding create_child slot set_slot
open_span w fresh name kind attributes g = elim g.provider [
  | none ↦ some (none, g)
  | some p ↦ do
    created ← create_child g.settings fresh name kind (slot w.host p)
    set ← attributes
    t ← describe set (created.0) (created.1)
    some (some (created.0), record g { provider = some (set_slot w.host t p) })
]

-- What every handler does last: with a provider, the span ends. To end a span through a pointer
-- without a value is a fault.
unfoldable pub close_span : World → (ℕ → Slot → Option Slot) → Option ℕ → Globals → Option Globals
unfolding change_slot
close_span w finish span g = elim g.provider [
  | none ↦ some g
  | some p ↦ do i ← span; q ← change_slot w.host (finish i) p; some (record g { provider = some q })
]

-- Both around what comes between them, the function that the handler stands for.
abbrev pub around :
    World
    → Fresh
    → Bytes
    → ℕ
    → Option (List KeyValue)
    → (Option ℕ → Globals → Option Globals)
    → (ℕ → Slot → Option Slot)
    → Globals
    → Option Globals
around w fresh name kind attributes run finish g = do
  opened ← open_span w fresh name kind attributes g
  g2 ← run (opened.0) (opened.1)
  close_span w finish (opened.0) g2

-- What PHP's own functions do to the globals, through the hooks and the functions that they call in
-- turn; `none` when they do not return.
abbrev pub Run : Type 0
Run = Handler → Globals → Option Globals

-- `map.find(cmd)`, and the call of what is found.
unfoldable pub run_original : Run → Table → Bytes → Globals → Option Globals
run_original run originals cmd g = elim (originals cmd) [ none ↦ some g | some h ↦ run h g ]
