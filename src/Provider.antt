-- ===== src/Provider.antt =====
-- src/provider.cc, include/provider.h: the provider, whose operations work on the slot of the
-- process at hand, and the counter of requests.
pub mod State
pub mod Finish
pub mod TraceParent
pub mod Baggage
pub mod Isolation
pub mod Propagation
pub mod Sampling
pub mod Child
pub mod Traces
pub mod Endings
pub mod Changes
pub mod Adoption
pub mod Carriage
use opentelemetry_php_ext.Common.{
  ℕ, suc, ◌+◌, ◌==◌, Bool, true, false, Option, none, some, Bytes, ltb, if◌then◌else◌, ◌>>=◌,
}
use State.{Slot, empty_slot}

-- How the process runs: `is_cli_sapi()`, and `getppid()` of the process.
pub record Host : Type 0 where
  pub is_cli : Bool
  pub ppid : ℕ

-- `fields` are the plain members, `by_pid` the entries of the maps.
pub record Provider : Type 0 where
  pub counter : ℕ
  pub fields : Slot
  pub by_pid : ℕ → Slot

-- `new Provider()`.
abbrev pub new_provider : Provider
new_provider = record { counter = 0; fields = empty_slot; by_pid = λ pid. empty_slot }

-- The storage that every operation chooses by `is_cli_sapi()`.
unfoldable pub slot : Host → Provider → Slot
slot h p = if h.is_cli then p.by_pid h.ppid else p.fields

abbrev update : (ℕ → Slot) → ℕ → Slot → ℕ → Slot
update f pid t = λ q. if pid == q then t else f q

unfoldable pub set_slot : Host → Slot → Provider → Provider
set_slot h t p =
    if h.is_cli then record p { by_pid = update p.by_pid h.ppid t } else record p { fields = t }

-- An operation of the provider that may fault, made from one on the slot.
unfoldable pub change_slot : Host → (Slot → Option Slot) → Provider → Option Provider
unfolding slot set_slot
change_slot h f p = do t ← f (slot h p); some (set_slot h t p)

unfoldable pub increase : Provider → Provider
increase p =
    let counter = if ltb 10000000 p.counter then 0 else p.counter in
    record p { counter = counter + 1 }

unfoldable pub count : Provider → ℕ
count p = p.counter
