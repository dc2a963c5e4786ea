-- ===== src/Provider/Isolation.antt =====
-- src/provider.cc: an operation touches the state of its own process only.
use opentelemetry_php_ext.Common.{
  ℕ, ◌+◌, ◌≤◌, ◌≡◌, ◌≢◌, true, Option, some, arith, ◌⊎◌, Option-cases, inl, inr,
}
use opentelemetry_php_ext.Provider.{Host, Provider, slot, set_slot, change_slot, increase, count}
use opentelemetry_php_ext.Provider.State.{Slot}

-- Two processes that keep their state in different places: they run differently, or both on the
-- command line under different parents.
abbrev pub Apart : Host → Host → Type 0
Apart h g = (h.is_cli ≢ g.is_cli) ⊎ ((h.is_cli ≡ true) × (g.is_cli ≡ true) × (h.ppid ≢ g.ppid))

pub slot-set_slot : (h : Host) (t : Slot) (p : Provider) → slot h (set_slot h t p) ≡ t
unfolding slot set_slot
slot-set_slot h t p = ground arith

pub slot-set_slot_ne :
    (h g : Host) (t : Slot) (p : Provider) → Apart h g → slot g (set_slot h t p) ≡ slot g p
unfolding slot set_slot
slot-set_slot_ne h g t p apart = ground arith

-- Whatever one process does, another process finds its state, and the counter, as they were.
pub change_slot_isolated :
    (h g : Host) (f : Slot → Option Slot) (p q : Provider)
    → Apart h g
    → change_slot h f p ≡ some q
    → (slot g q ≡ slot g p) × (f (slot h p) ≡ some (slot h q)) × (q.counter ≡ p.counter)
unfolding change_slot
change_slot_isolated h g f p q apart e = elim (Option-cases (f (slot h p))) [
  | inl bad ↦ cc
  | inr (t, good) ↦
      let e' : set_slot h t p ≡ q = ground arith in
      rw (← e') (
        slot-set_slot_ne h g t p apart,
        rw (slot-set_slot h t p) good,
        unfold set_slot in ground arith,
      )
]

abbrev pub limit : ℕ
limit = 10000001

-- The counter starts at 0, moves up by one or starts again at 1, and never passes 10000001.
pub increase_bounds :
    (p : Provider)
    → count p ≤ limit
    → (count (increase p) ≤ limit)
      × ((count (increase p) ≡ count p + 1) ⊎ ((count p ≡ limit) × (count (increase p) ≡ 1)))
unfolding increase count
increase_bounds p h = ground arith
