-- ===== src/Hooks/Undo.antt =====
-- src/zend_hook.cc: unregistering one class, or two lists of functions.
use mathlib.Core.Path.{fun_ext}
use opentelemetry_php_ext.Common.{
  bytes_eq, bytes_eq_iff, ◌≡◌, ap, ◌∙◌, Bool, true, false, List, [], ◌∷◌, some, Bytes, arith,
  if◌then◌else◌, Option-cases, inl, inr, Bool-cases,
}
use opentelemetry_php_ext.Hooks.Registry.{
  Group, Table, Hooked, register_all, unregister_all, ClassHook, hook_class, unhook_class,
}
use opentelemetry_php_ext.Hooks.Restore.{
  distinct, has, unregister-register, register_all_at, unregister_all_at, back,
}

-- A class gets its methods back.
pub unhook-hook :
    (g : Group) (items : List Bytes) (c : ClassHook)
    → distinct items ≡ true
    → (unhook_class items (hook_class g items c)).class_table ≡ c.class_table
unfolding hook_class unhook_class
unhook-hook g items c d = elim (Option-cases c.class_table) [
  | inl e ↦ rw e
  | inr (table, e) ↦
      rw e (
        ap some (unregister-register g items (record { table = table; originals = c.originals }) d))
]

-- No name of the one list is in the other.
unfoldable pub apart : List Bytes → List Bytes → Bool
apart [] ys = true
apart (x ∷ xs) ys = let rest = apart xs ys in if has ys x then false else rest

apart-has :
    (xs ys : List Bytes) (k : Bytes) → apart xs ys ≡ true → has xs k ≡ true → has ys k ≡ false
unfolding apart has
apart-has [] ys k d h = cc
apart-has (x ∷ xs) ys k d h = elim (Bool-cases (bytes_eq x k)) [
  | inl same ↦ rw (← (bytes_eq_iff x k).0 same) (ground arith)
  | inr other ↦ apart-has xs ys k (ground arith) (rw other at h)
]

abbrev pub on : Table → Table → Hooked
on table originals = record { table = table; originals = originals }

-- Two lists that share no name may be unregistered in the order in which they were registered.
pub functions_back :
    (g k : Group) (xs ys : List Bytes) (table xo yo : Table)
    → distinct xs ≡ true
    → distinct ys ≡ true
    → apart xs ys ≡ true
    → let first = register_all g xs (on table xo) in
      let second = register_all k ys (on first.table yo) in
      (unregister_all ys
        (on (unregister_all xs (on second.table first.originals)).table second.originals)).table
      ≡ table
functions_back g k xs ys table xo yo dx dy d = fun_ext λ n.
    let first = register_all g xs (on table xo) in
    let second = register_all k ys (on first.table yo) in
    let third = unregister_all xs (on second.table first.originals) in
    let (t1, o1) = register_all_at g xs n (on table xo) dx in
    let (t2, o2) = register_all_at k ys n (on first.table yo) dy in
    let (t3, _) = unregister_all_at xs n (on second.table first.originals) in
    (unregister_all_at ys n (on third.table second.originals)).0 ∙ elim (Bool-cases (has xs n)) [
      | inl in_xs ↦
          let not_ys = apart-has xs ys n d in_xs in
          rw (not_ys, t3, in_xs, o1, in_xs, t2, not_ys, t1, in_xs) (back g (table n) (xo n))
      | inr not_xs ↦ elim (Bool-cases (has ys n)) [
        | inl in_ys ↦
            rw (in_ys, o2, in_ys, t3, not_xs, t2, in_ys, t1, not_xs) (back k (table n) (yo n))
        | inr not_ys ↦ rw (not_ys, t3, not_xs, t2, not_ys, t1, not_xs)
      ]
    ]
