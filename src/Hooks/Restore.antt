-- ===== src/Hooks/Restore.antt =====
-- Hooks that are taken out leave every function table as they found it.
use mathlib.Core.Path.{fun_ext}
use opentelemetry_php_ext.Common.{
  ◌≡◌, refl, ◌∙◌, Bool, true, false, List, [], ◌∷◌, Option, none, some, arith, Bytes, bytes_eq,
  bytes_eq_iff, if◌then◌else◌, inl, inr, Bool-cases,
}
use opentelemetry_php_ext.Hooks.Registry.{
  Group, Handler, hook, original, Hooked, register_one, register_all, unregister_one,
  unregister_all,
}

-- Whether `k` is listed.
unfoldable pub has : List Bytes → Bytes → Bool
has [] k = false
has (item ∷ items) k = let rest = has items k in if bytes_eq item k then true else rest

-- No name is listed twice.
unfoldable pub distinct : List Bytes → Bool
unfolding has
distinct [] = true
distinct (item ∷ items) = let rest = distinct items in if has items item then false else rest

-- A table's entry, and a map's entry, once the function is hooked.
abbrev pub hooked_entry : Group → Option Handler → Option Handler
hooked_entry g none = none
hooked_entry g (some old) = some (hook g)

abbrev pub kept_entry : Option Handler → Option Handler → Option Handler
kept_entry none kept = kept
kept_entry (some old) kept = some old

abbrev pub restored_entry : Handler → Option Handler → Option Handler
restored_entry old none = none
restored_entry old (some current) = some old

pub back :
    (g : Group) (entry kept : Option Handler)
    → restored_entry (original (kept_entry entry kept)) (hooked_entry g entry) ≡ entry
back g none kept = refl
back g (some old) kept = refl

twice :
    (old : Handler) (o : Option Handler)
    → restored_entry old (restored_entry old o) ≡ restored_entry old o
twice old none = refl
twice old (some current) = refl

register_one_at :
    (g : Group) (item k : Bytes) (h : Hooked)
    → ((register_one g item h).table k
        ≡ (if bytes_eq item k then hooked_entry g (h.table k) else h.table k))
      × ((register_one g item h).originals k
          ≡ (if bytes_eq item k then kept_entry (h.table k) (h.originals k) else h.originals k))
register_one_at g item k h = ground (arith, bytes_eq_iff item k)

-- Registering hooks exactly the listed functions that the table has, and keeps for each of them the
-- handler that it had.
pub register_all_at :
    (g : Group) (items : List Bytes) (k : Bytes) (h : Hooked)
    → distinct items ≡ true
    → ((register_all g items h).table k
        ≡ (if has items k then hooked_entry g (h.table k) else h.table k))
      × ((register_all g items h).originals k
          ≡ (if has items k then kept_entry (h.table k) (h.originals k) else h.originals k))
unfolding register_all has distinct
register_all_at g [] k h d = (refl, refl)
register_all_at g (item ∷ items) k h d =
    let (now_t, now_o) = register_one_at g item k h in
    let (t, o) = register_all_at g items k (register_one g item h) (ground arith) in
    elim (Bool-cases (bytes_eq item k)) [
      | inl same ↦
          let e : item ≡ k = (bytes_eq_iff item k).0 same in
          let fresh : has items k ≡ false = rw (← e) (ground arith) in
          (rw (same, t, fresh, now_t, same), rw (same, o, fresh, now_o, same))
      | inr other ↦ (rw (other, t, now_t, other), rw (other, o, now_o, now_t, other))
    ]

unregister_one_at :
    (item k : Bytes) (h : Hooked)
    → ((unregister_one item h).table k ≡ (
        if bytes_eq item k
        then restored_entry (original (h.originals k)) (h.table k)
        else h.table k))
      × ((unregister_one item h).originals k ≡ h.originals k)
unregister_one_at item k h = ground (arith, bytes_eq_iff item k)

pub unregister_all_at :
    (items : List Bytes) (k : Bytes) (h : Hooked)
    → ((unregister_all items h).table k ≡ (
        if has items k then restored_entry (original (h.originals k)) (h.table k) else h.table k))
      × ((unregister_all items h).originals k ≡ h.originals k)
unfolding unregister_all has
unregister_all_at [] k h = (refl, refl)
unregister_all_at (item ∷ items) k h =
    let (now_t, now_o) = unregister_one_at item k h in
    let (t, o) = unregister_all_at items k (unregister_one item h) in
    elim (Bool-cases (bytes_eq item k)) [
      | inl same ↦ elim (Bool-cases (has items k)) [
        | inl again ↦ (rw (same, t, again, now_t, now_o, same) (twice _ _), o ∙ now_o)
        | inr once ↦ (rw (same, t, once, now_t, same), o ∙ now_o)
      ]
      | inr other ↦ (rw (other, t, now_t, now_o, other), o ∙ now_o)
    ]

-- Taking the hooks of a list without repeats out again gives the table back, whatever stood in it
-- and in the map of originals before.
pub unregister-register :
    (g : Group) (items : List Bytes) (h : Hooked)
    → distinct items ≡ true
    → (unregister_all items (register_all g items h)).table ≡ h.table
unregister-register g items h d = fun_ext λ k.
    let (t, o) = register_all_at g items k h d in
    (unregister_all_at items k (register_all g items h)).0 ∙ elim (Bool-cases (has items k)) [
      | inl listed ↦ rw (listed, t, listed) (rw (o, listed) (back g (h.table k) (h.originals k)))
      | inr free ↦ rw (free, t, free)
    ]
