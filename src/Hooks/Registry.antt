-- ===== src/Hooks/Registry.antt =====
-- The replacing of handlers in a function table, as every `register_zend_hook_*` and
-- `unregister_zend_hook_*` does it (src/zend_hook_redis.cc, src/zend_hook_memcached.cc and the
-- others): the handler of each listed function that the table has is kept in a map of originals and
-- exchanged for the extension's, and put back from that map.
use opentelemetry_php_ext.Common.{
  ℕ, List, [], ◌∷◌, Option, none, some, Bytes, bytes_eq, if◌then◌else◌,
}

-- The families of functions that are hooked.
pub data Group : Type 0 where
  error exception curl memcached redis rediscluster pdo pdo_statement mysqli yar_client yar_server :
      Group

-- A handler of PHP's or of another extension, known by a number, the extension's own for a function
-- of a group, or the null pointer.
pub data Handler : Type 0 where
  native : ℕ → Handler
  hook : Group → Handler
  null : Handler

abbrev pub Table : Type 0
Table = Bytes → Option Handler

abbrev pub put : Table → Bytes → Handler → Table
put table k h = λ j. if bytes_eq k j then some h else table j

-- A function table and the map of the originals.
pub record Hooked : Type 0 where
  pub table : Table
  pub originals : Table

abbrev replace : Group → Bytes → Hooked → Option Handler → Hooked
replace g item h none = h
replace g item h (some old) = record {
  table = put h.table item (hook g);
  originals = put h.originals item old;
}

abbrev pub register_one : Group → Bytes → Hooked → Hooked
register_one g item h = replace g item h (h.table item)

unfoldable pub register_all : Group → List Bytes → Hooked → Hooked
register_all g [] h = h
register_all g (item ∷ items) h = register_all g items (register_one g item h)

-- `map[item]`: a missing entry reads as a null handler.
abbrev pub original : Option Handler → Handler
original none = null
original (some old) = old

abbrev restore : Bytes → Hooked → Option Handler → Hooked
restore item h none = h
restore item h (some current) = record h { table = put h.table item (original (h.originals item)) }

abbrev pub unregister_one : Bytes → Hooked → Hooked
unregister_one item h = restore item h (h.table item)

unfoldable pub unregister_all : List Bytes → Hooked → Hooked
unregister_all [] h = h
unregister_all (item ∷ items) h = unregister_all items (unregister_one item h)

-- One class of the class table, if it is loaded, and the map of its originals.
pub record ClassHook : Type 0 where
  pub class_table : Option Table
  pub originals : Table

abbrev with_table : Hooked → ClassHook
with_table h = record { class_table = some h.table; originals = h.originals }

unfoldable pub hook_class : Group → List Bytes → ClassHook → ClassHook
hook_class g items c = elim c.class_table [
  | none ↦ c
  | some table ↦
      with_table (register_all g items (record { table = table; originals = c.originals }))
]

unfoldable pub unhook_class : List Bytes → ClassHook → ClassHook
unhook_class items c = elim c.class_table [
  | none ↦ c
  | some table ↦
      with_table (unregister_all items (record { table = table; originals = c.originals }))
]
