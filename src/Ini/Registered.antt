-- ===== src/Ini/Registered.antt =====
-- opentelemetry.cc: the fields of the globals after the registration, and after a change.
use Prim.Native.String.{String}
use opentelemetry_php_ext.Common.{
  ℕ, ◌+◌, ◌*◌, ◌/◌, ◌%◌, ◌^◌, ◌<◌, ◌==◌, ◌≡◌, refl, List, [], ◌∷◌, if◌then◌else◌, arith, All, Bytes,
  text, bytes_eq,
}
use opentelemetry_php_ext.Ini.{
  Field, flag, long, string, IniEntry, Memory, read_field, ini_entries, register_ini_entries,
  on_update,
}

-- The value, as far as the field holds it.
abbrev pub held : Field → ℕ → ℕ
held (flag byte) value = if value == 0 then 0 else 1
held (long cell) value = value % 2 ^ 32
held (string cell) value = value

halves : (value : ℕ) → value < 2 ^ 64 → value % 2 ^ 32 + value / 2 ^ 32 % 2 ^ 32 * 2 ^ 32 ≡ value
halves value h = omega arith

-- After the registration, whatever the values of 64 bits: every flag is 1 exactly if its value is not
-- 0, every number holds its value modulo 2 ^ 32, and every pointer its value. Numbers are written over
-- twice their width, but the entries stand in an order in which the field behind is written later.
pub register_ini_entries-held :
    (value : IniEntry → ℕ) (m : Memory)
    → ((e : IniEntry) → value e < 2 ^ 64)
    → All
        (λ e.
          read_field e.field (register_ini_entries value ini_entries m) ≡ held e.field (value e))
        ini_entries
unfolding register_ini_entries ini_entries
register_ini_entries-held value m wide = (
  halves _ (wide _),
  (
    halves _ (wide _),
    (
      refl,
      (
        refl,
        (
          refl,
          (
            refl,
            (
              refl,
              (
                refl,
                (
                  refl,
                  (
                    refl,
                    (
                      refl,
                      (
                        refl,
                        (
                          refl,
                          (
                            refl,
                            (
                              refl,
                              (
                                halves _ (wide _),
                                (
                                  halves _ (wide _),
                                  (
                                    halves _ (wide _),
                                    (
                                      halves _ (wide _),
                                      (
                                        refl,
                                        (
                                          refl,
                                          (
                                            halves _ (wide _),
                                            (
                                              refl,
                                              (
                                                refl,
                                                (refl, (refl, (refl, (halves _ (wide _), tt)))),
                                              ),
                                            ),
                                          ),
                                        ),
                                      ),
                                    ),
                                  ),
                                ),
                              ),
                            ),
                          ),
                        ),
                      ),
                    ),
                  ),
                ),
              ),
            ),
          ),
        ),
      ),
    ),
  ),
)

-- The field of the setting of a name.
abbrev pub field_of : Bytes → List IniEntry → Field
field_of name [] = flag 11
field_of name (e ∷ entries) = if bytes_eq e.name name then e.field else field_of name entries

abbrev pub setting : String → Field
setting name = field_of (text name) ini_entries

-- A number below 2 ^ 32 that is changed alone takes the field behind it along: a new ratio sets the
-- time from which a trace is slow to 0, a new number of consumers the number for the command line to
-- 0, and a new time between look-ups the low half of the pointer to the queue's name, in cell 24.
pub on_update_neighbour :
    (value : ℕ) (m : Memory)
    → value < 2 ^ 32
    → (read_field (setting "sample_ratio_based") (on_update (setting "sample_ratio_based") value m)
        ≡ value)
      × (read_field
            (setting "max_time_consuming")
            (on_update (setting "sample_ratio_based") value m)
          ≡ 0)
      × (read_field (setting "cli_consumer_nums") (on_update (setting "consumer_nums") value m) ≡ 0)
      × ((on_update (setting "udp_look_up_time") value m).cells 24 ≡ 0)
unfolding ini_entries
on_update_neighbour value m small = (omega arith, omega arith, omega arith, omega arith)
