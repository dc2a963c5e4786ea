-- ===== src/Ini.antt =====
-- opentelemetry.cc, php_opentelemetry.h: the settings of the module and where PHP writes them. The
-- globals begin with twelve flags of a byte each, numbered from 0; behind them stand cells of four
-- bytes, numbered from the start of the globals as a 64-bit compiler lays them out: pointers of two
-- cells and numbers of one.
pub mod Registered
use opentelemetry_php_ext.Common.{
  ℕ, ◌+◌, ◌*◌, ◌/◌, ◌%◌, ◌^◌, ◌==◌, ◌≡◌, Bool, true, false, if◌then◌else◌, List, [], ◌∷◌, Bytes,
  text,
}

-- The update function of an entry, and the byte or the cell of its field.
pub data Field : Type 0 where
  flag long string : ℕ → Field

pub record IniEntry : Type 0 where
  pub name : Bytes
  pub default : Bytes
  pub is_per_dir : Bool
  pub field : Field

pub record Memory : Type 0 where
  pub flags : ℕ → ℕ
  pub cells : ℕ → ℕ

-- Eight bytes, the low half first.
abbrev pub write_wide : ℕ → ℕ → Memory → Memory
write_wide cell value m = record m {
  cells = λ k.
      if k == cell
      then value % 2 ^ 32
      else if k == cell + 1
      then value / 2 ^ 32 % 2 ^ 32
      else m.cells k;
}

-- A byte, of a value that is true or not.
abbrev pub write_flag : ℕ → ℕ → Memory → Memory
write_flag byte value m = record m {
  flags = λ k. if k == byte then (if value == 0 then 0 else 1) else m.flags k;
}

-- `OnUpdateBool`, `OnUpdateLong`, which writes a number of PHP's, and `OnUpdateString`,
-- also where one entry is changed for a directory or by a script.
abbrev pub on_update : Field → ℕ → Memory → Memory
on_update (flag byte) value m = write_flag byte value m
on_update (long cell) value m = write_wide cell value m
on_update (string cell) value m = write_wide cell value m

-- What the code reads of the field: a `bool`, an `int`, or a pointer.
abbrev pub read_field : Field → Memory → ℕ
read_field (flag byte) m = m.flags byte
read_field (long cell) m = m.cells cell
read_field (string cell) m = m.cells cell + m.cells (cell + 1) * 2 ^ 32

-- `PHP_INI_BEGIN` to `PHP_INI_END`, the defaults of php_opentelemetry.h written out.
unfoldable pub ini_entries : List IniEntry
ini_entries =
    record {
      name = text "service_name";
      default = text "opentelemetry";
      is_per_dir = false;
      field = string 6;
    }
    ∷ record {
      name = text "service_name_key";
      default = text "SERVICE_NAME";
      is_per_dir = false;
      field = string 8;
    }
    ∷ record { name = text "enable"; default = text "1"; is_per_dir = true; field = flag 0 }
    ∷ record {
      name = text "enable_exception";
      default = text "1";
      is_per_dir = true;
      field = flag 3;
    }
    ∷ record { name = text "enable_error"; default = text "1"; is_per_dir = true; field = flag 4 }
    ∷ record { name = text "enable_curl"; default = text "1"; is_per_dir = true; field = flag 5 }
    ∷ record {
      name = text "enable_memcached";
      default = text "1";
      is_per_dir = true;
      field = flag 6;
    }
    ∷ record { name = text "enable_redis"; default = text "1"; is_per_dir = true; field = flag 7 }
    ∷ record { name = text "enable_mysql"; default = text "1"; is_per_dir = true; field = flag 8 }
    ∷ record { name = text "enable_yar"; default = text "1"; is_per_dir = true; field = flag 9 }
    ∷ record {
      name = text "enable_collect";
      default = text "1";
      is_per_dir = true;
      field = flag 10;
    }
    ∷ record { name = text "debug"; default = text "0"; is_per_dir = true; field = flag 2 }
    ∷ record { name = text "cli_enable"; default = text "0"; is_per_dir = true; field = flag 1 }
    ∷ record {
      name = text "sample_ratio_based";
      default = text "1";
      is_per_dir = true;
      field = long 12;
    }
    ∷ record {
      name = text "max_time_consuming";
      default = text "1000";
      is_per_dir = true;
      field = long 13;
    }
    ∷ record {
      name = text "error_level";
      default = text "E_ERROR";
      is_per_dir = true;
      field = string 10;
    }
    ∷ record {
      name = text "log_path";
      default = text "/var/log/opentelemetry";
      is_per_dir = true;
      field = string 14;
    }
    ∷ record {
      name = text "receiver_type";
      default = text "grpc";
      is_per_dir = true;
      field = string 16;
    }
    ∷ record {
      name = text "udp_ip";
      default = text "127.0.0.1";
      is_per_dir = true;
      field = string 20;
    }
    ∷ record { name = text "udp_port"; default = text "5337"; is_per_dir = true; field = long 22 }
    ∷ record {
      name = text "udp_look_up_time";
      default = text "600";
      is_per_dir = true;
      field = long 23;
    }
    ∷ record {
      name = text "grpc_endpoint";
      default = text "127.0.0.1:4317";
      is_per_dir = true;
      field = string 18;
    }
    ∷ record {
      name = text "max_message_size";
      default = text "102400";
      is_per_dir = true;
      field = long 26;
    }
    ∷ record {
      name = text "max_queue_length";
      default = text "1024";
      is_per_dir = true;
      field = long 27;
    }
    ∷ record { name = text "consumer_nums"; default = text "1"; is_per_dir = true; field = long 28 }
    ∷ record {
      name = text "cli_consumer_nums";
      default = text "1";
      is_per_dir = true;
      field = long 29;
    }
    ∷ record {
      name = text "grpc_timeout_milliseconds";
      default = text "100";
      is_per_dir = true;
      field = long 30;
    }
    ∷ record {
      name = text "resource_attributes";
      default = text "";
      is_per_dir = true;
      field = string 4;
    }
    ∷ []

-- `REGISTER_INI_ENTRIES`: each entry in turn gets its value, as 64 bits.
unfoldable pub register_ini_entries : (IniEntry → ℕ) → List IniEntry → Memory → Memory
register_ini_entries value [] m = m
register_ini_entries value (e ∷ entries) m =
    register_ini_entries value entries (on_update e.field (value e) m)
