-- ===== src/Core/Globals.antt =====
-- php_opentelemetry.h: the globals of the module (`OPENTELEMETRY_G`), the world around a call, and
-- what the extension does to it. Fields that only pick addresses and sizes are left out.
use opentelemetry_php_ext.Common.{
  ℕ, Bool, true, false, List, [], ◌∷◌, ◌++◌, Option, none, some, Bytes, text, c_str, ◌>>=◌,
}
use opentelemetry_php_ext.Span.{Request}
use opentelemetry_php_ext.Text.{is_equal}
use opentelemetry_php_ext.Provider.{Host, Provider}
use opentelemetry_php_ext.Provider.State.{Settings}
use opentelemetry_php_ext.Hooks.{Enabled}
use opentelemetry_php_ext.Hooks.Engine

-- What reaches the system: message queues removed and opened by name, threads started for the
-- consumer of a number, requests put into the queue, and headers given to a client of PHP's.
pub data Effect : Type 0 where
  remove_queue open_queue : Bytes → Effect
  start_rpc start_udp start_consumer : ℕ → Effect
  send : Request → Effect
  set_headers : List Bytes → Effect

pub record Globals : Type 0 where
  pub enable : Bool
  pub cli_enable : Bool
  pub enabled : Enabled
  pub enable_collect : Bool
  pub is_init_consumers : Bool
  pub is_started_cli_tracer : Bool
  pub service_name_key : Bytes
  pub error_level : Bytes
  pub receiver_type : Bytes
  pub message_queue_name : Bytes
  pub consumer_nums : ℕ
  pub cli_consumer_nums : ℕ
  pub settings : Settings
  pub provider : Option Provider
  pub engine : Engine.Engine
  pub curl_header : List (ℕ × List Bytes)
  pub effects : List Effect

-- What a call finds: the process, the `_SERVER` array, the JSON of `argv` and of `_POST`, the name and
-- the address of the machine, whether PHP is of version 8 or later, and how the message queue answers: whether it opens, and which requests
-- it takes.
pub record World : Type 0 where
  pub host : Host
  pub server : Bytes → Option Bytes
  pub argv_json : Bytes
  pub post_json : Option Bytes
  pub hostname : Bytes
  pub machine_ip : Bytes
  pub is_php_8 : Bool
  pub queue_opens : Bool
  pub queue_takes : Request → Bool

abbrev pub do_effect : Effect → Globals → Globals
do_effect e g = record g { effects = g.effects ++ e ∷ [] }

unfoldable pub is_receiver_grpc : Globals → Bool
unfolding is_equal
is_receiver_grpc g = is_equal (text "grpc") g.receiver_type

unfoldable pub is_receiver_udp : Globals → Bool
unfolding is_equal
is_receiver_udp g = is_equal (text "udp") g.receiver_type

abbrev pub has_provider : Option Provider → Bool
has_provider none = false
has_provider (some p) = true

unfoldable pub is_has_provider : Globals → Bool
is_has_provider g = has_provider g.provider

unfoldable pub find_server_string : World → Bytes → Bytes
find_server_string w key = elim (w.server key) [ none ↦ [] | some value ↦ c_str value ]

-- A call through the pointer `provider`; a null pointer faults.
unfoldable pub change_provider : (Provider → Option Provider) → Globals → Option Globals
change_provider f g = do p ← g.provider; q ← f p; some (record g { provider = some q })
