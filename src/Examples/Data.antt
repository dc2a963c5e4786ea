-- ===== src/Examples/Data.antt =====
-- Test data: settings, a process in which a trace is under way, and the globals around it.
use opentelemetry_php_ext.Common.{
  refl, true, false, [], ◌∷◌, none, some, arith, Bytes, text, bytes_eq, if◌then◌else◌,
}
use opentelemetry_php_ext.Span.{pos, Span}
use opentelemetry_php_ext.Provider.{Host, Provider, new_provider}
use opentelemetry_php_ext.Provider.State.{Slot, Settings, Fresh, empty_slot, new_resource}
use opentelemetry_php_ext.Provider.Traces.{IsUuid, IsOpen, new_span, opened}
use opentelemetry_php_ext.Provider.Propagation.{IsId}
use opentelemetry_php_ext.Provider.Adoption.{IsFresh}
use opentelemetry_php_ext.Hooks.{Enabled}
use opentelemetry_php_ext.Hooks.Engine
use opentelemetry_php_ext.Hooks.Registry.{native, null, Table, ClassHook}
use opentelemetry_php_ext.Core.Globals.{Globals, World}
use opentelemetry_php_ext.Core.Starts.{IsLive}
use opentelemetry_php_ext.Core.Lifecycle.{Times}

abbrev pub settings : Settings
settings = record {
  service_name = text "opentelemetry";
  ipv4 = text "127.0.0.1";
  hostname = text "host";
  platform_name = text "Linux";
  pid = 7;
  resource_attributes = text "zone=a";
  sample_ratio_based = pos 2;
  max_time_consuming = 1000;
}

abbrev pub web : Host
web = record { is_cli = false; ppid = 1 }

abbrev pub cli : Host
cli = record { is_cli = true; ppid = 1 }

abbrev pub cli_child : Host
cli_child = record { is_cli = true; ppid = 2 }

abbrev pub trace_uuid : Bytes
trace_uuid = 1 ∷ 2 ∷ 3 ∷ 4 ∷ 5 ∷ 6 ∷ 7 ∷ 8 ∷ 9 ∷ 10 ∷ 11 ∷ 12 ∷ 13 ∷ 14 ∷ 15 ∷ 255 ∷ []

abbrev pub span_uuid : Bytes
span_uuid = 8 ∷ 7 ∷ 6 ∷ 5 ∷ 4 ∷ 3 ∷ 2 ∷ 1 ∷ 0 ∷ 9 ∷ 10 ∷ 11 ∷ 12 ∷ 13 ∷ 14 ∷ 15 ∷ []

pub trace_uuid-IsUuid : IsUuid trace_uuid
trace_uuid-IsUuid = (refl, ground arith)

pub span_uuid-IsUuid : IsUuid span_uuid
span_uuid-IsUuid = (refl, ground arith)

abbrev pub fresh : Fresh
fresh = record { trace_uuid = trace_uuid; span_uuid = span_uuid; now = 5000000 }

abbrev pub first : Span
first = new_span trace_uuid fresh (text "/") 2

abbrev pub running : Slot
running = opened settings fresh (text "/") 2 empty_slot

pub running-IsFresh : IsFresh running
running-IsFresh = (
  first,
  record { resource = none; spans = first ∷ [] },
  refl,
  refl,
  refl,
  (refl, ground arith),
  trace_uuid-IsUuid,
)

pub span_id-IsId : IsId 8 first.span_id
span_id-IsId = (refl, ground arith)

abbrev pub running_open : IsOpen running
running_open = record {
  request = record { resource = none; spans = first ∷ [] };
  index = 0;
  first = first;
  has_request = refl;
  has_first = refl;
  at_index = refl;
  members = ((refl, trace_uuid-IsUuid, span_id-IsId), tt);
}

abbrev pub running_live : IsLive running
running_live = record { is_open = running_open; has_resource = (new_resource settings, refl) }

abbrev pub functions : Table
functions = λ name. if bytes_eq name (text "curl_exec") then some (native 3) else none

abbrev class_of : Bytes → ClassHook
class_of name = record {
  class_table = some (λ k. if bytes_eq k name then some (native 4) else none);
  originals = λ k. none;
}

abbrev unloaded : ClassHook
unloaded = record { class_table = none; originals = λ k. none }

abbrev pub engine : Engine.Engine
engine = record {
  functions = functions;
  curl_originals = λ k. none;
  mysqli_originals = λ k. none;
  redis_class = class_of (text "get");
  rediscluster_class = unloaded;
  memcached_class = unloaded;
  pdo_class = class_of (text "exec");
  pdostatement_class = unloaded;
  yar_client_class = unloaded;
  yar_server_class = unloaded;
  error_cb = native 1;
  original_error_cb = null;
  throw_exception_hook = null;
  original_throw_exception_hook = null;
  commands = record {
    redis_keys = [];
    mec_keys = [];
    mec_str_keys = [];
    mec_hit_keys = [];
    pdo_keys = [];
    pdo_stm_keys = [];
    mysqli_keys = [];
    client_keys = [];
    server_keys = [];
    curl_errors = [];
  };
}

abbrev pub enabled : Enabled
enabled = record {
  enable_error = true;
  enable_exception = true;
  enable_curl = true;
  enable_yar = false;
  enable_memcached = true;
  enable_redis = true;
  enable_mysql = true;
}

abbrev pub globals : Globals
globals = record {
  enable = true;
  cli_enable = true;
  enabled = enabled;
  enable_collect = true;
  is_init_consumers = false;
  is_started_cli_tracer = true;
  service_name_key = text "APP_NAME";
  error_level = [];
  receiver_type = text "grpc";
  message_queue_name = [];
  consumer_nums = 2;
  cli_consumer_nums = 1;
  settings = settings;
  provider = none;
  engine = engine;
  curl_header = [];
  effects = [];
}

abbrev pub world : World
world = record {
  host = web;
  server = λ key. if bytes_eq key (text "REQUEST_URI") then some (text "/?q") else none;
  argv_json = [];
  post_json = none;
  hostname = text "host";
  machine_ip = text "10.0.0.1";
  is_php_8 = false;
  queue_opens = true;
  queue_takes = λ r. true;
}

abbrev pub times : Times
times = record { ended = 7000000; checked = 8000000 }

abbrev pub provider : Provider
provider = record new_provider { fields = running }
