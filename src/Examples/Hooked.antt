-- ===== src/Examples/Hooked.antt =====
-- Tests of the handlers: src/zend_hook_redis.cc, src/zend_hook_memcached.cc, src/zend_hook_pdo.cc,
-- src/zend_hook_yar.cc, src/zend_hook_error.cc, src/zend_hook_exception.cc, src/zend_hook_curl.cc.
use opentelemetry_php_ext.Common.{
  ◌≡◌, refl, true, false, List, [], ◌∷◌, ◌++◌, Bool, none, some, arith, text, c_str, inr,
}
use opentelemetry_php_ext.Span.{pos, Span, KeyValue, kind_client, set_string_attribute}
use opentelemetry_php_ext.Text.{is_equal, starts_with}
use opentelemetry_php_ext.Provider.{Provider, slot, new_provider}
use opentelemetry_php_ext.Provider.State.{Slot}
use opentelemetry_php_ext.Provider.Traces.{IsOpen}
use opentelemetry_php_ext.Core.Globals.{Globals, set_headers}
use opentelemetry_php_ext.Sdk.Spans.{pushed, pushed-IsOpen}
use opentelemetry_php_ext.Sdk.Attributes.{array, string}
use opentelemetry_php_ext.Handlers.{
  Call, Run, span_name, command_name, function_name, lower, add_stacktrace,
}
use opentelemetry_php_ext.Handlers.Frames.{Func, find_code_stacktrace}
use opentelemetry_php_ext.Handlers.Traced.{Answers, Traced, child_span, child-Member}
use opentelemetry_php_ext.Handlers.Behaviours.{AllBehave, nothing-Behaves}
use opentelemetry_php_ext.Handlers.Noticed.{header_lines}
use opentelemetry_php_ext.Handlers.Peers.{set_statement}
use opentelemetry_php_ext.Handlers.Redis.{RedisClient, redis_attributes, redis_handler}
use opentelemetry_php_ext.Handlers.Commands.{
  command_text, with_key, before_arguments, redis_attributes-command_text,
}
use opentelemetry_php_ext.Handlers.Memcached.{
  MemcachedClient, memcached_attributes, memcached_handler,
}
use opentelemetry_php_ext.Handlers.Pdo.{PdoErrors, pdo_attributes}
use opentelemetry_php_ext.Handlers.Errors.{PhpError}
use opentelemetry_php_ext.Handlers.Exceptions.{PhpException}
use opentelemetry_php_ext.Handlers.Curl.{
  Url, Response, Transfer, recorded_url, url_attributes, or_else, curl_exec, curl_headers,
  find_header,
}
use opentelemetry_php_ext.Handlers.Calls.{redis_handler-Traced, memcached_handler-Traced}
use opentelemetry_php_ext.Handlers.Executions.{
  Transferred, curl_exec-Traced, curl_headers-find_header,
}
use opentelemetry_php_ext.Examples.Data.{
  globals, settings, world, web, provider, running, running_open, fresh, span_uuid-IsUuid,
}

abbrev pub traced : Globals
traced = record globals { provider = some provider }

pub is_running : slot web provider ≡ running
unfolding slot
is_running = refl

-- The functions of PHP return without a trace.
abbrev pub quiet : Run
quiet h g = some g

pub quiet-AllBehave : AllBehave world quiet
quiet-AllBehave h = nothing-Behaves world

abbrev pub script : Func
script = record { function_name = some (text "main"); scope = none; is_static = false }

abbrev pub get : Call
get = record {
  func = record {
    function_name = some (text "get");
    scope = some (text "Redis");
    is_static = false;
  };
  callers = some script ∷ [];
  args = string (text "KEY") ∷ array (text "[1]") ∷ [];
}

abbrev pub client : RedisClient
client = record { gethost = some (text "127.0.0.1"); getport = some (pos 6379) }

pub get_apart : is_equal (command_name get) (text "connect") ≡ false
unfolding is_equal command_name function_name c_str lower
get_apart = refl

redis_attributes-command_text_example :
    redis_attributes (λ host. true) client [] get
    ≡ some (
        set_statement
          (text "db.statement")
          ((command_name get ++ text " ") ++ command_text get.args)
          (with_key get.args (before_arguments (λ host. true) client [] get)))
redis_attributes-command_text_example =
    redis_attributes-command_text (λ host. true) client [] get get_apart

redis_handler-Traced_example :
    Answers world (redis_handler world fresh 9 (λ host. true) client get quiet traced) (
      Traced running running_open 9 (
        child_span running running_open fresh (span_name get) kind_client (
          set_statement
            (text "db.statement")
            ((command_name get ++ text " ") ++ command_text get.args)
            (with_key get.args (before_arguments (λ host. true) client [] get)))))
redis_handler-Traced_example =
    redis_handler-Traced world fresh 9 get quiet quiet-AllBehave span_uuid-IsUuid traced provider
      running refl is_running running_open (λ host. true) client
      (set_statement (text "db.statement") ((command_name get ++ text " ") ++ command_text get.args)
        (with_key get.args (before_arguments (λ host. true) client [] get)))
      (redis_attributes-command_text (λ host. true) client [] get get_apart)

abbrev pub cache : MemcachedClient
cache = record {
  getserverbykey = λ key. some (text "cache", pos 11211);
  getresultmessage = some (text "NOT FOUND");
}

abbrev pub cache_get : Call
cache_get = record {
  func = record {
    function_name = some (text "get");
    scope = some (text "Memcached");
    is_static = false;
  };
  callers = some script ∷ none ∷ [];
  args = string (text "key") ∷ [];
}

memcached_handler-Traced_example :
    Answers world (memcached_handler world fresh 9 (λ host. false) cache cache_get quiet traced) (
      Traced running running_open 9 (
        child_span running running_open fresh
          (span_name cache_get)
          kind_client
          (memcached_attributes (λ host. false) cache [] cache_get)))
memcached_handler-Traced_example =
    memcached_handler-Traced world fresh 9 cache_get quiet quiet-AllBehave span_uuid-IsUuid traced
      provider running refl is_running running_open (λ host. false) cache

abbrev query : Call
query = record {
  func = record {
    function_name = some (text "query");
    scope = some (text "PDO");
    is_static = false;
  };
  callers = [];
  args = string (text "SELECT 1") ∷ [];
}

abbrev pdo_errors : PdoErrors
pdo_errors = record {
  error_code = text "42000";
  query_error_code = none;
  fetch_err = some (record { native_code = pos 1064; supp = some (text "syntax") });
}

abbrev query_attributes : List KeyValue
query_attributes =
    set_string_attribute (set_string_attribute [] (text "db.statement") (text "SELECT 1"))
      (text "db.system") (text "mysql")

query_lem : pdo_attributes (λ host. false) none query ≡ some query_attributes
unfolding pdo_attributes function_name c_str add_stacktrace find_code_stacktrace
query_lem = refl

abbrev remote : Call
remote = record {
  func = record {
    function_name = some (text "__call");
    scope = some (text "Yar_Client");
    is_static = false;
  };
  callers = some script ∷ [];
  args = string (text "add") ∷ array (text "[1,2]") ∷ [];
}

abbrev warning : PhpError
warning = record {
  type_of = 2;
  is_reported = true;
  filename = text "a.php";
  lineno = 3;
  message = text "bad";
  caller = [];
}

abbrev thrown : PhpException
thrown = record {
  class_of = text "RedisException";
  message = text "gone";
  file = text "a.php";
  line = 4;
  caller = some script ∷ [];
}

abbrev target : Url
target = record {
  scheme = some (text "http");
  host = some (text "b");
  path = some (text "/x");
  query = some (text "q=1");
}

abbrev failing : Response
failing = record {
  http_code = 500;
  primary_ip = text "10.0.0.2";
  json = text "{}";
  total_time = 0;
  namelookup_time = 0;
  connect_time = 0;
  pretransfer_time = 0;
  starttransfer_time = 0;
  redirect_time = 0;
  curl_error = [];
  curl_errno = 0;
  return_value = some (text "oops");
}

abbrev transfer : Transfer
transfer = record {
  handle = some 4;
  url = text "http://b/x?q=1";
  parse = λ url. some target;
  json_encode = λ l. [];
  order = λ b. b;
  response = failing;
}

transfer_recorded : recorded_url transfer ≡ some target
unfolding recorded_url c_str starts_with
transfer_recorded = refl

abbrev exec : Call
exec = record {
  func = record { function_name = some (text "curl_exec"); scope = none; is_static = false };
  callers = some script ∷ [];
  args = [];
}

curl_exec-Traced_example : Answers world (curl_exec world fresh 8 9 exec transfer quiet traced) (
    Transferred running running_open 9
      (child_span running running_open fresh
        (or_else (text "/") target.path)
        kind_client
        (url_attributes target))
      failing
      (text "oops"))
curl_exec-Traced_example =
    curl_exec-Traced world fresh 8 9 exec transfer quiet quiet-AllBehave span_uuid-IsUuid traced
      provider running refl is_running running_open (text "oops") (inr refl) 4 target refl
      transfer_recorded

-- The same handle again, with the headers of a script, on a request with a span of a hook.
abbrev second : Span
second = child_span running running_open fresh (text "/x") kind_client []

abbrev two : Slot
two = pushed running running_open second

abbrev two_open : IsOpen two
two_open =
    pushed-IsOpen running running_open second
      (child-Member settings fresh (text "/x") kind_client running running_open [] span_uuid-IsUuid)

abbrev two_provider : Provider
two_provider = record new_provider { fields = two }

abbrev reused : Globals
reused = record globals { provider = some two_provider; curl_header = (4, text "A: 1" ∷ []) ∷ [] }

is_two : slot web two_provider ≡ two
unfolding slot
is_two = refl

reused_header : find_header 4 reused.curl_header ≡ some (text "A: 1" ∷ [])
unfolding find_header
reused_header = refl

curl_headers-find_header_example :
    (h : Globals) × (b : Bool) × (curl_headers world 8 transfer 4 1 reused ≡ some h)
    × (find_header 4 h.curl_header
        ≡ some ((text "A: 1" ∷ []) ++ header_lines transfer.order two second b))
    × (h.effects
        ≡ reused.effects
          ++ set_headers ((text "A: 1" ∷ []) ++ header_lines transfer.order two second b) ∷ [])
curl_headers-find_header_example =
    curl_headers-find_header world 8 transfer 4 1 second reused two_provider two refl is_two
      two_open refl (text "A: 1" ∷ []) reused_header (λ e. omega arith)
