-- ===== src/Examples/Failing.antt =====
-- Tests of a call of Redis that throws: src/zend_hook_redis.cc with src/zend_hook_exception.cc.
use opentelemetry_php_ext.Common.{
  ◌≡◌, refl, ap, true, false, [], ◌∷◌, ◌++◌, some, text, c_str, is_empty,
}
use opentelemetry_php_ext.Span.{kind_client, kind_internal}
use opentelemetry_php_ext.Text.{is_equal}
use opentelemetry_php_ext.Core.Globals.{Globals}
use opentelemetry_php_ext.Core.Settled.{self-SameHooks}
use opentelemetry_php_ext.Hooks.Engine
use opentelemetry_php_ext.Hooks.Registry.{native}
use opentelemetry_php_ext.Handlers.{
  Run, span_name, command_name, function_name, class_name, lower, run_original,
}
use opentelemetry_php_ext.Handlers.Traced.{Answers, child_span}
use opentelemetry_php_ext.Handlers.Peers.{set_statement}
use opentelemetry_php_ext.Handlers.Redis.{redis_original, redis_handler}
use opentelemetry_php_ext.Handlers.Commands.{
  command_text, with_key, before_arguments, redis_attributes-command_text,
}
use opentelemetry_php_ext.Handlers.Exceptions.{
  PhpException, exception_attributes, throw_exception_hook,
}
use opentelemetry_php_ext.Handlers.Failures.{Failed, redis_handler-Failed}
use opentelemetry_php_ext.Handlers.Alerts.{running_name}
use opentelemetry_php_ext.Examples.Data.{
  engine, world, provider, running, running_open, fresh, first, span_uuid-IsUuid,
}
use opentelemetry_php_ext.Examples.Hooked.{
  traced, is_running, quiet, quiet-AllBehave, script, get, client, get_apart,
}

-- A connection that breaks in the call.
abbrev broken : PhpException
broken = record {
  class_of = text "RedisException";
  message = text "gone";
  file = text "a.php";
  line = 3;
  caller = some script ∷ [];
}

-- A process whose hook of Redis knows the method that was there before.
abbrev hooked : Engine.Engine
hooked = record engine {
  redis_class = record (engine.redis_class) { originals = λ cmd. some (native 0) };
}

abbrev with_hook : Globals
with_hook = record traced { engine = hooked }

abbrev breaking : Run
breaking h g = throw_exception_hook world fresh 8 (some broken) quiet g

broken_of_redis : is_equal (text "RedisException") broken.class_of ≡ true
unfolding is_equal c_str
broken_of_redis = refl

broken_full : is_empty (c_str broken.message) ≡ false
unfolding c_str
broken_full = refl

get_breaks :
    (h : Globals)
    → h.engine ≡ hooked
    → redis_original breaking get h ≡ throw_exception_hook world fresh 8 (some broken) quiet h
unfolding redis_original run_original class_name command_name function_name lower c_str
get_breaks h same =
    ap (λ e. run_original breaking e.redis_class.originals (command_name get) h) same

redis_handler-Failed_example :
    Answers world (redis_handler world fresh 9 (λ host. true) client get breaking with_hook) (
      Failed running running_open 9 8
        (c_str (text "gone"))
        (child_span running running_open fresh (span_name get) kind_client (
          set_statement
            (text "db.statement")
            ((command_name get ++ text " ") ++ command_text get.args)
            (with_key get.args (before_arguments (λ host. true) client [] get))))
        (child_span running running_open fresh
          (running_name broken.caller first)
          kind_internal
          (exception_attributes broken)))
redis_handler-Failed_example =
    redis_handler-Failed world fresh 9 get breaking quiet quiet-AllBehave (λ h g. self-SameHooks g)
      span_uuid-IsUuid with_hook provider running refl is_running running_open broken fresh 8
      (λ host. true) client
      (set_statement (text "db.statement") ((command_name get ++ text " ") ++ command_text get.args)
        (with_key get.args (before_arguments (λ host. true) client [] get)))
      span_uuid-IsUuid broken_of_redis broken_full refl get_breaks
      (redis_attributes-command_text (λ host. true) client [] get get_apart)
