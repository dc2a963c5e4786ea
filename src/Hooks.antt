-- ===== src/Hooks.antt =====
-- src/zend_hook.cc: the hooks that the settings enable.
pub mod Names
pub mod RedisNames
pub mod MysqliNames
pub mod CurlErrors
pub mod Registry
pub mod Restore
pub mod Engine
pub mod Undo
pub mod Distinct
pub mod Unregister
use opentelemetry_php_ext.Common.{Bool, if◌then◌else◌}
use Engine.{
  register_error, unregister_error, register_exception, unregister_exception, register_curl,
  unregister_curl, register_yar, unregister_yar, register_memcached, unregister_memcached,
  register_redis, unregister_redis, register_pdo, unregister_pdo, register_pdo_statement,
  unregister_pdo_statement, register_mysqli, unregister_mysqli,
}

-- The settings `enable_error` and so on.
pub record Enabled : Type 0 where
  pub enable_error : Bool
  pub enable_exception : Bool
  pub enable_curl : Bool
  pub enable_yar : Bool
  pub enable_memcached : Bool
  pub enable_redis : Bool
  pub enable_mysql : Bool

abbrev pub when {ℓ} : {A : Type ℓ} → Bool → (A → A) → A → A
when b f a = if b then f a else a

unfoldable pub register_zend_hook : Enabled → Engine.Engine → Engine.Engine
register_zend_hook g e =
    let e1 = when g.enable_error register_error e in
    let e2 = when g.enable_exception register_exception e1 in
    let e3 = when g.enable_curl register_curl e2 in
    let e4 = when g.enable_yar register_yar e3 in
    let e5 = when g.enable_memcached register_memcached e4 in
    let e6 = when g.enable_redis register_redis e5 in
    when g.enable_mysql (λ x. register_mysqli (register_pdo_statement (register_pdo x))) e6

unfoldable pub unregister_zend_hook : Enabled → Engine.Engine → Engine.Engine
unregister_zend_hook g e =
    let e1 = when g.enable_error unregister_error e in
    let e2 = when g.enable_exception unregister_exception e1 in
    let e3 = when g.enable_curl unregister_curl e2 in
    let e4 = when g.enable_yar unregister_yar e3 in
    let e5 = when g.enable_memcached unregister_memcached e4 in
    let e6 = when g.enable_redis unregister_redis e5 in
    when g.enable_mysql (λ x. unregister_mysqli (unregister_pdo_statement (unregister_pdo x))) e6
