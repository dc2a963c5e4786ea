-- ===== src/Requests/Nested.antt =====
-- src/core.cc with the hooks: handlers inside the functions that other handlers stand for.
use opentelemetry_php_ext.Core.Globals.{Globals}
