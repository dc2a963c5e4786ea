-- ===== src/Provider/Child.antt =====
-- The start that every hook shares (src/zend_hook_redis.cc, src/zend_hook_memcached.cc,
-- src/zend_hook_pdo.cc and the others): a span under the first span of the process.
use opentelemetry_php_ext.Common.{ℕ, Option, some, Bytes, ◌>>=◌}
use opentelemetry_php_ext.Provider.State.{
  Slot, Settings, Fresh, span_at, set_span, latest_span, create_span,
}

-- `parentId = latestSpan().span_id()`, `createSpan`, `set_parent_span_id(parentId)`.
unfoldable pub create_child : Settings → Fresh → Bytes → ℕ → Slot → Option (ℕ × Slot)
unfolding create_span
create_child s fresh name kind t = do
  parent ← latest_span t
  created ← create_span s fresh name kind t
  span ← span_at (created.1) (created.0)
  some (
    created.0,
    set_span (created.1) (created.0) (record span { parent_span_id = parent.span_id }),
  )
