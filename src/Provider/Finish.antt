-- ===== src/Provider/Finish.antt =====
-- src/provider.cc: how a span ends, the sampled flag, the exception kept for Redis, and `clean`.
use opentelemetry_php_ext.Common.{
  ℕ, ◌+◌, ◌-◌, ◌/◌, ◌%◌, ◌^◌, Bool, true, false, not, [], Option, none, some, Bytes, is_empty, leb,
  if◌then◌else◌, ◌>>=◌,
}
use opentelemetry_php_ext.Span.{unset, ok, error, Status}
use opentelemetry_php_ext.Provider.State.{Slot, Settings, span_at, set_span, latest_span}

unfoldable pub set_sampled : Bool → Slot → Slot
set_sampled b t = record t { is_sampled = b }

-- `get_unix_nanoseconds() - start`, in 64 bits without sign.
abbrev pub elapsed : ℕ → ℕ → ℕ
elapsed now start = (now + 2 ^ 64 - start) % 2 ^ 64

-- The flag, or else a duration of `max_time_consuming` milliseconds or more. The quotient by `1e6`
-- is exact for durations below 2 ^ 53 ns, and is taken as the quotient of integers.
unfoldable pub is_sampled : Settings → ℕ → Slot → Option Bool
is_sampled s now t = if t.is_sampled then some true else do
  span ← latest_span t
  some (leb s.max_time_consuming (elapsed now span.start_time_unix_nano / 1000000))

abbrev pub ok_status : Status → Status
ok_status st = elim st.code [ unset ↦ record { code = ok; message = [] } | ok ↦ st | error ↦ st ]

unfoldable pub ok_end : ℕ → ℕ → Slot → Option Slot
ok_end now i t = do
  span ← span_at t i
  some (set_span t i (record span { status = ok_status span.status; end_time_unix_nano = now }))

unfoldable pub error_end : ℕ → ℕ → Bytes → Slot → Option Slot
unfolding set_sampled
error_end now i message t = do
  span ← span_at t i
  some (
      set_sampled true (
        set_span t i (record span {
          status = record { code = error; message = message };
          end_time_unix_nano = now;
        })))

unfoldable pub get_redis_exception : Slot → Bytes
get_redis_exception t = t.redis_exception

unfoldable pub set_redis_exception : Bytes → Slot → Slot
set_redis_exception message t = record t { redis_exception = message }

unfoldable pub clear_redis_exception : Slot → Slot
unfolding set_redis_exception
clear_redis_exception t = set_redis_exception [] t

unfoldable pub is_redis_exception : Slot → Bool
unfolding get_redis_exception
is_redis_exception t = not (is_empty (get_redis_exception t))

abbrev drop_request : Slot → Slot
drop_request t = record t { request = none; first_span = none; is_sampled = false }

-- Outside the command line nothing is cleaned without a request; on it the baggage and the Redis
-- exception go in any case. The `Resource` pointer stays as it is.
unfoldable pub clean : Bool → Slot → Slot
clean false t = elim t.request [
  | none ↦ t
  | some r ↦ record (drop_request t) { baggage = []; redis_exception = [] }
]
clean true t = elim t.request [
  | none ↦ record t { baggage = []; redis_exception = [] }
  | some r ↦ record (drop_request t) { baggage = []; redis_exception = [] }
]
