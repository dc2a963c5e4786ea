-- ===== src/Provider/Sampling.antt =====
-- src/provider.cc: which requests are sampled.
use opentelemetry_php_ext.Common.{
  ℕ, ◌≡◌, ◌<◌, ◌≤◌, ◌+◌, ◌-◌, ◌/◌, ◌%◌, ◌^◌, ◌==◌, true, none, some, arith, [], if◌then◌else◌, leb,
  Bool-cases, inl, inr,
}
use opentelemetry_php_ext.Span.{pos, Span}
use opentelemetry_php_ext.Provider.State.{Slot, Settings, latest_span}
use opentelemetry_php_ext.Provider.Finish.{set_sampled, is_sampled}
use opentelemetry_php_ext.Provider.TraceParent.{sample_by_ratio, parse_trace_parent}

-- Without a header and with a ratio `n` above 0, every `n`-th request is sampled and the flag of any
-- other stays as it was.
pub parse-empty_ratio :
    (s : Settings) (n c : ℕ) (t : Slot)
    → s.sample_ratio_based ≡ pos n
    → 0 < n
    → parse_trace_parent s c [] t ≡ some (if (c % n) == 0 then set_sampled true t else t)
unfolding parse_trace_parent sample_by_ratio
parse-empty_ratio s n c t e h = rw e (ground arith)

-- With the ratio 0, meant to switch sampling off, the remainder by zero comes first.
pub ratio_zero_fault :
    (s : Settings) (c : ℕ) (t : Slot)
    → s.sample_ratio_based ≡ pos 0
    → parse_trace_parent s c [] t ≡ none
unfolding parse_trace_parent sample_by_ratio
ratio_zero_fault s c t e = rw e

-- A request is reported when its flag is set, and otherwise exactly when its first span started
-- `max_time_consuming` milliseconds ago or more, on a clock that has not run back or over.
pub is_sampled_lem :
    (s : Settings) (now : ℕ) (t : Slot) (span : Span)
    → latest_span t ≡ some span
    → span.start_time_unix_nano ≤ now
    → now < 2 ^ 64
    → is_sampled s now t
      ≡ some (
          if t.is_sampled
          then true
          else leb (s.max_time_consuming) ((now - span.start_time_unix_nano) / 1000000))
unfolding is_sampled
is_sampled_lem s now t span e h lt =
    let exact : (now + 2 ^ 64 - span.start_time_unix_nano) % 2 ^ 64
        ≡ now - span.start_time_unix_nano =
      omega arith in
    elim (Bool-cases t.is_sampled) [ inl f ↦ rw f | inr f ↦ rw (f, e, exact) ]
