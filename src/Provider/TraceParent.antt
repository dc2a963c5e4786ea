-- ===== src/Provider/TraceParent.antt =====
-- src/provider.cc, src/utils.cc: the `traceparent` header, read and written, and the sampling that
-- stands in for it.
use opentelemetry_php_ext.Common.{
  ℕ, ◌%◌, ◌==◌, Bool, true, false, List, [], ◌∷◌, ◌++◌, Option, none, some, Bytes, text, bytes_eq,
  ltb, is_empty, if◌then◌else◌, ◌>>=◌, length, take, suc,
}
use opentelemetry_php_ext.Hex.{encode, decode}
use opentelemetry_php_ext.Text.{explode}
use opentelemetry_php_ext.Span.{ℤ, pos, negsuc, Span}
use opentelemetry_php_ext.Provider.State.{Slot, Settings, span_at, set_span}
use opentelemetry_php_ext.Provider.Finish.{set_sampled, is_sampled}

-- The `n` bytes behind `data()`; a shorter vector is read past its end.
abbrev pub read_bytes : ℕ → Bytes → Option Bytes
read_bytes n bytes = if ltb (length bytes) n then none else some (take n bytes)

abbrev pub magnitude : ℤ → ℕ
magnitude (pos n) = n
magnitude (negsuc n) = suc n

abbrev pub is_one : ℤ → Bool
is_one (pos n) = n == 1
is_one (negsuc n) = false

-- `ratio == 1 || count % ratio == 0`; a remainder by zero faults.
abbrev pub takes_part : ℤ → ℕ → Option Bool
takes_part ratio count =
    if is_one ratio
    then some true
    else if magnitude ratio == 0
    then none
    else some ((count % magnitude ratio) == 0)

-- The branch of a request without a header.
unfoldable pub sample_by_ratio : Settings → ℕ → Slot → Option Slot
unfolding set_sampled
sample_by_ratio s count t = do
  chosen ← takes_part s.sample_ratio_based count
  some (
      if chosen
      then set_sampled true t
      else if magnitude s.sample_ratio_based == 0
      then set_sampled false t
      else t)

-- The four fields of a header; one with another number of fields is passed over.
unfoldable pub adopt_parent : List Bytes → Slot → Option Slot
unfolding decode set_sampled
adopt_parent (version ∷ trace ∷ parent ∷ flags ∷ []) t = do
  i ← t.first_span
  span ← span_at t i
  trace_id ← read_bytes 16 (decode trace)
  parent_span_id ← read_bytes 8 (decode parent)
  let span' = record span { trace_id = trace_id; parent_span_id = parent_span_id }
  some (set_sampled (bytes_eq flags (text "01")) (set_span t i span'))
adopt_parent kv t = some t

unfoldable pub parse_trace_parent : Settings → ℕ → Bytes → Slot → Option Slot
unfolding adopt_parent sample_by_ratio
parse_trace_parent s count traceparent t =
    if is_empty traceparent
    then sample_by_ratio s count t
    else adopt_parent (explode (text "-") traceparent) t

-- `traceId` and `spanId`.
unfoldable pub trace_id_text : Span → Option Bytes
unfolding encode
trace_id_text span = encode span.trace_id 16

unfoldable pub span_id_text : Span → Option Bytes
unfolding encode
span_id_text span = encode span.span_id 8

unfoldable pub format_trace_parent : Settings → ℕ → Span → Slot → Option Bytes
unfolding trace_id_text span_id_text is_sampled
format_trace_parent s now span t = do
  trace ← trace_id_text span
  parent ← span_id_text span
  sampled ← is_sampled s now t
  some (
      text "00-"
      ++ (trace
          ++ (text "-" ++ (parent ++ (text "-" ++ (if sampled then text "01" else text "00"))))))
