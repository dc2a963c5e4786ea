-- ===== src/Examples/Process.antt =====
-- Tests of the provider: src/provider.cc.
use opentelemetry_php_ext.Common.{◌≡◌, ◌<◌, refl, true, some, arith, Bytes, text, length}
use opentelemetry_php_ext.Hex.{decode, atoul}
use opentelemetry_php_ext.Span.{pos}
use opentelemetry_php_ext.Provider.{Provider, new_provider, slot, set_slot}
use opentelemetry_php_ext.Provider.State.{Slot, Settings, set_span, latest_span}
use opentelemetry_php_ext.Provider.Finish.{set_sampled, is_sampled}
use opentelemetry_php_ext.Provider.TraceParent.{parse_trace_parent, format_trace_parent}
use opentelemetry_php_ext.Provider.Child.{create_child}
use opentelemetry_php_ext.Provider.Propagation.{parse-format}
use opentelemetry_php_ext.Provider.Traces.{IsOpen, new_span, push, create_child-IsOpen}
use opentelemetry_php_ext.Examples.Data.{
  settings, cli, trace_uuid-IsUuid, span_uuid-IsUuid, fresh, first, running, running_open,
}

-- Another process, whose first span is to take the sender's trace over.
parse-format_example :
    (header : Bytes) × (format_trace_parent settings 6000000 first (set_sampled true running)
      ≡ some header)
    × (parse_trace_parent settings 3 header running
        ≡ some (
            set_sampled true (
              set_span running 0
                (record first { trace_id = first.trace_id; parent_span_id = first.span_id }))))
unfolding is_sampled set_sampled
parse-format_example =
    parse-format settings settings 6000000 3 first first true (set_sampled true running) running 0
      trace_uuid-IsUuid (refl, ground arith) refl refl refl

short_trace : length (decode (text "zz")) < 16
unfolding decode atoul
short_trace = omega arith

abbrev sampled_provider : Provider
sampled_provider = set_slot cli (set_sampled true (slot cli new_provider)) new_provider

abbrev no_ratio : Settings
no_ratio = record settings { sample_ratio_based = pos 0 }

create_child-IsOpen_example :
    (q : Slot) × (create_child settings fresh (text "get") 3 running
      ≡ some (length running_open.request.spans, q))
    × (q.request
        ≡ some (
            push running_open.request
              (record (new_span running_open.first.trace_id fresh (text "get") 3) {
                parent_span_id = running_open.first.span_id;
              })))
    × (latest_span q ≡ some running_open.first)
    × IsOpen q
create_child-IsOpen_example =
    create_child-IsOpen settings fresh (text "get") 3 running running_open span_uuid-IsUuid
