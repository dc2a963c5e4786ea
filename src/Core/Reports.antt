-- ===== src/Core/Reports.antt =====
-- src/core.cc: what a trace that ends reports.
use opentelemetry_php_ext.Common.{
  ◌/◌, ◌≡◌, ap, ◌∙◌, Bool, true, ◌&&◌, List, [], ◌∷◌, some, arith, if◌then◌else◌, inl, inr,
  Bool-cases, set, leb,
}
use opentelemetry_php_ext.Span.{Span, Request}
use opentelemetry_php_ext.Provider.State.{Slot, in_request, latest_span, get_tracer}
use opentelemetry_php_ext.Provider.Finish.{ok_end, is_sampled, elapsed}
use opentelemetry_php_ext.Provider.Endings.{ok_end_lem, ended, get_elem?-set_self}
use opentelemetry_php_ext.Provider.Changes.{set_span-open, changed}
use opentelemetry_php_ext.Core.Globals.{Globals, World, Effect, send}
use opentelemetry_php_ext.Core.Lifecycle.{
  Times, give_resource, report, export_request, finish_trace,
}
use opentelemetry_php_ext.Core.Starts.{IsLive}

module _ (w : World) (g : Globals) (times : Times) (t : Slot) (l : IsLive t) where
  -- The first span as it ends, and the request as it leaves: with its resource, and all its spans.
  abbrev pub last_first : Span
  last_first = ended times.ended l.is_open.first

  abbrev pub delivered : Request
  delivered = record {
    resource = some l.has_resource.0;
    spans = set l.is_open.request.spans l.is_open.index last_first;
  }

  -- The trace is reported if it is collected, and is sampled or took long enough.
  abbrev pub is_reported : Bool
  is_reported =
      g.enable_collect
      && (if t.is_sampled
          then true
          else leb g.settings.max_time_consuming
              (elapsed times.checked l.is_open.first.start_time_unix_nano / 1000000))

  abbrev after_end : Slot
  after_end = changed t l.is_open.request l.is_open.index last_first

  abbrev pub after_give : Slot
  after_give = record t { request = some delivered; resource = in_request }

  end_first : ok_end times.ended l.is_open.index t ≡ some after_end
  end_first =
      ok_end_lem times.ended l.is_open.index t l.is_open.first
        (rw (l.is_open.has_request) (l.is_open.at_index))
      ∙ ap some (set_span-open t l.is_open l.is_open.index last_first)

  give_first : give_resource g.settings after_end ≡ some after_give
  unfolding give_resource get_tracer
  give_first = rw (l.has_resource.1)

  latest_after : latest_span after_give ≡ some last_first
  latest_after = rw (l.is_open.has_first) (
      get_elem?-set_self l.is_open.request.spans l.is_open.index l.is_open.first last_first
        l.is_open.at_index)

  -- What is put into the queue, if the queue takes it.
  abbrev pub reports : List Effect
  reports = if is_reported && w.queue_takes delivered then send delivered ∷ [] else []

  report_first : report w g times.checked after_give ≡ some reports
  unfolding report is_sampled export_request
  report_first = elim (Bool-cases g.enable_collect) [
    | inl on ↦ elim (Bool-cases t.is_sampled) [
      | inl yes_sampled ↦ rw (on, yes_sampled) (ground arith)
      | inr not_sampled ↦ rw (on, not_sampled, latest_after) (ground arith)
    ]
    | inr off ↦ rw off
  ]

  -- Finishing a trace that is under way returns the slot with its first span ended and the resource
  -- given to the request, and reports that request exactly if it is collected, sampled or slow, and
  -- taken by the queue.
  pub finish_trace-IsLive : finish_trace w g times l.is_open.index t ≡ some (after_give, reports)
  unfolding finish_trace
  finish_trace-IsLive = rw (end_first, give_first, report_first)
