-- ===== src/Handlers/Noticed.antt =====
-- src/zend_hook_error.cc, src/zend_hook_exception.cc, src/zend_hook_yar.cc: what comes between the
-- start and the end of these spans keeps an open request.
use opentelemetry_php_ext.Text.Explode.{implode}
use opentelemetry_php_ext.Common.{
  ℕ, ◌≡◌, refl, sym, ap, ◌∙◌, Bool, true, List, [], ◌∷◌, ◌++◌, Option, some, Bytes, text, c_str,
  get_elem?, set, Bool-cases, inl, inr, ◌>>=◌, ◌&&◌, is_empty, leb, ◌/◌, All-get, All-set,
}
use opentelemetry_php_ext.Span.{Span}
use opentelemetry_php_ext.Text.{is_equal}
use opentelemetry_php_ext.Provider.{Provider, slot, set_slot, change_slot}
use opentelemetry_php_ext.Provider.State.{Slot, Settings, Baggage}
use opentelemetry_php_ext.Provider.Finish.{
  error_end, set_sampled, set_redis_exception, is_sampled, elapsed,
}
use opentelemetry_php_ext.Provider.Baggage.{format_baggage}
use opentelemetry_php_ext.Provider.Propagation.{fields, format-implode}
use opentelemetry_php_ext.Provider.Endings.{
  error_end_lem, failed, get_elem?-set_self, get_elem?-set_ne,
}
use opentelemetry_php_ext.Provider.Isolation.{slot-set_slot}
use opentelemetry_php_ext.Provider.Traces.{IsOpen, Member, latest-open}
use opentelemetry_php_ext.Provider.Changes.{changed, changed-Member, set_span-open}
use opentelemetry_php_ext.Core.Globals.{Globals, World, change_provider, do_effect, set_headers}
use opentelemetry_php_ext.Handlers.{Call, Run, run_original, command_name}
use opentelemetry_php_ext.Handlers.Frames.{find_code_stacktrace}
use opentelemetry_php_ext.Handlers.Kept.{Keeps, self-Keeps, trans-Keeps, Finishes}
use opentelemetry_php_ext.Handlers.Finishing.{
  same-Keeps, span_at-open, ok_end-Finishes, error_end-Finishes,
}
use opentelemetry_php_ext.Handlers.Traced.{Answers, Behaves, BehavesAt}
use opentelemetry_php_ext.Handlers.Behaviours.{AllBehave, run_original-Behaves, nothing-Behaves}
use opentelemetry_php_ext.Handlers.Errors.{PhpError, first_error, end_first, error_span_end}
use opentelemetry_php_ext.Handlers.Exceptions.{PhpException, keep_exception, keep_message}
use opentelemetry_php_ext.Handlers.Yar.{trace_headers, yar_headers, yar_client_run}

-- A change of the slot that keeps its request.
pub change_slot-Answers :
    (w : World) (f : Slot → Option Slot) (g : Globals) (p : Provider) (t q : Slot) (o : IsOpen t)
    → g.provider ≡ some p
    → slot w.host p ≡ t
    → f t ≡ some q
    → Keeps t o q
    → Answers w (change_provider (change_slot w.host f) g) (Keeps t o)
unfolding change_provider change_slot
change_slot-Answers w f g p t q o has is_slot e k = (
  record g { provider = some (set_slot w.host q p) },
  set_slot w.host q p,
  q,
  rw (has, is_slot, e),
  refl,
  slot-set_slot w.host q p,
  k,
)

-- The first span may fail, too.
failed_first-IsOpen :
    (now : ℕ) (message : Bytes) (t : Slot) (o : IsOpen t)
    → Keeps t o (set_sampled true (changed t o.request o.index (failed now message o.first)))
unfolding set_sampled
failed_first-IsOpen now message t o =
    let y = failed now message o.first in
    record {
      after = record {
        request = record (o.request) { spans = set o.request.spans o.index y };
        index = o.index;
        first = y;
        has_request = refl;
        has_first = o.has_first;
        at_index = get_elem?-set_self o.request.spans o.index o.first y o.at_index;
        members =
            All-set (Member o.first.trace_id) o.request.spans o.index y o.members
              (changed-Member t o o.index o.first y o.at_index refl refl);
      };
      same_index = refl;
      same_resource = refl;
      same_trace = refl;
      same_span = refl;
      others = λ j x at ne. get_elem?-set_ne o.request.spans o.index j y (λ e. ne (sym e)) ∙ at;
    }

end_first_lem :
    (now : ℕ) (message : Bytes) (t : Slot) (o : IsOpen t)
    → end_first now message t
      ≡ some (set_sampled true (changed t o.request o.index (failed now message o.first)))
end_first_lem now message t o =
    ap (λ f. f >>= λ i. error_end now i message t) o.has_first
    ∙ error_end_lem now o.index message t o.first (span_at-open t o o.index o.first o.at_index)
    ∙ ap (λ r. some (set_sampled true r)) (set_span-open t o o.index (failed now message o.first))

pub first_error-Behaves : (w : World) (now : ℕ) (e : PhpError) → Behaves w (first_error w now e)
unfolding first_error
first_error-Behaves w now e g p t has is_slot o =
    elim (Bool-cases (e.is_reported && is_empty (find_code_stacktrace e.caller))) [
      | inl f ↦
          rw (f, first_error)
            (change_slot-Answers w (end_first now (c_str e.message)) g p t _ o has is_slot
              (end_first_lem now (c_str e.message) t o)
              (failed_first-IsOpen now (c_str e.message) t o))
      | inr f ↦ rw (f, first_error) (nothing-Behaves w g p t has is_slot o)
    ]

pub keep_exception-Behaves : (w : World) (e : PhpException) → Behaves w (keep_exception w e)
unfolding keep_exception set_redis_exception
keep_exception-Behaves w e g p t has is_slot o =
    elim (Bool-cases (is_equal (text "RedisException") e.class_of)) [
      | inl f ↦
          rw (f, keep_exception)
            (change_slot-Answers w (keep_message (c_str e.message)) g p t
              (set_redis_exception (c_str e.message) t) o has is_slot refl
              (same-Keeps t (set_redis_exception (c_str e.message) t) refl refl refl o))
      | inr f ↦ rw (f, keep_exception) (nothing-Behaves w g p t has is_slot o)
    ]

pub error_span_end-Finishes : (now : ℕ) (e : PhpError) → Finishes now (error_span_end now e)
unfolding error_span_end
error_span_end-Finishes now e t o i x at ne = elim (Bool-cases e.is_reported) [
  | inl f ↦ rw (f, error_span_end) (error_end-Finishes now (c_str e.message) t o i x at ne)
  | inr f ↦ rw (f, error_span_end) (ok_end-Finishes now t o i x at ne)
]

is_sampled-open :
    (s : Settings) (now : ℕ) (t : Slot) → IsOpen t → (b : Bool) × (is_sampled s now t ≡ some b)
unfolding is_sampled
is_sampled-open s now t o = elim (Bool-cases t.is_sampled) [
  | inl e ↦ (true, rw e)
  | inr e ↦ (
    leb s.max_time_consuming (elapsed now o.first.start_time_unix_nano / 1000000),
    rw (e, latest-open t o),
  )
]

-- The two headers of a span.
abbrev pub header_lines : (Baggage → Baggage) → Slot → Span → Bool → List Bytes
header_lines order t x b =
    c_str (text "traceparent: " ++ implode (text "-") (fields x b))
    ∷ c_str (text "baggage: " ++ format_baggage order t)
    ∷ []

-- For a span of an open request the headers can be formatted.
pub trace_headers-open :
    (w : World) (order : Baggage → Baggage) (now n : ℕ) (x : Span) (g : Globals) (p : Provider)
    (t : Slot)
    → g.provider ≡ some p
    → slot w.host p ≡ t
    → (o : IsOpen t) → get_elem? o.request.spans n ≡ some x
    → (b : Bool) × (is_sampled g.settings now t ≡ some b)
      × (trace_headers w order now n g ≡ some (header_lines order t x b))
unfolding trace_headers
trace_headers-open w order now n x g p t has is_slot o at =
    let (b, e) = is_sampled-open g.settings now t o in
    let (trace, id16, id8) = All-get (Member o.first.trace_id) o.request.spans n x o.members at in
    (
      b,
      e,
      rw (has, is_slot, span_at-open t o n x at, format-implode g.settings now x t b id16 id8 e),
    )

pub yar_headers-BehavesAt :
    (w : World) (order : Baggage → Baggage) (now n : ℕ) (x : Span) (g : Globals) (p : Provider)
    (t : Slot)
    → g.provider ≡ some p
    → slot w.host p ≡ t
    → (o : IsOpen t) → get_elem? o.request.spans n ≡ some x
    → Answers w (yar_headers w order now n g) (Keeps t o)
unfolding yar_headers
yar_headers-BehavesAt w order now n x g p t has is_slot o at =
    let (b, _, e) = trace_headers-open w order now n x g p t has is_slot o at in
    (do_effect (set_headers (header_lines order t x b)) g, p, t, rw e, has, is_slot, self-Keeps t o)

pub trans-Answers :
    (w : World) (g : Globals) (t : Slot) (o : IsOpen t) (r : Option Globals)
    (f : Globals → Option Globals)
    → Answers w r (Keeps t o)
    → Behaves w f
    → Answers w (r >>= f) (Keeps t o)
trans-Answers w g t o r f (g1, p1, t1, e, has, is_slot, k) behaves =
    let (g2, p2, t2, e2, has2, is_slot2, l) = behaves g1 p1 t1 has is_slot k.after in
    (g2, p2, t2, rw e e2, has2, is_slot2, trans-Keeps t o t1 k t2 l)

pub yar_client_run-BehavesAt :
    (w : World) (order : Baggage → Baggage) (now : ℕ) (c : Call) (run : Run)
    → AllBehave w run
    → BehavesAt w (yar_client_run w order now c run)
unfolding yar_headers
yar_client_run-BehavesAt w order now c run all n x g p t has is_slot o at =
    trans-Answers w g t o (yar_headers w order now n g)
      (λ h. run_original run h.engine.yar_client_class.originals (command_name c) h)
      (yar_headers-BehavesAt w order now n x g p t has is_slot o at)
      (λ h. run_original-Behaves w run all h.engine.yar_client_class.originals (command_name c) h)
