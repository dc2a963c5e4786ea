-- ===== src/Handlers/Finishing.antt =====
-- src/provider.cc: `okEnd` and `errorEnd` on a span that is not the first one.
use opentelemetry_php_ext.Common.{
  ℕ, ◌≡◌, ◌≢◌, refl, ap, ◌∙◌, [], some, Bytes, get_elem?, append-nil, true, arith, sym,
}
use opentelemetry_php_ext.Span.{Span, unset, Status}
use opentelemetry_php_ext.Provider.State.{Slot, span_at}
use opentelemetry_php_ext.Provider.Finish.{set_sampled, ok_end, error_end, ok_status}
use opentelemetry_php_ext.Provider.Endings.{ok_end_lem, error_end_lem, ended, failed}
use opentelemetry_php_ext.Provider.Traces.{IsOpen}
use opentelemetry_php_ext.Provider.Changes.{changed, set_span-open}
use opentelemetry_php_ext.Handlers.Kept.{
  Keeps, Touches, Grown, Finishes, same-IsOpen, kept-Touches, trans-Touches, changed-Touches,
}

-- A slot of the same request and first span.
abbrev pub same-Keeps :
    (t q : Slot)
    → q.request ≡ t.request
    → q.first_span ≡ t.first_span
    → q.resource ≡ t.resource
    → (o : IsOpen t) → Keeps t o q
same-Keeps t q same_request same_first same_resource o = record {
  after = same-IsOpen t q same_request same_first o;
  same_index = refl;
  same_resource = same_resource;
  same_trace = refl;
  same_span = refl;
  others = λ j x at ne. at;
}

pub span_at-open :
    (t : Slot) (o : IsOpen t) (i : ℕ) (x : Span)
    → get_elem? o.request.spans i ≡ some x
    → span_at t i ≡ some x
span_at-open t o i x at = rw (o.has_request) at

abbrev pub ended-Grown : (now : ℕ) (x : Span) → Grown x (ended now x)
ended-Grown now x = record {
  trace = refl;
  id = refl;
  parent = refl;
  name = refl;
  kind = refl;
  start = refl;
  more = [];
  described = sym (append-nil x.attributes);
}

abbrev failed-Grown : (now : ℕ) (message : Bytes) (x : Span) → Grown x (failed now message x)
failed-Grown now message x = record {
  trace = refl;
  id = refl;
  parent = refl;
  name = refl;
  kind = refl;
  start = refl;
  more = [];
  described = sym (append-nil x.attributes);
}

pub ok_status-set : (st : Status) → (ok_status st).code ≢ unset
ok_status-set st h = ground arith

pub ok_end-Finishes : (now : ℕ) → Finishes now (ok_end now)
ok_end-Finishes now t o i x at ne = (
  changed t o.request i (ended now x),
  ok_end_lem now i t x (span_at-open t o i x at) ∙ ap some (set_span-open t o i (ended now x)),
  changed-Touches t o i x (ended now x) at ne refl refl (ended-Grown now x),
  (ok_status-set x.status, refl),
)

-- What the flag and the Redis exception do not touch.
abbrev pub same-Touches :
    (t : Slot) (o : IsOpen t) (i : ℕ) (x : Span) (q r : Slot) (a : Touches t o i x q)
    → i ≢ o.index
    → r.request ≡ q.request
    → r.first_span ≡ q.first_span
    → r.resource ≡ q.resource
    → Touches t o i x r
same-Touches t o i x q r a ne same_request same_first same_resource = trans-Touches t o i x q a r (
    kept-Touches q a.after i a.span r a.there (λ e. ne (e ∙ a.same_index))
      (same-Keeps q r same_request same_first same_resource a.after))

abbrev pub failed-Touches :
    (now : ℕ) (message : Bytes) (t : Slot) (o : IsOpen t) (i : ℕ) (x : Span)
    → get_elem? o.request.spans i ≡ some x
    → i ≢ o.index
    → Touches t o i x (changed t o.request i (failed now message x))
failed-Touches now message t o i x at ne =
    changed-Touches t o i x (failed now message x) at ne refl refl (failed-Grown now message x)

pub error_end-Finishes : (now : ℕ) (message : Bytes) → Finishes now (λ i. error_end now i message)
unfolding set_sampled
error_end-Finishes now message t o i x at ne =
    let q : Slot = changed t o.request i (failed now message x) in
    (
      set_sampled true q,
      error_end_lem now i message t x (span_at-open t o i x at)
          ∙ ap (λ r. some (set_sampled true r)) (set_span-open t o i (failed now message x)),
      same-Touches t o i x q (set_sampled true q) (failed-Touches now message t o i x at ne) ne refl
          refl refl,
      ((λ e. cc), refl),
    )
