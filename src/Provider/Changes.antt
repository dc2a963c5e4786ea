-- ===== src/Provider/Changes.antt =====
-- src/provider.cc: changes of single spans that leave a request open.
use mathlib.Core.Path.{subst}
use opentelemetry_php_ext.Common.{
  ℕ, ◌≡◌, refl, sym, ap, ◌∙◌, Bool, true, some, arith, Bytes, All, All-set, All-get, get_elem?, set,
  inl, inr, ◌==◌, ==_iff, Bool-cases,
}
use opentelemetry_php_ext.Span.{Span, Request}
use opentelemetry_php_ext.Provider.State.{Slot, span_at, set_span}
use opentelemetry_php_ext.Provider.Finish.{ok_end, error_end, set_sampled}
use opentelemetry_php_ext.Provider.Endings.{
  ok_end_lem, error_end_lem, get_elem?-set_self, get_elem?-set_ne, failed, ended,
}
use opentelemetry_php_ext.Provider.Traces.{IsOpen, Member}

-- The request with one span exchanged.
abbrev pub changed : Slot → Request → ℕ → Span → Slot
changed t r i y = record t { request = some (record r { spans = set r.spans i y }) }

pub set_span-open :
    (t : Slot) (o : IsOpen t) (i : ℕ) (y : Span) → set_span t i y ≡ changed t o.request i y
set_span-open t o i y = rw (o.has_request)

-- The changed span is of the trace, as the one in its place was.
pub changed-Member :
    (t : Slot) (o : IsOpen t) (i : ℕ) (x y : Span)
    → get_elem? o.request.spans i ≡ some x
    → y.trace_id ≡ x.trace_id
    → y.span_id ≡ x.span_id
    → Member o.first.trace_id y
changed-Member t o i x y at same_trace same_span =
    let (trace, id16, id8) = All-get (Member o.first.trace_id) o.request.spans i x o.members at in
    (same_trace ∙ trace, rw same_trace id16, rw same_span id8)

changed-IsOpen :
    (t : Slot) (o : IsOpen t) (i : ℕ) (x y : Span)
    → get_elem? o.request.spans i ≡ some x
    → y.trace_id ≡ x.trace_id
    → y.span_id ≡ x.span_id
    → IsOpen (changed t o.request i y)
changed-IsOpen t o i x y at same_trace same_span =
    let m = changed-Member t o i x y at same_trace same_span in
    let all = All-set (Member o.first.trace_id) o.request.spans i y o.members m in
    elim (Bool-cases (i == o.index)) [
      | inl e ↦
          let e' : i ≡ o.index = (==_iff i o.index).0 e in
          record {
            request = record (o.request) { spans = set o.request.spans i y };
            index = i;
            first = y;
            has_request = refl;
            has_first = o.has_first ∙ ap some (sym e');
            at_index = get_elem?-set_self o.request.spans i x y at;
            members = subst (λ id. All (Member id) (set o.request.spans i y)) (sym m.0) all;
          }
      | inr e ↦ record {
        request = record (o.request) { spans = set o.request.spans i y };
        index = o.index;
        first = o.first;
        has_request = refl;
        has_first = o.has_first;
        at_index =
            get_elem?-set_ne o.request.spans i o.index y (ground (arith, ==_iff i o.index))
            ∙ o.at_index;
        members = all;
      }
    ]

-- A span of an open request may change in all but its trace id and span id.
pub set_span-IsOpen :
    (t : Slot) (o : IsOpen t) (i : ℕ) (x y : Span)
    → get_elem? o.request.spans i ≡ some x
    → y.trace_id ≡ x.trace_id
    → y.span_id ≡ x.span_id
    → IsOpen (set_span t i y)
set_span-IsOpen t o i x y at same_trace same_span =
    rw (set_span-open t o i y) (changed-IsOpen t o i x y at same_trace same_span)

pub set_sampled-IsOpen : (b : Bool) (t : Slot) → IsOpen t → IsOpen (set_sampled b t)
unfolding set_sampled
set_sampled-IsOpen b t o = record {
  request = o.request;
  index = o.index;
  first = o.first;
  has_request = o.has_request;
  has_first = o.has_first;
  at_index = o.at_index;
  members = o.members;
}

span_at-open :
    (t : Slot) (o : IsOpen t) (i : ℕ) (x : Span)
    → get_elem? o.request.spans i ≡ some x
    → span_at t i ≡ some x
span_at-open t o i x at = rw (o.has_request) at

-- Any span of an open request can end, well or with an error, and the request stays open.
pub ends-IsOpen :
    (t : Slot) (o : IsOpen t) (i now : ℕ) (message : Bytes) (x : Span)
    → get_elem? o.request.spans i ≡ some x
    → ((q : Slot) × (ok_end now i t ≡ some q) × IsOpen q)
      × ((q : Slot) × (error_end now i message t ≡ some q) × IsOpen q)
ends-IsOpen t o i now message x at =
    let there = span_at-open t o i x at in
    (
      (
        set_span t i (ended now x),
        ok_end_lem now i t x there,
        set_span-IsOpen t o i x (ended now x) at refl refl,
      ),
      (
        set_sampled true (set_span t i (failed now message x)),
        error_end_lem now i message t x there,
        set_sampled-IsOpen true _ (set_span-IsOpen t o i x (failed now message x) at refl refl),
      ),
    )
