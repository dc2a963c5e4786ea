-- ===== src/Core/Starts.antt =====
-- src/core.cc: what `start_tracer` leaves behind.
use opentelemetry_php_ext.Common.{
  ℕ, zero, ◌≡◌, refl, ◌∙◌, List, [], ◌∷◌, Option, none, some, arith, Bytes, text, ◌>>=◌,
}
use opentelemetry_php_ext.Text.{explode}
use opentelemetry_php_ext.Span.{KeyValue, Span, Resource}
use opentelemetry_php_ext.Provider.State.{
  Slot, Settings, Fresh, own, span_at, set_span, new_resource,
}
use opentelemetry_php_ext.Provider.TraceParent.{parse_trace_parent, adopt_parent, sample_by_ratio}
use opentelemetry_php_ext.Provider.Finish.{set_sampled}
use opentelemetry_php_ext.Provider.Baggage.{
  insert, add_to, add_baggage, add_resource_attribute, parse_item, parse_items, parse_baggage,
}
use opentelemetry_php_ext.Provider.Traces.{
  IsOpen, IsUuid, new_span, opened, create_first_span-opened, take-IsId,
}
use opentelemetry_php_ext.Provider.Adoption.{IsFresh, fresh-IsOpen, parse_trace_parent-IsFresh}
use opentelemetry_php_ext.Core.Tracer.{Start, start_trace}

-- The resource of the process is still its own.
abbrev pub HasResource : Slot → Type 0
HasResource t = (x : Resource) × (t.resource ≡ own x)

-- A trace is under way: its request is open, and the resource waits to be given to it.
pub record IsLive (t : Slot) : Type 0 where
  pub is_open : IsOpen t
  pub has_resource : HasResource t

-- Baggage changes neither the request nor the first span, and is always taken.
abbrev SameTrace : Slot → Slot → Type 0
SameTrace t q = (q.request ≡ t.request) × (q.first_span ≡ t.first_span)

Loads : Slot → Option Slot → Type 0
Loads t r = (q : Slot) × (r ≡ some q) × SameTrace t q × HasResource q

parse_item-Loads : (kv : List Bytes) (t : Slot) → HasResource t → Loads t (parse_item kv t)
unfolding Loads parse_item add_baggage add_resource_attribute
parse_item-Loads (k ∷ v ∷ []) t (x, e) = (
  record t { baggage = insert k v t.baggage; resource = own (add_to k v x) },
  rw e,
  (refl, refl),
  (add_to k v x, refl),
)
parse_item-Loads _ t h = (t, refl, (refl, refl), h)

Loads-trans :
    (t : Slot) (r : Option Slot) (f : Slot → Option Slot)
    → Loads t r
    → ((q : Slot) → HasResource q → Loads q (f q))
    → Loads t (r >>= f)
unfolding Loads
Loads-trans t r f (q, e, (same_r, same_f), h) next =
    let (u, e', (same_r', same_f'), h') = next q h in
    (u, rw e e', (same_r' ∙ same_r, same_f' ∙ same_f), h')

parse_items-Loads : (items : List Bytes) (t : Slot) → HasResource t → Loads t (parse_items items t)
unfolding parse_items
parse_items-Loads [] t h = unfold Loads in (t, refl, (refl, refl), h)
parse_items-Loads (item ∷ items) t h =
    Loads-trans t (parse_item (explode (text "=") item) t) (parse_items items)
      (parse_item-Loads (explode (text "=") item) t h) (λ q h'. parse_items-Loads items q h')

parse_baggage-Loads : (s : Bytes) (t : Slot) → HasResource t → Loads t (parse_baggage s t)
unfolding parse_baggage
parse_baggage-Loads [] t h = unfold Loads in (t, refl, (refl, refl), h)
parse_baggage-Loads (c ∷ s) t h = parse_items-Loads (explode (text ",") (c ∷ s)) t h

same-IsFresh : (t q : Slot) → SameTrace t q → IsFresh t → IsFresh q
same-IsFresh t q (same_r, same_f) (x, r, has, one, first, id8, id16) =
    (x, r, same_r ∙ has, one, same_f ∙ first, id8, id16)

adopt-resource :
    (kv : List Bytes) (t q : Slot) → adopt_parent kv t ≡ some q → q.resource ≡ t.resource
unfolding adopt_parent set_sampled
adopt-resource (version ∷ trace ∷ parent ∷ flags ∷ []) t q e = ground arith
adopt-resource _ t q e = ground arith

parse-resource :
    (s : Settings) (count : ℕ) (header : Bytes) (t q : Slot)
    → parse_trace_parent s count header t ≡ some q
    → q.resource ≡ t.resource
unfolding parse_trace_parent sample_by_ratio set_sampled
parse-resource s count [] t q e = ground arith
parse-resource s count (c ∷ rest) t q e = adopt-resource (explode (text "-") (c ∷ rest)) t q e

pub opened-IsFresh :
    (s : Settings) (fresh : Fresh) (name : Bytes) (kind : ℕ) (t : Slot)
    → IsUuid fresh.trace_uuid
    → IsUuid fresh.span_uuid
    → IsFresh (opened s fresh name kind t)
opened-IsFresh s fresh name kind t u v =
    let x = new_span fresh.trace_uuid fresh name kind in
    (
      x,
      record { resource = none; spans = x ∷ [] },
      refl,
      refl,
      refl,
      take-IsId 8 16 fresh.span_uuid v (omega arith),
      u,
    )

-- The last step of a start: the first span gets its attributes.
attributes-IsLive :
    (f : List KeyValue → List KeyValue) (t : Slot)
    → IsFresh t
    → HasResource t
    → (q : Slot) × ((span_at t zero >>= λ x.
          some (set_span t zero (record x { attributes = f x.attributes })))
        ≡ some q)
      × IsLive q
      × (q.first_span ≡ some zero)
attributes-IsLive f t fresh (res, e) =
    let (x, r, has, one, first, id8, id16) = fresh in
    let y : Span = record x { attributes = f x.attributes } in
    let q : Slot = record t { request = some (record r { spans = y ∷ [] }) } in
    let fresh' : IsFresh q = (y, record r { spans = y ∷ [] }, refl, refl, first, id8, id16) in
    (q, rw (has, one), record { is_open = fresh-IsOpen q fresh'; has_resource = (res, e) }, first)

module _ (s : Settings) (count : ℕ) (fresh : Fresh) (b : Start) (t : Slot)
    (no_request : t.request ≡ none) (no_first : t.first_span ≡ none)
    (u : IsUuid fresh.trace_uuid) where
  -- A start on a clean process returns exactly when its header can be read on the new request, and
  -- then a trace is under way, under the request's only span.
  pub start_trace-IsLive :
      (adopted : Slot)
      → IsUuid fresh.span_uuid
      → parse_trace_parent s count b.traceparent (opened s fresh b.uri b.kind t) ≡ some adopted
      → (q : Slot) × (start_trace s count fresh b t ≡ some q)
        × IsLive q
        × (q.first_span ≡ some zero)
  unfolding start_trace Loads
  start_trace-IsLive adopted v e =
      let f = opened-IsFresh s fresh b.uri b.kind t u v in
      let (f', _) = parse_trace_parent-IsFresh s count b.traceparent _ adopted f e in
      let own' = parse-resource s count b.traceparent _ adopted e in
      let (loaded, l, same, h) =
        parse_baggage-Loads b.tracebaggage adopted (new_resource s, own') in
      let (q, a, live, first) =
        attributes-IsLive b.attributes loaded (same-IsFresh adopted loaded same f') h in
      (
        q,
        rw (create_first_span-opened s fresh b.uri b.kind t no_request no_first u, e, l) a,
        live,
        first,
      )

  start_trace_fault :
      parse_trace_parent s count b.traceparent (opened s fresh b.uri b.kind t) ≡ none
      → start_trace s count fresh b t ≡ none
  unfolding start_trace
  start_trace_fault e =
      rw (create_first_span-opened s fresh b.uri b.kind t no_request no_first u, e)
