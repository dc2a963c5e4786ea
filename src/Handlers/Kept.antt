-- ===== src/Handlers/Kept.antt =====
-- What a call leaves of an open request: its spans but the first stay as they are, and the first
-- keeps its ids.
use opentelemetry_php_ext.Common.{
  ℕ, ◌≡◌, ◌≢◌, refl, sym, ap, ◌∙◌, List, [], ◌++◌, Option, some, All-set, get_elem?, append-nil,
  append_assoc, set,
}
use opentelemetry_php_ext.Span.{Span, KeyValue, unset, Status}
use opentelemetry_php_ext.Provider.State.{Slot}
use opentelemetry_php_ext.Provider.Endings.{get_elem?-set_self, get_elem?-set_ne}
use opentelemetry_php_ext.Provider.Traces.{IsOpen, Member}
use opentelemetry_php_ext.Provider.Changes.{changed, changed-Member}

pub record Keeps (t : Slot) (o : IsOpen t) (q : Slot) : Type 0 where
  pub after : IsOpen q
  pub same_index : after.index ≡ o.index
  pub same_resource : q.resource ≡ t.resource
  pub same_trace : after.first.trace_id ≡ o.first.trace_id
  pub same_span : after.first.span_id ≡ o.first.span_id
  pub others :
      (j : ℕ) (x : Span)
      → get_elem? o.request.spans j ≡ some x
      → j ≢ o.index
      → get_elem? after.request.spans j ≡ some x

-- What a span keeps for good, and what it got since.
pub record Grown (x y : Span) : Type 0 where
  pub trace : y.trace_id ≡ x.trace_id
  pub id : y.span_id ≡ x.span_id
  pub parent : y.parent_span_id ≡ x.parent_span_id
  pub name : y.name ≡ x.name
  pub kind : y.kind ≡ x.kind
  pub start : y.start_time_unix_nano ≡ x.start_time_unix_nano
  pub more : List KeyValue
  pub described : y.attributes ≡ x.attributes ++ more

-- The request after its span `i` was changed, the other spans kept.
pub record Touches (t : Slot) (o : IsOpen t) (i : ℕ) (x : Span) (q : Slot) : Type 0 where
  pub after : IsOpen q
  pub same_index : after.index ≡ o.index
  pub same_resource : q.resource ≡ t.resource
  pub same_trace : after.first.trace_id ≡ o.first.trace_id
  pub same_span : after.first.span_id ≡ o.first.span_id
  pub others :
      (j : ℕ) (y : Span)
      → get_elem? o.request.spans j ≡ some y
      → j ≢ o.index
      → j ≢ i
      → get_elem? after.request.spans j ≡ some y
  pub span : Span
  pub there : get_elem? after.request.spans i ≡ some span
  pub grown : Grown x span

-- A span that was ended at a time: it has a status, and that time for its end.
abbrev pub IsEnded : ℕ → Span → Type 0
IsEnded now x = (x.status.code ≢ unset) × (x.end_time_unix_nano ≡ now)

-- A way to end a span at a time: on any span of an open request but the first it answers, and the
-- span has ended at that time.
abbrev pub Finishes : ℕ → (ℕ → Slot → Option Slot) → Type 0
Finishes now finish =
    (t : Slot) (o : IsOpen t) (i : ℕ) (x : Span)
    → get_elem? o.request.spans i ≡ some x
    → i ≢ o.index
    → (q : Slot) × (finish i t ≡ some q) × (e : Touches t o i x q) × IsEnded now e.span

abbrev pub self-Keeps : (t : Slot) (o : IsOpen t) → Keeps t o t
self-Keeps t o = record {
  after = o;
  same_index = refl;
  same_resource = refl;
  same_trace = refl;
  same_span = refl;
  others = λ j x at ne. at;
}

abbrev pub trans-Keeps :
    (t : Slot) (o : IsOpen t) (q : Slot) (k : Keeps t o q) (r : Slot)
    → Keeps q k.after r
    → Keeps t o r
trans-Keeps t o q k r l = record {
  after = l.after;
  same_index = l.same_index ∙ k.same_index;
  same_resource = l.same_resource ∙ k.same_resource;
  same_trace = l.same_trace ∙ k.same_trace;
  same_span = l.same_span ∙ k.same_span;
  others = λ j x at ne. l.others j x (k.others j x at ne) (λ e. ne (e ∙ k.same_index));
}

abbrev pub self-Grown : (x : Span) → Grown x x
self-Grown x = record {
  trace = refl;
  id = refl;
  parent = refl;
  name = refl;
  kind = refl;
  start = refl;
  more = [];
  described = sym (append-nil x.attributes);
}

abbrev pub trans-Grown : (x y z : Span) → Grown x y → Grown y z → Grown x z
trans-Grown x y z a b = record {
  trace = b.trace ∙ a.trace;
  id = b.id ∙ a.id;
  parent = b.parent ∙ a.parent;
  name = b.name ∙ a.name;
  kind = b.kind ∙ a.kind;
  start = b.start ∙ a.start;
  more = a.more ++ b.more;
  described =
      b.described ∙ ap (λ l. l ++ b.more) a.described ∙ append_assoc x.attributes a.more b.more;
}

-- More attributes, another status and another end are no other span.
abbrev pub filled-Grown :
    (x : Span) (l : List KeyValue) (now : ℕ) (st : Status)
    → Grown x (record x { attributes = x.attributes ++ l; status = st; end_time_unix_nano = now })
filled-Grown x l now st = record {
  trace = refl;
  id = refl;
  parent = refl;
  name = refl;
  kind = refl;
  start = refl;
  more = l;
  described = refl;
}

module _ (t : Slot) (o : IsOpen t) (i : ℕ) (x y : Span) (at : get_elem? o.request.spans i ≡ some x)
    (ne : i ≢ o.index) (same_trace : y.trace_id ≡ x.trace_id)
    (same_id : y.span_id ≡ x.span_id) where
  -- The request with one span exchanged that is not the first.
  abbrev pub other_open : IsOpen (changed t o.request i y)
  other_open = record {
    request = record (o.request) { spans = set o.request.spans i y };
    index = o.index;
    first = o.first;
    has_request = refl;
    has_first = o.has_first;
    at_index = get_elem?-set_ne o.request.spans i o.index y ne ∙ o.at_index;
    members =
        All-set (Member o.first.trace_id) o.request.spans i y o.members
          (changed-Member t o i x y at same_trace same_id);
  }

  abbrev pub changed-Touches : Grown x y → Touches t o i x (changed t o.request i y)
  changed-Touches grown = record {
    after = other_open;
    same_index = refl;
    same_resource = refl;
    same_trace = refl;
    same_span = refl;
    others = λ j z there nf nj. get_elem?-set_ne o.request.spans i j y (λ e. nj (sym e)) ∙ there;
    span = y;
    there = get_elem?-set_self o.request.spans i x y at;
    grown = grown;
  }

abbrev pub kept-Touches :
    (t : Slot) (o : IsOpen t) (i : ℕ) (x : Span) (q : Slot)
    → get_elem? o.request.spans i ≡ some x
    → i ≢ o.index
    → Keeps t o q
    → Touches t o i x q
kept-Touches t o i x q at ne k = record {
  after = k.after;
  same_index = k.same_index;
  same_resource = k.same_resource;
  same_trace = k.same_trace;
  same_span = k.same_span;
  others = λ j y there nf nj. k.others j y there nf;
  span = x;
  there = k.others i x at ne;
  grown = self-Grown x;
}

abbrev pub trans-Touches :
    (t : Slot) (o : IsOpen t) (i : ℕ) (x : Span) (q : Slot) (a : Touches t o i x q) (r : Slot)
    → Touches q a.after i a.span r
    → Touches t o i x r
trans-Touches t o i x q a r b = record {
  after = b.after;
  same_index = b.same_index ∙ a.same_index;
  same_resource = b.same_resource ∙ a.same_resource;
  same_trace = b.same_trace ∙ a.same_trace;
  same_span = b.same_span ∙ a.same_span;
  others =
      λ j y there nf nj. b.others j y (a.others j y there nf nj) (λ e. nf (e ∙ a.same_index)) nj;
  span = b.span;
  there = b.there;
  grown = trans-Grown x a.span b.span a.grown b.grown;
}

-- The request and the first span of another slot.
abbrev pub same-IsOpen :
    (t q : Slot) → q.request ≡ t.request → q.first_span ≡ t.first_span → IsOpen t → IsOpen q
same-IsOpen t q same_request same_first o = record {
  request = o.request;
  index = o.index;
  first = o.first;
  has_request = same_request ∙ o.has_request;
  has_first = same_first ∙ o.has_first;
  at_index = o.at_index;
  members = o.members;
}
