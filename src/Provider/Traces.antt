-- ===== src/Provider/Traces.antt =====
-- src/provider.cc: the spans of a request belong to one trace, and hang under its first span.
use opentelemetry_php_ext.Common.{
  ℕ, zero, suc, ◌≡◌, ◌≤◌, refl, ap, List, [], ◌∷◌, ◌++◌, none, some, arith, Bytes, All, All-append,
  All-get, get_elem?, set, length, take, take_all,
}
use opentelemetry_php_ext.Span.{Span, Request, unset}
use opentelemetry_php_ext.Provider.State.{
  Slot, Settings, Fresh, latest_span, get_tracer, create_span, create_first_span, new_resource, own,
}
use opentelemetry_php_ext.Provider.Child.{create_child}
use opentelemetry_php_ext.Provider.Propagation.{IsId}

-- A span of the trace.
abbrev pub Member : Bytes → Span → Type 0
Member trace_id x = (x.trace_id ≡ trace_id) × IsId 16 x.trace_id × IsId 8 x.span_id

-- A request is open: its first span stands, and all its spans are of that span's trace, with ids of
-- the right sizes.
pub record IsOpen (t : Slot) : Type 0 where
  pub request : Request
  pub index : ℕ
  pub first : Span
  pub has_request : t.request ≡ some request
  pub has_first : t.first_span ≡ some index
  pub at_index : get_elem? request.spans index ≡ some first
  pub members : All (Member first.trace_id) request.spans

abbrev pub IsUuid : Bytes → Type 0
IsUuid = IsId 16

pub take-IsId : (n : ℕ) (m : ℕ) (b : Bytes) → IsId m b → n ≤ m → IsId n (take n b)
take-IsId zero m b h le = (refl, tt)
take-IsId (suc n) m [] (len, h) le = absurd (omega arith)
take-IsId (suc n) zero (c ∷ b) (len, h) le = absurd (omega arith)
take-IsId (suc n) (suc m) (c ∷ b) (len, (hc, hb)) le =
    let (len', fits) = take-IsId n m b (omega arith, hb) (omega arith) in (omega arith, (hc, fits))

pub get_elem?-append_end {ℓ} :
    {A : Type ℓ} (xs : List A) (x : A) → get_elem? (xs ++ x ∷ []) (length xs) ≡ some x
get_elem?-append_end [] x = refl
get_elem?-append_end (y ∷ xs) x = get_elem?-append_end xs x

pub get_elem?-append {ℓ} :
    {A : Type ℓ} (xs ys : List A) (i : ℕ) (x : A)
    → get_elem? xs i ≡ some x
    → get_elem? (xs ++ ys) i ≡ some x
get_elem?-append [] ys i x h = cc
get_elem?-append (y ∷ xs) ys zero x h = h
get_elem?-append (y ∷ xs) ys (suc i) x h = get_elem?-append xs ys i x h

pub set-append_end {ℓ} :
    {A : Type ℓ} (xs : List A) (x y : A) → set (xs ++ x ∷ []) (length xs) y ≡ xs ++ y ∷ []
set-append_end [] x y = refl
set-append_end (z ∷ xs) x y = ap (λ l. z ∷ l) (set-append_end xs x y)

-- The span that `createSpan` appends.
abbrev pub new_span : Bytes → Fresh → Bytes → ℕ → Span
new_span trace_id fresh name kind = record {
  trace_id = trace_id;
  span_id = take 8 fresh.span_uuid;
  parent_span_id = [];
  name = name;
  kind = kind;
  start_time_unix_nano = fresh.now;
  end_time_unix_nano = 0;
  attributes = [];
  events = [];
  status = record { code = unset; message = [] };
}

abbrev pub push : Request → Span → Request
push r x = record r { spans = r.spans ++ x ∷ [] }

pub create_span-open :
    (s : Settings) (fresh : Fresh) (name : Bytes) (kind : ℕ) (t : Slot) (o : IsOpen t)
    → create_span s fresh name kind t
      ≡ some (
        length o.request.spans,
        record t { request = some (push o.request (new_span o.first.trace_id fresh name kind)) },
      )
unfolding create_span get_tracer
create_span-open s fresh name kind t o = rw (o.has_request, o.has_first, o.at_index)

pub latest-open : (t : Slot) (o : IsOpen t) → latest_span t ≡ some o.first
latest-open t o = rw (o.has_request, o.has_first, o.at_index)

pub first-IsId : (t : Slot) (o : IsOpen t) → IsId 16 o.first.trace_id
first-IsId t o =
    (All-get (Member o.first.trace_id) o.request.spans o.index o.first o.members o.at_index).1

-- On an open request a hook's span is created; it is the new last span, of the same trace as the
-- first span and with that span as its parent, it is named and of the kind that was asked for, the
-- other spans stay, and the request stays open under the same first span.
pub create_child-IsOpen :
    (s : Settings) (fresh : Fresh) (name : Bytes) (kind : ℕ) (t : Slot) (o : IsOpen t)
    → IsUuid fresh.span_uuid
    → (q : Slot) × (create_child s fresh name kind t ≡ some (length o.request.spans, q))
      × (q.request
          ≡ some (
              push o.request (record (new_span o.first.trace_id fresh name kind) {
                parent_span_id = o.first.span_id;
              })))
      × (latest_span q ≡ some o.first)
      × IsOpen q
unfolding create_child
create_child-IsOpen s fresh name kind t o uuid =
    let x = new_span o.first.trace_id fresh name kind in
    let y : Span = record x { parent_span_id = o.first.span_id } in
    let q : Slot = record t { request = some (push o.request y) } in
    let kept : latest_span q ≡ some o.first =
      rw (o.has_first) (get_elem?-append o.request.spans (y ∷ []) o.index o.first o.at_index) in
    (
      q,
      rw (
        latest-open t o,
        create_span-open s fresh name kind t o,
        get_elem?-append_end o.request.spans x,
        set-append_end o.request.spans x y,
      ),
      refl,
      kept,
      record {
        request = push o.request y;
        index = o.index;
        first = o.first;
        has_request = refl;
        has_first = o.has_first;
        at_index = get_elem?-append o.request.spans (y ∷ []) o.index o.first o.at_index;
        members =
            All-append (Member o.first.trace_id) o.request.spans (y ∷ []) o.members
              ((refl, first-IsId t o, take-IsId 8 16 fresh.span_uuid uuid (omega arith)), tt);
      },
    )

-- A process with no first span has no parent for a hook's span, and the call faults: so it is in a
-- child that was forked on the command line, whose parent's pid has no entry yet.
pub create_child_fault :
    (s : Settings) (fresh : Fresh) (name : Bytes) (kind : ℕ) (t : Slot)
    → t.first_span ≡ none
    → create_child s fresh name kind t ≡ none
unfolding create_child
create_child_fault s fresh name kind t e = rw e

-- The process with its request just opened.
abbrev pub opened : Settings → Fresh → Bytes → ℕ → Slot → Slot
opened s fresh name kind t = record t {
  request =
      some (record { resource = none; spans = new_span fresh.trace_uuid fresh name kind ∷ [] });
  resource = own (new_resource s);
  first_span = some zero;
}

pub create_first_span-opened :
    (s : Settings) (fresh : Fresh) (name : Bytes) (kind : ℕ) (t : Slot)
    → t.request ≡ none
    → t.first_span ≡ none
    → IsUuid fresh.trace_uuid
    → create_first_span s fresh name kind t ≡ some (0, opened s fresh name kind t)
unfolding create_first_span get_tracer
create_first_span-opened s fresh name kind t no_request no_first u =
    rw (no_request, no_first, take_all 16 fresh.trace_uuid u.0)

-- On a process without request or first span `createFirstSpan` opens a request with a resource of
-- its own. The request's one span is the first span, with the first UUID for its trace id and no
-- parent.
pub create_first_span-IsOpen :
    (s : Settings) (fresh : Fresh) (name : Bytes) (kind : ℕ) (t : Slot)
    → t.request ≡ none
    → t.first_span ≡ none
    → IsUuid fresh.trace_uuid
    → IsUuid fresh.span_uuid
    → (q : Slot) × (create_first_span s fresh name kind t ≡ some (0, q))
      × (latest_span q ≡ some (new_span fresh.trace_uuid fresh name kind))
      × (q.resource ≡ own (new_resource s))
      × (o : IsOpen q) × (o.request.spans ≡ new_span fresh.trace_uuid fresh name kind ∷ [])
create_first_span-IsOpen s fresh name kind t no_request no_first u v =
    let x = new_span fresh.trace_uuid fresh name kind in
    (
      opened s fresh name kind t,
      create_first_span-opened s fresh name kind t no_request no_first u,
      refl,
      refl,
      record {
        request = record { resource = none; spans = x ∷ [] };
        index = zero;
        first = x;
        has_request = refl;
        has_first = refl;
        at_index = refl;
        members = ((refl, u, take-IsId 8 16 fresh.span_uuid v (omega arith)), tt);
      },
      refl,
    )
