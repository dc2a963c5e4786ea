-- ===== src/Handlers/Traced.antt =====
-- The span that a handler leaves, whatever the function does that the handler stands for, as long as
-- it keeps the open request.
use opentelemetry_php_ext.Common.{
  ℕ, suc, zero, ◌<◌, ◌≡◌, refl, ◌∙◌, List, [], ◌∷◌, Option, some, arith, Bytes, get_elem?, length,
  ◌>>=◌,
}
use opentelemetry_php_ext.Span.{Span, KeyValue}
use opentelemetry_php_ext.Provider.{Provider, slot, set_slot, change_slot}
use opentelemetry_php_ext.Provider.State.{Slot, Settings, Fresh}
use opentelemetry_php_ext.Provider.Child.{create_child}
use opentelemetry_php_ext.Provider.Isolation.{slot-set_slot}
use opentelemetry_php_ext.Provider.Traces.{
  IsOpen, IsUuid, Member, new_span, create_span-open, latest-open, first-IsId, take-IsId,
  get_elem?-append, get_elem?-append_end, set-append_end,
}
use opentelemetry_php_ext.Core.Globals.{Globals, World}
use opentelemetry_php_ext.Sdk.Spans.{pushed, pushed-IsOpen}
use opentelemetry_php_ext.Handlers.{open_span, close_span, around}
use opentelemetry_php_ext.Handlers.Kept.{Keeps, Touches, Grown, Finishes, IsEnded, trans-Keeps}

-- A call returns, with a provider whose slot is as `P` says.
abbrev pub Answers : World → Option Globals → (Slot → Type 0) → Type 0
Answers w r P =
    (g : Globals) × (p : Provider) × (t : Slot) × (r ≡ some g)
    × (g.provider ≡ some p)
    × (slot w.host p ≡ t)
    × P t

pub same-Answers :
    (w : World) (r q : Option Globals) (P : Slot → Type 0) → r ≡ q → Answers w q P → Answers w r P
same-Answers w r q P same (g, p, t, e, has, is_slot, h) = (g, p, t, same ∙ e, has, is_slot, h)

-- On an open request a call returns, and keeps the request.
abbrev pub Behaves : World → (Globals → Option Globals) → Type 0
Behaves w run =
    (g : Globals) (p : Provider) (t : Slot)
    → g.provider ≡ some p
    → slot w.host p ≡ t
    → (o : IsOpen t) → Answers w (run g) (Keeps t o)

-- The same of what may use the pointer to a span of the request.
abbrev pub BehavesAt : World → (Option ℕ → Globals → Option Globals) → Type 0
BehavesAt w run =
    (n : ℕ) (x : Span) (g : Globals) (p : Provider) (t : Slot)
    → g.provider ≡ some p
    → slot w.host p ≡ t
    → (o : IsOpen t) → get_elem? o.request.spans n ≡ some x
    → Answers w (run (some n) g) (Keeps t o)

-- A new span under the first span of an open request.
abbrev pub child_span : (t : Slot) → IsOpen t → Fresh → Bytes → ℕ → List KeyValue → Span
child_span t o fresh name kind attributes = record (new_span o.first.trace_id fresh name kind) {
  parent_span_id = o.first.span_id;
  attributes = attributes;
}

-- The request is kept; behind the spans that it had stands `x`, grown and ended at the time `now`.
pub record Traced (t : Slot) (o : IsOpen t) (now : ℕ) (x : Span) (q : Slot) : Type 0 where
  pub keeps : Keeps t o q
  pub span : Span
  pub at_end : get_elem? keeps.after.request.spans (length o.request.spans) ≡ some span
  pub grown : Grown x span
  pub is_ended : IsEnded now span

pub index-length {ℓ} :
    {A : Type ℓ} (xs : List A) (i : ℕ) (x : A) → get_elem? xs i ≡ some x → i < length xs
index-length [] i x h = cc
index-length (y ∷ xs) zero x h = omega arith
index-length (y ∷ xs) (suc i) x h = omega (arith, index-length xs i x h)

module _ (s : Settings) (fresh : Fresh) (name : Bytes) (kind : ℕ) (t : Slot) (o : IsOpen t) where
  create_child-pushed :
      create_child s fresh name kind t
      ≡ some (length o.request.spans, pushed t o (child_span t o fresh name kind []))
  unfolding create_child
  create_child-pushed =
      let x = new_span o.first.trace_id fresh name kind in
      rw (
        latest-open t o,
        create_span-open s fresh name kind t o,
        get_elem?-append_end o.request.spans x,
        set-append_end o.request.spans x (child_span t o fresh name kind []),
      )

  pub child-Member :
      (attributes : List KeyValue)
      → IsUuid fresh.span_uuid
      → Member o.first.trace_id (child_span t o fresh name kind attributes)
  child-Member attributes uuid =
      (refl, first-IsId t o, take-IsId 8 16 fresh.span_uuid uuid (omega arith))

module _ (w : World) (fresh : Fresh) (name : Bytes) (kind : ℕ) (attributes : List KeyValue)
    (g : Globals) (p : Provider) (t : Slot) (o : IsOpen t) where
  abbrev pub started : Slot
  started = pushed t o (child_span t o fresh name kind attributes)

  abbrev pub opened_globals : Globals
  opened_globals = record g { provider = some (set_slot w.host started p) }

  pub open_span_lem :
      g.provider ≡ some p
      → slot w.host p ≡ t
      → open_span w fresh name kind (some attributes) g
        ≡ some (some (length o.request.spans), opened_globals)
  unfolding open_span
  open_span_lem has is_slot = rw (
    has,
    is_slot,
    create_child-pushed g.settings fresh name kind t o,
    get_elem?-append_end o.request.spans (child_span t o fresh name kind []),
    set-append_end o.request.spans (child_span t o fresh name kind [])
        (child_span t o fresh name kind attributes),
  )

pub close_span_lem :
    (w : World) (finish : ℕ → Slot → Option Slot) (i : ℕ) (g : Globals) (p : Provider) (t q : Slot)
    → g.provider ≡ some p
    → slot w.host p ≡ t
    → finish i t ≡ some q
    → close_span w finish (some i) g ≡ some (record g { provider = some (set_slot w.host q p) })
unfolding close_span change_slot
close_span_lem w finish i g p t q has is_slot ends = rw (has, is_slot, ends)

-- The three steps together.
abbrev pub assemble :
    (t : Slot) (o : IsOpen t) (x : Span) (member : Member o.first.trace_id x) (t2 : Slot)
    (k : Keeps (pushed t o x) (pushed-IsOpen t o x member) t2) (q : Slot)
    (e : Touches t2 k.after (length o.request.spans) x q) (now : ℕ)
    → IsEnded now e.span
    → Traced t o now x q
assemble t o x member t2 k q e now is_ended = record {
  keeps = record {
    after = e.after;
    same_index = e.same_index ∙ k.same_index;
    same_resource = e.same_resource ∙ k.same_resource;
    same_trace = e.same_trace ∙ k.same_trace;
    same_span = e.same_span ∙ k.same_span;
    others = λ j y at ne.
        e.others j y (k.others j y (get_elem?-append o.request.spans (x ∷ []) j y at) ne)
          (λ same. ne (same ∙ k.same_index))
          (λ same. let low = index-length o.request.spans j y at in omega arith);
  };
  span = e.span;
  at_end = e.there;
  grown = e.grown;
  is_ended = is_ended;
}

module _ (w : World) (fresh : Fresh) (name : Bytes) (kind : ℕ) (attributes : List KeyValue)
    (run : Option ℕ → Globals → Option Globals) (finish : ℕ → Slot → Option Slot) (now : ℕ) where
  -- On an open request, around a function that keeps it, a handler returns: it leaves a span of its
  -- own under the first one, with its name, kind and attributes, ended; all else is kept.
  pub around-Traced :
      BehavesAt w run
      → Finishes now finish
      → IsUuid fresh.span_uuid
      → (g : Globals) (p : Provider) (t : Slot) → g.provider ≡ some p
      → slot w.host p ≡ t
      → (o : IsOpen t)
      → Answers w
          (around w fresh name kind (some attributes) run finish g)
          (Traced t o now (child_span t o fresh name kind attributes))
  around-Traced behaves finishes uuid g p t has is_slot o =
      let x = child_span t o fresh name kind attributes in
      let n : ℕ = length o.request.spans in
      let t1 : Slot = started w fresh name kind attributes g p t o in
      let member = child-Member g.settings fresh name kind t o attributes uuid in
      let (g2, p2, t2, runs, has2, is_slot2, k) =
        behaves n x (opened_globals w fresh name kind attributes g p t o) (set_slot w.host t1 p) t1
          refl (slot-set_slot w.host t1 p) (pushed-IsOpen t o x member)
          (get_elem?-append_end o.request.spans x) in
      let low : o.index < n = index-length o.request.spans o.index o.first o.at_index in
      let at : get_elem? k.after.request.spans n ≡ some x =
        k.others n x (get_elem?-append_end o.request.spans x) (λ e. omega arith) in
      let (q, ends, e, is_ended) =
        finishes t2 k.after n x at (λ e. let e' : n ≡ o.index = e ∙ k.same_index in omega arith) in
      (
        record g2 { provider = some (set_slot w.host q p2) },
        set_slot w.host q p2,
        q,
        rw (open_span_lem w fresh name kind attributes g p t o has is_slot, runs)
            (close_span_lem w finish n g2 p2 t2 q has2 is_slot2 ends),
        refl,
        slot-set_slot w.host q p2,
        assemble t o x member t2 k q e now is_ended,
      )

kept-Traced :
    (t : Slot) (o : IsOpen t) (now : ℕ) (x : Span) (q : Slot) (a : Traced t o now x q) (r : Slot)
    → Keeps q a.keeps.after r
    → Traced t o now x r
kept-Traced t o now x q a r k = record {
  keeps = trans-Keeps t o q a.keeps r k;
  span = a.span;
  at_end = k.others (length o.request.spans) a.span a.at_end (λ e.
      let low : o.index < length o.request.spans =
        index-length o.request.spans o.index o.first o.at_index in
      let same : length o.request.spans ≡ o.index = e ∙ a.keeps.same_index in omega arith);
  grown = a.grown;
  is_ended = a.is_ended;
}

-- What runs after the handler leaves its span as it is.
pub after-Traced :
    (w : World) (t : Slot) (o : IsOpen t) (now : ℕ) (x : Span) (r : Option Globals)
    (f : Globals → Option Globals)
    → Answers w r (Traced t o now x)
    → Behaves w f
    → Answers w (r >>= f) (Traced t o now x)
after-Traced w t o now x r f (g1, p1, t1, e, has, is_slot, a) behaves =
    let (g2, p2, t2, e2, has2, is_slot2, k) = behaves g1 p1 t1 has is_slot a.keeps.after in
    (g2, p2, t2, rw e e2, has2, is_slot2, kept-Traced t o now x t1 a t2 k)
