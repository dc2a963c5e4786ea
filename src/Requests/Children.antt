-- ===== src/Requests/Children.antt =====
-- src/core.cc with the hooks: the spans that one handler leaves, and those of a script.
use opentelemetry_php_ext.Common.{
  ℕ, zero, suc, ◌-◌, ◌≤◌, ◌<◌, ◌≡◌, ◌≢◌, refl, ◌∙◌, Bool, true, false, ◌==◌, List, [], ◌∷◌, Option,
  some, inl, inr, Bool-cases, get_elem?, length, arith, Bytes, take, not,
}
use opentelemetry_php_ext.Span.{Span, KeyValue}
use opentelemetry_php_ext.Provider.State.{Slot}
use opentelemetry_php_ext.Provider.Traces.{IsOpen, IsUuid}
use opentelemetry_php_ext.Core.Globals.{Globals, World}
use opentelemetry_php_ext.Handlers.Kept.{Keeps, IsEnded, trans-Keeps}
use opentelemetry_php_ext.Handlers.Traced.{Answers, Traced, child_span, index-length}
use opentelemetry_php_ext.Requests.{HookEntry, php_error, php_exception, HookedCall, IsComputable}

-- The span of a call: under a first span, with the id and the start that the call drew, and ended at
-- the time of the call's end.
abbrev pub HasChild : Span → List Span → HookedCall → ℕ → Type 0
HasChild first spans h i =
    (x : Span) × (get_elem? spans i ≡ some x)
    × (x.trace_id ≡ first.trace_id)
    × (x.parent_span_id ≡ first.span_id)
    × (x.span_id ≡ take 8 h.fresh.span_uuid)
    × (x.start_time_unix_nano ≡ h.fresh.now)
    × IsEnded h.now x

-- Whether an entry leaves a span whatever the settings; from PHP 8 on an exception does not.
abbrev pub is_traced : World → HookEntry → Bool
is_traced w (php_error e) = false
is_traced w (php_exception e) = not w.is_php_8
is_traced w entry = true

-- Each traced call of a script has its span among the spans, from the place `n` on, in the order of
-- the calls.
pub data HasChildren (w : World) (first : Span) (spans : List Span)
    : ℕ → List HookedCall → Type 0 where
  no_call : (n : ℕ) → HasChildren w first spans n []
  untraced :
      (n : ℕ) (h : HookedCall) (script : List HookedCall)
      → is_traced w h.entry ≡ false
      → HasChildren w first spans n script
      → HasChildren w first spans n (h ∷ script)
  has_child :
      (n i : ℕ) (h : HookedCall) (script : List HookedCall)
      → is_traced w h.entry ≡ true
      → n ≤ i
      → HasChild first spans h i
      → HasChildren w first spans (suc i) script
      → HasChildren w first spans n (h ∷ script)

-- The same from an earlier place on.
pub HasChildren-le :
    (w : World) (first : Span) (spans : List Span) (m n : ℕ) (script : List HookedCall)
    → m ≤ n
    → HasChildren w first spans n script
    → HasChildren w first spans m script
HasChildren-le w first spans m _ _ le (no_call n) = no_call m
HasChildren-le w first spans m _ _ le (untraced n h rest e c) =
    untraced m h rest e (HasChildren-le w first spans m n rest le c)
HasChildren-le w first spans m _ _ le (has_child n i h rest e low child c) =
    has_child m i h rest e (omega arith) child c

pub record Leaves (w : World) (h : HookedCall) (t : Slot) (o : IsOpen t) (q : Slot) : Type 0 where
  pub keeps : Keeps t o q
  pub child :
      is_traced w h.entry ≡ true
      → HasChild o.first keeps.after.request.spans h (length o.request.spans)

-- The request is kept, and for each entry that is traced there is a span of its own behind those that
-- were there.
pub record Ran (w : World) (script : List HookedCall) (t : Slot) (o : IsOpen t) (q : Slot)
    : Type 0 where
  pub keeps : Keeps t o q
  pub children : HasChildren w o.first keeps.after.request.spans (length o.request.spans) script

pub Traced-Leaves :
    (w : World) (h : HookedCall) (r : Option Globals) (t : Slot) (o : IsOpen t) (name : Bytes)
    (kind : ℕ) (attributes : List KeyValue)
    → Answers w r (Traced t o h.now (child_span t o h.fresh name kind attributes))
    → Answers w r (Leaves w h t o)
Traced-Leaves w h r t o name kind attributes (g, p, q, e, has, is_slot, traced) = (
  g,
  p,
  q,
  e,
  has,
  is_slot,
  record {
    keeps = traced.keeps;
    child = λ leaves. (
      traced.span, traced.at_end, traced.grown.trace, traced.grown.parent, traced.grown.id,
      traced.grown.start, traced.is_ended,
    );
  },
)

-- A call that is not traced.
pub Keeps-Leaves :
    (w : World) (h : HookedCall) (r : Option Globals) (t : Slot) (o : IsOpen t)
    → is_traced w h.entry ≡ false
    → Answers w r (Keeps t o)
    → Answers w r (Leaves w h t o)
Keeps-Leaves w h r t o none_left (g, p, q, e, has, is_slot, k) = (
  g,
  p,
  q,
  e,
  has,
  is_slot,
  record { keeps = k; child = λ leaves. absurd (cc (leaves, none_left)) },
)

get_elem?-below {ℓ} :
    {A : Type ℓ} (xs : List A) (i : ℕ) → i < length xs → (a : A) × (get_elem? xs i ≡ some a)
get_elem?-below [] i h = absurd (omega arith)
get_elem?-below (x ∷ xs) zero h = (x, refl)
get_elem?-below (x ∷ xs) (suc i) h = get_elem?-below xs i (omega arith)

-- No span is lost.
pub length-Keeps :
    (t : Slot) (o : IsOpen t) (q : Slot) (k : Keeps t o q)
    → length o.request.spans ≤ length k.after.request.spans
length-Keeps t o q k =
    let n : ℕ = length o.request.spans in
    let low : o.index < n = index-length o.request.spans o.index o.first o.at_index in
    let there : k.after.index < length k.after.request.spans =
      index-length k.after.request.spans k.after.index k.after.first k.after.at_index in
    elim (Bool-cases ((n - 1) == o.index)) [
      | inl e ↦
          let last : n - 1 ≡ o.index = ground arith in
          let same : k.after.index ≡ o.index = k.same_index in omega arith
      | inr e ↦
          let other : (n - 1) ≢ o.index = ground arith in
          let (x, at) = get_elem?-below o.request.spans (n - 1) (omega arith) in
          let kept : n - 1 < length k.after.request.spans =
            index-length k.after.request.spans (n - 1) x (k.others (n - 1) x at other) in
          omega arith
    ]

pub Traced-Keeps :
    (w : World) (r : Option Globals) (t : Slot) (o : IsOpen t) (now : ℕ) (x : Span)
    → Answers w r (Traced t o now x)
    → Answers w r (Keeps t o)
Traced-Keeps w r t o now x (g, p, q, e, has, is_slot, traced) =
    (g, p, q, e, has, is_slot, traced.keeps)

-- What a script asks of the ids that it draws, and of its calls.
abbrev pub IsRunnable : HookedCall → Type 0
IsRunnable h = IsUuid h.fresh.span_uuid × IsComputable h.entry

-- One child stays when the script goes on.
kept-HasChild :
    (t : Slot) (o : IsOpen t) (q : Slot) (k : Keeps t o q) (first : Span) (h : HookedCall) (i : ℕ)
    → i ≢ o.index
    → HasChild first o.request.spans h i
    → HasChild first k.after.request.spans h i
kept-HasChild t o q k first h i ne (x, at, a, b, c, d, e) = (x, k.others i x at ne, a, b, c, d, e)

-- Children depend on the ids of the first span only.
pub same-HasChildren :
    (w : World) (first other : Span) (spans : List Span) (n : ℕ) (script : List HookedCall)
    → other.trace_id ≡ first.trace_id
    → other.span_id ≡ first.span_id
    → HasChildren w other spans n script
    → HasChildren w first spans n script
same-HasChildren w first other spans _ _ same_trace same_span (no_call n) = no_call n
same-HasChildren w first other spans _ _ same_trace same_span (untraced n h rest e c) =
    untraced n h rest e (same-HasChildren w first other spans n rest same_trace same_span c)
same-HasChildren w first other spans _ _ same_trace same_span
      (has_child n i h rest e low (x, at, trace, parent, a, b, d) c) =
    has_child n i h rest e low (x, at, trace ∙ same_trace, parent ∙ same_span, a, b, d)
      (same-HasChildren w first other spans (suc i) rest same_trace same_span c)

-- The first entry of a script, and the rest.
pub cons-Ran :
    (w : World) (b : Bool) (x : HookedCall) (script : List HookedCall) (t : Slot) (o : IsOpen t)
    (q r : Slot) (l : Leaves w x t o q)
    → is_traced w x.entry ≡ b
    → Ran w script q l.keeps.after r
    → Ran w (x ∷ script) t o r
cons-Ran w true x script t o q r l traced rest =
    let n : ℕ = length o.request.spans in
    let child = l.child traced in
    let low : o.index < n = index-length o.request.spans o.index o.first o.at_index in
    let more : n < length l.keeps.after.request.spans =
      index-length l.keeps.after.request.spans n child.0 child.1 in
    let same : l.keeps.after.index ≡ o.index = l.keeps.same_index in
    let other : n ≢ l.keeps.after.index = omega arith in
    record {
      keeps = trans-Keeps t o q l.keeps r rest.keeps;
      children =
          has_child n n x script traced (omega arith)
            (kept-HasChild q l.keeps.after r rest.keeps o.first x n other child)
            (HasChildren-le w o.first rest.keeps.after.request.spans (suc n)
              (length l.keeps.after.request.spans) script more
              (same-HasChildren w o.first l.keeps.after.first rest.keeps.after.request.spans
                (length l.keeps.after.request.spans) script l.keeps.same_trace l.keeps.same_span
                rest.children));
    }
cons-Ran w false x script t o q r l traced rest = record {
  keeps = trans-Keeps t o q l.keeps r rest.keeps;
  children = untraced (length o.request.spans) x script traced (
      HasChildren-le w o.first rest.keeps.after.request.spans (length o.request.spans)
        (length l.keeps.after.request.spans) script (length-Keeps t o q l.keeps)
        (same-HasChildren w o.first l.keeps.after.first rest.keeps.after.request.spans
          (length l.keeps.after.request.spans) script l.keeps.same_trace l.keeps.same_span
          rest.children));
}
