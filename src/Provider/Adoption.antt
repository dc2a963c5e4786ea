-- ===== src/Provider/Adoption.antt =====
-- src/provider.cc: `parseTraceParent` on a request that has just been opened.
use opentelemetry_php_ext.Common.{
  ℕ, zero, ◌≡◌, ◌≤◌, refl, Bool, List, [], ◌∷◌, some, arith, Bytes, IsByte, All, length, take, ltb,
  ◌>>=◌, inl, inr, Option-cases, Bool-cases, text, bytes_eq,
}
use mathlib.Core.Option.{some-injective}
use mathlib.Core.Path.{subst}
use opentelemetry_php_ext.Hex.{decode}
use opentelemetry_php_ext.Hex.Decode.{decode-Fills}
use opentelemetry_php_ext.Text.{explode}
use opentelemetry_php_ext.Span.{Span, Request}
use opentelemetry_php_ext.Provider.State.{Slot, Settings}
use opentelemetry_php_ext.Provider.Finish.{set_sampled}
use opentelemetry_php_ext.Provider.TraceParent.{
  read_bytes, adopt_parent, sample_by_ratio, parse_trace_parent,
}
use opentelemetry_php_ext.Provider.Propagation.{IsId}
use opentelemetry_php_ext.Provider.Traces.{IsOpen, take-IsId}

IsByte-decode : (s : Bytes) → All IsByte (decode s)
IsByte-decode s = elim (decode-Fills s) [ inl e ↦ rw e tt | inr f ↦ f.1 ]

-- An id that could be read is an id.
read-IsId : (n : ℕ) (s id : Bytes) → read_bytes n (decode s) ≡ some id → IsId n id
read-IsId n s id e = elim (Bool-cases (ltb (length (decode s)) n)) [
  | inl short ↦ absurd (cc (rw short at e))
  | inr fits ↦
      let e' : take n (decode s) ≡ id = ground arith in
      let enough : n ≤ length (decode s) = ground arith in
      rw (← e') (take-IsId n (length (decode s)) (decode s) (refl, IsByte-decode s) enough)
]

-- The request of an open process with its first span alone.
abbrev pub IsFresh : Slot → Type 0
IsFresh t =
    (x : Span) × (r : Request) × (t.request ≡ some r)
    × (r.spans ≡ x ∷ [])
    × (t.first_span ≡ some zero)
    × IsId 8 x.span_id
    × IsId 16 x.trace_id

pub fresh-IsOpen : (t : Slot) → IsFresh t → IsOpen t
fresh-IsOpen t (x, r, has, one, first, id8, id16) = record {
  request = r;
  index = zero;
  first = x;
  has_request = has;
  has_first = first;
  at_index = rw one;
  members = rw one ((refl, id16, id8), tt);
}

-- The process after a header with these ids and this flag.
abbrev adopted : Slot → Request → Span → Bool → Bytes → Bytes → Slot
adopted t r x b trace_id parent_span_id = record t {
  request =
      some (record r {
        spans = record x { trace_id = trace_id; parent_span_id = parent_span_id } ∷ [];
      });
  is_sampled = b;
}

adopt_fresh :
    (version trace parent flags : Bytes) (t : Slot) (f : IsFresh t)
    → adopt_parent (version ∷ trace ∷ parent ∷ flags ∷ []) t ≡ (
        read_bytes 16 (decode trace) >>= λ trace_id.
        read_bytes 8 (decode parent) >>= λ parent_span_id.
        some (adopted t f.1 f.0 (bytes_eq flags (text "01")) trace_id parent_span_id))
unfolding adopt_parent set_sampled
adopt_fresh version trace parent flags t (x, r, has, one, first, _, _) = rw (first, has, one)

adopted-IsFresh :
    (t : Slot) (f : IsFresh t) (b : Bool) (trace_id parent_span_id : Bytes)
    → IsId 16 trace_id
    → IsFresh (adopted t f.1 f.0 b trace_id parent_span_id)
adopted-IsFresh t (x, r, has, one, first, id8, id16) b trace_id parent_span_id id = (
  record x { trace_id = trace_id; parent_span_id = parent_span_id },
  record r { spans = record x { trace_id = trace_id; parent_span_id = parent_span_id } ∷ [] },
  refl,
  refl,
  first,
  id8,
  id,
)

adopt-IsFresh : (kv : List Bytes) (t q : Slot) → IsFresh t → adopt_parent kv t ≡ some q → IsFresh q
unfolding adopt_parent
adopt-IsFresh (version ∷ trace ∷ parent ∷ flags ∷ []) t q f e =
    let e' = rw (adopt_fresh version trace parent flags t f) at e in
    elim (Option-cases (read_bytes 16 (decode trace))) [
      | inl bad ↦ absurd (cc (rw bad at e'))
      | inr (trace_id, good) ↦ elim (Option-cases (read_bytes 8 (decode parent))) [
        | inl bad ↦ absurd (cc (rw (good, bad) at e'))
        | inr (parent_span_id, fine) ↦
            let same : some (adopted t f.1 f.0 (bytes_eq flags (text "01")) trace_id parent_span_id)
                ≡ some q =
              rw (good, fine) at e' in
            subst IsFresh (some-injective _ _ same) (
              adopted-IsFresh t f (bytes_eq flags (text "01")) trace_id parent_span_id
                (read-IsId 16 trace trace_id good))
      ]
    ]
adopt-IsFresh _ t q f e = subst IsFresh (some-injective _ _ e) f

sampled-IsFresh : (t : Slot) (b : Bool) → IsFresh t → IsFresh (set_sampled b t)
unfolding set_sampled
sampled-IsFresh t b f = f

ratio-IsFresh :
    (s : Settings) (count : ℕ) (t q : Slot)
    → IsFresh t
    → sample_by_ratio s count t ≡ some q
    → IsFresh q
unfolding sample_by_ratio set_sampled
ratio-IsFresh s count t q (x, r, has, one, first, id8, id16) e =
    (x, r, ground arith, one, ground arith, id8, id16)

-- Whatever the header holds: if reading it does not fault, the request that has just been opened
-- stays open, with its one span.
pub parse_trace_parent-IsFresh :
    (s : Settings) (count : ℕ) (traceparent : Bytes) (t q : Slot)
    → IsFresh t
    → parse_trace_parent s count traceparent t ≡ some q
    → IsFresh q × IsOpen q
unfolding parse_trace_parent
parse_trace_parent-IsFresh s count [] t q f e =
    let g = ratio-IsFresh s count t q f e in (g, fresh-IsOpen q g)
parse_trace_parent-IsFresh s count (c ∷ rest) t q f e =
    let g = adopt-IsFresh (explode (text "-") (c ∷ rest)) t q f e in (g, fresh-IsOpen q g)
