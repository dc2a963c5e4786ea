-- ===== src/Provider/Propagation.antt =====
-- src/provider.cc: a trace that one process hands on in a header is taken up by the next.
use opentelemetry_php_ext.Common.{
  ℕ, ◌≡◌, ◌<◌, ◌⊎◌, refl, sym, ap, ◌∙◌, Bool, true, false, List, [], ◌∷◌, none, some, arith, Bytes,
  text, IsByte, Lacks, All, ltb, bytes_eq, if◌then◌else◌, length, take_all, Option-cases, inl, inr,
}
use opentelemetry_php_ext.Hex.{encode, decode}
use opentelemetry_php_ext.Hex.RoundTrip.{hex, encode-hex, decode-hex, hex-Lacks}
use opentelemetry_php_ext.Text.Explode.{implode, explode-implode}
use opentelemetry_php_ext.Span.{Span}
use opentelemetry_php_ext.Provider.State.{Slot, Settings, span_at, set_span}
use opentelemetry_php_ext.Provider.Finish.{set_sampled, is_sampled}
use opentelemetry_php_ext.Provider.TraceParent.{
  read_bytes, adopt_parent, parse_trace_parent, format_trace_parent, trace_id_text, span_id_text,
}

-- An identifier of `n` bytes.
abbrev pub IsId : ℕ → Bytes → Type 0
IsId n b = (length b ≡ n) × All IsByte b

encode_id : (n : ℕ) (b : Bytes) → IsId n b → encode b n ≡ some (hex b)
encode_id n b (len, fits) = ap (encode b) (sym len) ∙ encode-hex b

read_id : (n : ℕ) (b : Bytes) → IsId n b → read_bytes n (decode (hex b)) ≡ some b
read_id n b (len, fits) =
    rw (decode-hex b fits)
      (let e : ltb (length b) n ≡ false = ground arith in rw e (ap some (take_all n b len)))

abbrev pub flag : Bool → Bytes
flag b = if b then text "01" else text "00"

flag-eq : (b : Bool) → bytes_eq (flag b) (text "01") ≡ b
flag-eq true = refl
flag-eq false = refl

flag-Lacks : (b : Bool) → Lacks b'-' (flag b)
flag-Lacks true = omega arith
flag-Lacks false = omega arith

abbrev pub fields : Span → Bool → List Bytes
fields span b = text "00" ∷ hex span.trace_id ∷ hex span.span_id ∷ flag b ∷ []

fields-Lacks :
    (span : Span) (b : Bool)
    → IsId 16 span.trace_id
    → IsId 8 span.span_id
    → All (Lacks b'-') (fields span b)
fields-Lacks span b (_, t) (_, p) =
    ((omega arith), (hex-Lacks span.trace_id t, (hex-Lacks span.span_id p, (flag-Lacks b, tt))))

pub format-implode :
    (s : Settings) (now : ℕ) (span : Span) (t : Slot) (b : Bool)
    → IsId 16 span.trace_id
    → IsId 8 span.span_id
    → is_sampled s now t ≡ some b
    → format_trace_parent s now span t ≡ some (implode (text "-") (fields span b))
unfolding format_trace_parent trace_id_text span_id_text
format-implode s now span t b trace parent e =
    rw (encode_id 16 span.trace_id trace, encode_id 8 span.span_id parent, e)

pub parse-implode :
    (s : Settings) (count : ℕ) (span : Span) (b : Bool) (t : Slot)
    → IsId 16 span.trace_id
    → IsId 8 span.span_id
    → parse_trace_parent s count (implode (text "-") (fields span b)) t
      ≡ adopt_parent (fields span b) t
unfolding parse_trace_parent
parse-implode s count span b t trace parent =
    ap (λ kv. adopt_parent kv t)
      (explode-implode b'-' (fields span b) (cc) (fields-Lacks span b trace parent))

pub adopt-fields :
    (span x : Span) (b : Bool) (t : Slot) (i : ℕ)
    → IsId 16 span.trace_id
    → IsId 8 span.span_id
    → t.first_span ≡ some i
    → span_at t i ≡ some x
    → adopt_parent (fields span b) t
      ≡ some (
          set_sampled b
            (set_span t i (record x { trace_id = span.trace_id; parent_span_id = span.span_id })))
unfolding adopt_parent
adopt-fields span x b t i trace parent first at =
    rw (first, at, read_id 16 span.trace_id trace, read_id 8 span.span_id parent, flag-eq b)

-- A header is always written for a span with a trace id of 16 bytes and a span id of 8 when the
-- sender's sampling can be read. The receiver's first span then takes over that trace id, has the
-- sender's span for its parent and keeps its other fields, and the receiver is sampled exactly when
-- the sender is.
pub parse-format :
    (s r : Settings) (now count : ℕ) (span x : Span) (b : Bool) (sender receiver : Slot) (i : ℕ)
    → IsId 16 span.trace_id
    → IsId 8 span.span_id
    → is_sampled s now sender ≡ some b
    → receiver.first_span ≡ some i
    → span_at receiver i ≡ some x
    → (header : Bytes) × (format_trace_parent s now span sender ≡ some header)
      × (parse_trace_parent r count header receiver
          ≡ some (
              set_sampled b (
                set_span receiver i
                  (record x { trace_id = span.trace_id; parent_span_id = span.span_id }))))
parse-format s r now count span x b sender receiver i trace parent e first at = (
  implode (text "-") (fields span b),
  format-implode s now span sender b trace parent e,
  parse-implode r count span b receiver trace parent
      ∙ adopt-fields span x b receiver i trace parent first at,
)

-- A header of four fields whose trace field decodes to fewer than 16 bytes, or whose parent field
-- decodes to fewer than 8, makes the read of the id leave its buffer, or has no
-- first span to write to.
pub short_id_fault :
    (version trace parent flags : Bytes) (t : Slot)
    → (length (decode trace) < 16) ⊎ (length (decode parent) < 8)
    → adopt_parent (version ∷ trace ∷ parent ∷ flags ∷ []) t ≡ none
unfolding adopt_parent
short_id_fault version trace parent flags t short = elim (Option-cases t.first_span) [
  | inl e ↦ rw e
  | inr (i, e) ↦ elim (Option-cases (span_at t i)) [
    | inl e' ↦ rw (e, e')
    | inr (span, e') ↦ rw (e, e') (ground arith)
  ]
]
