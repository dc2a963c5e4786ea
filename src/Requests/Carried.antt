-- ===== src/Requests/Carried.antt =====
-- src/core.cc: a web request whose header was written by a sender, or that has none.
use opentelemetry_php_ext.Common.{
  true, ◌%◌, ◌>>=◌, if◌then◌else◌, Bool-cases, inl, inr, ◌⊎◌, ◌==◌, ℕ, ◌≡◌, refl, ap, ◌∙◌, Bool,
  false, [], some, Bytes, text,
}
use opentelemetry_php_ext.Text.Explode.{implode}
use opentelemetry_php_ext.Span.{ℤ, Span, kind_server}
use opentelemetry_php_ext.Provider.{count}
use opentelemetry_php_ext.Provider.State.{Slot, Fresh, Settings}
use opentelemetry_php_ext.Provider.TraceParent.{
  parse_trace_parent, sample_by_ratio, magnitude, is_one, takes_part,
}
use opentelemetry_php_ext.Provider.Finish.{set_sampled}
use opentelemetry_php_ext.Provider.Propagation.{IsId, fields, parse-implode, adopt-fields}
use opentelemetry_php_ext.Provider.Adoption.{IsFresh, fresh-IsOpen}
use opentelemetry_php_ext.Provider.Traces.{IsUuid, opened}
use opentelemetry_php_ext.Core.Globals.{Globals, World, find_server_string}
use opentelemetry_php_ext.Core.Tracer.{begin, prepare}
use opentelemetry_php_ext.Core.Settled.{prepare-SameHooks}
use opentelemetry_php_ext.Core.Starts.{opened-IsFresh}
use opentelemetry_php_ext.Core.Traces.{start, before, first_provider, IsReadable}
use opentelemetry_php_ext.Handlers.Finishing.{span_at-open}

-- The header of a request is one that a sender wrote for a span of its own.
abbrev pub CarriesParent : World → Type 0
CarriesParent w =
    (span : Span) × (b : Bool) × IsId 16 span.trace_id
    × IsId 8 span.span_id
    × (find_server_string w (text "HTTP_TRACEPARENT") ≡ implode (text "-") (fields span b))

parse-written :
    (s : Settings) (count : ℕ) (header : Bytes) (span : Span) (b : Bool) (t : Slot)
    → IsId 16 span.trace_id
    → IsId 8 span.span_id
    → header ≡ implode (text "-") (fields span b)
    → IsFresh t
    → (q : Slot) × (parse_trace_parent s count header t ≡ some q)
parse-written s count header span b t trace parent written f =
    let o = fresh-IsOpen t f in
    (
      _,
      ap (λ x. parse_trace_parent s count x t) written
          ∙ parse-implode s count span b t trace parent
          ∙ adopt-fields span o.first b t o.index trace parent o.has_first
              (span_at-open t o o.index o.first o.at_index),
    )

-- Such a header can be read.
carried-IsReadable :
    (w : World) (g : Globals) (fresh : Fresh)
    → w.host.is_cli ≡ false
    → CarriesParent w
    → IsUuid fresh.trace_uuid
    → IsUuid fresh.span_uuid
    → IsReadable w g fresh [] [] kind_server
unfolding begin
carried-IsReadable w g fresh web (span, b, trace, parent, header) u v =
    let ready = prepare w g in
    let b0 = start w g fresh [] [] kind_server in
    let taken : b0.traceparent ≡ find_server_string w (text "HTTP_TRACEPARENT") = rw web refl in
    parse-written ready.settings (count (first_provider w g)) b0.traceparent span b
      (opened ready.settings fresh b0.uri b0.kind (before w g fresh [] [] kind_server)) trace parent
      (taken ∙ header)
      (opened-IsFresh ready.settings fresh b0.uri b0.kind (before w g fresh [] [] kind_server) u v)

-- A request without a header: whether it is sampled goes by the ratio, which is not 0.
abbrev pub IsRoot : World → Type 0
IsRoot w = find_server_string w (text "HTTP_TRACEPARENT") ≡ []

abbrev pub HasRatio : Globals → Type 0
HasRatio g = (magnitude g.settings.sample_ratio_based == 0) ≡ false

takes_part-some :
    (ratio : ℤ) (n : ℕ)
    → (magnitude ratio == 0) ≡ false
    → (b : Bool) × (takes_part ratio n ≡ some b)
takes_part-some ratio n some_ratio = elim (Bool-cases (is_one ratio)) [
  | inl one ↦ (true, rw one refl)
  | inr more ↦ ((n % magnitude ratio) == 0, rw (more, some_ratio) refl)
]

sample_by_ratio-some :
    (s : Settings) (n : ℕ) (t : Slot)
    → (magnitude s.sample_ratio_based == 0) ≡ false
    → (q : Slot) × (sample_by_ratio s n t ≡ some q)
unfolding sample_by_ratio
sample_by_ratio-some s n t some_ratio =
    let after : Bool → Slot = (λ chosen.
      if chosen
      then set_sampled true t
      else if magnitude s.sample_ratio_based == 0
      then set_sampled false t
      else t) in
    let (b, e) = takes_part-some s.sample_ratio_based n some_ratio in
    (after b, ap (λ o. o >>= λ chosen. some (after chosen)) e)

root-IsReadable :
    (w : World) (g : Globals) (fresh : Fresh)
    → w.host.is_cli ≡ false
    → IsRoot w
    → HasRatio g
    → IsReadable w g fresh [] [] kind_server
unfolding begin parse_trace_parent
root-IsReadable w g fresh web header ratio =
    let ready = prepare w g in
    let b0 = start w g fresh [] [] kind_server in
    let t = opened ready.settings fresh b0.uri b0.kind (before w g fresh [] [] kind_server) in
    let n = count (first_provider w g) in
    let taken : b0.traceparent ≡ find_server_string w (text "HTTP_TRACEPARENT") = rw web refl in
    let (_, _, _, _, same) = prepare-SameHooks w g in
    let (q, e) =
      sample_by_ratio-some ready.settings n t (ap (λ r. magnitude r == 0) same ∙ ratio) in
    (q, ap (λ h. parse_trace_parent ready.settings n h t) (taken ∙ header) ∙ e)

-- What can be read when the ratio is not 0.
pub served-IsReadable :
    (w : World) (g : Globals) (fresh : Fresh)
    → w.host.is_cli ≡ false
    → CarriesParent w ⊎ IsRoot w
    → HasRatio g
    → IsUuid fresh.trace_uuid
    → IsUuid fresh.span_uuid
    → IsReadable w g fresh [] [] kind_server
served-IsReadable w g fresh web (inl carried) ratio u v =
    carried-IsReadable w g fresh web carried u v
served-IsReadable w g fresh web (inr root) ratio u v = root-IsReadable w g fresh web root ratio
