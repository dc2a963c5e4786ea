-- ===== src/Handlers/Transfers.antt =====
-- src/zend_hook_curl.cc: the span of a transfer, and the headers of a handle.
use opentelemetry_php_ext.Common.{
  ℕ, ◌≡◌, ◌≢◌, refl, ap, ◌∙◌, true, false, List, [], ◌++◌, Option, none, some, Bytes, text, c_str,
  get_elem?, Bool-cases, inl, inr, ◌>>=◌, leb, ◌==◌, ◌⊎◌, if◌then◌else◌,
}
use opentelemetry_php_ext.Span.{Span, KeyValue, Status, error, set_string_attribute}
use opentelemetry_php_ext.Provider.{Provider, slot, set_slot, change_slot}
use opentelemetry_php_ext.Provider.State.{Slot}
use opentelemetry_php_ext.Provider.Finish.{error_end, set_sampled, ok_status}
use opentelemetry_php_ext.Provider.Endings.{ok_end_lem, error_end_lem, ended, failed}
use opentelemetry_php_ext.Provider.Isolation.{slot-set_slot}
use opentelemetry_php_ext.Provider.Traces.{IsOpen}
use opentelemetry_php_ext.Provider.Changes.{changed, set_span-open}
use opentelemetry_php_ext.Core.Globals.{Globals, World, change_provider}
use opentelemetry_php_ext.Handlers.{Call}
use opentelemetry_php_ext.Handlers.Kept.{
  Touches, Grown, IsEnded, self-Keeps, kept-Touches, trans-Touches, changed-Touches,
}
use opentelemetry_php_ext.Handlers.Finishing.{
  span_at-open, failed-Touches, same-Touches, ended-Grown, ok_status-set,
}
use opentelemetry_php_ext.Handlers.Traced.{Answers}
use opentelemetry_php_ext.Handlers.Curl.{
  Response, kept_headers, add_attributes, curl_end, status_end, set_body, response_attributes,
  curl_message,
}

abbrev with_more : List KeyValue → Span → Span
with_more l x = record x { attributes = x.attributes ++ l }

abbrev with_more-Grown : (l : List KeyValue) (x : Span) → Grown x (with_more l x)
with_more-Grown l x = record {
  trace = refl;
  id = refl;
  parent = refl;
  name = refl;
  kind = refl;
  start = refl;
  more = l;
  described = refl;
}

-- What a step does to the span `i`, which then has the status `st`; the rest is kept.
abbrev pub Touching : (t : Slot) → IsOpen t → ℕ → Span → Status → Option Slot → Type 0
Touching t o i x st r = (q : Slot) × (r ≡ some q) × (a : Touches t o i x q) × (a.span.status ≡ st)

pub add_attributes-Touching :
    (l : List KeyValue) (t : Slot) (o : IsOpen t) (i : ℕ) (x : Span)
    → get_elem? o.request.spans i ≡ some x
    → i ≢ o.index
    → Touching t o i x x.status (add_attributes l i t)
unfolding add_attributes
add_attributes-Touching l t o i x at ne = (
  changed t o.request i (with_more l x),
  rw (span_at-open t o i x at) (ap some (set_span-open t o i (with_more l x))),
  changed-Touches t o i x (with_more l x) at ne refl refl (with_more-Grown l x),
  refl,
)

-- `error_end` on its own.
error_end-Touching :
    (now : ℕ) (message : Bytes) (t : Slot) (o : IsOpen t) (i : ℕ) (x : Span)
    → get_elem? o.request.spans i ≡ some x
    → i ≢ o.index
    → Touching t o i x (record { code = error; message = message }) (error_end now i message t)
unfolding set_sampled
error_end-Touching now message t o i x at ne =
    let y : Span = failed now message x in
    let q : Slot = changed t o.request i y in
    let a : Touches t o i x q = failed-Touches now message t o i x at ne in
    (
      set_sampled true q,
      error_end_lem now i message t x (span_at-open t o i x at)
          ∙ ap (λ r. some (set_sampled true r)) (set_span-open t o i y),
      same-Touches t o i x q (set_sampled true q) a ne refl refl refl,
      refl,
    )

-- Attributes and then a failure.
body_error-Touching :
    (now : ℕ) (l : List KeyValue) (message : Bytes) (t : Slot) (o : IsOpen t) (i : ℕ) (x : Span)
    → get_elem? o.request.spans i ≡ some x
    → i ≢ o.index
    → Touching t o i x
        (record { code = error; message = message })
        (add_attributes l i t >>= error_end now i message)
body_error-Touching now l message t o i x at ne =
    let (q, e, a, _) = add_attributes-Touching l t o i x at ne in
    let (u, e2, b, st) =
      error_end-Touching now message q a.after i a.span a.there (λ s. ne (s ∙ a.same_index)) in
    (u, rw e e2, trans-Touches t o i x q a u b, st)

-- A transfer that got a status returned its body as a string.
abbrev pub HasBody : Response → Bytes → Type 0
HasBody r body = ((r.http_code == 0) ≡ true) ⊎ (r.return_value ≡ some body)

-- The status that the answer of a transfer asks for, on a span that had the status `st`.
abbrev pub answer_status : List (ℕ × Bytes) → Response → Bytes → Status → Status
answer_status errors r body st =
    if r.http_code == 0
    then record { code = error; message = curl_message errors r }
    else if leb 400 r.http_code
    then record { code = error; message = c_str body }
    else st

module _ (now : ℕ) (errors : List (ℕ × Bytes)) (r : Response) (body : Bytes)
    (has : r.return_value ≡ some body) (t : Slot) (o : IsOpen t) (i : ℕ) (x : Span)
    (at : get_elem? o.request.spans i ≡ some x) (ne : i ≢ o.index) where
  body_end-Touching :
      (r.http_code == 0) ≡ false
      → Touching t o i x (answer_status errors r body x.status) (status_end now errors r i t)
  unfolding status_end set_body
  body_end-Touching e =
      let l = set_string_attribute [] (text "http.response.body") (c_str body) in
      elim (Bool-cases (leb 400 r.http_code)) [
        | inl f ↦ rw (e, f, has, status_end) (body_error-Touching now l (c_str body) t o i x at ne)
        | inr f ↦ elim (Bool-cases (r.http_code == 200)) [
          | inl h ↦ rw (e, f, h, has, status_end) (add_attributes-Touching l t o i x at ne)
          | inr h ↦
              rw (e, f, h, status_end)
                (t, refl, kept-Touches t o i x t at ne (self-Keeps t o), refl)
        ]
      ]

status_end-Touching :
    (now : ℕ) (errors : List (ℕ × Bytes)) (r : Response) (body : Bytes)
    → HasBody r body
    → (t : Slot) (o : IsOpen t) (i : ℕ) (x : Span) → get_elem? o.request.spans i ≡ some x
    → i ≢ o.index
    → Touching t o i x (answer_status errors r body x.status) (status_end now errors r i t)
unfolding status_end
status_end-Touching now errors r body (inl e) t o i x at ne =
    rw (e, status_end) (error_end-Touching now (curl_message errors r) t o i x at ne)
status_end-Touching now errors r body (inr has) t o i x at ne =
    elim (Bool-cases (r.http_code == 0)) [
      | inl e ↦ rw (e, status_end) (error_end-Touching now (curl_message errors r) t o i x at ne)
      | inr e ↦ body_end-Touching now errors r body has t o i x at ne e
    ]

-- What follows the transfer ends its span, with the status that its answer asks for.
pub curl_end-Ends :
    (now : ℕ) (errors : List (ℕ × Bytes)) (f : Call) (r : Response) (body : Bytes)
    → HasBody r body
    → (t : Slot) (o : IsOpen t) (i : ℕ) (x : Span) → get_elem? o.request.spans i ≡ some x
    → i ≢ o.index
    → (q : Slot) × (curl_end now errors f r i t ≡ some q)
      × (e : Touches t o i x q) × IsEnded now e.span
      × (e.span.status ≡ ok_status (answer_status errors r body x.status))
unfolding curl_end
curl_end-Ends now errors f r body has t o i x at ne =
    let (q1, e1, a, same) = add_attributes-Touching (response_attributes f r) t o i x at ne in
    let ne1 : i ≢ a.after.index = (λ s. ne (s ∙ a.same_index)) in
    let (q2, e2, b, st) =
      status_end-Touching now errors r body has q1 a.after i a.span a.there ne1 in
    let ne2 : i ≢ b.after.index = (λ s. ne1 (s ∙ b.same_index)) in
    let y : Span = ended now b.span in
    let c : Touches q2 b.after i b.span (changed q2 b.after.request i y) =
      changed-Touches q2 b.after i b.span y b.there ne2 refl refl (ended-Grown now b.span) in
    (
      changed q2 b.after.request i y,
      rw (e1, e2)
          (ok_end_lem now i q2 b.span (span_at-open q2 b.after i b.span b.there)
            ∙ ap some (set_span-open q2 b.after i y)),
      trans-Touches t o i x q2 (trans-Touches t o i x q1 a q2 b) (changed q2 b.after.request i y) c,
      (ok_status-set b.span.status, refl),
      ap ok_status (st ∙ ap (answer_status errors r body) same),
    )

-- The list of the handle, and the rest of the globals, do not touch the provider.
pub kept_headers-provider :
    (cid : ℕ) (l : List Bytes) (g : Globals) (old : Option (List Bytes))
    → (kept_headers cid l g old).provider ≡ g.provider
kept_headers-provider cid l g none = refl
kept_headers-provider cid l g (some old) = refl

pub change_slot-Touches :
    (w : World) (f : Slot → Option Slot) (g : Globals) (p : Provider) (t : Slot) (o : IsOpen t)
    (i : ℕ) (x : Span) (st : Status)
    → g.provider ≡ some p
    → slot w.host p ≡ t
    → Touching t o i x st (f t)
    → Answers w
        (change_provider (change_slot w.host f) g)
        (λ q. (a : Touches t o i x q) × (a.span.status ≡ st))
unfolding change_provider change_slot
change_slot-Touches w f g p t o i x st has is_slot (q, e, a, same) = (
  record g { provider = some (set_slot w.host q p) },
  set_slot w.host q p,
  q,
  rw (has, is_slot, e),
  refl,
  slot-set_slot w.host q p,
  (a, same),
)
