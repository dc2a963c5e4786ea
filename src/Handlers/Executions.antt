-- ===== src/Handlers/Executions.antt =====
-- src/zend_hook_curl.cc: a transfer that is recorded, from its start to its end.
use opentelemetry_php_ext.Common.{
  ℕ, ◌<◌, ◌≡◌, ◌≢◌, refl, ap, ◌∙◌, Bool, true, not, List, [], ◌∷◌, ◌++◌, Option, none, some, arith,
  Bytes, text, ◌==◌, ==_iff, get_elem?, length, if◌then◌else◌,
}
use opentelemetry_php_ext.Span.{Span, kind_client, set_string_attribute}
use opentelemetry_php_ext.Provider.{Provider, slot, set_slot, change_slot}
use opentelemetry_php_ext.Provider.State.{Slot, Fresh}
use opentelemetry_php_ext.Provider.Finish.{ok_status}
use opentelemetry_php_ext.Provider.Isolation.{slot-set_slot}
use opentelemetry_php_ext.Provider.Traces.{IsOpen, IsUuid, get_elem?-append_end}
use opentelemetry_php_ext.Core.Globals.{
  Globals, World, change_provider, do_effect, set_headers, is_has_provider, has_provider,
}
use opentelemetry_php_ext.Sdk.Spans.{pushed-IsOpen}
use opentelemetry_php_ext.Handlers.{Call, Run, run_original}
use opentelemetry_php_ext.Handlers.Kept.{Touches, self-Keeps, kept-Touches, trans-Touches}
use opentelemetry_php_ext.Handlers.Traced.{
  Answers, Traced, child_span, child-Member, started, opened_globals, open_span_lem, assemble,
  index-length, same-Answers,
}
use opentelemetry_php_ext.Handlers.Behaviours.{AllBehave, run_original-Behaves}
use opentelemetry_php_ext.Handlers.Noticed.{trace_headers-open, header_lines}
use opentelemetry_php_ext.Handlers.Curl.{
  Response, Url, Transfer, find_header, kept_headers, all_headers, add_attributes, curl_headers,
  record_exec, url_attributes, or_else, curl_exec, recorded_url, exec_url,
}
use opentelemetry_php_ext.Handlers.CurlOptions.{find-put}
use opentelemetry_php_ext.Handlers.Transfers.{
  HasBody, answer_status, add_attributes-Touching, curl_end-Ends, kept_headers-provider,
  change_slot-Touches,
}

self_eq : (n : ℕ) → (n == n) ≡ true
self_eq n = (==_iff n n).1 refl

module _ (w : World) (now : ℕ) (c : Transfer) (cid n : ℕ) (x : Span) (g : Globals) (p : Provider)
    (t : Slot) (has : g.provider ≡ some p) (is_slot : slot w.host p ≡ t) (o : IsOpen t)
    (at : get_elem? o.request.spans n ≡ some x) where
  curl_headers-Touches :
      n ≢ o.index
      → Answers w
          (curl_headers w now c cid n g)
          (λ q. (a : Touches t o n x q) × (a.span.status ≡ x.status))
  unfolding curl_headers
  curl_headers-Touches ne =
      let (b, _, e) = trace_headers-open w c.order now n x g p t has is_slot o at in
      let l = header_lines c.order t x b in
      let old = find_header cid g.curl_header in
      let sent = set_string_attribute [] (text "http.header") (c.json_encode (all_headers l old)) in
      let (h, p2, t2, runs, has2, is_slot2, a) =
        change_slot-Touches w (add_attributes sent n) (kept_headers cid l g old) p t o n x x.status
          (kept_headers-provider cid l g old ∙ has) is_slot
          (add_attributes-Touching sent t o n x at ne) in
      (do_effect (set_headers (all_headers l old)) h, p2, t2, rw (e, runs) refl, has2, is_slot2, a)

  -- On a handle whose headers a script has set, the two headers of the span go behind those, in the
  -- kept list itself: they are given to the transfer with it, and stay in it for the next transfer of
  -- the handle.
  pub curl_headers-find_header :
      (old : List Bytes)
      → find_header cid g.curl_header ≡ some old
      → n ≢ o.index
      → (h : Globals) × (b : Bool) × (curl_headers w now c cid n g ≡ some h)
        × (find_header cid h.curl_header ≡ some (old ++ header_lines c.order t x b))
        × (h.effects ≡ g.effects ++ set_headers (old ++ header_lines c.order t x b) ∷ [])
  unfolding curl_headers change_provider change_slot
  curl_headers-find_header old kept ne =
      let (b, _, e) = trace_headers-open w c.order now n x g p t has is_slot o at in
      let l = header_lines c.order t x b in
      let sent = set_string_attribute [] (text "http.header") (c.json_encode (old ++ l)) in
      let (q, added, a, _) = add_attributes-Touching sent t o n x at ne in
      let h : Globals = record (kept_headers cid l g (some old)) {
        provider = some (set_slot w.host q p);
      } in
      (
        do_effect (set_headers (old ++ l)) h,
        b,
        rw (e, kept, has, is_slot, added) refl,
        find-put cid cid (old ++ l) g.curl_header ∙ rw (self_eq cid) refl,
        refl,
      )

-- The span of a transfer: it has failed if the answer says so, and else ended well.
abbrev pub Transferred : (t : Slot) → IsOpen t → ℕ → Span → Response → Bytes → Slot → Type 0
Transferred t o now x r body q =
    (a : Traced t o now x q) × (errors : List (ℕ × Bytes)) × (a.span.status
      ≡ ok_status (answer_status errors r body x.status))

module _ (w : World) (fresh : Fresh) (sent now : ℕ) (f : Call) (c : Transfer) (run : Run)
    (all : AllBehave w run) (uuid : IsUuid fresh.span_uuid) (g : Globals) (p : Provider) (t : Slot)
    (has : g.provider ≡ some p) (is_slot : slot w.host p ≡ t) (o : IsOpen t) (body : Bytes)
    (has_body : HasBody c.response body) where
  record_exec-Traced :
      (cid : ℕ) (u : Url)
      → Answers w (record_exec w fresh sent now f c cid u run g) (
          Transferred t o now
            (child_span t o fresh (or_else (text "/") u.path) kind_client (url_attributes u))
            c.response
            body)
  unfolding record_exec change_provider change_slot
  record_exec-Traced cid u =
      let name = or_else (text "/") u.path in
      let x = child_span t o fresh name kind_client (url_attributes u) in
      let n : ℕ = length o.request.spans in
      let t0 : Slot = started w fresh name kind_client (url_attributes u) g p t o in
      let g0 = opened_globals w fresh name kind_client (url_attributes u) g p t o in
      let member = child-Member g.settings fresh name kind_client t o (url_attributes u) uuid in
      let o0 : IsOpen t0 = pushed-IsOpen t o x member in
      let low : o.index < n = index-length o.request.spans o.index o.first o.at_index in
      let ne : n ≢ o0.index = (λ e. omega arith) in
      let (g1, p1, t1, e1, has1, is_slot1, (a, same)) =
        curl_headers-Touches w sent c cid n x g0 (set_slot w.host t0 p) t0 refl
          (slot-set_slot w.host t0 p) o0 (get_elem?-append_end o.request.spans x) ne in
      let ne1 : n ≢ a.after.index = (λ e. ne (e ∙ a.same_index)) in
      let (g2, p2, t2, e2, has2, is_slot2, k) =
        run_original-Behaves w run all g1.engine.curl_originals (text "curl_exec") g1 p1 t1 has1
          is_slot1 a.after in
      let b = kept-Touches t1 a.after n a.span t2 a.there ne1 k in
      let (q, e3, d, is_ended, st) =
        curl_end-Ends now g2.engine.commands.curl_errors f c.response body has_body t2 b.after n
          b.span b.there (λ e. ne1 (e ∙ b.same_index)) in
      let both = trans-Touches t0 o0 n x t1 a t2 b in
      (
        record g2 { provider = some (set_slot w.host q p2) },
        set_slot w.host q p2,
        q,
        rw (
          open_span_lem w fresh name kind_client (url_attributes u) g p t o has is_slot,
          e1,
          e2,
          has2,
          is_slot2,
          e3,
        ),
        refl,
        slot-set_slot w.host q p2,
        (
          assemble t o x member t0 (self-Keeps t0 o0) q (trans-Touches t0 o0 n x t2 both q d) now
              is_ended,
          g2.engine.commands.curl_errors,
          st
              ∙ ap (λ s. ok_status (answer_status g2.engine.commands.curl_errors c.response body s))
                  same,
        ),
      )

  -- On an open request, around a curl_exec of PHP that returns and keeps the request, a transfer
  -- by HTTP, whose body is a string if it has a status, returns: it leaves a span of its own under
  -- the first one, with the path of the URL for its name, and the URL's attributes before any others,
  -- ended at the time of the end. The span has failed with the body if the status is 400 or more, and
  -- with a message of the transfer if there is no status; otherwise it has ended well.
  pub curl_exec-Traced :
      (cid : ℕ) (u : Url)
      → c.handle ≡ some cid
      → recorded_url c ≡ some u
      → Answers w (curl_exec w fresh sent now f c run g) (
          Transferred t o now
            (child_span t o fresh (or_else (text "/") u.path) kind_client (url_attributes u))
            c.response
            body)
  unfolding curl_exec is_has_provider
  curl_exec-Traced cid u has_handle recorded =
      let unhooked = run_original run g.engine.curl_originals (text "curl_exec") g in
      let on_handle : Option ℕ → Option Globals = (λ m. elim m [
        | none ↦ some g
        | some k ↦ exec_url w fresh sent now f c k run g (recorded_url c)
      ]) in
      same-Answers w _ _ _
        (ap (λ b. if not b then unhooked else on_handle c.handle) (ap has_provider has)
          ∙ ap on_handle has_handle
          ∙ ap (exec_url w fresh sent now f c cid run g) recorded)
        (record_exec-Traced cid u)
