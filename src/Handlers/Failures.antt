-- ===== src/Handlers/Failures.antt =====
-- src/zend_hook_redis.cc with src/zend_hook_exception.cc: the spans of a call of Redis that throws.
use mathlib.Core.Path.{subst}
use opentelemetry_php_ext.Common.{
  ℕ, suc, ◌<◌, ◌≡◌, refl, sym, ap, ◌∙◌, true, false, List, [], ◌∷◌, ◌++◌, some, Bytes, text, c_str,
  is_empty, ◌>>=◌, get_elem?, length, length-append, arith,
}
use opentelemetry_php_ext.Span.{Span, KeyValue, kind_client, kind_internal}
use opentelemetry_php_ext.Text.{is_equal}
use opentelemetry_php_ext.Provider.{Provider, slot, set_slot}
use opentelemetry_php_ext.Provider.State.{Slot, Fresh, span_at}
use opentelemetry_php_ext.Provider.Finish.{set_redis_exception, ok_end}
use opentelemetry_php_ext.Provider.Endings.{failed}
use opentelemetry_php_ext.Provider.Isolation.{slot-set_slot}
use opentelemetry_php_ext.Provider.Traces.{IsOpen, IsUuid, Member, get_elem?-append_end}
use opentelemetry_php_ext.Core.Globals.{Globals, World}
use opentelemetry_php_ext.Core.Settled.{some-Always}
use opentelemetry_php_ext.Sdk.Spans.{pushed, pushed-IsOpen}
use opentelemetry_php_ext.Hooks.Registry.{null}
use opentelemetry_php_ext.Handlers.{Call, Run, around, close_span, span_name}
use opentelemetry_php_ext.Handlers.Kept.{Touches, Grown, IsEnded}
use opentelemetry_php_ext.Handlers.Finishing.{span_at-open}
use opentelemetry_php_ext.Handlers.Traced.{
  Answers, Traced, child_span, started, opened_globals, open_span_lem, close_span_lem, assemble,
  child-Member, index-length,
}
use opentelemetry_php_ext.Handlers.Behaviours.{AllBehave, redis_end-Finishes}
use opentelemetry_php_ext.Handlers.Alerts.{
  running_name, throw_exception_hook-Traced, redis_end-set_redis_exception,
}
use opentelemetry_php_ext.Handlers.Exceptions.{
  PhpException, exception_attributes, throw_exception_hook,
}
use opentelemetry_php_ext.Handlers.Peers.{IsAddress}
use opentelemetry_php_ext.Handlers.Redis.{
  RedisClient, redis_attributes, redis_original, redis_end, redis_handler,
}
use opentelemetry_php_ext.Handlers.Settled.{AllSettle}
use opentelemetry_php_ext.Handlers.Thrown.{Kept, throw_exception_hook-Kept}

-- Behind the spans that there were stand that of the call, which failed with the message of the
-- exception, and that of the exception; the next call of Redis ends well.
pub record Failed (t : Slot) (o : IsOpen t) (now thrown_at : ℕ) (message : Bytes) (x y : Span)
    (q : Slot) : Type 0 where
  pub traced : Traced t o now x q
  pub call_failed : traced.span ≡ failed now message x
  pub exception : Span
  pub behind :
      get_elem? traced.keeps.after.request.spans (suc (length o.request.spans)) ≡ some exception
  pub grown : Grown y exception
  pub is_ended : IsEnded thrown_at exception
  pub is_sampled : q.is_sampled ≡ true
  pub next : (later j : ℕ) → redis_end later j q ≡ ok_end later j q

-- A message that was kept is the error of the span that ends.
redis_end_kept :
    (now later i j : ℕ) (message : Bytes) (t q : Slot) (x : Span)
    → span_at t i ≡ some x
    → is_empty message ≡ false
    → t.redis_exception ≡ message
    → redis_end now i t ≡ some q
    → (span_at q i ≡ some (failed now message x))
      × (q.is_sampled ≡ true)
      × (redis_end later j q ≡ ok_end later j q)
unfolding set_redis_exception
redis_end_kept now later i j message t q x at full kept ends =
    let same : set_redis_exception message t ≡ t = ap (λ m. set_redis_exception m t) (sym kept) in
    let (r, ends', there, sampled, next) =
      redis_end-set_redis_exception now later i j message t x at full in
    let both : some q ≡ some r = sym ends ∙ ap (redis_end now i) (sym same) ∙ ends' in
    let equal : q ≡ r = cc in
    (
      ap (λ s. span_at s i) equal ∙ there,
      ap (λ s. s.is_sampled) equal ∙ sampled,
      ap (redis_end later j) equal ∙ next ∙ ap (ok_end later j) (sym equal),
    )

module _ (t : Slot) (o : IsOpen t) (now thrown_at : ℕ) (message : Bytes) (x y : Span)
    (member : Member o.first.trace_id x) (t2 : Slot)
    (inner : Traced (pushed t o x) (pushed-IsOpen t o x member) thrown_at y t2) (q : Slot)
    (e : Touches t2 inner.keeps.after (length o.request.spans) x q)
    (is_ended : IsEnded now e.span) where
  -- The exception's span is behind that of the call.
  exception_behind :
      get_elem? e.after.request.spans (suc (length o.request.spans)) ≡ some inner.span
  exception_behind =
      let n : ℕ = length o.request.spans in
      let low : o.index < n = index-length o.request.spans o.index o.first o.at_index in
      let more : length (o.request.spans ++ x ∷ []) ≡ suc n =
        length-append o.request.spans (x ∷ []) ∙ (omega arith) in
      let same : inner.keeps.after.index ≡ o.index = inner.keeps.same_index in
      e.others (suc n) inner.span
        (subst (λ k. get_elem? inner.keeps.after.request.spans k ≡ some inner.span) more
          inner.at_end)
        (λ f. omega arith) (λ f. omega arith)

  assemble-Failed :
      ((later j : ℕ)
        → (span_at q (length o.request.spans) ≡ some (failed now message x))
          × (q.is_sampled ≡ true)
          × (redis_end later j q ≡ ok_end later j q))
      → Failed t o now thrown_at message x y q
  assemble-Failed h =
      let (there, sampled, _) = h 0 0 in
      let at : span_at q (length o.request.spans) ≡ some e.span =
        span_at-open q e.after (length o.request.spans) e.span e.there in
      let both : some e.span ≡ some (failed now message x) = sym at ∙ there in
      record {
        traced = assemble t o x member t2 inner.keeps q e now is_ended;
        call_failed = cc;
        exception = inner.span;
        behind = exception_behind;
        grown = inner.grown;
        is_ended = inner.is_ended;
        is_sampled = sampled;
        next = λ later j. (h later j).2;
      }

module _ (w : World) (fresh : Fresh) (now : ℕ) (c : Call) (run hooks : Run)
    (all : AllBehave w hooks) (settles : AllSettle hooks) (uuid : IsUuid fresh.span_uuid)
    (g : Globals) (p : Provider) (t : Slot) (has : g.provider ≡ some p)
    (is_slot : slot w.host p ≡ t) (o : IsOpen t) where
  -- Before PHP 8, on an open request, where the attributes of the call can be computed, and without
  -- another exception hook, a method of Redis that throws a RedisException with a message: the handler
  -- returns, the span of the call has failed with the message of the exception and is otherwise as it
  -- was opened, behind it stands the span of the exception, with its attributes and ended at the time
  -- of its throw, the request is sampled, and the next span of a call of Redis ends well.
  pub redis_handler-Failed :
      (e : PhpException) (inner : Fresh) (thrown_at : ℕ) (is_address : IsAddress)
      (client : RedisClient) (attributes : List KeyValue)
      → IsUuid inner.span_uuid
      → is_equal (text "RedisException") e.class_of ≡ true
      → is_empty (c_str e.message) ≡ false
      → g.engine.original_throw_exception_hook ≡ null
      → ((h : Globals)
          → h.engine ≡ g.engine
          → redis_original run c h ≡ throw_exception_hook w inner thrown_at (some e) hooks h)
      → redis_attributes is_address client g.engine.commands.redis_keys c ≡ some attributes
      → Answers w (redis_handler w fresh now is_address client c run g) (
          Failed t o now thrown_at
            (c_str e.message)
            (child_span t o fresh (span_name c) kind_client attributes)
            (child_span t o inner
              (running_name e.caller o.first)
              kind_internal
              (exception_attributes e)))
  unfolding redis_handler
  redis_handler-Failed e inner thrown_at is_address client attributes uuid2 of_redis full no_other
        throws computes =
      let x = child_span t o fresh (span_name c) kind_client attributes in
      let n : ℕ = length o.request.spans in
      let t1 : Slot = started w fresh (span_name c) kind_client attributes g p t o in
      let member = child-Member g.settings fresh (span_name c) kind_client t o attributes uuid in
      let g1 = opened_globals w fresh (span_name c) kind_client attributes g p t o in
      let o1 : IsOpen t1 = pushed-IsOpen t o x member in
      let (g2, p2, t2, runs, has2, is_slot2, thrown) =
        throw_exception_hook-Traced w inner thrown_at hooks all uuid2 g1 (set_slot w.host t1 p) t1
          refl (slot-set_slot w.host t1 p) o1 e in
      let low : o.index < n = index-length o.request.spans o.index o.first o.at_index in
      let at : get_elem? thrown.keeps.after.request.spans n ≡ some x =
        thrown.keeps.others n x (get_elem?-append_end o.request.spans x) (λ f. omega arith) in
      let (q, ends, touches, is_ended) =
        redis_end-Finishes now t2 thrown.keeps.after n x at
          (λ f. let f' : n ≡ o.index = f ∙ thrown.keeps.same_index in omega arith) in
      let kept : Kept w.host (c_str e.message) g2.provider =
        some-Always (λ h. Kept w.host (c_str e.message) h.provider) _ g2
          (throw_exception_hook-Kept w inner thrown_at e of_redis hooks g1 settles no_other) runs in
      let left : t2.redis_exception ≡ c_str e.message =
        subst (λ s. s.redis_exception ≡ c_str e.message) is_slot2
          (subst (λ m. Kept w.host (c_str e.message) m) has2 kept) in
      (
        record g2 { provider = some (set_slot w.host q p2) },
        set_slot w.host q p2,
        q,
        ap
              (λ a.
                around w fresh (span_name c) kind_client a (λ i. redis_original run c)
                  (redis_end now) g)
              computes
            ∙ ap
                (λ m. m >>= λ opened.
                  redis_original run c opened.1 >>= close_span w (redis_end now) opened.0)
                (open_span_lem w fresh (span_name c) kind_client attributes g p t o has is_slot)
            ∙ ap (λ m. m >>= close_span w (redis_end now) (some n)) (throws g1 refl ∙ runs)
            ∙ close_span_lem w (redis_end now) n g2 p2 t2 q has2 is_slot2 ends,
        refl,
        slot-set_slot w.host q p2,
        assemble-Failed t o now thrown_at (c_str e.message) x _ member t2 thrown q touches is_ended
            (λ later j.
              redis_end_kept now later n j (c_str e.message) t2 q x
                (span_at-open t2 thrown.keeps.after n x at) full left ends),
      )
