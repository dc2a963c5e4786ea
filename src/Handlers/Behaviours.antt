-- ===== src/Handlers/Behaviours.antt =====
-- The parts of the handlers that come between the start and the end of a span, and the ends, keep an
-- open request.
use opentelemetry_php_ext.Common.{
  ℕ, ◌≡◌, ◌≢◌, refl, Bool, true, false, List, [], Option, none, some, Bytes, text, c_str, get_elem?,
  Option-cases, Bool-cases, inl, inr, bytes_eq, ◌>>=◌,
}
use opentelemetry_php_ext.Span.{Span, set_bool_attribute}
use opentelemetry_php_ext.Text.{is_equal}
use opentelemetry_php_ext.Provider.State.{Slot}
use opentelemetry_php_ext.Provider.Finish.{
  ok_end, is_redis_exception, get_redis_exception, clear_redis_exception,
}
use opentelemetry_php_ext.Provider.Traces.{IsOpen}
use opentelemetry_php_ext.Provider.Changes.{changed, set_span-open}
use opentelemetry_php_ext.Core.Globals.{Globals, World}
use opentelemetry_php_ext.Hooks.Registry.{Handler, Table}
use opentelemetry_php_ext.Handlers.{Call, Run, run_original, class_name, command_name}
use opentelemetry_php_ext.Handlers.Kept.{
  Touches, Grown, Finishes, IsEnded, self-Keeps, trans-Touches, changed-Touches,
}
use opentelemetry_php_ext.Handlers.Finishing.{
  ok_end-Finishes, error_end-Finishes, same-Touches, span_at-open,
}
use opentelemetry_php_ext.Handlers.Traced.{Behaves, BehavesAt}
use opentelemetry_php_ext.Handlers.Redis.{redis_original, redis_end}
use opentelemetry_php_ext.Handlers.Memcached.{
  MemcachedClient, memcached_end, set_hit, memcached_result,
}
use opentelemetry_php_ext.Handlers.Peers.{is_member}
use opentelemetry_php_ext.Handlers.Sources.{is_error_none}
use opentelemetry_php_ext.Handlers.Pdo.{PdoErrors, pdo_end, pdo_failure, pdo_error, end_with}
use opentelemetry_php_ext.Handlers.PdoStatement.{StatementErrors, statement_end, statement_message}

-- What PHP's functions are taken to do: each that a handler stands for returns, and keeps an open
-- request.
abbrev pub AllBehave : World → Run → Type 0
AllBehave w run = (h : Handler) → Behaves w (run h)

abbrev pub nothing-Behaves : (w : World) → Behaves w some
nothing-Behaves w g p t has is_slot o = (g, p, t, refl, has, is_slot, self-Keeps t o)

pub run_original-Behaves :
    (w : World) (run : Run)
    → AllBehave w run
    → (originals : Table) (cmd : Bytes) → Behaves w (run_original run originals cmd)
unfolding run_original
run_original-Behaves w run all originals cmd g p t has is_slot o =
    elim (Option-cases (originals cmd)) [
      | inl e ↦ rw (e, run_original) (nothing-Behaves w g p t has is_slot o)
      | inr (h, e) ↦ rw (e, run_original) (all h g p t has is_slot o)
    ]

-- The same between the start and the end of a span, the originals read where they are needed.
pub original-BehavesAt :
    (w : World) (run : Run)
    → AllBehave w run
    → (originals : Globals → Table) (cmd : Bytes)
    → BehavesAt w (λ i g. run_original run (originals g) cmd g)
original-BehavesAt w run all originals cmd n x g p t has is_slot o at =
    run_original-Behaves w run all (originals g) cmd g p t has is_slot o

pub redis_original-Behaves :
    (w : World) (run : Run) → AllBehave w run → (c : Call) → Behaves w (redis_original run c)
unfolding redis_original
redis_original-Behaves w run all c g p t has is_slot o =
    elim (Bool-cases (bytes_eq (class_name c) (text "Redis"))) [
      | inl e ↦
          rw (e, redis_original)
            (run_original-Behaves w run all g.engine.redis_class.originals (command_name c) g p t
              has is_slot o)
      | inr e ↦ elim (Bool-cases (bytes_eq (class_name c) (text "RedisCluster"))) [
        | inl f ↦
            rw (e, f, redis_original)
              (run_original-Behaves w run all g.engine.rediscluster_class.originals (command_name c)
                g p t has is_slot o)
        | inr f ↦ rw (e, f, redis_original) (nothing-Behaves w g p t has is_slot o)
      ]
    ]

pub redis_end-Finishes : (now : ℕ) → Finishes now (redis_end now)
unfolding redis_end clear_redis_exception
redis_end-Finishes now t o i x at ne = elim (Bool-cases (is_redis_exception t)) [
  | inl e ↦
      let (q, ends, touches, is_ended) =
        error_end-Finishes now (get_redis_exception t) t o i x at ne in
      (
        clear_redis_exception q,
        rw (e, redis_end, ends),
        same-Touches t o i x q (clear_redis_exception q) touches ne refl refl refl,
        is_ended,
      )
  | inr e ↦ rw (e, redis_end) (ok_end-Finishes now t o i x at ne)
]

-- The attribute `db.cache.hit`, which the span gets before it ends.
abbrev hit_span : Bool → Span → Span
hit_span hit x = record x { attributes = set_bool_attribute x.attributes (text "db.cache.hit") hit }

abbrev hit-Grown : (hit : Bool) (x : Span) → Grown x (hit_span hit x)
hit-Grown hit x = record {
  trace = refl;
  id = refl;
  parent = refl;
  name = refl;
  kind = refl;
  start = refl;
  more = set_bool_attribute [] (text "db.cache.hit") hit;
  described = refl;
}

module _ (now : ℕ) (t : Slot) (o : IsOpen t) (i : ℕ) (x : Span)
    (at : get_elem? o.request.spans i ≡ some x) (ne : i ≢ o.index) where
  hit_end :
      (hit : Bool)
      → (q : Slot) × ((set_hit hit i t >>= ok_end now i) ≡ some q)
        × (e : Touches t o i x q) × IsEnded now e.span
  hit_end hit =
      let y = hit_span hit x in
      let a : Touches t o i x (changed t o.request i y) =
        changed-Touches t o i x y at ne refl refl (hit-Grown hit x) in
      let (q, ends, e, is_ended) =
        ok_end-Finishes now (changed t o.request i y) a.after i y a.there ne in
      (
        q,
        rw (span_at-open t o i x at, set_span-open t o i y) ends,
        trans-Touches t o i x (changed t o.request i y) a q e,
        is_ended,
      )

  memcached_result-Finishes :
      (hits : Bool) (message : Option Bytes)
      → (q : Slot) × (memcached_result now hits message i t ≡ some q)
        × (e : Touches t o i x q) × IsEnded now e.span
  memcached_result-Finishes hits none = error_end-Finishes now (text "UN_KNOW") t o i x at ne
  memcached_result-Finishes hits (some message) =
      elim (Bool-cases (is_equal message (text "SUCCESS"))) [
        | inl e ↦ rw e (elim (Bool-cases hits) [
          | inl f ↦ rw f (hit_end true)
          | inr f ↦ rw f (ok_end-Finishes now t o i x at ne)
        ])
        | inr e ↦ rw e (elim (Bool-cases (is_equal message (text "NOT FOUND"))) [
          | inl f ↦ rw f (hit_end false)
          | inr f ↦ rw f (error_end-Finishes now (c_str message) t o i x at ne)
        ])
      ]

pub memcached_end-Finishes :
    (now : ℕ) (client : MemcachedClient) (hit_keys : List Bytes) (cmd : Bytes)
    → Finishes now (memcached_end now client hit_keys cmd)
unfolding memcached_end
memcached_end-Finishes now client hit_keys cmd t o i x at ne =
    memcached_result-Finishes now t o i x at ne (is_member hit_keys cmd) client.getresultmessage

-- An end with a message if there is one.
pub end_with-Finishes : (now : ℕ) (message : Option Bytes) → Finishes now (end_with now message)
end_with-Finishes now none t o i x at ne = ok_end-Finishes now t o i x at ne
end_with-Finishes now (some message) t o i x at ne = error_end-Finishes now message t o i x at ne

pub pdo_end-Finishes : (now : ℕ) (errors : Option PdoErrors) → Finishes now (pdo_end now errors)
unfolding pdo_end
pdo_end-Finishes now none t o i x at ne = ok_end-Finishes now t o i x at ne
pdo_end-Finishes now (some e) t o i x at ne =
    end_with-Finishes now (pdo_failure e (pdo_error e)) t o i x at ne

pub statement_end-Finishes :
    (now : ℕ) (errors : Option StatementErrors) → Finishes now (statement_end now errors)
unfolding statement_end
statement_end-Finishes now none t o i x at ne = ok_end-Finishes now t o i x at ne
statement_end-Finishes now (some e) t o i x at ne = elim (Bool-cases (is_error_none e.error_code)) [
  | inl f ↦ rw (f, statement_end) (ok_end-Finishes now t o i x at ne)
  | inr f ↦
      rw (f, statement_end)
        (error_end-Finishes now (statement_message e.error_code e.fetch_err) t o i x at ne)
]
