-- ===== src/Core/Rounds.antt =====
-- src/core.cc: what `init_consumers` does to the system, and that it does it once.
use opentelemetry_php_ext.Common.{
  ℕ, zero, suc, ◌+◌, ◌≡◌, refl, sym, ap, ◌∙◌, Bool, true, false, List, [], ◌∷◌, ◌++◌, append_assoc,
  append-nil, Bytes, is_empty, if◌then◌else◌, inl, inr, Bool-cases,
}
use opentelemetry_php_ext.Core.Globals.{
  Globals, World, Effect, remove_queue, open_queue, start_rpc, start_udp, start_consumer, do_effect,
  is_receiver_grpc, is_receiver_udp,
}
use opentelemetry_php_ext.Core.Consumers.{
  init_consumers, start_from, start_one, clean_consumers, queue_name,
}

-- The threads of the consumer `i`: the one that sends, for the receiver at hand, and the one that
-- reads the queue.
abbrev pub round : Bool → Bool → ℕ → List Effect
round grpc udp i =
    (if grpc then start_rpc i ∷ [] else [])
    ++ ((if udp then start_udp i ∷ [] else []) ++ start_consumer i ∷ [])

-- Consumers `i` and on, `n` of them.
abbrev pub rounds : Bool → Bool → ℕ → ℕ → List Effect
rounds grpc udp zero i = []
rounds grpc udp (suc n) i = round grpc udp i ++ rounds grpc udp n (i + 1)

abbrev with_effects : Globals → List Effect → Globals
with_effects g es = record g { effects = es }

abbrev threads : Bool → Bool → ℕ → Globals → Globals
threads grpc udp i g =
    let rpc = if grpc then do_effect (start_rpc i) g else g in
    let sender = if udp then do_effect (start_udp i) rpc else rpc in
    do_effect (start_consumer i) sender

two_more :
    (es : List Effect) (a b : Effect) (rest : List Effect)
    → ((es ++ a ∷ []) ++ b ∷ []) ++ rest ≡ es ++ a ∷ b ∷ rest
two_more es a b rest =
    append_assoc (es ++ a ∷ []) (b ∷ []) rest ∙ append_assoc es (a ∷ []) (b ∷ rest)

threads_lem :
    (grpc udp : Bool) (i : ℕ) (g : Globals)
    → threads grpc udp i g ≡ with_effects g (g.effects ++ round grpc udp i)
threads_lem true true i g =
    ap (with_effects g) (two_more g.effects (start_rpc i) (start_udp i) (start_consumer i ∷ []))
threads_lem true false i g =
    ap (with_effects g) (append_assoc g.effects (start_rpc i ∷ []) (start_consumer i ∷ []))
threads_lem false true i g =
    ap (with_effects g) (append_assoc g.effects (start_udp i ∷ []) (start_consumer i ∷ []))
threads_lem false false i g = refl

start_one_lem :
    (i : ℕ) (g : Globals)
    → start_one i g ≡ with_effects g (g.effects ++ round (is_receiver_grpc g) (is_receiver_udp g) i)
unfolding start_one
start_one_lem i g = threads_lem (is_receiver_grpc g) (is_receiver_udp g) i g

start_from_lem :
    (n i : ℕ) (g : Globals)
    → start_from n i g
      ≡ with_effects g (g.effects ++ rounds (is_receiver_grpc g) (is_receiver_udp g) n i)
unfolding start_from
start_from_lem zero i g = ap (with_effects g) (sym (append-nil g.effects))
start_from_lem (suc n) i g =
    let es = g.effects ++ round (is_receiver_grpc g) (is_receiver_udp g) i in
    ap (start_from n (i + 1)) (start_one_lem i g)
    ∙ start_from_lem n (i + 1) (with_effects g es)
    ∙ ap (with_effects g) (
        append_assoc g.effects (round (is_receiver_grpc g) (is_receiver_udp g) i)
          (rounds (is_receiver_grpc g) (is_receiver_udp g) n (i + 1)))

-- The name of the queue, and the number of consumers, that the process uses.
abbrev pub used_name : Globals → Bytes
used_name g = if is_empty g.message_queue_name then queue_name g else g.message_queue_name

abbrev pub used_nums : World → Globals → ℕ
used_nums w g = if w.host.is_cli then g.cli_consumer_nums else g.consumer_nums

abbrev counted : World → Globals → Globals
counted w g = record g {
  message_queue_name = used_name g;
  is_init_consumers = true;
  consumer_nums = used_nums w g;
  effects = g.effects ++ remove_queue (used_name g) ∷ [];
}

init_consumers-counted :
    (w : World) (g : Globals)
    → g.is_init_consumers ≡ false
    → init_consumers w g ≡ (
        if w.queue_opens
        then start_from (used_nums w g) 0 (do_effect (open_queue (used_name g)) (counted w g))
        else counted w g)
unfolding init_consumers clean_consumers
init_consumers-counted w g first = elim (Bool-cases (is_empty g.message_queue_name)) [
  | inl a ↦ elim (Bool-cases w.host.is_cli) [ inl b ↦ rw (first, a, b) | inr b ↦ rw (first, a, b) ]
  | inr a ↦ elim (Bool-cases w.host.is_cli) [ inl b ↦ rw (first, a, b) | inr b ↦ rw (first, a, b) ]
]

if-true {ℓ} : {A : Type ℓ} (b : Bool) → b ≡ true → (x y : A) → (if b then x else y) ≡ x
if-true b e x y = rw e

if-false {ℓ} : {A : Type ℓ} (b : Bool) → b ≡ false → (x y : A) → (if b then x else y) ≡ y
if-false b e x y = rw e

-- The first time, the old queue is removed, and if the new one opens each of the consumers gets its
-- threads, for the receiver that is set, in the order of their numbers; a queue that does not open
-- leaves no thread behind. The consumers are then marked as running.
pub init_consumers-effects :
    (w : World) (g : Globals)
    → g.is_init_consumers ≡ false
    → ((init_consumers w g).effects
        ≡ g.effects
          ++ remove_queue (used_name g)
            ∷ (if w.queue_opens
                then open_queue (used_name g)
                  ∷ rounds (is_receiver_grpc g) (is_receiver_udp g) (used_nums w g) 0
                else []))
      × ((init_consumers w g).is_init_consumers ≡ true)
unfolding is_receiver_grpc is_receiver_udp
init_consumers-effects w g first =
    let threads_all = rounds (is_receiver_grpc g) (is_receiver_udp g) (used_nums w g) 0 in
    elim (Bool-cases w.queue_opens) [
      | inl opens ↦
          let q = do_effect (open_queue (used_name g)) (counted w g) in
          let e : init_consumers w g
              ≡ with_effects q
                  (q.effects ++ rounds (is_receiver_grpc g) (is_receiver_udp g) (used_nums w g) 0) =
            init_consumers-counted w g first
            ∙ if-true w.queue_opens opens (start_from (used_nums w g) 0 q) (counted w g)
            ∙ start_from_lem (used_nums w g) 0 q in
          (
            ap (λ x. x.effects) e
                ∙ two_more g.effects (remove_queue (used_name g)) (open_queue (used_name g))
                    threads_all
                ∙ ap (λ l. g.effects ++ remove_queue (used_name g) ∷ l)
                    (sym (if-true w.queue_opens opens (open_queue (used_name g) ∷ threads_all) [])),
            ap (λ x. x.is_init_consumers) e,
          )
      | inr closed ↦
          let e : init_consumers w g ≡ counted w g =
            init_consumers-counted w g first
            ∙ if-false w.queue_opens closed
                (start_from (used_nums w g) 0 (do_effect (open_queue (used_name g)) (counted w g)))
                (counted w g) in
          (
            ap (λ x. x.effects) e
                ∙ ap (λ l. g.effects ++ remove_queue (used_name g) ∷ l)
                    (sym
                      (if-false w.queue_opens closed (open_queue (used_name g) ∷ threads_all) [])),
            ap (λ x. x.is_init_consumers) e,
          )
    ]

already : (w : World) (g : Globals) → g.is_init_consumers ≡ true → init_consumers w g ≡ g
unfolding init_consumers
already w g done = rw done

-- A second call, wherever it is made, does nothing.
pub init_consumers_twice :
    (w v : World) (g : Globals) → init_consumers v (init_consumers w g) ≡ init_consumers w g
init_consumers_twice w v g = elim (Bool-cases g.is_init_consumers) [
  | inl done ↦
      already v (init_consumers w g) (ap (λ x. x.is_init_consumers) (already w g done) ∙ done)
  | inr first ↦ already v (init_consumers w g) (init_consumers-effects w g first).1
]
