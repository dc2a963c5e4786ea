-- ===== src/Examples/Wires.antt =====
-- Tests of what is no handler: the stack in src/utils.cc, src/otel_exporter.cc, src/Timer.cc.
use opentelemetry_php_ext.Common.{
  ◌+◌, false, ℕ, zero, suc, ◌<◌, ◌^◌, ◌≡◌, refl, ap, true, [], List, ◌∷◌, none, some, arith, Bytes,
  text, length,
}
use opentelemetry_php_ext.Text.Explode.{implode}
use opentelemetry_php_ext.Handlers.Frames.{
  Func, Stack, find_code_stacktrace, frame_names, reversed, drop_empty,
  find_code_stacktrace-implode,
}
use opentelemetry_php_ext.Exporter.{send_tracer_by_udp, shards}
use opentelemetry_php_ext.Exporter.Shards.{
  packets, pieces, piece_count, concat, send_tracer_by_udp-pieces,
}
use opentelemetry_php_ext.Timer.{
  Timer, new_timer, waiting, woken, idle, start, start_answer, cancel, thread_step, user_step,
  Reach, here, next, by_start,
}
use opentelemetry_php_ext.Timer.Rounds.{IsDone, due, rounds, cancelled_rounds}
use opentelemetry_php_ext.Timer.Races.{race, IsStuck, cancel_race}

abbrev method : Func
method = record { function_name = some (text "run"); scope = some (text "App"); is_static = true }

abbrev frames : Stack
frames =
    some method
    ∷ some (record { function_name = some (text "main"); scope = none; is_static = false })
    ∷ some (record { function_name = none; scope = none; is_static = false })
    ∷ none
    ∷ []

find_code_stacktrace-implode_example :
    find_code_stacktrace frames ≡ implode (text "\\") (drop_empty (reversed (frame_names frames)))
find_code_stacktrace-implode_example = find_code_stacktrace-implode frames

repeat : ℕ → Bytes
repeat zero = []
repeat (suc n) = 65 ∷ repeat n

length-repeat : (n : ℕ) → length (repeat n) ≡ n
unfolding repeat
length-repeat zero = refl
length-repeat (suc n) = ap suc (length-repeat n)

large : 60000 < length (repeat 130000)
large = omega (arith, length-repeat 130000)

bounded : length (repeat 130000) < 2 ^ 24
bounded = omega (arith, length-repeat 130000)

send_tracer_by_udp-pieces_example :
    (send_tracer_by_udp (text "ab") (repeat 130000)
      ≡ some (
          packets
            (text "ab")
            (piece_count (repeat 130000))
            0
            (pieces (piece_count (repeat 130000)) (repeat 130000))))
    × (concat (pieces (piece_count (repeat 130000)) (repeat 130000)) ≡ repeat 130000)
send_tracer_by_udp-pieces_example =
    send_tracer_by_udp-pieces (text "ab") (repeat 130000) large bounded

abbrev queued : List (Bytes × Bytes)
queued = (text "ab", text "one") ∷ (text "cd", repeat 130000) ∷ []

-- Beyond 2 ^ 24 bytes the rounding shows: the last of these bytes is in none of the 280 shards.
shards_rounded : shards 16800001 ≡ 280
unfolding shards
shards_rounded = refl

abbrev started : Timer
started = start false true new_timer

abbrev ticking : Timer
ticking = record new_timer { expired = false; has_thread = true; place = woken }

abbrev cancelled : Timer
cancelled = record ticking { place = waiting; try_expired = true; is_loop = true }

cancelled_rounds_example :
    IsDone (cancelled.runs + due cancelled.place) (rounds 6 cancelled)
    × (start_answer (rounds 6 cancelled) ≡ true)
cancelled_rounds_example = cancelled_rounds cancelled refl refl

raced_idle : (race ticking).user ≡ idle
unfolding cancel thread_step user_step
raced_idle = refl

cancel_race_example :
    Reach ticking (race ticking)
    × IsStuck (start true true (race ticking))
    × (start_answer (start true true (race ticking)) ≡ false)
cancel_race_example =
    cancel_race ticking (start true true (race ticking)) refl refl refl refl refl refl
      (next here (by_start true true (race ticking) raced_idle))
