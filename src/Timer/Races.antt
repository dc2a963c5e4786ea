-- ===== src/Timer/Races.antt =====
-- src/Timer.cc: `Cancel` between whose test and assignment the timer expires by itself.
use opentelemetry_php_ext.Common.{◌≡◌, Bool, true, false, arith}
use opentelemetry_php_ext.Timer.{
  woken, ended, idle, Timer, thread_step, user_step, start, cancel, start_answer, Step, by_thread,
  by_user, by_start, by_cancel, Reach, here, next,
}
use opentelemetry_php_ext.Timer.Rounds.{rounds}

-- A timer at rest that is told to expire.
abbrev pub IsStuck : Timer → Type 0
IsStuck s = (s.place ≡ ended) × (s.user ≡ idle) × (s.expired ≡ true) × (s.try_expired ≡ true)

thread_step-IsStuck : (s : Timer) → IsStuck s → IsStuck (thread_step s)
unfolding thread_step
thread_step-IsStuck s (a, b, c, d) = ground arith

user_step-IsStuck : (s : Timer) → IsStuck s → IsStuck (user_step s)
unfolding user_step
user_step-IsStuck s (a, b, c, d) = ground arith

start-IsStuck : (loop async : Bool) (s : Timer) → IsStuck s → IsStuck (start loop async s)
unfolding start
start-IsStuck loop async s (a, b, c, d) = ground arith

cancel-IsStuck : (s : Timer) → IsStuck s → IsStuck (cancel s)
unfolding cancel
cancel-IsStuck s (a, b, c, d) = ground arith

pub Step-IsStuck : {s u : Timer} → Step s u → IsStuck s → IsStuck u
Step-IsStuck (by_thread s) h = thread_step-IsStuck s h
Step-IsStuck (by_user s) h = user_step-IsStuck s h
Step-IsStuck (by_start loop async s e) h = start-IsStuck loop async s h
Step-IsStuck (by_cancel s e) h = cancel-IsStuck s h

-- A timer that came to rest while it is told to expire refuses every later start, whatever steps
-- are taken.
pub Reach-IsStuck : {s u : Timer} → Reach s u → IsStuck s → IsStuck u × (start_answer u ≡ false)
unfolding start_answer
Reach-IsStuck here (a, b, c, d) = ((a, b, c, d), ground arith)
Reach-IsStuck (next r step) h =
    let (a, b, c, d) = Step-IsStuck step (Reach-IsStuck r h).0 in ((a, b, c, d), ground arith)

-- The steps of the race: the tests of `Cancel`, then the thread to its end, then the assignment.
abbrev pub race : Timer → Timer
race s = user_step (rounds 6 (user_step (cancel s)))

race-Reach : (s : Timer) → s.user ≡ idle → Reach s (race s)
race-Reach s e =
    let tested : Reach s (user_step (cancel s)) = next (next here (by_cancel s e)) (by_user _) in
    let half : Reach s (rounds 3 (user_step (cancel s))) =
      next (next (next tested (by_thread _)) (by_thread _)) (by_thread _) in
    next (next (next (next half (by_thread _)) (by_thread _)) (by_thread _)) (by_user _)

race-IsStuck :
    (s : Timer)
    → s.user ≡ idle
    → s.place ≡ woken
    → s.expired ≡ false
    → s.try_expired ≡ false
    → s.is_loop ≡ false
    → s.has_thread ≡ true
    → IsStuck (race s)
unfolding thread_step user_step cancel
race-IsStuck s a b c d e f = ground arith

-- A running timer for one round, whose thread is behind its sleep, can be cancelled so that it never
-- starts again: the tests of `Cancel` come first, then the thread runs the task and ends, then
-- `Cancel` tells it to expire. Whatever steps follow, every start is refused.
pub cancel_race :
    (s u : Timer)
    → s.user ≡ idle
    → s.place ≡ woken
    → s.expired ≡ false
    → s.try_expired ≡ false
    → s.is_loop ≡ false
    → s.has_thread ≡ true
    → Reach (race s) u
    → Reach s (race s) × IsStuck u × (start_answer u ≡ false)
cancel_race s u a b c d e f r =
    let (stuck, refused) = Reach-IsStuck r (race-IsStuck s a b c d e f) in
    (race-Reach s a, stuck, refused)
