-- ===== src/Timer/Rounds.antt =====
-- src/Timer.cc: what holds between the steps.
use opentelemetry_php_ext.Common.{
  ℕ, zero, suc, ◌+◌, ◌≤◌, ◌≡◌, Bool, true, false, not, ◌||◌, ◌&&◌, arith,
}
use opentelemetry_php_ext.Timer.{
  Place, at_loop, waiting, woken, ready, counting, resetting, ended, User, joining, sleeping,
  working, finishing, Timer, thread_step, start_answer,
}

-- The thread has the task in hand.
abbrev pub is_active : Place → Bool
is_active resetting = false
is_active ended = false
is_active place = true

-- `Start` has the task in hand.
abbrev pub is_busy : User → Bool
is_busy joining = true
is_busy sleeping = true
is_busy working = true
is_busy finishing = true
is_busy user = false

-- The thread has not counted the task of a single round yet.
abbrev pub is_before : Place → Bool
is_before at_loop = true
is_before waiting = true
is_before woken = true
is_before ready = true
is_before counting = true
is_before place = false

-- `Start` has not run its task.
abbrev pub is_early : User → Bool
is_early joining = true
is_early sleeping = true
is_early working = true
is_early user = false

-- A call of the task that is not counted yet.
abbrev pub uncounted : Place → ℕ
uncounted counting = 1
uncounted place = 0

-- A call of the task that is about to be made.
abbrev pub due : Place → ℕ
due ready = 1
due place = 0

-- A timer has not expired exactly while one of its thread and `Start` has the task in hand, never
-- both; the thread counts the calls of its task, each behind the call; `Start` has not run the task
-- before it comes to it; and a task that is not to be repeated is called and counted once at most.
pub record IsSound (s : Timer) : Type 0 where
  pub expired_iff : s.expired ≡ not (is_active s.place || is_busy s.user)
  pub one_hand : (is_active s.place && is_busy s.user) ≡ false
  pub has_own : is_active s.place ≡ true → s.has_thread ≡ true
  pub before : s.is_loop ≡ false → (is_before s.place || is_busy s.user) ≡ true → s.count ≡ 0
  pub once : s.is_loop ≡ false → s.count ≤ 1
  pub counted : is_active s.place ≡ true → s.runs ≡ s.base + s.count + uncounted s.place
  pub early : is_early s.user ≡ true → s.runs ≡ s.base
  pub not_counted : is_early s.user ≡ true → s.count ≡ 0
  pub single : s.is_loop ≡ false → s.runs ≤ s.base + 1

-- `n` steps of the timer's thread.
abbrev pub rounds : ℕ → Timer → Timer
rounds zero s = s
rounds (suc n) s = rounds n (thread_step s)

-- What a timer comes to after so many calls of its task: its thread has ended, and it can start again.
abbrev pub IsDone : ℕ → Timer → Type 0
IsDone runs s = (s.place ≡ ended) × (s.expired ≡ true) × (s.try_expired ≡ false) × (s.runs ≡ runs)

-- From any place in the hand of its thread a timer that is told to expire does so in six steps of the
-- thread, and can then start again; its task is called once more if the thread was already past its
-- last test, and else no more.
pub cancelled_rounds :
    (s : Timer)
    → is_active s.place ≡ true
    → s.try_expired ≡ true
    → IsDone (s.runs + due s.place) (rounds 6 s) × (start_answer (rounds 6 s) ≡ true)
unfolding thread_step start_answer
cancelled_rounds s active told = ground arith

-- Not told to expire, a task that is not to be repeated and whose round just began runs once in eight
-- steps of the thread, and the timer can then start again.
pub single_rounds :
    (s : Timer)
    → s.place ≡ at_loop
    → s.try_expired ≡ false
    → s.is_loop ≡ false
    → IsDone (s.runs + 1) (rounds 8 s) × (start_answer (rounds 8 s) ≡ true)
unfolding thread_step start_answer
single_rounds s begun told single = ground arith
