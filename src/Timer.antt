-- ===== src/Timer.antt =====
-- src/Timer.cc, include/Timer.h: the timer, its thread and the thread that uses it. A step of the
-- timer's thread is one access to what both threads share, or one call of the task, so that a sequence
-- of steps is an interleaving of both. `Start` takes its tests and its assignments in one step: once
-- it has read that the timer expired, only the reset of m_bTryExpired may come between them, which
-- counts as a step before. m_Thread is only written by the user.
pub mod Rounds
pub mod Races
pub mod Ends
use opentelemetry_php_ext.Common.{
  ℕ, suc, ◌+◌, ◌*◌, ◌/◌, ◌%◌, ◌^◌, ◌≡◌, Bool, true, false, not, ◌||◌, if◌then◌else◌,
}

-- Where the timer's thread stands: at the test of the loop, in `wait_for`, at the test behind it,
-- before the task, before the count, at the test of `m_bLoop`, behind the loop, between the last two
-- assignments; or it has ended, or was never made.
pub data Place : Type 0 where
  at_loop waiting woken ready counting deciding leaving resetting ended : Place

-- Where the user of the timer stands: in no operation, in `Start` before the join of the old thread,
-- in the sleep of a `Start` that is not asynchronous, before the task of that and behind it, or in
-- `Cancel` behind the test of m_bExpired or behind both tests.
pub data User : Type 0 where
  idle joining sleeping working finishing clearing testing cancelling : User

-- `runs` counts the calls of the task, and `base` is their number at the last `Start`; the code has
-- no fields for them.
pub record Timer : Type 0 where
  pub expired : Bool
  pub try_expired : Bool
  pub is_loop : Bool
  pub count : ℕ
  pub has_thread : Bool
  pub place : Place
  pub user : User
  pub runs : ℕ
  pub base : ℕ

-- `CTimer::CTimer`.
abbrev pub new_timer : Timer
new_timer = record {
  expired = true;
  try_expired = false;
  is_loop = false;
  count = 0;
  has_thread = false;
  place = ended;
  user = idle;
  runs = 0;
  base = 0;
}

abbrev step_from : Place → Timer → Timer
step_from at_loop s =
    if s.try_expired then record s { place = leaving } else record s { place = waiting }
step_from waiting s = record s { place = woken }
step_from woken s =
    if s.try_expired then record s { place = at_loop } else record s { place = ready }
step_from ready s = record s { runs = s.runs + 1; place = counting }
step_from counting s = record s { count = s.count + 1; place = deciding }
step_from deciding s = record s { place = if s.is_loop then at_loop else leaving }
step_from leaving s = record s { expired = true; place = resetting }
step_from resetting s = record s { try_expired = false; place = ended }
step_from ended s = s

-- The next step of the timer's thread.
unfoldable pub thread_step : Timer → Timer
thread_step s = step_from s.place s

-- `Start` up to the join or the sleep; a timer that has not expired, or is to expire, is refused.
unfoldable pub start : Bool → Bool → Timer → Timer
start loop async s = if not s.expired || s.try_expired then s else record s {
  expired = false;
  is_loop = loop;
  count = 0;
  base = s.runs;
  user = if async then joining else sleeping;
}

-- What `Start` answers.
unfoldable pub start_answer : Timer → Bool
start_answer s = not (not s.expired || s.try_expired)

-- The first test of `Cancel`.
unfoldable pub cancel : Timer → Timer
cancel s = if s.expired then s else record s { user = testing }

-- `DeleteThread` waits for the old thread, and a new one is made.
abbrev spawn : Place → Timer → Timer
spawn ended s = record s { has_thread = true; place = at_loop; user = idle }
spawn place s = s

abbrev continue_from : User → Timer → Timer
continue_from idle s = s
continue_from joining s = spawn s.place s
continue_from sleeping s = record s { user = if s.try_expired then finishing else working }
continue_from working s = record s { runs = s.runs + 1; user = finishing }
continue_from finishing s = record s { expired = true; user = clearing }
continue_from clearing s = record s { try_expired = false; user = idle }
continue_from testing s = record s {
  user = if s.try_expired || not s.has_thread then idle else cancelling;
}
continue_from cancelling s = record s { try_expired = true; user = idle }

-- The next step of an operation that is under way.
unfoldable pub user_step : Timer → Timer
user_step s = continue_from s.user s

-- `AsyncLoop` and both forms of `AsyncOnce` on a timer whose old thread, if any, has ended; a call that
-- is refused leaves the timer as it is.
unfoldable pub async_start : Bool → Timer → Timer
unfolding start user_step
async_start loop s = if start_answer s then user_step (start loop true s) else s

unfoldable pub async_loop : Timer → Timer
unfolding async_start
async_loop = async_start true

unfoldable pub async_once : Timer → Timer
unfolding async_start
async_once = async_start false

-- `SyncOnce`: the sleep and the task belong to the call.
unfoldable pub sync_once : Timer → Timer
unfolding start user_step
sync_once s =
    if start_answer s
    then user_step (user_step (user_step (user_step (start false false s))))
    else s

-- `~CTimer` up to the join, which waits until the thread has ended.
unfoldable pub destroy : Timer → Timer
destroy s = record s { try_expired = true }

-- `Timestamp` on a reading of the clock, in seconds and nanoseconds.
unfoldable pub timestamp : ℕ → ℕ → ℕ
timestamp sec nsec = (sec * 1000 % 2 ^ 64 + nsec / 1000000) % 2 ^ 64

-- One step of either thread; an operation begins when none is under way.
pub data Step : Timer → Timer → Type 0 where
  by_thread : (s : Timer) → Step s (thread_step s)
  by_user : (s : Timer) → Step s (user_step s)
  by_start : (loop async : Bool) (s : Timer) → s.user ≡ idle → Step s (start loop async s)
  by_cancel : (s : Timer) → s.user ≡ idle → Step s (cancel s)

pub data Reach (s : Timer) : Timer → Type 0 where
  here : Reach s s
  next : {t u : Timer} → Reach s t → Step t u → Reach s u
