-- ===== src/Timer/Ends.antt =====
-- src/Timer.cc: the end of a timer, the calls that start it, and its time stamps.
use opentelemetry_php_ext.Common.{ℕ, ◌+◌, ◌*◌, ◌/◌, ◌^◌, ◌<◌, ◌≡◌, Bool, true, false, arith}
use opentelemetry_php_ext.Timer.{
  Timer, ended, at_loop, idle, start_answer, thread_step, destroy, timestamp, sync_once,
  async_start,
}
use opentelemetry_php_ext.Timer.Rounds.{rounds, due}

-- Wherever its thread stands, and whatever its flags say, a timer that is destroyed has ended after
-- six steps of the thread, so that the join returns; its task is called once more if the thread was
-- already past its last test, and else no more.
pub rounds-destroy :
    (s : Timer)
    → ((rounds 6 (destroy s)).place ≡ ended) × ((rounds 6 (destroy s)).runs ≡ s.runs + due s.place)
unfolding destroy thread_step
rounds-destroy s = ground arith

-- A timer that is idle and can start, its old thread ended: SyncOnce runs the task once, and the
-- timer can start again; AsyncOnce and AsyncLoop leave it with a new thread at its loop, and it cannot
-- start again until that thread has ended.
pub starts_lem :
    (loop : Bool) (s : Timer)
    → start_answer s ≡ true
    → s.place ≡ ended
    → ((sync_once s).runs ≡ s.runs + 1)
      × (start_answer (sync_once s) ≡ true)
      × ((async_start loop s).place ≡ at_loop)
      × ((async_start loop s).is_loop ≡ loop)
      × ((async_start loop s).user ≡ idle)
      × (start_answer (async_start loop s) ≡ false)
unfolding start_answer sync_once async_start
starts_lem loop s can over = ground arith

-- A time stamp is the time in whole milliseconds, for readings below 2 ^ 50 seconds.
pub timestamp_exact :
    (sec nsec : ℕ)
    → sec < 2 ^ 50
    → nsec < 1000000000
    → timestamp sec nsec ≡ (sec * 1000000000 + nsec) / 1000000
unfolding timestamp
timestamp_exact sec nsec low fraction = omega arith
