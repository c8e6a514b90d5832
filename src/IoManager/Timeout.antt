-- ===== src/IoManager/Timeout.antt =====
-- When `IOManager::idle` of East/src/IOManager.cc wakes up, and when it stops.
use mathlib.Core.Logic.{◌⊎◌}
use east.Common.{
  ℕ, suc, ◌-◌, ◌%◌, ◌^◌, ◌≤◌, ◌<◌, ◌≡◌, Bool, ◌&&◌, if◌then◌else◌, ◌==◌, ltb, leb, arith,
}
use east.Scheduler.{Scheduler, is_stopping, has_idle_threads}
use east.Timer.{TimerManager, get_next_timer}

abbrev pub max_timeout : ℕ
max_timeout = 3000

abbrev pub max_events : ℕ
max_events = 256

-- The timeout that `epoll_wait` gets, as the bit pattern of an `int`, for the answer of `getNextTimer`. The cast
-- to `int` keeps the low 32 bits, and `std::min` compares signed numbers; the result is widened to
-- `uint64_t` and cut to an `int` again.
unfoldable pub wait_timeout : ℕ → ℕ
wait_timeout next =
    let low = next % 2 ^ 32 in
    if next == 2 ^ 64 - 1
    then max_events
    else if leb (2 ^ 31) low
    then low
    else if ltb low max_timeout
    then low
    else max_timeout

-- `IOManager::stopping(time_out)`, which asks for the next timer first.
unfoldable pub is_stopping_io : ℕ → ℕ → TimerManager → Scheduler → Bool × ℕ × TimerManager
is_stopping_io pending now timers s =
    let next = get_next_timer now timers in
    ((next.0 == 2 ^ 64 - 1) && (pending == 0) && is_stopping s, next.0, next.1)

-- `IOManager::tickle`: a byte into the pipe if a thread is idle, with the bytes that are in it.
unfoldable pub tickle_pipe : Scheduler → ℕ → ℕ
tickle_pipe s bytes = if has_idle_threads s then suc bytes else bytes

-- With a next timer less than 2 ^ 31 ms away, the timeout is at most that and at most 3000; with none it is 256; with
-- one further away it is the low 32 bits, cut to 3000 as long as these are less than 2 ^ 31, and
-- from there on, where they are a negative `int`, as they are.
pub wait_timeout_bounds :
    (next : ℕ)
    → next < 2 ^ 64
    → ((next < 2 ^ 31) × (wait_timeout next ≤ next) × (wait_timeout next ≤ 3000))
      ⊎ ((next ≡ 2 ^ 64 - 1) × (wait_timeout next ≡ 256))
      ⊎ ((2 ^ 31 ≤ next) × (next % 2 ^ 32 < 2 ^ 31) × (wait_timeout next ≤ 3000))
      ⊎ ((2 ^ 31 ≤ next % 2 ^ 32) × (wait_timeout next ≡ next % 2 ^ 32))
unfolding wait_timeout
wait_timeout_bounds next h = ground arith
