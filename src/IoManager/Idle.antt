-- ===== src/IoManager/Idle.antt =====
-- `IOManager::idle` of East/src/IOManager.cc: one pass through its loop, from `epoll_wait` to the yield.
use east.Common.{
  ℕ, Bool, not, ◌&&◌, ◌||◌, Option, none, List, [], ◌∷◌, Outcome, ok, ◌>>=◌, if◌then◌else◌, map,
}
use east.Scheduler.{Task, Scheduler, schedule_all, is_empty}
use east.Timer.{TimerManager, list_expired_cb}
use east.IoManager.Kernel.{Epoll, Events}
use east.IoManager.Context.{read, write, FdContext, any}
use east.IoManager.{IoManager, at, ctl, left_op, trigger_if}

-- The flags of an `epoll_event`: EPOLLIN, EPOLLOUT, and EPOLLERR or EPOLLHUP.
pub record Flags : Type 0 where
  pub readable : Bool
  pub writeable : Bool
  pub failed : Bool

-- What `epoll_wait` hands over: the pipe of `tickle`, or the context of a descriptor.
pub data EpollEvent : Type 0 where
  tickled : EpollEvent
  ready : ℕ → Flags → EpollEvent

-- `real_events`: an error or a hang-up counts as both.
abbrev pub real_events : Flags → Events
real_events f = record { reads = f.readable || f.failed; writes = f.writeable || f.failed }

abbrev pub meet : Events → Events → Events
meet a b = record { reads = a.reads && b.reads; writes = a.writes && b.writes }

-- `(~real_events) & fd_ctx->events`.
abbrev pub minus : Events → Events → Events
minus a b = record { reads = a.reads && not b.reads; writes = a.writes && not b.writes }

module _ {K : Type 0} (e : Epoll K) where
  unfoldable pub trigger_real : ℕ → Events → IoManager K → Outcome (IoManager K)
  trigger_real fd real m = do
    m' ← trigger_if e real.reads fd read m
    trigger_if e real.writes fd write m'

  unfoldable pub handle_ready : ℕ → Events → FdContext → IoManager K → Outcome (IoManager K)
  handle_ready fd real c m =
      let left = minus c.events real in
      let called = ctl e (left_op left) c.fd left m in
      if not (any (meet c.events real))
      then ok m
      else if called.0
      then trigger_real fd real called.1
      else ok called.1

  unfoldable pub handle : EpollEvent → IoManager K → Outcome (IoManager K)
  handle tickled m = ok m
  handle (ready fd flags) m = do c ← at fd m; handle_ready fd (real_events flags) c m

  -- The loop over the events of one `epoll_wait`.
  unfoldable pub handle_all : List EpollEvent → IoManager K → Outcome (IoManager K)
  handle_all [] m = ok m
  handle_all (event ∷ events) m = do m' ← handle event m; handle_all events m'

abbrev pub callback_task : Option ℕ → Task
callback_task cb = record { fiber = none; cb = cb; thread = none }

-- The timers of a pass: the callbacks that are due go to the queue of the manager's own scheduler. `now` and
-- `probe` are the clock and the address of `listExpiredCb`.
unfoldable pub run_timers : ℕ → ℕ → TimerManager → Scheduler → TimerManager × Scheduler
run_timers now probe timers s =
    let found = list_expired_cb now probe [] timers in
    (found.1, if is_empty found.0 then s else schedule_all (map callback_task found.0) s)
