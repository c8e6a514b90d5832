-- ===== src/Scheduler.antt =====
-- East/include/Scheduler.h and East/src/Scheduler.cc: the queue of tasks, and what a thread of the
-- scheduler does with a task in `run`. Fibers are shared, so they stand in a heap by address.
pub mod Queue
pub mod Workers
pub mod Rounds
mod Tests
use east.Common.{
  ℕ, suc, ◌+◌, ◌%◌, ◌^◌, ◌-◌, Bool, true, false, not, ◌&&◌, ◌||◌, Option, none, some, List, [], ◌∷◌,
  ◌++◌, Outcome, ok, throws, assert, ◌>>=◌, ◌>>◌, if◌then◌else◌, ◌==◌, ltb,
}
use east.Common.Words.{add64, sub64}
use east.Fiber
use east.Fiber.{
  Fiber, State, hold, ready, is_exec, is_over, Switch, resume, switch_back, resume_until, actual,
}

-- `ExecuteTask`, less its number for the log. A thread of `none` is -1, any thread.
pub record Task : Type 0 where
  pub fiber : Option ℕ
  pub cb : Option ℕ
  pub thread : Option ℕ

-- TERM alone.
abbrev pub is_term : State → Bool
is_term State.term = true
is_term _ = false

-- `tickles` counts the calls of `tickle`, which a derived class overrides.
pub record Scheduler : Type 0 where
  pub tasks : List Task
  pub fibers : ℕ → Fiber
  pub active : ℕ
  pub idle : ℕ
  pub stopping : Bool
  pub auto_stop : Bool
  pub tickles : ℕ

abbrev pub is_empty {ℓ} : {A : Type ℓ} → List A → Bool
is_empty [] = true
is_empty (x ∷ xs) = false

abbrev pub is_some {ℓ} : {A : Type ℓ} → Option A → Bool
is_some none = false
is_some (some a) = true

abbrev pub store : ℕ → Fiber → (ℕ → Fiber) → ℕ → Fiber
store p f fibers x = if x == p then f else fibers x

abbrev pub tickle : Scheduler → Scheduler
tickle s = record s { tickles = suc s.tickles }

-- `scheduleNoLock`: a task with neither a fiber nor a callback is dropped.
unfoldable pub schedule_no_lock : Task → Scheduler → Bool × Scheduler
schedule_no_lock t s = (
  is_empty s.tasks,
  if is_some t.fiber || is_some t.cb then record s { tasks = s.tasks ++ (t ∷ []) } else s,
)

unfoldable pub schedule : Task → Scheduler → Scheduler
schedule t s = let (need_tickle, s') = schedule_no_lock t s in if need_tickle then tickle s' else s'

-- The loop of `schedule(begin, end)`.
unfoldable pub schedule_loop : List Task → Bool → Scheduler → Bool × Scheduler
schedule_loop [] need_tickle s = (need_tickle, s)
schedule_loop (t ∷ ts) need_tickle s =
    let (need, s') = schedule_no_lock t s in schedule_loop ts (need || need_tickle) s'

unfoldable pub schedule_all : List Task → Scheduler → Scheduler
schedule_all ts s =
    let (need_tickle, s') = schedule_loop ts false s in if need_tickle then tickle s' else s'

-- Whether the task is for another thread than `me`, and whether its fiber is executing.
abbrev pub is_elsewhere : ℕ → Task → Bool
is_elsewhere me t = elim t.thread [ none ↦ false | some thread ↦ not (thread == me) ]

abbrev pub is_executing : (ℕ → Fiber) → Task → Bool
is_executing fibers t = elim t.fiber [ none ↦ false | some p ↦ is_exec (fibers p).state ]

-- The loop of `run` over `m_tasks`: the task taken, the queue that is left, and `tickle_me`.
unfoldable pub find_task : ℕ → (ℕ → Fiber) → List Task → Outcome (Option Task × List Task × Bool)
find_task me fibers [] = ok (none, [], false)
find_task me fibers (t ∷ ts) =
    let rest = find_task me fibers ts in
    let later = (do (found, left, tickle_me) ← rest; ok (found, t ∷ left, tickle_me)) in
    let elsewhere = (do (found, left, tickle_me) ← rest; ok (found, t ∷ left, true)) in
    if is_elsewhere me t
    then elsewhere
    else if is_some t.fiber || is_some t.cb
    then (if is_executing fibers t then later else ok (some t, ts, not (is_empty ts)))
    else assert false >> ok (none, t ∷ ts, false)

abbrev pub count_active : Option Task → ℕ → ℕ
count_active none n = n
count_active (some t) n = add64 n 1

unfoldable pub take_task : ℕ → Scheduler → Outcome (Option Task × Scheduler)
take_task me s = do
  (found, left, tickle_me) ← find_task me s.fibers s.tasks
  let s' = record s { tasks = left; active = count_active found s.active }
  ok (found, if tickle_me then tickle s' else s')

abbrev pub inactive : Scheduler → Scheduler
inactive s = record s { active = sub64 s.active 1 }

-- Behind `resume` of a task's fiber: it goes back to the queue, or it is over, or it is on hold.
abbrev pub settle_as : State → ℕ → Scheduler → Scheduler
settle_as State.ready p s = schedule (record { fiber = some p; cb = none; thread = none }) s
settle_as State.term p s = s
settle_as State.except p s = s
settle_as other p s = record s { fibers = store p (record (s.fibers p) { state = hold }) s.fibers }

unfoldable pub settle : ℕ → Scheduler → Scheduler
settle p s = settle_as (s.fibers p).state p s

-- The callback fiber of `run`: reset to the callback, or a new one at the address `fresh`.
unfoldable pub load_callback : Option ℕ → ℕ → Option ℕ → Scheduler → Outcome (ℕ × Scheduler)
load_callback cb fresh none s =
    ok (fresh, record s { fibers = store fresh (Fiber.new cb true) s.fibers })
load_callback cb fresh (some p) s = do
  f ← Fiber.reset cb (s.fibers p)
  ok (p, record s { fibers = store p f s.fibers })

-- Behind `resume` of the callback fiber: what is left of `cb_fiber`, and the scheduler.
unfoldable pub settle_callback : ℕ → Scheduler → Outcome (Option ℕ × Scheduler)
settle_callback p s =
    if is_over (s.fibers p).state
    then (do
      f ← Fiber.reset none (s.fibers p)
      ok (some p, record s { fibers = store p f s.fibers }))
    else ok (none, settle p s)

-- A switch to a fiber and its switch back.
unfoldable pub start_fiber : ℕ → Scheduler → Outcome Scheduler
start_fiber p s = do f ← resume (s.fibers p); ok (record s { fibers = store p f s.fibers })

unfoldable pub leave_fiber : ℕ → Switch → Scheduler → Outcome Scheduler
leave_fiber p sw s = do
  f ← switch_back (actual (s.fibers p).cb sw) (s.fibers p)
  ok (record s { fibers = store p f s.fibers })

-- The fibers whose `resume` waits in the thread, those that are back from it, not active any more but not yet looked at,
-- and what `run` does next.
pub data Pc : Type 0 where
  looking : Pc
  taken : Task → Pc
  in_fiber : ℕ → Pc
  in_callback : ℕ → Pc
  back_fiber : ℕ → Pc
  back_callback : ℕ → Pc
  in_idle : Pc
  ended : Pc

-- A thread in `run`: its number, its idle fiber, its callback fiber, and where it is.
pub record Worker : Type 0 where
  pub thread : ℕ
  pub idle_fiber : ℕ
  pub cb_fiber : Option ℕ
  pub pc : Pc

-- Behind the lock with no task: `run` ends if the idle fiber is over by a return, or resumes it.
unfoldable pub go_idle : Worker → Scheduler → Outcome (Worker × Scheduler)
go_idle w s = if is_term (s.fibers w.idle_fiber).state then ok (record w { pc = ended }, s) else do
  s' ← start_fiber w.idle_fiber (record s { idle = add64 s.idle 1 })
  ok (record w { pc = in_idle }, s')

unfoldable pub go_on : Worker → Option Task → Scheduler → Outcome (Worker × Scheduler)
go_on w none s = go_idle w s
go_on w (some t) s = ok (record w { pc = taken t }, s)

unfoldable pub look : Worker → Scheduler → Outcome (Worker × Scheduler)
look w s = do (found, s') ← take_task w.thread s; go_on w found s'

-- From the task to the switch to its fiber. `fresh` is where a new callback fiber comes to stand.
unfoldable pub begin_callback : Task → ℕ → Worker → Scheduler → Outcome (Worker × Scheduler)
begin_callback t fresh w s = do
  (p, s') ← load_callback t.cb fresh w.cb_fiber s
  s'' ← start_fiber p s'
  ok (record w { pc = in_callback p; cb_fiber = some p }, s'')

unfoldable pub begin_fiber : ℕ → Worker → Scheduler → Outcome (Worker × Scheduler)
begin_fiber p w s =
    if is_over (s.fibers p).state
    then ok (record w { pc = looking }, inactive s)
    else (do s' ← start_fiber p s; ok (record w { pc = in_fiber p }, s'))

unfoldable pub begin : Task → Option ℕ → ℕ → Worker → Scheduler → Outcome (Worker × Scheduler)
begin t (some p) fresh w s = begin_fiber p w s
begin t none fresh w s =
    if is_some t.cb then begin_callback t fresh w s else ok (record w { pc = looking }, inactive s)

-- The switch back, and `--m_activeThreadCount`.
unfoldable pub finish_fiber : ℕ → Switch → Worker → Scheduler → Outcome (Worker × Scheduler)
finish_fiber p sw w s = do s' ← leave_fiber p sw s; ok (record w { pc = back_fiber p }, inactive s')

unfoldable pub finish_callback : ℕ → Switch → Worker → Scheduler → Outcome (Worker × Scheduler)
finish_callback p sw w s = do
  s' ← leave_fiber p sw s
  ok (record w { pc = back_callback p }, inactive s')

-- What follows, with a lock of its own where the fiber is scheduled again.
unfoldable pub put_back_fiber : ℕ → Worker → Scheduler → Outcome (Worker × Scheduler)
put_back_fiber p w s = ok (record w { pc = looking }, settle p s)

unfoldable pub put_back_callback : ℕ → Worker → Scheduler → Outcome (Worker × Scheduler)
put_back_callback p w s = do
  (left, s') ← settle_callback p s
  ok (record w { pc = looking; cb_fiber = left }, s')

-- The idle fiber is on hold behind its resume unless it is over.
unfoldable pub finish_idle : Switch → Worker → Scheduler → Outcome (Worker × Scheduler)
finish_idle sw w s = do
  s' ← leave_fiber w.idle_fiber sw s
  let f = s'.fibers w.idle_fiber
  let f' = if is_over f.state then f else record f { state = hold }
  ok (
    record w { pc = looking },
    record s' { idle = sub64 s'.idle 1; fibers = store w.idle_fiber f' s'.fibers },
  )

-- One stretch of `run`, from where the thread is to the next switch, count or lock. The end of `run` is no step.
unfoldable pub step_from : Pc → ℕ → Switch → Worker → Scheduler → Outcome (Worker × Scheduler)
step_from looking fresh sw w s = look w s
step_from (taken t) fresh sw w s = begin t t.fiber fresh w s
step_from (in_fiber p) fresh sw w s = finish_fiber p sw w s
step_from (in_callback p) fresh sw w s = finish_callback p sw w s
step_from (back_fiber p) fresh sw w s = put_back_fiber p w s
step_from (back_callback p) fresh sw w s = put_back_callback p w s
step_from in_idle fresh sw w s = finish_idle sw w s
step_from ended fresh sw w s = ok (w, s)

unfoldable pub step : ℕ → Switch → Worker → Scheduler → Outcome (Worker × Scheduler)
step fresh sw w s = step_from w.pc fresh sw w s

unfoldable pub has_idle_threads : Scheduler → Bool
has_idle_threads s = ltb 0 s.idle

-- `stopping()`.
unfoldable pub is_stopping : Scheduler → Bool
is_stopping s = s.auto_stop && s.stopping && is_empty s.tasks && (s.active == 0)
