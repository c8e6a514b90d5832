-- ===== src/Scheduler/Tests.antt =====
-- Tasks in the queue of East/src/Scheduler.cc, and threads at work.
use east.Common.{
  ℕ, ◌≡◌, refl, Bool, true, Option, none, some, List, [], ◌∷◌, ok, throws, assertion_failed, ◌>>=◌,
  arith, ◌↔◌, if◌then◌else◌, ◌==◌,
}
use east.Common.Words.{add64, sub64}
use east.Fiber.{Fiber, resume, switch_back, ready, hold, exec, returns, raises, yields_ready}
use east.Scheduler.{
  Task, Scheduler, Worker, looking, taken, find_task, begin, step, is_stopping, store, in_idle,
  in_fiber, back_fiber, finish_fiber, leave_fiber, step_from, look, take_task, go_idle, start_fiber,
  go_on,
}
use east.Scheduler.Queue.{Found, find_task-Found}
use east.Scheduler.Rounds.{FiberRound, fiber_round, callback_round, callback_task, fiber_task}
use east.Scheduler.Workers.Quiet.{
  System, put, Reach, here, next, works, IsCounted, Reach-IsCounted, sum, AllQuiet, stopping_quiet,
}

-- Fiber 2 is executing, all others are on hold with callback 7.
abbrev fibers_here : ℕ → Fiber
fibers_here p = record {
  state = if p == 2 then exec else hold;
  cb = some 7;
  has_stack = true;
  run_in_scheduler = true;
}

-- A task for thread 1, the executing fiber, fiber 3, and a callback.
abbrev queue : List Task
queue =
    record { fiber = some 4; cb = none; thread = some 1 }
    ∷ fiber_task 2
    ∷ fiber_task 3
    ∷ callback_task none 8
    ∷ []

find_task-Found_example :
    (r : Option Task × List Task × Bool) × (find_task 0 fibers_here queue ≡ ok r)
    × Found 0 fibers_here queue r
find_task-Found_example = find_task-Found 0 fibers_here queue (refl, (refl, (refl, (refl, tt))))

abbrev scheduler : Scheduler
scheduler = record {
  tasks = [];
  fibers = fibers_here;
  active = 1;
  idle = 0;
  stopping = true;
  auto_stop = true;
  tickles = 0;
}

abbrev worker : Worker
worker = record { thread = 0; idle_fiber = 9; cb_fiber = none; pc = taken (fiber_task 3) }

fiber_round_example : FiberRound yields_ready 3 worker scheduler (do
  (w, s) ← begin (fiber_task 3) (some 3) 20 worker scheduler
  (w', s') ← step 20 yields_ready w s
  step 20 yields_ready w' s')
fiber_round_example =
    fiber_round (fiber_task 3) 3 20 20 7 yields_ready worker scheduler refl refl refl

callback_round_example :
    (do
      (w, s) ← begin (callback_task none 8) none 20 worker scheduler
      (w', s') ← step 20 raises w s
      step 20 raises w' s')
    ≡ throws assertion_failed
callback_round_example = callback_round none 20 20 8 raises worker scheduler tt

-- One thread, which finds no task and goes to its idle fiber.
abbrev before : System
before = record {
  sched = record scheduler { active = 0 };
  workers = λ i. record worker { pc = looking };
}

abbrev after : System
after = record {
  sched = record before.sched {
    idle = 1;
    fibers = store 9 (record (fibers_here 9) { state = exec }) fibers_here;
  };
  workers = put 0 (record worker { pc = in_idle }) before.workers;
}

before-IsCounted : IsCounted 1 before
unfolding sum
before-IsCounted = record { active_eq = refl; idle_eq = refl }

before-after : Reach 1 before after
unfolding step step_from look take_task find_task go_idle start_fiber resume add64 go_on
before-after =
    next here
      (works 0 20 returns (record worker { pc = in_idle }) after.sched (omega arith) refl refl)

Reach-IsCounted_example : IsCounted 1 after
Reach-IsCounted_example = Reach-IsCounted 1 (omega arith) before-IsCounted before-after

stopping_quiet_example : (is_stopping after.sched ≡ true) ↔ (
    (after.sched.auto_stop ≡ true)
    × (after.sched.stopping ≡ true)
    × (after.sched.tasks ≡ [])
    × AllQuiet 1 after.workers)
stopping_quiet_example = stopping_quiet 1 before after (omega arith) before-IsCounted before-after

-- A thread is back from a fiber that is READY and has not put it into the queue: `stopping` answers true.
abbrev yielding : Scheduler
yielding = record scheduler {
  fibers = store 3 (record (fibers_here 3) { state = exec }) fibers_here;
}

abbrev back : Scheduler
back = record scheduler {
  fibers = store 3 (record (fibers_here 3) { state = ready }) yielding.fibers;
  active = 0;
}

held_run :
    step 20 yields_ready (record worker { pc = in_fiber 3 }) yielding
    ≡ ok (record worker { pc = back_fiber 3 }, back)
unfolding step step_from finish_fiber leave_fiber switch_back sub64
held_run = refl

stopping_too_early_run : is_stopping back ≡ true
unfolding is_stopping
stopping_too_early_run = refl
