-- ===== src/Scheduler/Rounds.antt =====
-- One task from its start until `run` looks for the next in East/src/Scheduler.cc, with no other thread in between.
use east.Common.{
  ℕ, ◌≡◌, refl, ap, ◌∙◌, Bool, true, false, inl, inr, Option, none, some, List, [], ◌∷◌, ◌++◌,
  Outcome, ok, throws, assertion_failed, ◌>>=◌, if◌then◌else◌, ◌==◌, arith, Bool-cases,
}
use east.Common.Words.{sub64}
use east.Fiber
use east.Fiber.{
  Fiber, State, init, hold, exec, term, ready, except, is_exec, is_over, Switch, returns, raises,
  yields_ready, yields_hold,
}
use east.Scheduler.{
  Task, Scheduler, Worker, looking, in_callback, load_callback, begin_callback, finish_callback,
  put_back_fiber, put_back_callback, settle_callback, is_empty, inactive, store, schedule, settle,
  begin, begin_fiber, step, start_fiber, step_from, finish_fiber, leave_fiber, schedule_no_lock,
}

abbrev pub fiber_task : ℕ → Task
fiber_task p = record { fiber = some p; cb = none; thread = none }

abbrev pub callback_task : Option ℕ → ℕ → Task
callback_task thread cb = record { fiber = none; cb = some cb; thread = thread }

-- A round that ends with the fiber `p` in `state`, `cb_fiber` left, and `tasks` queued; one active thread less
-- than `active`.
pub record Ends (w : Worker) (s : Scheduler) (p : ℕ) (cb_fiber : Option ℕ) (state : State)
    (tasks : List Task) (out : Outcome (Worker × Scheduler)) : Type 0 where
  pub result : Scheduler
  pub runs : out ≡ ok (record w { pc = looking; cb_fiber = cb_fiber }, result)
  pub ended : (result.fibers p).state ≡ state
  pub queued : result.tasks ≡ tasks
  pub counted : result.active ≡ sub64 s.active 1

abbrev pub FiberRound : Switch → ℕ → Worker → Scheduler → Outcome (Worker × Scheduler) → Type 0
FiberRound returns p w s out = Ends w s p w.cb_fiber term s.tasks out
FiberRound raises p w s out = Ends w s p w.cb_fiber except s.tasks out
FiberRound yields_ready p w s out = Ends w s p w.cb_fiber ready (s.tasks ++ fiber_task p ∷ []) out
FiberRound yields_hold p w s out = Ends w s p w.cb_fiber hold s.tasks out

same_address : (p : ℕ) → (p == p) ≡ true
same_address p = ground arith

-- What `run` makes of the state of a fiber that has switched back, and of the queue.
abbrev pub rested : State → State
rested ready = ready
rested term = term
rested except = except
rested _ = hold

abbrev pub requeued : State → ℕ → List Task → List Task
requeued ready p tasks = tasks ++ fiber_task p ∷ []
requeued _ p tasks = tasks

abbrev Settled : State → ℕ → Scheduler → Scheduler → Type 0
Settled state p s s' =
    ((s'.fibers p).state ≡ rested state)
    × (s'.tasks ≡ requeued state p s.tasks)
    × (s'.active ≡ s.active)

schedule-Settled :
    (p : ℕ) (s : Scheduler)
    → (s.fibers p).state ≡ ready
    → Settled ready p s (schedule (fiber_task p) s)
unfolding schedule schedule_no_lock
schedule-Settled p s h = elim (Bool-cases (is_empty s.tasks)) [
  | inl e ↦ rw (e) (h, refl, refl)
  | inr e ↦ rw (e) (h, refl, refl)
]

settle-Settled :
    (state : State) (p : ℕ) (s : Scheduler)
    → (s.fibers p).state ≡ state
    → Settled state p s (settle p s)
unfolding settle
settle-Settled ready p s h = rw (h) (schedule-Settled p s h)
settle-Settled term p s h = rw (h) (h, refl, refl)
settle-Settled except p s h = rw (h) (h, refl, refl)
settle-Settled init p s h = rw (h, same_address p) (refl, refl, refl)
settle-Settled hold p s h = rw (h, same_address p) (refl, refl, refl)
settle-Settled exec p s h = rw (h, same_address p) (refl, refl, refl)

settle-Ends :
    (w : Worker) (s s' : Scheduler) (p : ℕ) (f : Fiber) (left : Option ℕ)
    → s'.tasks ≡ s.tasks
    → s'.active ≡ s.active
    → Ends w s p left (rested f.state) (requeued f.state p s.tasks) (
        ok (
          record w { pc = looking; cb_fiber = left },
          settle p (inactive (record s' { fibers = store p f s'.fibers })),
        ))
settle-Ends w s s' p f left tasks active =
    let n = inactive (record s' { fibers = store p f s'.fibers }) in
    let (ended, queued, counted) =
      settle-Settled f.state p n
        (ap (λ b. (if b then f else s'.fibers p).state) (same_address p)) in
    record {
      result = settle p n;
      runs = refl;
      ended = ended;
      queued = queued ∙ ap (requeued f.state p) tasks;
      counted = counted ∙ ap (λ k. sub64 k 1) active;
    }

-- A fiber with a callback that is neither executing nor over is resumed: where it returns it is TERM, where
-- it throws EXCEPT, where it yields to ready it is READY and at the end of the queue, and where it
-- yields it is on hold; the queue is otherwise as before, and the thread looks for a task again.
pub fiber_round :
    (t : Task) (p fresh fresh' cb : ℕ) (sw : Switch) (w : Worker) (s : Scheduler)
    → (s.fibers p).cb ≡ some cb
    → is_exec (s.fibers p).state ≡ false
    → is_over (s.fibers p).state ≡ false
    → FiberRound sw p w s (do
      (w', s') ← begin t (some p) fresh w s
      (w'', s'') ← step fresh' sw w' s'
      step fresh' sw w'' s'')
unfolding begin begin_fiber step start_fiber step_from finish_fiber put_back_fiber leave_fiber
    Fiber.resume Fiber.switch_back settle schedule schedule_no_lock
fiber_round t p fresh fresh' cb returns w s has_cb idle alive =
    let running : Fiber = record (s.fibers p) { state = exec; cb = some cb } in
    rw (idle, alive, same_address p, has_cb)
      (settle-Ends w s (record s { fibers = store p running s.fibers }) p
        (record running { cb = none; state = term }) w.cb_fiber refl refl)
fiber_round t p fresh fresh' cb raises w s has_cb idle alive =
    let running : Fiber = record (s.fibers p) { state = exec; cb = some cb } in
    rw (idle, alive, same_address p, has_cb)
      (settle-Ends w s (record s { fibers = store p running s.fibers }) p
        (record running { state = except }) w.cb_fiber refl refl)
fiber_round t p fresh fresh' cb yields_ready w s has_cb idle alive =
    let running : Fiber = record (s.fibers p) { state = exec; cb = some cb } in
    rw (idle, alive, same_address p, has_cb)
      (settle-Ends w s (record s { fibers = store p running s.fibers }) p
        (record running { state = ready }) w.cb_fiber refl refl)
fiber_round t p fresh fresh' cb yields_hold w s has_cb idle alive =
    let running : Fiber = record (s.fibers p) { state = exec; cb = some cb } in
    rw (idle, alive, same_address p, has_cb)
      (settle-Ends w s (record s { fibers = store p running s.fibers }) p (running) w.cb_fiber refl
        refl)

-- The callback fiber that a round leaves: none, or one that can be reset.
abbrev pub IsReusable : Option ℕ → (ℕ → Fiber) → Type 0
IsReusable none fibers = Unit {0}
IsReusable (some q) fibers = ((fibers q).state ≡ init) × ((fibers q).has_stack ≡ true)

-- Where the callback fiber stands.
abbrev pub place : ℕ → Option ℕ → ℕ
place fresh none = fresh
place fresh (some q) = q

abbrev pub CallbackRound : Switch → ℕ → Worker → Scheduler → Outcome (Worker × Scheduler) → Type 0
CallbackRound returns p w s out =
    (r : Ends w s p (some p) init s.tasks out) × IsReusable (some p) r.result.fibers
CallbackRound raises p w s out = out ≡ throws assertion_failed
CallbackRound yields_ready p w s out = Ends w s p none ready (s.tasks ++ fiber_task p ∷ []) out
CallbackRound yields_hold p w s out = Ends w s p none hold s.tasks out

abbrev loaded : ℕ → Bool → Fiber
loaded cb run_in_scheduler = record {
  state = init;
  cb = some cb;
  has_stack = true;
  run_in_scheduler = run_in_scheduler;
}

load_callback-loaded :
    (cb fresh : ℕ) (left : Option ℕ) (s : Scheduler)
    → IsReusable left s.fibers
    → (b : Bool) × (load_callback (some cb) fresh left s
        ≡ ok (
          place fresh left,
          record s { fibers = store (place fresh left) (loaded cb b) s.fibers },
        ))
unfolding load_callback Fiber.new Fiber.reset
load_callback-loaded cb fresh none s h = (true, refl)
load_callback-loaded cb fresh (some q) s h = ((s.fibers q).run_in_scheduler, rw (h.0, h.1) refl)

running : ℕ → Bool → Fiber
running cb b = record (loaded cb b) { state = exec }

-- The end of a round whose fiber is running in `s'`.
finish_callback-round :
    (fresh : ℕ) (sw : Switch) (p cb : ℕ) (b : Bool) (w : Worker) (s s' : Scheduler)
    → s'.fibers p ≡ running cb b
    → s'.tasks ≡ s.tasks
    → s'.active ≡ s.active
    → CallbackRound sw p w s (do
      (w', s'') ← finish_callback p sw (record w { pc = in_callback p; cb_fiber = some p }) s'
      step fresh sw w' s'')
unfolding step step_from finish_callback put_back_callback leave_fiber settle_callback
    Fiber.switch_back Fiber.reset running
finish_callback-round fresh returns p cb b w s s' h tasks active =
    rw (h, same_address p)
      (
        record {
          result = record (inactive s') {
            fibers =
                store p (record (loaded cb b) { cb = none })
                  (store p (record (loaded cb b) { state = term; cb = none }) s'.fibers);
          };
          runs = refl;
          ended = rw (same_address p) refl;
          queued = tasks;
          counted = ap (λ k. sub64 k 1) active;
        },
        (rw (same_address p) refl, rw (same_address p) refl),
      )
finish_callback-round fresh raises p cb b w s s' h tasks active = rw (h, same_address p) refl
finish_callback-round fresh yields_ready p cb b w s s' h tasks active =
    rw (h, same_address p)
      (settle-Ends w s s' p (record (running cb b) { state = ready }) none tasks active)
finish_callback-round fresh yields_hold p cb b w s s' h tasks active =
    rw (h, same_address p) (settle-Ends w s s' p (running cb b) none tasks active)

-- With no callback fiber left, or one that is INIT, a callback is run in it: where the callback returns, the
-- fiber is kept, INIT again, and can be reset for the next; where it throws, the thread fails at the
-- assertion of `reset`, which refuses EXCEPT; where it yields, the fiber is given up, queued
-- if READY and else on hold. The queue is otherwise as before.
pub callback_round :
    (thread : Option ℕ) (fresh fresh' cb : ℕ) (sw : Switch) (w : Worker) (s : Scheduler)
    → IsReusable w.cb_fiber s.fibers
    → CallbackRound sw (place fresh w.cb_fiber) w s (do
      (w', s') ← begin (callback_task thread cb) none fresh w s
      (w'', s'') ← step fresh' sw w' s'
      step fresh' sw w'' s'')
unfolding begin begin_callback step start_fiber step_from Fiber.resume running
callback_round thread fresh fresh' cb sw w s v =
    let p = place fresh w.cb_fiber in
    let (b, load) = load_callback-loaded cb fresh w.cb_fiber s v in
    rw (load, same_address p)
      (finish_callback-round fresh' sw p cb b w s
        (record s { fibers = store p (running cb b) (store p (loaded cb b) s.fibers) })
        (rw (same_address p) refl) refl refl)
