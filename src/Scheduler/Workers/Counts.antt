-- ===== src/Scheduler/Workers/Counts.antt =====
-- How each stretch of `run` of East/src/Scheduler.cc changes the counters of the scheduler.
use east.Common.{
  ℕ, ◌+◌, ◌-◌, ◌^◌, ◌≤◌, ◌<◌, ◌≡◌, refl, ◌∙◌, Bool, true, false, ◌||◌, inl, inr, Option, none, some,
  List, [], ◌∷◌, Bool-cases, if◌then◌else◌, Returns, Returns-bind, Returns-each, Returns-weaken,
  arith,
}
use east.Common.Words.{add64, add64-no_wrap, sub64-no_wrap}
use east.Fiber
use east.Fiber.{
  Fiber, State, Switch, is_over, is_exec, resume, switch_back, actual, init, hold, exec, term,
  ready, except,
}
use east.Scheduler.{
  Task, Scheduler, Worker, Pc, looking, taken, in_fiber, in_callback, back_fiber, back_callback,
  in_idle, ended, schedule, schedule_no_lock, schedule_loop, schedule_all, find_task, take_task,
  settle, settle_callback, load_callback, start_fiber, leave_fiber, go_idle, go_on, is_term, look,
  begin, begin_fiber, begin_callback, finish_fiber, finish_callback, put_back_fiber,
  put_back_callback, finish_idle, step_from, step, inactive, count_active, is_some, tickle,
}

-- A thread counts as active from the task it takes until its fiber has switched back.
abbrev pub busy : Pc → ℕ
busy looking = 0
busy (taken t) = 1
busy (in_fiber p) = 1
busy (in_callback p) = 1
busy (back_fiber p) = 0
busy (back_callback p) = 0
busy in_idle = 0
busy ended = 0

abbrev pub idling : Pc → ℕ
idling in_idle = 1
idling _ = 0

abbrev pub SameCounts : Scheduler → Scheduler → Type 0
SameCounts s s' = (s'.active ≡ s.active) × (s'.idle ≡ s.idle)

pub schedule-SameCounts : (t : Task) (s : Scheduler) → SameCounts s (schedule t s)
unfolding schedule schedule_no_lock
schedule-SameCounts t s = ground arith

schedule_no_lock-SameCounts : (t : Task) (s : Scheduler) → SameCounts s (schedule_no_lock t s).1
unfolding schedule_no_lock
schedule_no_lock-SameCounts t s = ground arith

schedule_loop-SameCounts :
    (ts : List Task) (need : Bool) (s : Scheduler) → SameCounts s (schedule_loop ts need s).1
unfolding schedule_loop
schedule_loop-SameCounts [] need s = (refl, refl)
schedule_loop-SameCounts (t ∷ ts) need s =
    let first = schedule_no_lock-SameCounts t s in
    let rest =
      schedule_loop-SameCounts ts ((schedule_no_lock t s).0 || need) (schedule_no_lock t s).1 in
    (rest.0 ∙ first.0, rest.1 ∙ first.1)

pub schedule_all-SameCounts : (ts : List Task) (s : Scheduler) → SameCounts s (schedule_all ts s)
unfolding schedule_all
schedule_all-SameCounts ts s = ground (arith, schedule_loop-SameCounts ts false s)

start_fiber-SameCounts : (p : ℕ) (s : Scheduler) → Returns (SameCounts s) (start_fiber p s)
unfolding start_fiber
start_fiber-SameCounts p s = Returns-each (SameCounts s) (resume (s.fibers p)) _ λ f. (refl, refl)

leave_fiber-SameCounts :
    (p : ℕ) (sw : Switch) (s : Scheduler) → Returns (SameCounts s) (leave_fiber p sw s)
unfolding leave_fiber
leave_fiber-SameCounts p sw s =
    Returns-each (SameCounts s) (switch_back (actual (s.fibers p).cb sw) (s.fibers p)) _
      λ f. (refl, refl)

settle-SameCounts : (p : ℕ) (s : Scheduler) → SameCounts s (settle p s)
unfolding settle
settle-SameCounts p s =
    ground (arith, schedule-SameCounts (record { fiber = some p; cb = none; thread = none }) s)

load_callback-SameCounts :
    (cb : Option ℕ) (fresh : ℕ) (left : Option ℕ) (s : Scheduler)
    → Returns (λ r. SameCounts s r.1) (load_callback cb fresh left s)
unfolding load_callback
load_callback-SameCounts cb fresh none s = (refl, refl)
load_callback-SameCounts cb fresh (some p) s =
    Returns-each (λ r. SameCounts s r.1) (Fiber.reset cb (s.fibers p)) _ λ f. (refl, refl)

settle_callback-SameCounts :
    (p : ℕ) (s : Scheduler) → Returns (λ r. SameCounts s r.1) (settle_callback p s)
unfolding settle_callback
settle_callback-SameCounts p s = elim (Bool-cases (is_over (s.fibers p).state)) [
  | inl e ↦
      rw (e)
        (Returns-each (λ r. SameCounts s r.1) (Fiber.reset none (s.fibers p)) _ λ f. (refl, refl))
  | inr e ↦ rw (e) (settle-SameCounts p s)
]

-- A task that is taken counts at once.
take_task-counts :
    (me : ℕ) (s : Scheduler)
    → Returns (λ r. (r.1.active ≡ count_active r.0 s.active) × (r.1.idle ≡ s.idle)) (take_task me s)
unfolding take_task
take_task-counts me s =
    Returns-each (λ r. (r.1.active ≡ count_active r.0 s.active) × (r.1.idle ≡ s.idle))
      (find_task me s.fibers s.tasks) _ λ r. counted r.0 r.1 r.2
  where
    counted :
        (found : Option Task) (left : List Task) (tickle_me : Bool)
        → let s' = record s { tasks = left; active = count_active found s.active } in
          ((if tickle_me then tickle s' else s').active ≡ count_active found s.active)
          × ((if tickle_me then tickle s' else s').idle ≡ s.idle)
    counted found left true = (refl, refl)
    counted found left false = (refl, refl)

-- What a stretch of `run` moves from one counter to the place of the thread.
abbrev pub Balanced : Worker → Scheduler → Worker × Scheduler → Type 0
Balanced w s r =
    (r.1.active + busy w.pc ≡ s.active + busy r.0.pc)
    × (r.1.idle + idling w.pc ≡ s.idle + idling r.0.pc)

-- The counters include the thread itself, and are no more than the number of threads.
abbrev pub Counted : Worker → Scheduler → Type 0
Counted w s =
    (busy w.pc ≤ s.active)
    × (idling w.pc ≤ s.idle)
    × (s.active < 2 ^ 64 - 1)
    × (s.idle < 2 ^ 64 - 1)

module _ (w : Worker) (s : Scheduler) (c : Counted w s) where
  inactive_lem : 1 ≤ s.active → (inactive s).active ≡ s.active - 1
  inactive_lem h = sub64-no_wrap s.active 1 h (omega arith)

  begin_fiber-Balanced :
      (p : ℕ) (t : Task) → w.pc ≡ taken t → Returns (Balanced w s) (begin_fiber p w s)
  unfolding begin_fiber
  begin_fiber-Balanced p t at = elim (Bool-cases (is_over (s.fibers p).state)) [
    | inl e ↦ rw (e, at) (omega (arith, inactive_lem (busy_here at), busy_here at), omega arith)
    | inr e ↦ rw (e) (
        Returns-bind (SameCounts s) (Balanced w s) (start_fiber p s) _ (start_fiber-SameCounts p s)
          λ s' same. rw (at) (omega (arith, same.0), omega (arith, same.1)))
  ]
    where
      busy_here : w.pc ≡ taken t → 1 ≤ s.active
      busy_here at = rw (at) at c.0

  begin_callback-Balanced :
      (fresh : ℕ) (t : Task) → w.pc ≡ taken t → Returns (Balanced w s) (begin_callback t fresh w s)
  unfolding begin_callback
  begin_callback-Balanced fresh t at =
      Returns-bind (λ r. SameCounts s r.1) (Balanced w s) (load_callback t.cb fresh w.cb_fiber s) _
        (load_callback-SameCounts t.cb fresh w.cb_fiber s)
        λ r loaded.
          Returns-bind (SameCounts r.1) (Balanced w s) (start_fiber r.0 r.1) _
            (start_fiber-SameCounts r.0 r.1)
            λ s' same. rw (at) (omega (arith, same.0, loaded.0), omega (arith, same.1, loaded.1))

  begin-Balanced :
      (fresh : ℕ) (t : Task) (f : Option ℕ)
      → w.pc ≡ taken t
      → Returns (Balanced w s) (begin t f fresh w s)
  unfolding begin
  begin-Balanced fresh t (some p) at = begin_fiber-Balanced p t at
  begin-Balanced fresh t none at = elim (Bool-cases (is_some t.cb)) [
    | inl e ↦ rw (e) (begin_callback-Balanced fresh t at)
    | inr e ↦ rw (e, at) (omega (arith, inactive_lem (here at), here at), omega arith)
  ]
    where
      here : w.pc ≡ taken t → 1 ≤ s.active
      here at = rw (at) at c.0

  one_back : (s' : Scheduler) → 1 ≤ s.active → SameCounts s s' → (inactive s').active + 1 ≡ s.active
  one_back s' here same = omega (
    arith,
    here,
    same.0,
    sub64-no_wrap s'.active 1 (omega (arith, same.0, here)) (omega (arith, same.0)),
  )

  finish_fiber-Balanced :
      (p : ℕ) (sw : Switch) → w.pc ≡ in_fiber p → Returns (Balanced w s) (finish_fiber p sw w s)
  unfolding finish_fiber
  finish_fiber-Balanced p sw at =
      Returns-bind (SameCounts s) (Balanced w s) (leave_fiber p sw s) _
        (leave_fiber-SameCounts p sw s)
        λ s' same. rw (at) (omega (arith, one_back s' here same), omega (arith, same.1))
    where
      here : 1 ≤ s.active
      here = rw (at) at c.0

  finish_callback-Balanced :
      (p : ℕ) (sw : Switch)
      → w.pc ≡ in_callback p
      → Returns (Balanced w s) (finish_callback p sw w s)
  unfolding finish_callback
  finish_callback-Balanced p sw at =
      Returns-bind (SameCounts s) (Balanced w s) (leave_fiber p sw s) _
        (leave_fiber-SameCounts p sw s)
        λ s' same. rw (at) (omega (arith, one_back s' here same), omega (arith, same.1))
    where
      here : 1 ≤ s.active
      here = rw (at) at c.0

  put_back_fiber-Balanced :
      (p : ℕ) → w.pc ≡ back_fiber p → Returns (Balanced w s) (put_back_fiber p w s)
  unfolding put_back_fiber
  put_back_fiber-Balanced p at =
      let settled = settle-SameCounts p s in
      rw (at) (omega (arith, settled.0), omega (arith, settled.1))

  put_back_callback-Balanced :
      (p : ℕ) → w.pc ≡ back_callback p → Returns (Balanced w s) (put_back_callback p w s)
  unfolding put_back_callback
  put_back_callback-Balanced p at =
      Returns-bind (λ r. SameCounts s r.1) (Balanced w s) (settle_callback p s) _
        (settle_callback-SameCounts p s)
        λ r settled. rw (at) (omega (arith, settled.0), omega (arith, settled.1))

  finish_idle-Balanced :
      (sw : Switch) → w.pc ≡ in_idle → Returns (Balanced w s) (finish_idle sw w s)
  unfolding finish_idle
  finish_idle-Balanced sw at =
      Returns-bind (SameCounts s) (Balanced w s) (leave_fiber w.idle_fiber sw s) _
        (leave_fiber-SameCounts w.idle_fiber sw s)
        λ s' same. rw (at) (
          omega (arith, same.0),
          omega (
            arith,
            here,
            same.1,
            sub64-no_wrap s'.idle 1 (omega (arith, same.1, here)) (omega (arith, same.1)),
          ),
        )
    where
      here : 1 ≤ s.idle
      here = rw (at) at c.1

module _ (w : Worker) where
  go_idle-Balanced :
      (s : Scheduler) → w.pc ≡ looking → s.idle < 2 ^ 64 - 1 → Returns (Balanced w s) (go_idle w s)
  unfolding go_idle
  go_idle-Balanced s at room = elim (Bool-cases (is_term (s.fibers w.idle_fiber).state)) [
    | inl e ↦ rw (e, at) (refl, refl)
    | inr e ↦ rw (e) (
        Returns-bind (SameCounts (record s { idle = add64 s.idle 1 })) (Balanced w s)
          (start_fiber w.idle_fiber (record s { idle = add64 s.idle 1 })) _
          (start_fiber-SameCounts w.idle_fiber (record s { idle = add64 s.idle 1 }))
          λ s' same.
            rw (at)
              (omega (arith, same.0), omega (arith, same.1, add64-no_wrap s.idle 1 (omega arith))))
  ]

  look-Balanced : (s : Scheduler) → w.pc ≡ looking → Counted w s → Returns (Balanced w s) (look w s)
  unfolding look go_on
  look-Balanced s at c =
      Returns-bind (λ r. (r.1.active ≡ count_active r.0 s.active) × (r.1.idle ≡ s.idle))
        (Balanced w s) (take_task w.thread s) _ (take_task-counts w.thread s)
        λ r counts. on r.0 r.1 counts
    where
      on :
          (found : Option Task) (s' : Scheduler)
          → (s'.active ≡ count_active found s.active) × (s'.idle ≡ s.idle)
          → Returns (Balanced w s) (go_on w found s')
      on none s' counts =
          Returns-weaken (Balanced w s') (Balanced w s) (go_idle w s')
            (go_idle-Balanced s' at (omega (arith, counts.1, c.3)))
            λ r b. (omega (arith, b.0, counts.0), omega (arith, b.1, counts.1))
      on (some t) s' counts =
          rw (at) (
            omega (arith, counts.0, add64-no_wrap s.active 1 (omega arith)),
            omega (arith, counts.1),
          )

-- A stretch of `run` moves one from the counter to the thread or back.
pub step-Balanced :
    (fresh : ℕ) (sw : Switch) (w : Worker) (s : Scheduler)
    → Counted w s
    → Returns (Balanced w s) (step fresh sw w s)
unfolding step step_from
step-Balanced fresh sw w s c = go w.pc refl
  where
    go : (pc : Pc) → w.pc ≡ pc → Returns (Balanced w s) (step_from pc fresh sw w s)
    go looking at = look-Balanced w s at c
    go (taken t) at = begin-Balanced w s c fresh t t.fiber at
    go (in_fiber p) at = finish_fiber-Balanced w s c p sw at
    go (in_callback p) at = finish_callback-Balanced w s c p sw at
    go (back_fiber p) at = put_back_fiber-Balanced w s c p at
    go (back_callback p) at = put_back_callback-Balanced w s c p at
    go in_idle at = finish_idle-Balanced w s c sw at
    go ended at = (refl, refl)
