-- ===== src/Scheduler/Workers/Quiet.antt =====
-- Threads of one scheduler of East/src/Scheduler.cc in any order, and what `stopping` may conclude.
use mathlib.Core.Path.{subst}
use native.Mathlib.Decide.{ℕ_discrete}
use east.Common.{
  ℕ, zero, suc, ◌+◌, ◌-◌, ◌^◌, ◌≤◌, ◌<◌, ◌≡◌, ◌↔◌, refl, sym, ap, ◌∙◌, Bool, true, false, ◌&&◌,
  List, [], ◌∷◌, ok, if◌then◌else◌, ◌==◌, arith, Returns-ok,
}
use east.Fiber.{Fiber, Switch}
use east.Scheduler.{
  Task, Scheduler, Worker, Pc, schedule, schedule_all, step, is_stopping, is_empty,
}
use east.Scheduler.Workers.Counts.{
  busy, idling, Balanced, Counted, step-Balanced, schedule-SameCounts, schedule_all-SameCounts,
}

-- The scheduler and its threads, by number.
pub record System : Type 0 where
  pub sched : Scheduler
  pub workers : ℕ → Worker

abbrev pub put : ℕ → Worker → (ℕ → Worker) → ℕ → Worker
put i w workers j = if j == i then w else workers j

-- The sum over the first `n` threads.
unfoldable pub sum : (Pc → ℕ) → ℕ → (ℕ → Worker) → ℕ
sum weight zero workers = 0
sum weight (suc n) workers = sum weight n workers + weight (workers n).pc

-- What happens next, among `n` threads: one of them goes on to its next switch, or code anywhere
-- schedules a task or several, starts or stops the scheduler, or changes fibers that no field here names.
pub data Move (n : ℕ) (x y : System) : Type 0 where
  works :
      (i fresh : ℕ) (sw : Switch) (w : Worker) (s : Scheduler)
      → i < n
      → step fresh sw (x.workers i) x.sched ≡ ok (w, s)
      → y ≡ record { sched = s; workers = put i w x.workers }
      → Move n x y
  schedules : (t : Task) → y ≡ record x { sched = schedule t x.sched } → Move n x y
  schedules_all : (ts : List Task) → y ≡ record x { sched = schedule_all ts x.sched } → Move n x y
  flags :
      (stopping auto_stop : Bool)
      → y ≡ record x { sched = record x.sched { stopping = stopping; auto_stop = auto_stop } }
      → Move n x y
  fibers :
      (heap : ℕ → Fiber) → y ≡ record x { sched = record x.sched { fibers = heap } } → Move n x y

pub data Reach (n : ℕ) (x : System) : System → Type 0 where
  here : Reach n x x
  next : {y z : System} → Reach n x y → Move n y z → Reach n x z

-- The counters are the numbers of threads at a task and in their idle fibers.
pub record IsCounted (n : ℕ) (x : System) : Type 0 where
  pub active_eq : x.sched.active ≡ sum busy n x.workers
  pub idle_eq : x.sched.idle ≡ sum idling n x.workers

busy-le : (pc : Pc) → busy pc ≤ 1
busy-le pc = ground arith

idling-le : (pc : Pc) → idling pc ≤ 1
idling-le pc = ground arith

module _ (weight : Pc → ℕ) (small : (pc : Pc) → weight pc ≤ 1) where
  sum-le : (n : ℕ) (workers : ℕ → Worker) → sum weight n workers ≤ n
  unfolding sum
  sum-le zero workers = omega arith
  sum-le (suc n) workers = omega (arith, sum-le n workers, small (workers n).pc)

  weight-le-sum :
      (n i : ℕ) (workers : ℕ → Worker) → i < n → weight (workers i).pc ≤ sum weight n workers
  unfolding sum
  weight-le-sum zero i workers h = absurd (omega arith)
  weight-le-sum (suc n) i workers h = elim (ℕ_discrete i n) [
    | yes last ↦ rw (last) (omega arith)
    | no other ↦ omega (arith, weight-le-sum n i workers (omega arith))
  ]

  sum-put_beyond :
      (n i : ℕ) (w : Worker) (workers : ℕ → Worker)
      → n ≤ i
      → sum weight n (put i w workers) ≡ sum weight n workers
  unfolding sum
  sum-put_beyond zero i w workers h = refl
  sum-put_beyond (suc n) i w workers h =
      rw (other n i (omega arith))
        (ap (λ k. k + weight (workers n).pc) (sum-put_beyond n i w workers (omega arith)))
    where
      other : (n i : ℕ) → n < i → (n == i) ≡ false
      other n i h = ground arith

  sum-put :
      (n i : ℕ) (w : Worker) (workers : ℕ → Worker)
      → i < n
      → sum weight n (put i w workers) + weight (workers i).pc ≡ sum weight n workers + weight w.pc
  unfolding sum
  sum-put zero i w workers h = absurd (omega arith)
  sum-put (suc n) i w workers h = elim (ℕ_discrete n i) [
    | yes last ↦
        rw (equal n i last)
          (rw (← last) (omega (arith, sum-put_beyond n n w workers (omega arith))))
    | no other ↦ rw (different n i other) (omega (arith, sum-put n i w workers (omega arith)))
  ]
    where
      equal : (n i : ℕ) → n ≡ i → (n == i) ≡ true
      equal n i h = ground arith

      different : (n i : ℕ) → (n ≡ i → ⊥) → (n == i) ≡ false
      different n i h = ground arith

module _ (n : ℕ) (few : n < 2 ^ 64 - 1) where
  pub Move-IsCounted : {x y : System} → Move n x y → IsCounted n x → IsCounted n y
  Move-IsCounted {x} {y} (works i fresh sw w s h runs e) c = subst (IsCounted n) (sym e) (record {
    active_eq = omega (arith, balanced.0, sum-put busy busy-le n i w x.workers h, c.active_eq);
    idle_eq = omega (arith, balanced.1, sum-put idling idling-le n i w x.workers h, c.idle_eq);
  })
    where
      counted : Counted (x.workers i) x.sched
      counted = (
        omega (arith, weight-le-sum busy busy-le n i x.workers h, c.active_eq),
        omega (arith, weight-le-sum idling idling-le n i x.workers h, c.idle_eq),
        omega (arith, sum-le busy busy-le n x.workers, c.active_eq),
        omega (arith, sum-le idling idling-le n x.workers, c.idle_eq),
      )

      balanced : Balanced (x.workers i) x.sched (w, s)
      balanced =
          Returns-ok (Balanced (x.workers i) x.sched) (step fresh sw (x.workers i) x.sched)
            (step-Balanced fresh sw (x.workers i) x.sched counted) runs
  Move-IsCounted {x} {y} (schedules t e) c =
      let same = schedule-SameCounts t x.sched in
      subst (IsCounted n) (sym e)
        (record { active_eq = same.0 ∙ c.active_eq; idle_eq = same.1 ∙ c.idle_eq })
  Move-IsCounted {x} {y} (schedules_all ts e) c =
      let same = schedule_all-SameCounts ts x.sched in
      subst (IsCounted n) (sym e)
        (record { active_eq = same.0 ∙ c.active_eq; idle_eq = same.1 ∙ c.idle_eq })
  Move-IsCounted {x} {y} (flags stopping auto_stop e) c =
      subst (IsCounted n) (sym e) (record { active_eq = c.active_eq; idle_eq = c.idle_eq })
  Move-IsCounted {x} {y} (fibers heap e) c =
      subst (IsCounted n) (sym e) (record { active_eq = c.active_eq; idle_eq = c.idle_eq })

  -- However fewer than 2 ^ 64 - 1 threads of a scheduler interleave, from a state in which both are so,
  -- `m_activeThreadCount` stays the number of threads that have taken a task and whose fiber has not yet switched back
  -- from it, and `m_idleThreadCount` that of threads in their idle fiber.
  pub Reach-IsCounted : {x y : System} → IsCounted n x → Reach n x y → IsCounted n y
  Reach-IsCounted c here = c
  Reach-IsCounted c (next r m) = Move-IsCounted m (Reach-IsCounted c r)

-- No thread of the first `n` is between taking a task and the switch back from its fiber.
abbrev pub AllQuiet : ℕ → (ℕ → Worker) → Type 0
AllQuiet n workers = (i : ℕ) → i < n → busy (workers i).pc ≡ 0

sum-eq-zero : (n : ℕ) (workers : ℕ → Worker) → AllQuiet n workers → sum busy n workers ≡ 0
unfolding sum
sum-eq-zero zero workers q = refl
sum-eq-zero (suc n) workers q =
    omega (arith, sum-eq-zero n workers (λ i h. q i (omega arith)), q n (omega arith))

is_stopping_iff :
    (s : Scheduler)
    → (is_stopping s ≡ true)
      ↔ ((s.auto_stop ≡ true) × (s.stopping ≡ true) × (s.tasks ≡ []) × (s.active ≡ 0))
unfolding is_stopping
is_stopping_iff s = (to s.auto_stop s.stopping s.tasks s.active, λ h. rw (h.0, h.1, h.2, h.3) refl)
  where
    to :
        (a b : Bool) (ts : List Task) (k : ℕ)
        → (a && b && is_empty ts && (k == 0)) ≡ true
        → (a ≡ true) × (b ≡ true) × (ts ≡ []) × (k ≡ 0)
    to true true [] k e = (refl, refl, refl, ground arith)
    to true true (t ∷ ts) k e = cc (e)
    to true false ts k e = cc (e)
    to false b ts k e = cc (e)

-- In a state that a scheduler with fewer than 2 ^ 64 - 1 threads reaches from one whose counters are right,
-- `stopping` answers true exactly when both flags are set, the queue is empty, and no thread is
-- between taking a task and the switch back from its fiber. A thread that is back may still have a fiber that is READY and
-- that it has not yet put into the queue: the answer does not exclude it.
pub stopping_quiet :
    (n : ℕ) (x y : System)
    → n < 2 ^ 64 - 1
    → IsCounted n x
    → Reach n x y
    → (is_stopping y.sched ≡ true) ↔ (
        (y.sched.auto_stop ≡ true)
        × (y.sched.stopping ≡ true)
        × (y.sched.tasks ≡ [])
        × AllQuiet n y.workers)
stopping_quiet n x y few c r = (
  λ e.
      let (a, b, none_left, quiet) = (is_stopping_iff y.sched).0 e in
      (
        a,
        b,
        none_left,
        λ i h. omega (arith, weight-le-sum busy busy-le n i y.workers h, counted.active_eq, quiet),
      ),
  λ h. (is_stopping_iff y.sched).1 (h.0, h.1, h.2, counted.active_eq ∙ sum-eq-zero n y.workers h.3),
)
  where
    counted : IsCounted n y
    counted = Reach-IsCounted n few c r
