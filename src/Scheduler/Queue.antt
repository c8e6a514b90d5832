-- ===== src/Scheduler/Queue.antt =====
-- Which task `run` of East/src/Scheduler.cc takes off the queue.
use east.Common.{
  ℕ, ◌≡◌, refl, ap, Bool, true, false, not, ◌||◌, inl, inr, Option, none, some, List, [], ◌∷◌, ◌++◌,
  All, ok, Bool-cases,
}
use east.Fiber.{Fiber}
use east.Scheduler.{Task, find_task, is_elsewhere, is_executing, is_some, is_empty}

-- A task that `run` in the thread `me` steps over.
abbrev pub is_skipped : ℕ → (ℕ → Fiber) → Task → Bool
is_skipped me fibers t = is_elsewhere me t || is_executing fibers t

abbrev pub any_elsewhere : ℕ → List Task → Bool
any_elsewhere me [] = false
any_elsewhere me (t ∷ ts) = is_elsewhere me t || any_elsewhere me ts

-- What the loop finds: the first task that is not stepped over, between those in front of it and those
-- behind, or that there is none. `left` is the queue without it.
abbrev pub Found : ℕ → (ℕ → Fiber) → List Task → Option Task × List Task × Bool → Type 0
Found me fibers tasks (none, left, tickle_me) =
    (left ≡ tasks)
    × All (λ t. is_skipped me fibers t ≡ true) tasks
    × (tickle_me ≡ any_elsewhere me tasks)
Found me fibers tasks (some t, left, tickle_me) =
    (front : List Task) × (back : List Task) × (tasks ≡ front ++ (t ∷ back))
    × (left ≡ front ++ back)
    × All (λ x. is_skipped me fibers x ≡ true) front
    × (is_skipped me fibers t ≡ false)
    × (tickle_me ≡ (any_elsewhere me front || not (is_empty back)))

-- A task with a fiber or a callback, which is all that `schedule` lets in.
abbrev pub IsTask : Task → Type 0
IsTask t = (is_some t.fiber || is_some t.cb) ≡ true

module _ (me : ℕ) (fibers : ℕ → Fiber) where
  Found-later :
      (t : Task) (ts : List Task) (r : Option Task × List Task × Bool)
      → is_elsewhere me t ≡ false
      → is_executing fibers t ≡ true
      → Found me fibers ts r
      → Found me fibers (t ∷ ts) (r.0, t ∷ r.1, r.2)
  Found-later t ts (none, left, tickle_me) e x (same, skipped, k) =
      (ap (λ l. t ∷ l) same, (rw (e, x) refl, skipped), rw (e) k)
  Found-later t ts (some u, left, tickle_me) e x (front, back, all, left_eq, skipped, this, k) = (
    t ∷ front,
    back,
    ap (λ l. t ∷ l) all,
    ap (λ l. t ∷ l) left_eq,
    (rw (e, x) refl, skipped),
    this,
    rw (e) k,
  )

  Found-elsewhere :
      (t : Task) (ts : List Task) (r : Option Task × List Task × Bool)
      → is_elsewhere me t ≡ true
      → Found me fibers ts r
      → Found me fibers (t ∷ ts) (r.0, t ∷ r.1, true)
  Found-elsewhere t ts (none, left, tickle_me) e (same, skipped, k) =
      (ap (λ l. t ∷ l) same, (rw (e) refl, skipped), rw (e) refl)
  Found-elsewhere t ts (some u, left, tickle_me) e (front, back, all, left_eq, skipped, this, k) = (
    t ∷ front,
    back,
    ap (λ l. t ∷ l) all,
    ap (λ l. t ∷ l) left_eq,
    (rw (e) refl, skipped),
    this,
    rw (e) refl,
  )

  -- On a queue of tasks the loop of `run` returns, and takes the first task that is neither for another
  -- thread nor a fiber that is executing; the others stay in their order. It tickles if it stepped
  -- over a task for another thread or leaves tasks behind the one taken.
  pub find_task-Found :
      (tasks : List Task)
      → All IsTask tasks
      → (r : Option Task × List Task × Bool) × (find_task me fibers tasks ≡ ok r)
        × Found me fibers tasks r
  unfolding find_task
  find_task-Found [] h = ((none, [], false), refl, (refl, tt, refl))
  find_task-Found (t ∷ ts) h =
      let (r, runs, found) = find_task-Found ts h.1 in
      elim (Bool-cases (is_elsewhere me t)) [
        | inl e ↦ ((r.0, t ∷ r.1, true), rw (e, runs) refl, Found-elsewhere t ts r e found)
        | inr e ↦ elim (Bool-cases (is_executing fibers t)) [
          | inl x ↦ ((r.0, t ∷ r.1, r.2), rw (e, h.0, x, runs) refl, Found-later t ts r e x found)
          | inr x ↦ (
            (some t, ts, not (is_empty ts)),
            rw (e, h.0, x) refl,
            ([], ts, refl, refl, tt, rw (e, x) refl, refl),
          )
        ]
      ]
