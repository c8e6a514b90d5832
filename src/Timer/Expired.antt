-- ===== src/Timer/Expired.antt =====
-- Which timers `listExpiredCb` and `getNextTimer` of East/src/Timer.cc find.
use native.Mathlib.Decide.{dec_lt}
use mathlib.Core.Path.{ap₂, subst}
use mathlib.Core.Option.{Option, none}
use mathlib.Core.List.{map}
use east.Common.{
  ℕ, ◌-◌, ◌^◌, ◌≡◌, ◌≤◌, ◌<◌, refl, sym, ap, ◌∙◌, true, false, List, [], ◌∷◌, ◌++◌, if◌then◌else◌,
  leb, ◌==◌, arith, All, le→leb, lt→leb-false, lt→ltb, le→ltb-false, Bool-cases, inl, inr,
}
use east.Timer.{
  Timer, TimerManager, cmp, lower_bound, skip_equal, requeue, list_expired_cb, get_next_timer,
}

-- What the set's order says of the times.
abbrev pub InOrder : (ℕ → Timer) → List ℕ → Type 0
InOrder heap [] = Unit
InOrder heap (a ∷ others) =
    All (λ b. (heap a).execute_time ≤ (heap b).execute_time) others × InOrder heap others

-- The timers whose time has come, and the others, in the order of the set.
abbrev pub due : (ℕ → Timer) → ℕ → List ℕ → List ℕ
due heap now [] = []
due heap now (a ∷ others) =
    if leb (heap a).execute_time now then a ∷ due heap now others else due heap now others

abbrev pub not_due : (ℕ → Timer) → ℕ → List ℕ → List ℕ
not_due heap now [] = []
not_due heap now (a ∷ others) =
    if leb (heap a).execute_time now then not_due heap now others else a ∷ not_due heap now others

module _ (heap : ℕ → Timer) (now : ℕ) where
  none_due :
      (xs : List ℕ)
      → All (λ b. now < (heap b).execute_time) xs
      → (due heap now xs ≡ []) × (not_due heap now xs ≡ xs)
  none_due [] h = (refl, refl)
  none_due (a ∷ others) h = (
    rw (lt→leb-false (heap a).execute_time now h.0) (none_due others h.1).0,
    rw (lt→leb-false (heap a).execute_time now h.0) (ap (λ l. a ∷ l) (none_due others h.1).1),
  )

  first_due :
      (a : ℕ) (others : List ℕ)
      → (heap a).execute_time ≤ now
      → due heap now (a ∷ others) ≡ a ∷ due heap now others
  first_due a others h = rw (le→leb (heap a).execute_time now h) refl

  from_time :
      (t : ℕ) (xs : List ℕ)
      → now < t
      → All (λ b. t ≤ (heap b).execute_time) xs
      → All (λ b. now < (heap b).execute_time) xs
  from_time t [] h k = tt
  from_time t (a ∷ others) h k = (omega (arith, k.0), from_time t others h k.1)

  up_to :
      (t : ℕ) (xs : List ℕ)
      → now ≤ t
      → All (λ b. t ≤ (heap b).execute_time) xs
      → All (λ b. now ≤ (heap b).execute_time) xs
  up_to t [] h k = tt
  up_to t (a ∷ others) h k = (omega (arith, k.0), up_to t others h k.1)

  same_time : (t : ℕ) → (t == now) ≡ true → t ≡ now
  same_time t e = ground arith

  other_time : (t : ℕ) → now < t → (t == now) ≡ false
  other_time t h = ground arith

  equal_time : (t : ℕ) → t ≡ now → (t == now) ≡ true
  equal_time t h = ground arith

  skip_equal_lem :
      (xs : List ℕ)
      → InOrder heap xs
      → All (λ b. now ≤ (heap b).execute_time) xs
      → (skip_equal heap now xs).0 ≡ due heap now xs
        × (skip_equal heap now xs).1 ≡ not_due heap now xs
  unfolding skip_equal
  skip_equal_lem [] o h = (refl, refl)
  skip_equal_lem (a ∷ others) o h = elim (dec_lt now (heap a).execute_time) [
    | yes later ↦
        let rest = none_due others (from_time (heap a).execute_time others later o.0) in
        (
          rw (other_time (heap a).execute_time later, lt→leb-false (heap a).execute_time now later)
              (sym rest.0),
          rw (other_time (heap a).execute_time later, lt→leb-false (heap a).execute_time now later)
              (ap (λ l. a ∷ l) (sym rest.1)),
        )
    | no now_due ↦
        let rest = skip_equal_lem others o.1 h.1 in
        (
          rw
              (
                equal_time (heap a).execute_time (omega (arith, h.0)),
                le→leb (heap a).execute_time now (omega arith),
              )
              (ap (λ l. a ∷ l) rest.0),
          rw
              (
                equal_time (heap a).execute_time (omega (arith, h.0)),
                le→leb (heap a).execute_time now (omega arith),
              )
              rest.1,
        )
  ]

  -- Whatever address the probe has, the two loops take what is due.
  module _ (probe : ℕ) where
    abbrev expired : List ℕ → List ℕ
    expired xs =
        (lower_bound heap now probe xs).0
        ++ (skip_equal heap now (lower_bound heap now probe xs).1).0

    abbrev kept : List ℕ → List ℕ
    kept xs = (skip_equal heap now (lower_bound heap now probe xs).1).1

    abbrev key : Timer
    key = record { recurring = false; period = 0; execute_time = now; cb = none }

    cmp-due : (t : Timer) (a : ℕ) → cmp t a key probe ≡ true → t.execute_time ≤ now
    unfolding cmp
    cmp-due t a e = ground arith

    cmp-not_before : (t : Timer) (a : ℕ) → cmp t a key probe ≡ false → now ≤ t.execute_time
    unfolding cmp
    cmp-not_before t a e = ground arith

    lower_bound_before :
        (a : ℕ) (others : List ℕ)
        → cmp (heap a) a key probe ≡ true
        → lower_bound heap now probe (a ∷ others)
          ≡ (a ∷ (lower_bound heap now probe others).0, (lower_bound heap now probe others).1)
    unfolding lower_bound
    lower_bound_before a others e = rw (e) refl

    lower_bound_found :
        (a : ℕ) (others : List ℕ)
        → cmp (heap a) a key probe ≡ false
        → lower_bound heap now probe (a ∷ others) ≡ ([], a ∷ others)
    unfolding lower_bound
    lower_bound_found a others e = rw (e) refl

    abbrev halves : List ℕ × List ℕ → List ℕ × List ℕ
    halves low = (low.0 ++ (skip_equal heap now low.1).0, (skip_equal heap now low.1).1)

    pub expired_lem :
        (xs : List ℕ)
        → InOrder heap xs
        → halves (lower_bound heap now probe xs) ≡ (due heap now xs, not_due heap now xs)
    unfolding lower_bound skip_equal
    expired_lem [] o = refl
    expired_lem (a ∷ others) o = elim (Bool-cases (cmp (heap a) a key probe)) [
      | inl e ↦
          ap halves (lower_bound_before a others e)
          ∙ rw (le→leb (heap a).execute_time now (cmp-due (heap a) a e))
              (ap (λ (r : List ℕ × List ℕ). (a ∷ r.0, r.1)) (expired_lem others o.1))
      | inr e ↦
          let h = cmp-not_before (heap a) a e in
          let rest = skip_equal_lem (a ∷ others) o (h, up_to (heap a).execute_time others h o.0) in
          ap halves (lower_bound_found a others e) ∙ ap₂ (λ x y. (x, y)) rest.0 rest.1
    ]

-- The callbacks and the manager when the listed timers are due.
abbrev pub after_due : ℕ → List (Option ℕ) → TimerManager → List ℕ → List (Option ℕ) × TimerManager
after_due now cbs m [] = (cbs, m)
after_due now cbs m (a ∷ others) = (
  map (λ x. (m.heap x).cb) (a ∷ others),
  requeue now (a ∷ others) (record m { timers = not_due m.heap now m.timers }),
)

-- On a set in the order of time, the two searches and the test of the first timer find exactly the timers whose time is
-- `now` or before, whatever address the probe has.
pub list_expired_cb-after_due :
    (now probe : ℕ) (cbs : List (Option ℕ)) (m : TimerManager)
    → InOrder m.heap m.timers
    → list_expired_cb now probe cbs m ≡ after_due now cbs m (due m.heap now m.timers)
unfolding list_expired_cb
list_expired_cb-after_due now probe cbs m o = go m.timers o
  where
    outcome : List ℕ × List ℕ → List (Option ℕ) × TimerManager
    outcome r = (map (λ x. (m.heap x).cb) r.0, requeue now r.0 (record m { timers = r.1 }))

    go :
        (timers : List ℕ)
        → InOrder m.heap timers
        → list_expired_cb now probe cbs (record m { timers = timers })
          ≡ after_due now cbs (record m { timers = timers }) (due m.heap now timers)
    go [] o' = refl
    go (first ∷ others) o' = elim (dec_lt now (m.heap first).execute_time) [
      | yes later ↦ rw (lt→ltb now (m.heap first).execute_time later) (
          sym (
            ap (after_due now cbs (record m { timers = first ∷ others }))
              (none_due m.heap now (first ∷ others)
                (later, from_time m.heap now (m.heap first).execute_time others later o'.0)).0))
      | no now_due ↦ rw (le→ltb-false now (m.heap first).execute_time (omega arith)) (
          ap outcome (expired_lem m.heap now probe (first ∷ others) o')
          ∙ subst
              (λ d.
                outcome (d, not_due m.heap now (first ∷ others))
                ≡ after_due now cbs (record m { timers = first ∷ others }) d)
              (sym (first_due m.heap now first others (omega arith))) refl)
    ]

-- What a wait is: no listed timer is due before it is over, and the first is then.
abbrev pub IsWait : ℕ → (ℕ → Timer) → List ℕ → ℕ → Type 0
IsWait now heap [] wait = wait ≡ 2 ^ 64 - 1
IsWait now heap (a ∷ others) wait =
    All (λ b. wait ≤ (heap b).execute_time - now) (a ∷ others)
    × (wait ≡ (heap a).execute_time - now)

-- `getNextTimer` on a set in the order of time: with no timer it answers 2 ^ 64 - 1; otherwise how long
-- until the first timer's time, or 0 if that is past, and no timer of the set has a shorter wait.
pub get_next_timer_lem :
    (now : ℕ) (m : TimerManager)
    → InOrder m.heap m.timers
    → IsWait now m.heap m.timers (get_next_timer now m).0
unfolding get_next_timer
get_next_timer_lem now m o = go m.timers o
  where
    wait : ℕ → ℕ
    wait t = if leb t now then 0 else t - now

    wait_lem : (t : ℕ) → wait t ≡ t - now
    wait_lem t = ground arith

    no_shorter :
        (t : ℕ) (xs : List ℕ)
        → All (λ b. t ≤ (m.heap b).execute_time) xs
        → All (λ b. wait t ≤ (m.heap b).execute_time - now) xs
    no_shorter t [] h = tt
    no_shorter t (b ∷ bs) h = (omega (arith, wait_lem t, h.0), no_shorter t bs h.1)

    go :
        (timers : List ℕ)
        → InOrder m.heap timers
        → IsWait now m.heap timers (get_next_timer now (record m { timers = timers })).0
    go [] o' = refl
    go (a ∷ others) o' =
        let t = (m.heap a).execute_time in
        ((omega (arith, wait_lem t), no_shorter t others o'.0), wait_lem t)
