-- ===== src/Timer/Fired.antt =====
-- What `listExpiredCb` of East/src/Timer.cc leaves of the timers that are due, and of all others.
use mathlib.Core.Option.{Option, none}
use mathlib.Core.List.{map}
use east.Common.{
  ℕ, ◌≤◌, ◌≡◌, refl, sym, ap, ◌∙◌, arith, Bool, true, false, ◌&&◌, ◌||◌, Bool-cases, List, [], ◌∷◌,
  length, if◌then◌else◌, ◌==◌, ◌⊎◌, inl, inr,
}
use east.Common.Words.{add64}
use east.Timer.{Timer, TimerManager, store, insert, before, requeue, list_expired_cb}
use east.Timer.Sorted.{before-total}
use east.Timer.Expired.{InOrder, due, not_due, after_due, list_expired_cb-after_due}

-- Whether a timer is one of some.
abbrev pub listed : ℕ → List ℕ → Bool
listed x [] = false
listed x (a ∷ others) = (x == a) || listed x others

-- A timer that has fired: a recurring one has a new time, and another has no callback.
abbrev pub fired : ℕ → Timer → Timer
fired now t =
    if t.recurring then record t { execute_time = add64 now t.period } else record t { cb = none }

-- The manager after one round of the loop for a recurring timer or another, and for the one that there is.
abbrev stepped_if : Bool → ℕ → ℕ → TimerManager → TimerManager
stepped_if recurring now a m =
    let t = m.heap a in
    let again = store a (record t { execute_time = add64 now t.period }) m.heap in
    let back = record m { heap = again; timers = insert again a m.timers } in
    let done = record m { heap = store a (record t { cb = none }) m.heap } in
    if recurring then back else done

abbrev stepped : ℕ → ℕ → TimerManager → TimerManager
stepped now a m = stepped_if (m.heap a).recurring now a m

same_address : (x a : ℕ) → (x == a) ≡ true → x ≡ a
same_address x a e = ground arith

at_itself : (x : ℕ) → (x == x) ≡ true
at_itself x = ground arith

or_true : (b : Bool) → b || true ≡ true
or_true true = refl
or_true false = refl

or_false : (b : Bool) → b ≡ b || false
or_false true = refl
or_false false = refl

or_swap : (b c d : Bool) → b || (c || d) ≡ c || (b || d)
or_swap true true d = refl
or_swap true false d = refl
or_swap false c d = refl

module _ (heap : ℕ → Timer) (a : ℕ) where
  listed-insert : (x : ℕ) (xs : List ℕ) → listed x (insert heap a xs) ≡ (x == a) || listed x xs
  unfolding insert
  listed-insert x [] = refl
  listed-insert x (b ∷ bs) = elim (Bool-cases (before heap b a)) [
    | inl e ↦ rw (e) (
        ap (λ (c : Bool). (x == b) || c) (listed-insert x bs)
        ∙ or_swap (x == b) (x == a) (listed x bs))
    | inr e ↦ elim (Bool-cases (before heap a b)) [
      | inl d ↦ rw (e, d) refl
      | inr d ↦
          rw (e, d)
            (twice (x == b) (listed x bs)
              ∙ ap (λ y. (x == y) || ((x == b) || listed x bs)) (sym (before-total heap a b d e)))
    ]
  ]
    where
      twice : (b c : Bool) → b || c ≡ b || (b || c)
      twice true c = refl
      twice false c = refl

module _ (now : ℕ) where
  fired-back :
      (t : Timer)
      → t.recurring ≡ true
      → fired now t ≡ record t { execute_time = add64 now t.period }
  fired-back t e = rw (e) refl

  fired-done : (t : Timer) → t.recurring ≡ false → fired now t ≡ record t { cb = none }
  fired-done t e = rw (e) refl

  fired-fired : (t : Timer) → fired now (fired now t) ≡ fired now t
  fired-fired t = elim (Bool-cases t.recurring) [ inl e ↦ rw (e) refl | inr e ↦ rw (e) refl ]

  fired-recurring : (t : Timer) → (fired now t).recurring ≡ t.recurring
  fired-recurring t = elim (Bool-cases t.recurring) [ inl e ↦ rw (e) refl | inr e ↦ rw (e) refl ]

  abbrev one_fired : Bool → Timer → Timer
  one_fired b t = if b then fired now t else t

  store-fired :
      (a x : ℕ) (heap : ℕ → Timer) (t : Timer)
      → fired now (heap a) ≡ t
      → store a t heap x ≡ one_fired (x == a) (heap x)
  store-fired a x heap t e = elim (Bool-cases (x == a)) [
    | inl d ↦ rw (d) (sym e ∙ ap (λ y. fired now (heap y)) (sym (same_address x a d)))
    | inr d ↦ rw (d) refl
  ]

  stepped-heap :
      (a x : ℕ) (m : TimerManager) → (stepped now a m).heap x ≡ one_fired (x == a) (m.heap x)
  stepped-heap a x m = go (m.heap a).recurring refl
    where
      go :
          (b : Bool)
          → (m.heap a).recurring ≡ b
          → (stepped_if b now a m).heap x ≡ one_fired (x == a) (m.heap x)
      go true e =
          store-fired a x m.heap (record (m.heap a) { execute_time = add64 now (m.heap a).period })
            (fired-back (m.heap a) e)
      go false e =
          store-fired a x m.heap (record (m.heap a) { cb = none }) (fired-done (m.heap a) e)

  stepped-listed :
      (a x : ℕ) (m : TimerManager)
      → listed x (stepped now a m).timers ≡ listed x m.timers || ((x == a) && (m.heap x).recurring)
  stepped-listed a x m = go (m.heap a).recurring refl
    where
      again : ℕ → Timer
      again = store a (record (m.heap a) { execute_time = add64 now (m.heap a).period }) m.heap

      back :
          (m.heap a).recurring ≡ true
          → (x == a) || listed x m.timers ≡ listed x m.timers || ((x == a) && (m.heap x).recurring)
      back e = elim (Bool-cases (x == a)) [
        | inl d ↦
            rw (d, ap (λ y. (m.heap y).recurring) (same_address x a d) ∙ e)
              (sym (or_true (listed x m.timers)))
        | inr d ↦ rw (d) (or_false (listed x m.timers))
      ]

      done :
          (m.heap a).recurring ≡ false
          → listed x m.timers ≡ listed x m.timers || ((x == a) && (m.heap x).recurring)
      done e = elim (Bool-cases (x == a)) [
        | inl d ↦
            rw (d, ap (λ y. (m.heap y).recurring) (same_address x a d) ∙ e)
              (or_false (listed x m.timers))
        | inr d ↦ rw (d) (or_false (listed x m.timers))
      ]

      go :
          (b : Bool)
          → (m.heap a).recurring ≡ b
          → listed x (stepped_if b now a m).timers
            ≡ listed x m.timers || ((x == a) && (m.heap x).recurring)
      go true e = listed-insert again a x m.timers ∙ back e
      go false e = done e

  one_fired-recurring : (b : Bool) (t : Timer) → (one_fired b t).recurring ≡ t.recurring
  one_fired-recurring true t = fired-recurring t
  one_fired-recurring false t = refl

  one_fired_or : (b c : Bool) (t : Timer) → one_fired b (one_fired c t) ≡ one_fired (c || b) t
  one_fired_or true true t = fired-fired t
  one_fired_or true false t = refl
  one_fired_or false true t = refl
  one_fired_or false false t = refl

  requeue-heap :
      (x : ℕ) (xs : List ℕ) (m : TimerManager)
      → (requeue now xs m).heap x ≡ one_fired (listed x xs) (m.heap x)
  unfolding requeue
  requeue-heap x [] m = refl
  requeue-heap x (a ∷ others) m =
      requeue-heap x others (stepped now a m)
      ∙ ap (one_fired (listed x others)) (stepped-heap a x m)
      ∙ one_fired_or (listed x others) (x == a) (m.heap x)

  requeue-listed :
      (x : ℕ) (xs : List ℕ) (m : TimerManager)
      → listed x (requeue now xs m).timers
        ≡ listed x m.timers || (listed x xs && (m.heap x).recurring)
  unfolding requeue
  requeue-listed x [] m = none_more (listed x m.timers)
    where
      none_more : (b : Bool) → b ≡ b || false
      none_more true = refl
      none_more false = refl
  requeue-listed x (a ∷ others) m =
      requeue-listed x others (stepped now a m)
      ∙ ap (λ (t : Timer). listed x (stepped now a m).timers || (listed x others && t.recurring))
          (stepped-heap a x m)
      ∙ ap (λ (b : Bool). listed x (stepped now a m).timers || (listed x others && b))
          (one_fired-recurring (x == a) (m.heap x))
      ∙ ap (λ (b : Bool). b || (listed x others && (m.heap x).recurring)) (stepped-listed a x m)
      ∙ regroup (listed x m.timers) (x == a) (listed x others) (m.heap x).recurring
    where
      regroup : (b c d r : Bool) → (b || (c && r)) || (d && r) ≡ b || ((c || d) && r)
      regroup true c d r = refl
      regroup false true d true = refl
      regroup false true true false = refl
      regroup false true false false = refl
      regroup false false d r = refl

  requeue-counts :
      (xs : List ℕ) (m : TimerManager)
      → ((requeue now xs m).tickled ≡ m.tickled) × ((requeue now xs m).notified ≡ m.notified)
  unfolding requeue
  requeue-counts [] m = (refl, refl)
  requeue-counts (a ∷ others) m =
      let rest = requeue-counts others (stepped now a m) in
      let same = one a m in (rest.0 ∙ same.0, rest.1 ∙ same.1)
    where
      one :
          (a : ℕ) (m : TimerManager)
          → ((stepped now a m).tickled ≡ m.tickled) × ((stepped now a m).notified ≡ m.notified)
      one a m = elim (Bool-cases (m.heap a).recurring) [
        | inl e ↦ rw (e) (refl, refl)
        | inr e ↦ rw (e) (refl, refl)
      ]

-- What a call leaves in which the timers `ready` have fired, and the timers `rest` have not.
pub record Fires (now : ℕ) (m : TimerManager) (ready rest : List ℕ)
    (result : List (Option ℕ) × TimerManager) : Type 0 where
  pub cbs : result.0 ≡ map (λ x. (m.heap x).cb) ready
  pub heap : (x : ℕ) → result.1.heap x ≡ (if listed x ready then fired now (m.heap x) else m.heap x)
  pub timers :
      (x : ℕ) → listed x result.1.timers ≡ listed x rest || (listed x ready && (m.heap x).recurring)
  pub tickled : result.1.tickled ≡ m.tickled
  pub notified : result.1.notified ≡ m.notified

-- `listExpiredCb` on a set in the order of time, whatever address its probe has. If no timer has a time of `now` or
-- before, it changes nothing. Otherwise it replaces `cbs` by the callbacks of exactly the timers with such a time, in
-- the order of the set. Of these a recurring one has the time `now` and its period, in 64 bits, and is in the set
-- again; any other has lost its callback and is not in the set. All other timers are as they were, in the set and out
-- of it, and nobody is told of a new first timer.
pub list_expired_cb_cases :
    (now probe : ℕ) (cbs : List (Option ℕ)) (m : TimerManager)
    → InOrder m.heap m.timers
    → ((due m.heap now m.timers ≡ []) × (list_expired_cb now probe cbs m ≡ (cbs, m)))
      ⊎ ((1 ≤ length (due m.heap now m.timers))
          × Fires now m
              (due m.heap now m.timers)
              (not_due m.heap now m.timers)
              (list_expired_cb now probe cbs m))
list_expired_cb_cases now probe cbs m o =
    rw (list_expired_cb-after_due now probe cbs m o) (go (due m.heap now m.timers))
  where
    go :
        (ready : List ℕ)
        → ((ready ≡ []) × (after_due now cbs m ready ≡ (cbs, m)))
          ⊎ ((1 ≤ length ready)
              × Fires now m ready (not_due m.heap now m.timers) (after_due now cbs m ready))
    go [] = inl (refl, refl)
    go (a ∷ others) =
        let left = record m { timers = not_due m.heap now m.timers } in
        inr (
          omega arith,
          record {
            cbs = refl;
            heap = λ x. requeue-heap now x (a ∷ others) left;
            timers = λ x. requeue-listed now x (a ∷ others) left;
            tickled = (requeue-counts now (a ∷ others) left).0;
            notified = (requeue-counts now (a ∷ others) left).1;
          },
        )
