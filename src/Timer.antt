-- ===== src/Timer.antt =====
-- East/src/Timer.cc: the timers and the set that the manager keeps them in.
pub mod Expired
pub mod Fired
pub mod Sorted
pub mod Valid
pub mod Operations
mod Tests
use mathlib.Core.Option.{Option, none, some}
use mathlib.Core.List.{map}
use east.Common.{
  ℕ, zero, suc, ◌+◌, ◌-◌, ◌^◌, Bool, true, false, List, [], ◌∷◌, ◌++◌, if◌then◌else◌, ltb, leb,
  ◌==◌,
}
use east.Common.Words.{add64, sub64}

-- A callback is known by a number; `none` is the empty function.
pub record Timer : Type 0 where
  pub recurring : Bool
  pub period : ℕ
  pub execute_time : ℕ
  pub cb : Option ℕ

-- Timers are shared, so they stand in a heap by address. The set lists the addresses in its order.
-- `notified` counts the calls of `onTimerInsertAtFront`, which a derived class defines.
pub record TimerManager : Type 0 where
  pub heap : ℕ → Timer
  pub timers : List ℕ
  pub tickled : Bool
  pub notified : ℕ

abbrev pub store : ℕ → Timer → (ℕ → Timer) → ℕ → Timer
store a t heap x = if x == a then t else heap x

-- `Timer::Cmp`, where no pointer is null: by time, and by address where the times are equal.
unfoldable pub cmp : Timer → ℕ → Timer → ℕ → Bool
cmp l a r b =
    if l.execute_time == r.execute_time then ltb a b else ltb l.execute_time r.execute_time

unfoldable pub before : (ℕ → Timer) → ℕ → ℕ → Bool
before heap a b = cmp (heap a) a (heap b) b

-- `std::set::insert`, which keeps an element that compares equal.
unfoldable pub insert : (ℕ → Timer) → ℕ → List ℕ → List ℕ
insert heap a [] = a ∷ []
insert heap a (b ∷ bs) =
    let rest = insert heap a bs in
    if before heap b a then b ∷ rest else if before heap a b then a ∷ b ∷ bs else b ∷ bs

-- `std::set::find` and `erase` of what was found: the set without it, or none at the end.
unfoldable pub find_erase : (ℕ → Timer) → ℕ → List ℕ → Option (List ℕ)
find_erase heap a [] = none
find_erase heap a (b ∷ bs) =
    let rest = find_erase heap a bs in
    if before heap b a
    then elim rest [ none ↦ none | some l ↦ some (b ∷ l) ]
    else if before heap a b
    then none
    else some bs

abbrev pub is_front : ℕ → List ℕ → Bool
is_front a [] = false
is_front a (b ∷ bs) = a == b

-- `addTimer(timer, lock)`.
unfoldable pub add : ℕ → TimerManager → TimerManager
add a m =
    let timers = insert m.heap a m.timers in
    let at_front = if is_front a timers then (if m.tickled then false else true) else false in
    if at_front
    then record m { timers = timers; tickled = true; notified = suc m.notified }
    else record m { timers = timers }

-- `addTimer(period, cb, recurring)` at the address that the allocator gives, and the constructor.
unfoldable pub add_timer : ℕ → ℕ → ℕ → Option ℕ → Bool → TimerManager → TimerManager
add_timer a now period cb recurring m =
    let t : Timer = record {
      recurring = recurring;
      period = period;
      execute_time = add64 now period;
      cb = cb;
    } in
    add a (record m { heap = store a t m.heap })

-- `cancel`. Erasing the end of the set is undefined: none.
abbrev pub cancel_found : Option (List ℕ) → ℕ → TimerManager → Option (Bool × TimerManager)
cancel_found none a m = none
cancel_found (some timers) a m =
    some
      (true, record m { heap = store a (record (m.heap a) { cb = none }) m.heap; timers = timers })

abbrev pub cancel_live : Option ℕ → ℕ → TimerManager → Option (Bool × TimerManager)
cancel_live none a m = some (false, m)
cancel_live (some f) a m = cancel_found (find_erase m.heap a m.timers) a m

unfoldable pub cancel : ℕ → TimerManager → Option (Bool × TimerManager)
cancel a m = cancel_live (m.heap a).cb a m

abbrev pub refresh_found : Option (List ℕ) → ℕ → ℕ → TimerManager → Bool × TimerManager
refresh_found none a now m = (false, m)
refresh_found (some timers) a now m =
    let heap = store a (record (m.heap a) { execute_time = add64 now (m.heap a).period }) m.heap in
    (true, record m { heap = heap; timers = insert heap a timers })

abbrev pub refresh_live : Option ℕ → ℕ → ℕ → TimerManager → Bool × TimerManager
refresh_live none a now m = (false, m)
refresh_live (some f) a now m = refresh_found (find_erase m.heap a m.timers) a now m

unfoldable pub refresh : ℕ → ℕ → TimerManager → Bool × TimerManager
refresh a now m = refresh_live (m.heap a).cb a now m

abbrev pub reset_found : Option (List ℕ) → ℕ → ℕ → ℕ → TimerManager → Bool × TimerManager
reset_found none a start period m = (false, m)
reset_found (some timers) a start period m =
    let t = record (m.heap a) { period = period; execute_time = add64 start period } in
    (true, add a (record m { heap = store a t m.heap; timers = timers }))

abbrev pub reset_live : Option ℕ → ℕ → ℕ → ℕ → TimerManager → Bool × TimerManager
reset_live none a start period m = (false, m)
reset_live (some f) a start period m = reset_found (find_erase m.heap a m.timers) a start period m

unfoldable pub reset : ℕ → ℕ → ℕ → Bool → TimerManager → Bool × TimerManager
reset a now period from_now m =
    let start = if from_now then now else sub64 (m.heap a).execute_time (m.heap a).period in
    let same = if (m.heap a).period == period then (if from_now then false else true) else false in
    if same then (true, m) else reset_live (m.heap a).cb a start period m

-- `getNextTimer`. An empty set gives the largest number.
unfoldable pub get_next_timer : ℕ → TimerManager → ℕ × TimerManager
get_next_timer now m = elim m.timers [
  | [] ↦ (2 ^ 64 - 1, m)
  | next ∷ rest ↦
      let time = (m.heap next).execute_time in
      (if leb time now then 0 else time - now, record m { tickled = false })
]

-- `lower_bound` of a timer at `now` with the address `probe`: what is before it, and the rest.
unfoldable pub lower_bound : (ℕ → Timer) → ℕ → ℕ → List ℕ → List ℕ × List ℕ
lower_bound heap now probe [] = ([], [])
lower_bound heap now probe (a ∷ others) =
    let rest = lower_bound heap now probe others in
    let key : Timer = record { recurring = false; period = 0; execute_time = now; cb = none } in
    if cmp (heap a) a key probe then (a ∷ rest.0, rest.1) else ([], a ∷ others)

-- The loop that steps over the timers at exactly `now`.
unfoldable pub skip_equal : (ℕ → Timer) → ℕ → List ℕ → List ℕ × List ℕ
skip_equal heap now [] = ([], [])
skip_equal heap now (a ∷ others) =
    let rest = skip_equal heap now others in
    if (heap a).execute_time == now then (a ∷ rest.0, rest.1) else ([], a ∷ others)

-- The loop over the expired timers: a recurring one goes back, and another loses its callback.
unfoldable pub requeue : ℕ → List ℕ → TimerManager → TimerManager
requeue now [] m = m
requeue now (a ∷ others) m =
    let t = m.heap a in
    let again = store a (record t { execute_time = add64 now t.period }) m.heap in
    let back = record m { heap = again; timers = insert again a m.timers } in
    let done = record m { heap = store a (record t { cb = none }) m.heap } in
    requeue now others (if t.recurring then back else done)

-- `listExpiredCb`: the callbacks that `cbs` holds afterwards. Each callback is read when its timer
-- comes up, and the loop changes no timer that comes later.
unfoldable pub list_expired_cb :
    ℕ → ℕ → List (Option ℕ) → TimerManager → List (Option ℕ) × TimerManager
list_expired_cb now probe cbs m = elim m.timers [
  | [] ↦ (cbs, m)
  | first ∷ others ↦
      let low = lower_bound m.heap now probe m.timers in
      let equal = skip_equal m.heap now low.1 in
      let expired = low.0 ++ equal.0 in
      if ltb now (m.heap first).execute_time
      then (cbs, m)
      else (map (λ a. (m.heap a).cb) expired, requeue now expired (record m { timers = equal.1 }))
]

unfoldable pub has_timer : TimerManager → Bool
has_timer m = elim m.timers [ [] ↦ false | a ∷ others ↦ true ]
