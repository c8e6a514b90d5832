-- ===== src/Timer/Valid.antt =====
-- The invariant of the timers of East/src/Timer.cc and every operation on them.
pub mod Expiry
use mathlib.Core.Path.{subst}
use mathlib.Core.Option.{Option, none, some}
use native.Mathlib.Decide.{ℕ_discrete}
use east.Common.{
  ℕ, ◌≡◌, ◌≢◌, ◌≤◌, ◌<◌, refl, sym, ap, ◌∙◌, Bool, true, false, List, [], ◌∷◌, ◌++◌, arith,
  Bool-cases, Option-cases, ◌⊎◌, inl, inr, ◌==◌, leb, if◌then◌else◌, leb→le, All,
}
use east.Common.Words.{add64, sub64}
use east.Timer.{
  Timer, TimerManager, store, insert, find_erase, is_front, add, add_timer, cancel, refresh, reset,
  get_next_timer, requeue, list_expired_cb, before,
}
use east.Timer.Sorted.{
  Has, Sorted, All-Has, Has-All, insert-Has, Has-insert_old, Has-insert_new, insert-Sorted, Erased,
  find_erase-Erased, store-other, store-same, Sorted-store, before-time, before_irrefl,
}
use east.Timer.Expired.{InOrder, due, not_due, after_due, list_expired_cb-after_due}

-- The set is in its order, and every timer that has a callback is in it.
pub record Valid (heap : ℕ → Timer) (timers : List ℕ) : Type 0 where
  pub sorted : Sorted heap timers
  pub live : (a f : ℕ) → (heap a).cb ≡ some f → Has a timers

abbrev pub IsValid : TimerManager → Type 0
IsValid m = Valid m.heap m.timers

-- An operation with its arguments; the clock and the addresses that the allocator gives are among them.
pub data TimerOp : Type 0 where
  adds : (a now period : ℕ) (cb : Option ℕ) (recurring : Bool) → TimerOp
  cancels : (a : ℕ) → TimerOp
  refreshes : (a now : ℕ) → TimerOp
  resets : (a now period : ℕ) (from_now : Bool) → TimerOp
  asks : (now : ℕ) → TimerOp
  expires : (now probe : ℕ) → TimerOp

abbrev pub manager_of : Option (Bool × TimerManager) → Option TimerManager
manager_of none = none
manager_of (some r) = some r.1

unfoldable pub perform : TimerOp → TimerManager → Option TimerManager
perform (adds a now period cb recurring) m = some (add_timer a now period cb recurring m)
perform (cancels a) m = manager_of (cancel a m)
perform (refreshes a now) m = some (refresh a now m).1
perform (resets a now period from_now) m = some (reset a now period from_now m).1
perform (asks now) m = some (get_next_timer now m).1
perform (expires now probe) m = some (list_expired_cb now probe [] m).1

-- A new timer does not stand where one in the set does.
abbrev pub IsFresh : TimerOp → TimerManager → Type 0
IsFresh (adds a now period cb recurring) m = Has a m.timers → ⊥
IsFresh _ m = Unit {0}

add-heap :
    (a : ℕ) (m : TimerManager)
    → ((add a m).heap ≡ m.heap) × ((add a m).timers ≡ insert m.heap a m.timers)
unfolding add
add-heap a m = elim (Bool-cases (is_front a (insert m.heap a m.timers))) [
  | inr e ↦ rw (e) (refl, refl)
  | inl e ↦ elim (Bool-cases m.tickled) [
    | inl d ↦ rw (e, d) (refl, refl)
    | inr d ↦ rw (e, d) (refl, refl)
  ]
]

-- A timer that was not in the set changes and goes in.
pub placed :
    (heap : ℕ → Timer) (a : ℕ) (t : Timer) (xs : List ℕ)
    → Sorted heap xs
    → (Has a xs → ⊥)
    → ((x f : ℕ) → x ≢ a → (heap x).cb ≡ some f → Has x xs)
    → Valid (store a t heap) (insert (store a t heap) a xs)
placed heap a t xs s out live = record {
  sorted = insert-Sorted (store a t heap) a xs (Sorted-store heap a t xs out s);
  live = λ x f h. elim (ℕ_discrete x a) [
    | yes k ↦
        subst (λ y. Has y (insert (store a t heap) a xs)) (sym k)
          (Has-insert_new (store a t heap) a xs)
    | no k ↦
        Has-insert_old (store a t heap) a xs x
          (live x f k (ap (λ (u : Timer). u.cb) (sym (store-other a x t heap k)) ∙ h))
  ];
}

pub added : (a : ℕ) (m : TimerManager) → Valid m.heap (insert m.heap a m.timers) → IsValid (add a m)
added a m v = rw ((add-heap a m).0, (add-heap a m).1) v
