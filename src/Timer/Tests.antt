-- ===== src/Timer/Tests.antt =====
-- Runs of East/src/Timer.cc on a manager of three timers.
use mathlib.Core.Option.{some, none}
use east.Common.{
  ℕ, zero, suc, inl, inr, leb, lt→leb-false, le→leb, if◌then◌else◌, ◌+◌, ◌≤◌, ◌⊎◌, length, ◌≡◌,
  refl, true, false, [], ◌∷◌, arith, ◌==◌,
}
use east.Timer.{
  Timer, TimerManager, list_expired_cb, insert, before, cmp, add_timer, add, requeue, lower_bound,
  skip_equal,
}
use east.Common.Words.{add64}
use east.Timer.Sorted.{Has}
use east.Timer.Valid.{IsValid, cancels, perform}
use east.Timer.Operations.{perform-IsValid}
use east.Timer.Expired.{InOrder, due, not_due}
use east.Timer.Fired.{Fires, list_expired_cb_cases}

abbrev timer_at : ℕ → Timer
timer_at a = record { recurring = a == 2; period = 10; execute_time = 100 + a; cb = some a }

abbrev three : TimerManager
three = record { heap = timer_at; timers = 1 ∷ 2 ∷ 3 ∷ []; tickled = true; notified = 0 }

three-InOrder : InOrder three.heap three.timers
three-InOrder = ((omega arith, (omega arith, tt)), ((omega arith, tt), (tt, tt)))

list_expired_cb_cases_example :
    ((due timer_at 102 (1 ∷ 2 ∷ 3 ∷ []) ≡ []) × (list_expired_cb 102 7 [] three ≡ ([], three)))
    ⊎ ((1 ≤ length (due timer_at 102 (1 ∷ 2 ∷ 3 ∷ [])))
        × Fires 102 three
            (due timer_at 102 (1 ∷ 2 ∷ 3 ∷ []))
            (not_due timer_at 102 (1 ∷ 2 ∷ 3 ∷ []))
            (list_expired_cb 102 7 [] three))
list_expired_cb_cases_example = list_expired_cb_cases 102 7 [] three three-InOrder

-- The timers at 101 and 102 are due; the second is recurring and goes back to 112.
expired_run : (list_expired_cb 102 7 [] three).0 ≡ some 1 ∷ some 2 ∷ []
unfolding list_expired_cb lower_bound skip_equal cmp
expired_run = refl

requeued_run : (list_expired_cb 102 7 [] three).1.timers ≡ 3 ∷ 2 ∷ []
unfolding list_expired_cb lower_bound skip_equal cmp requeue insert before add64
requeued_run = refl

added_run : (add_timer 4 50 1 (some 4) false (record three { tickled = false })).notified ≡ 1
unfolding add_timer add insert before cmp add64
added_run = refl

-- The same timers, and no others with a callback.
abbrev only_three : ℕ → Timer
only_three a = record {
  recurring = a == 2;
  period = 10;
  execute_time = 100 + a;
  cb = if leb 1 a then (if leb a 3 then some a else none) else none;
}

abbrev live_three : TimerManager
live_three = record { heap = only_three; timers = 1 ∷ 2 ∷ 3 ∷ []; tickled = true; notified = 0 }

live_three-IsValid : IsValid live_three
unfolding before cmp
live_three-IsValid = record { sorted = ((refl, (refl, tt)), ((refl, tt), (tt, tt))); live = live }
  where
    live : (a f : ℕ) → (only_three a).cb ≡ some f → Has a (1 ∷ 2 ∷ 3 ∷ [])
    live zero f h = cc (h)
    live (suc zero) f h = inl refl
    live (suc (suc zero)) f h = inr (inl refl)
    live (suc (suc (suc zero))) f h = inr (inr (inl refl))
    live (suc (suc (suc (suc a)))) f h =
        let off : leb (suc (suc (suc (suc a)))) 3 ≡ false =
          lt→leb-false (suc (suc (suc (suc a)))) 3 (omega arith) in
        let on : leb 1 (suc (suc (suc (suc a)))) ≡ true =
          le→leb 1 (suc (suc (suc (suc a)))) (omega arith) in
        cc (h, off, on)

-- The second timer is cancelled.
perform-IsValid_example : (m : TimerManager) × (perform (cancels 2) live_three ≡ some m) × IsValid m
perform-IsValid_example = perform-IsValid (cancels 2) live_three live_three-IsValid tt
