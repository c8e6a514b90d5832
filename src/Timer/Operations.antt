-- ===== src/Timer/Operations.antt =====
-- The operations of East/src/Timer.cc keep the invariant of the timers.
use mathlib.Core.Option.{Option, none, some}
use native.Mathlib.Decide.{ℕ_discrete}
use east.Common.{
  ℕ, ◌≡◌, refl, sym, ap, ◌∙◌, Bool, true, false, List, [], ◌∷◌, Bool-cases, Option-cases, inl, inr,
  if◌then◌else◌, ◌==◌,
}
use east.Common.Words.{add64, sub64}
use east.Timer.{
  Timer, TimerManager, store, add_timer, cancel, refresh, reset, get_next_timer, list_expired_cb,
}
use east.Timer.Sorted.{Has, find_erase-Erased, store-other, store-same, Sorted-store}
use east.Timer.Valid.{
  Valid, IsValid, TimerOp, adds, cancels, refreshes, resets, asks, expires, perform, IsFresh,
  placed, added,
}
use east.Timer.Valid.Expiry.{list_expired_cb-IsValid}

add_timer-IsValid :
    (a now period : ℕ) (cb : Option ℕ) (recurring : Bool) (m : TimerManager)
    → IsValid m
    → (Has a m.timers → ⊥)
    → IsValid (add_timer a now period cb recurring m)
unfolding add_timer
add_timer-IsValid a now period cb recurring m v out =
    let t : Timer = record {
      recurring = recurring;
      period = period;
      execute_time = add64 now period;
      cb = cb;
    } in
    added a (record m { heap = store a t m.heap })
      (placed m.heap a t m.timers v.sorted out (λ x f k h. v.live x f h))

-- A cancelled timer is out of the set, and its callback is gone.
cancel-IsValid :
    (a : ℕ) (m : TimerManager)
    → IsValid m
    → (r : Bool × TimerManager) × (cancel a m ≡ some r) × IsValid r.1
unfolding cancel
cancel-IsValid a m v = elim (Option-cases (m.heap a).cb) [
  | inl h ↦ ((false, m), rw (h) refl, v)
  | inr found ↦
      let (f, h) = found in
      let r = find_erase-Erased m.heap a m.timers v.sorted (v.live a f h) in
      let t : Timer = record (m.heap a) { cb = none } in
      (
        (true, record m { heap = store a t m.heap; timers = r.left }),
        rw (h, r.runs) refl,
        record {
          sorted = Sorted-store m.heap a t r.left r.without r.sorted;
          live = λ x g k. elim (ℕ_discrete x a) [
            | yes same ↦
                let gone : none ≡ some g =
                  ap (λ (u : Timer). u.cb)
                    (sym (store-same a t m.heap) ∙ ap (store a t m.heap) (sym same))
                  ∙ k in
                cc (gone)
            | no other ↦
                r.still_has x other
                  (v.live x g (ap (λ (u : Timer). u.cb) (sym (store-other a x t m.heap other)) ∙ k))
          ];
        },
      )
]

module _ (a now : ℕ) (m : TimerManager) (v : IsValid m) where
  refresh-IsValid : IsValid (refresh a now m).1
  unfolding refresh
  refresh-IsValid = elim (Option-cases (m.heap a).cb) [
    | inl h ↦ rw (h) v
    | inr found ↦
        let (f, h) = found in
        let r = find_erase-Erased m.heap a m.timers v.sorted (v.live a f h) in
        rw (h, r.runs)
          (placed m.heap a (record (m.heap a) { execute_time = add64 now (m.heap a).period }) r.left
            r.sorted r.without (λ x g other k. r.still_has x other (v.live x g k)))
  ]

  reset-IsValid : (period : ℕ) (from_now : Bool) → IsValid (reset a now period from_now m).1
  unfolding reset
  reset-IsValid period from_now = elim (Bool-cases same) [
    | inl e ↦ rw (e) v
    | inr e ↦ rw (e) (elim (Option-cases (m.heap a).cb) [
      | inl h ↦ rw (h) v
      | inr found ↦
          let (f, h) = found in
          let r = find_erase-Erased m.heap a m.timers v.sorted (v.live a f h) in
          let t : Timer = record (m.heap a) {
            period = period;
            execute_time = add64 start period;
          } in
          rw (h, r.runs)
            (added a (record m { heap = store a t m.heap; timers = r.left })
              (placed m.heap a t r.left r.sorted r.without
                (λ x g other k. r.still_has x other (v.live x g k))))
    ])
  ]
    where
      start : ℕ
      start = if from_now then now else sub64 (m.heap a).execute_time (m.heap a).period

      same : Bool
      same = if (m.heap a).period == period then (if from_now then false else true) else false

get_next_timer-IsValid : (now : ℕ) (m : TimerManager) → IsValid m → IsValid (get_next_timer now m).1
unfolding get_next_timer
get_next_timer-IsValid now m v = either m.timers v
  where
    either :
        (timers : List ℕ)
        → Valid m.heap timers
        → IsValid (get_next_timer now (record m { timers = timers })).1
    either [] v = v
    either (a ∷ others) v = v

-- Where every timer with a callback is in the set and the set is in its order, any operation, an added timer being at an
-- address that is not in the set, is defined and keeps both: `cancel` never erases the end of
-- the set.
pub perform-IsValid :
    (op : TimerOp) (m : TimerManager)
    → IsValid m
    → IsFresh op m
    → (m' : TimerManager) × (perform op m ≡ some m') × IsValid m'
unfolding perform
perform-IsValid (adds a now period cb recurring) m v fresh = (
  add_timer a now period cb recurring m,
  refl,
  add_timer-IsValid a now period cb recurring m v fresh,
)
perform-IsValid (cancels a) m v fresh =
    let (r, runs, valid) = cancel-IsValid a m v in (r.1, rw (runs) refl, valid)
perform-IsValid (refreshes a now) m v fresh = ((refresh a now m).1, refl, refresh-IsValid a now m v)
perform-IsValid (resets a now period from_now) m v fresh =
    ((reset a now period from_now m).1, refl, reset-IsValid a now m v period from_now)
perform-IsValid (asks now) m v fresh =
    ((get_next_timer now m).1, refl, get_next_timer-IsValid now m v)
perform-IsValid (expires now probe) m v fresh =
    ((list_expired_cb now probe [] m).1, refl, list_expired_cb-IsValid now probe m v)
