-- ===== src/Timer/Valid/Expiry.antt =====
-- The invariant of the timers over the loop of `listExpiredCb` of East/src/Timer.cc.
use mathlib.Core.Path.{subst}
use mathlib.Core.Option.{none, some}
use native.Mathlib.Decide.{ℕ_discrete}
use east.Common.{
  ℕ, ◌≡◌, ◌≤◌, ◌<◌, refl, sym, ap, ◌∙◌, true, false, List, [], ◌∷◌, arith, Bool-cases, ◌⊎◌, inl,
  inr, leb, if◌then◌else◌, leb→le,
}
use east.Common.Words.{add64}
use east.Timer.{Timer, TimerManager, store, insert, requeue, before, list_expired_cb}
use east.Timer.Sorted.{
  Has, Sorted, All-Has, Has-All, insert-Has, Has-insert_old, Has-insert_new, insert-Sorted,
  store-other, store-same, Sorted-store, before-time, before_irrefl,
}
use east.Timer.Valid.{IsValid}
use east.Timer.Expired.{InOrder, due, not_due, after_due, list_expired_cb-after_due}

abbrev Distinct : List ℕ → Type 0
Distinct [] = Unit {0}
Distinct (a ∷ others) = (Has a others → ⊥) × Distinct others

-- The timers that are due, and the others.
module _ (heap : ℕ → Timer) (now : ℕ) where
  due-Has :
      (xs : List ℕ) (x : ℕ) → Has x (due heap now xs) → Has x xs × ((heap x).execute_time ≤ now)
  due-Has [] x = λ h. absurd h
  due-Has (a ∷ others) x = elim (Bool-cases (leb (heap a).execute_time now)) [
    | inl e ↦ rw (e) (λ h. elim h [
      | inl k ↦ (inl k, rw (k) (leb→le (heap a).execute_time now e))
      | inr k ↦ (inr (due-Has others x k).0, (due-Has others x k).1)
    ])
    | inr e ↦ rw (e) (λ k. (inr (due-Has others x k).0, (due-Has others x k).1))
  ]

  not_due-Has :
      (xs : List ℕ) (x : ℕ) → Has x (not_due heap now xs) → Has x xs × (now < (heap x).execute_time)
  not_due-Has [] x = λ h. absurd h
  not_due-Has (a ∷ others) x = elim (Bool-cases (leb (heap a).execute_time now)) [
    | inl e ↦ rw (e) (λ k. (inr (not_due-Has others x k).0, (not_due-Has others x k).1))
    | inr e ↦ rw (e) (λ h. elim h [
      | inl k ↦ (inl k, rw (k) (later (heap a).execute_time e))
      | inr k ↦ (inr (not_due-Has others x k).0, (not_due-Has others x k).1)
    ])
  ]
    where
      later : (t : ℕ) → leb t now ≡ false → now < t
      later t e = ground arith

  Has-due : (xs : List ℕ) (x : ℕ) → Has x xs → Has x (not_due heap now xs) ⊎ Has x (due heap now xs)
  Has-due [] x h = absurd h
  Has-due (a ∷ others) x h = elim (Bool-cases (leb (heap a).execute_time now)) [
    | inl e ↦ rw (e) (elim h [
      | inl k ↦ inr (inl k)
      | inr k ↦ elim (Has-due others x k) [ inl j ↦ inl j | inr j ↦ inr (inr j) ]
    ])
    | inr e ↦ rw (e) (elim h [
      | inl k ↦ inl (inl k)
      | inr k ↦ elim (Has-due others x k) [ inl j ↦ inl (inr j) | inr j ↦ inr j ]
    ])
  ]

  not_due-Sorted : (xs : List ℕ) → Sorted heap xs → Sorted heap (not_due heap now xs)
  not_due-Sorted [] s = tt
  not_due-Sorted (a ∷ others) s = elim (Bool-cases (leb (heap a).execute_time now)) [
    | inl e ↦ rw (e) (not_due-Sorted others s.1)
    | inr e ↦ rw (e) (
      Has-All (λ x. before heap a x ≡ true) (not_due heap now others)
          (λ x k. All-Has (λ y. before heap a y ≡ true) others x s.0 (not_due-Has others x k).0),
      not_due-Sorted others s.1,
    )
  ]

  due-Distinct : (xs : List ℕ) → Sorted heap xs → Distinct (due heap now xs)
  due-Distinct [] s = tt
  due-Distinct (a ∷ others) s = elim (Bool-cases (leb (heap a).execute_time now)) [
    | inr e ↦ rw (e) (due-Distinct others s.1)
    | inl e ↦ rw (e) (
      (λ k.
          before_irrefl heap a
            (All-Has (λ y. before heap a y ≡ true) others a s.0 (due-Has others a k).0)),
      due-Distinct others s.1,
    )
  ]

pub Sorted-InOrder : (heap : ℕ → Timer) (xs : List ℕ) → Sorted heap xs → InOrder heap xs
Sorted-InOrder heap [] s = tt
Sorted-InOrder heap (a ∷ others) s = (
  Has-All (λ b. (heap a).execute_time ≤ (heap b).execute_time) others
      (λ x k. before-time heap a x (All-Has (λ y. before heap a y ≡ true) others x s.0 k)),
  Sorted-InOrder heap others s.1,
)

requeue-IsValid :
    (now : ℕ) (xs : List ℕ) (m : TimerManager)
    → Sorted m.heap m.timers
    → Distinct xs
    → ((x : ℕ) → Has x xs → Has x m.timers → ⊥)
    → ((x f : ℕ) → (m.heap x).cb ≡ some f → Has x m.timers ⊎ Has x xs)
    → IsValid (requeue now xs m)
unfolding requeue
requeue-IsValid now [] m s d out live = record {
  sorted = s;
  live = λ x f h. elim (live x f h) [ inl k ↦ k | inr k ↦ absurd k ];
}
requeue-IsValid now (a ∷ others) m s d out live = elim (Bool-cases (m.heap a).recurring) [
  | inl e ↦
      let t : Timer = record (m.heap a) { execute_time = add64 now (m.heap a).period } in
      let heap = store a t m.heap in
      subst (λ b. IsValid (requeue now others (if b then back else done))) (sym e)
        (requeue-IsValid now others (record m { heap = heap; timers = insert heap a m.timers })
          (insert-Sorted heap a m.timers (Sorted-store m.heap a t m.timers (out a (inl refl)) s))
          d.1
          (λ x k j. elim (insert-Has heap a m.timers x j) [
            | inl i ↦ d.0 (subst (λ y. Has y others) i k)
            | inr i ↦ out x (inr k) i
          ])
          (λ x f h. elim (ℕ_discrete x a) [
            | yes k ↦ inl (
                subst (λ y. Has y (insert heap a m.timers)) (sym k)
                  (Has-insert_new heap a m.timers))
            | no k ↦
                elim (live x f (ap (λ (u : Timer). u.cb) (sym (store-other a x t m.heap k)) ∙ h)) [
                  | inl j ↦ inl (Has-insert_old heap a m.timers x j)
                  | inr j ↦ elim j [ inl i ↦ absurd (k i) | inr i ↦ inr i ]
                ]
          ]))
  | inr e ↦
      let t : Timer = record (m.heap a) { cb = none } in
      subst (λ b. IsValid (requeue now others (if b then back else done))) (sym e)
        (requeue-IsValid now others (record m { heap = store a t m.heap })
          (Sorted-store m.heap a t m.timers (out a (inl refl)) s) d.1 (λ x k j. out x (inr k) j)
          (λ x f h. elim (ℕ_discrete x a) [
            | yes k ↦
                let gone : none ≡ some f =
                  ap (λ (u : Timer). u.cb)
                    (sym (store-same a t m.heap) ∙ ap (store a t m.heap) (sym k))
                  ∙ h in
                cc (gone)
            | no k ↦
                elim (live x f (ap (λ (u : Timer). u.cb) (sym (store-other a x t m.heap k)) ∙ h)) [
                  | inl j ↦ inl j
                  | inr j ↦ elim j [ inl i ↦ absurd (k i) | inr i ↦ inr i ]
                ]
          ]))
]
  where
    again : ℕ → Timer
    again = store a (record (m.heap a) { execute_time = add64 now (m.heap a).period }) m.heap

    back : TimerManager
    back = record m { heap = again; timers = insert again a m.timers }

    done : TimerManager
    done = record m { heap = store a (record (m.heap a) { cb = none }) m.heap }

pub list_expired_cb-IsValid :
    (now probe : ℕ) (m : TimerManager) → IsValid m → IsValid (list_expired_cb now probe [] m).1
list_expired_cb-IsValid now probe m v =
    rw (list_expired_cb-after_due now probe [] m (Sorted-InOrder m.heap m.timers v.sorted))
      (after (due m.heap now m.timers) refl)
  where
    after : (xs : List ℕ) → due m.heap now m.timers ≡ xs → IsValid (after_due now [] m xs).1
    after [] h = v
    after (a ∷ others) h =
        subst (λ l. IsValid (requeue now l (record m { timers = not_due m.heap now m.timers }))) h
          (requeue-IsValid now (due m.heap now m.timers)
            (record m { timers = not_due m.heap now m.timers })
            (not_due-Sorted m.heap now m.timers v.sorted)
            (due-Distinct m.heap now m.timers v.sorted)
            (λ x k j.
              let early = (due-Has m.heap now m.timers x k).1 in
              let late = (not_due-Has m.heap now m.timers x j).1 in omega (arith, early, late))
            (λ x f k. Has-due m.heap now m.timers x (v.live x f k)))
