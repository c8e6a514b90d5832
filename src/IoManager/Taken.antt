-- ===== src/IoManager/Taken.antt =====
-- What `removeEvent`, `cancelEvent` and `cancelAll` of East/src/IOManager.cc do with the context of a
-- descriptor.
use mathlib.Core.List.{append-nil}
use east.Common.{
  ℕ, ◌-◌, ◌^◌, ◌≤◌, ◌<◌, ◌≡◌, refl, sym, ap, ◌∙◌, true, ◌&&◌, inl, inr, some, [], ◌++◌, arith,
  get_elem?, set, get_elem?-set_self, ok, ◌>>=◌, Bool-cases,
}
use east.Common.Words.{sub64, sub64-no_wrap}
use east.IoManager.Kernel.{Epoll, Events, no_events, CtlOp, ctl_del}
use east.IoManager.Context.{
  Event, nothing, read, write, FdContext, has, without, any, set_context, empty_context,
}
use east.IoManager.{
  IoManager, left_op, remove_from, cancel_from, trigger_held, trigger_both, cancel_all_from,
}
use east.IoManager.Idle.{trigger_real, minus}
use east.IoManager.Firing.{calls_of, trigger-runs, trigger_real-Fires}
use east.IoManager.Armed.{IsCoherent, slot, waiting, trigger_event-Triggers, removed-IsCoherent}
use east.IoManager.Kept.{IsKept, count, mask, count-le-total, replaced-IsKept}
use east.IoManager.Changes.{
  Changes, count-without, registered-left, unchanged, after_failure, few, events_new, others_kept,
}

module _ {K : Type 0} (e : Epoll K) (pipe : ℕ) (m : IoManager K) (v : IsKept e pipe m) where
  -- The counter counts an event that is waited for.
  one_less :
      (fd : ℕ) (event : Event) (c : FdContext)
      → get_elem? m.contexts fd ≡ some c
      → has c.events event ≡ true
      → 1 ≤ m.pending
  one_less fd event c here h =
      omega (
        arith,
        count-without c.events event h,
        count-le-total m.contexts fd {c = c} here,
        v.counted,
      )

  pub remove_from-Changes :
      (fd : ℕ) (event : Event) (c : FdContext)
      → get_elem? m.contexts fd ≡ some c
      → Changes e pipe fd m
          (remove_from e fd event c m)
          (has c.events event
            && (e.ctl m.kernel (left_op (without c.events event)) fd (without c.events event)).0)
          (without c.events event)
          []
  unfolding remove_from
  remove_from-Changes fd event c here = elim (Bool-cases (has c.events event)) [
    | inr h ↦ rw (h) (unchanged e pipe m v fd left [])
    | inl h ↦ elim (Bool-cases (e.ctl m.kernel (left_op left) fd left).0) [
      | inr failed ↦ rw (h, failed) (after_failure e pipe m v fd (left_op left) left left [] failed)
      | inl done ↦
          rw (h, done)
            (record {
              result = record {
                contexts = set m.contexts fd c';
                pending = sub64 m.pending 1;
                kernel = (e.ctl m.kernel (left_op left) fd left).1;
                calls = m.calls;
              };
              runs = refl;
              kept =
                  replaced-IsKept e pipe m v fd (left_op left) left c c' (sub64 m.pending 1) m.calls
                    here done (registered-left left ∙ ap mask (sym same))
                    (removed-IsCoherent event fd c (v.coherent fd c here))
                    (omega (
                      arith,
                      sub64-no_wrap m.pending 1 (one_less fd event c here h)
                          (omega (arith, few e pipe m v)),
                      count-without c.events event h,
                      ap count same,
                      one_less fd event c here h,
                    ));
              events = λ x. events_new e pipe m v fd x c c' left here same;
              others = λ x. others_kept e pipe m v fd x c';
              scheduled = sym (append-nil m.calls);
            })
    ]
  ]
    where
      left : Events
      left = without c.events event

      c' : FdContext
      c' = set_context event empty_context (record c { events = left })

      kept_events :
          (event : Event) (d : FdContext) → (set_context event empty_context d).events ≡ d.events
      kept_events nothing d = refl
      kept_events read d = refl
      kept_events write d = refl

      same : c'.events ≡ left
      same = kept_events event (record c { events = left })

  pub cancel_from-Changes :
      (fd : ℕ) (event : Event) (c : FdContext)
      → get_elem? m.contexts fd ≡ some c
      → Changes e pipe fd m
          (cancel_from e fd event c m)
          (has c.events event
            && (e.ctl m.kernel (left_op (without c.events event)) fd (without c.events event)).0)
          (without c.events event)
          (waiting (slot event c))
  unfolding cancel_from
  cancel_from-Changes fd event c here = elim (Bool-cases (has c.events event)) [
    | inr h ↦ rw (h) (unchanged e pipe m v fd left (waiting (slot event c)))
    | inl h ↦ elim (Bool-cases (e.ctl m.kernel (left_op left) fd left).0) [
      | inr failed ↦
          rw (h, failed)
            (after_failure e pipe m v fd (left_op left) left left (waiting (slot event c)) failed)
      | inl done ↦
          let t = trigger_event-Triggers event fd c (v.coherent fd c here) h in
          rw (h, done)
            (record {
              result = record {
                contexts = set m.contexts fd t.result;
                pending = m.pending - 1;
                kernel = (e.ctl m.kernel (left_op left) fd left).1;
                calls = m.calls ++ waiting (slot event c);
              };
              runs =
                  rw
                    (trigger-runs e fd event (called (left_op left) left fd) c here t
                      (one_less fd event c here h) (omega (arith, few e pipe m v)))
                    refl;
              kept =
                  replaced-IsKept e pipe m v fd (left_op left) left c t.result (m.pending - 1)
                    (m.calls ++ waiting (slot event c)) here done
                    (registered-left left ∙ ap mask (sym t.events)) t.coherent
                    (omega (
                      arith,
                      count-without c.events event h,
                      ap count t.events,
                      one_less fd event c here h,
                    ));
              events = λ x. events_new e pipe m v fd x c t.result left here t.events;
              others = λ x. others_kept e pipe m v fd x t.result;
              scheduled = refl;
            })
    ]
  ]
    where
      left : Events
      left = without c.events event

      called : CtlOp → Events → ℕ → IoManager K
      called op passed fd = record m { kernel = (e.ctl m.kernel op fd passed).1 }

  -- `cancelAll` triggers exactly what is waited for: the events are asked for again before each trigger.
  trigger_both-real :
      (fd : ℕ) (n : IoManager K) (c : FdContext)
      → get_elem? n.contexts fd ≡ some c
      → IsCoherent fd c
      → 1 ≤ n.pending
      → n.pending < 2 ^ 64
      → trigger_both e fd n ≡ (trigger_real e fd c.events n >>= (λ r. ok (true, r)))
  unfolding trigger_both trigger_held trigger_real
  trigger_both-real fd n c here coherent some_left small = elim (Bool-cases c.events.reads) [
    | inr h ↦ rw (here, h, here) refl
    | inl h ↦
        let t = trigger_event-Triggers read fd c coherent h in
        rw
          (
            here,
            h,
            trigger-runs e fd read n c here t some_left small,
            get_elem?-set_self n.contexts fd t.result here,
            ap (λ (x : Events). x.writes) t.events,
          )
          refl
  ]

  pub cancel_all_from-Changes :
      (fd : ℕ) (c : FdContext)
      → get_elem? m.contexts fd ≡ some c
      → Changes e pipe fd m
          (cancel_all_from e fd c m)
          (any c.events && (e.ctl m.kernel ctl_del fd no_events).0)
          no_events
          (calls_of c.events c)
  unfolding cancel_all_from
  cancel_all_from-Changes fd c here = elim (Bool-cases (any c.events)) [
    | inr h ↦ rw (h) (unchanged e pipe m v fd no_events (calls_of c.events c))
    | inl h ↦ elim (Bool-cases (e.ctl m.kernel ctl_del fd no_events).0) [
      | inr failed ↦
          rw (h, failed)
            (after_failure e pipe m v fd ctl_del no_events no_events (calls_of c.events c) failed)
      | inl done ↦
          let n : IoManager K = record m { kernel = (e.ctl m.kernel ctl_del fd no_events).1 } in
          let f =
            trigger_real-Fires e fd c.events.reads c.events.writes n c here (v.coherent fd c here)
              (λ k. k) (λ k. k) (enough c here) (omega (arith, few e pipe m v)) in
          rw (h, done)
            (record {
              result = record n {
                contexts = set m.contexts fd f.context;
                pending = m.pending - count c.events;
                calls = m.calls ++ calls_of c.events c;
              };
              runs =
                  trigger_both-real fd n c here (v.coherent fd c here) (busy c here h)
                    (omega (arith, few e pipe m v))
                  ∙ ap (λ o. o >>= (λ r. ok (true, r))) f.runs;
              kept =
                  replaced-IsKept e pipe m v fd ctl_del no_events c f.context
                    (m.pending - count c.events) (m.calls ++ calls_of c.events c) here done
                    (ap mask (sym (nothing_left c.events) ∙ sym f.events)) f.coherent
                    (omega (arith, enough c here, ap count (f.events ∙ nothing_left c.events)));
              events = λ x.
                  events_new e pipe m v fd x c f.context no_events here
                    (f.events ∙ nothing_left c.events);
              others = λ x. others_kept e pipe m v fd x f.context;
              scheduled = refl;
            })
    ]
  ]
    where
      enough : (c : FdContext) → get_elem? m.contexts fd ≡ some c → count c.events ≤ m.pending
      enough c here = omega (arith, count-le-total m.contexts fd {c = c} here, v.counted)

      busy :
          (c : FdContext) → get_elem? m.contexts fd ≡ some c → any c.events ≡ true → 1 ≤ m.pending
      busy c here h = omega (arith, enough c here, one_of c.events h)
        where
          one_of : (x : Events) → any x ≡ true → 1 ≤ count x
          one_of x h = ground arith

      nothing_left : (x : Events) → minus x x ≡ no_events
      nothing_left x = ground arith
