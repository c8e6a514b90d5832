-- ===== src/IoManager/Ready.antt =====
-- What `IOManager::idle` of East/src/IOManager.cc does with an event that `epoll_wait` hands over.
use east.Common.{
  ℕ, ◌+◌, ◌-◌, ◌≤◌, ◌≡◌, refl, sym, ap, ◌∙◌, true, false, ◌&&◌, inl, inr, some, List, ◌++◌, arith,
  get_elem?, set, get_elem?-set_self, ok, throws, assertion_failed, ◌>>=◌, Bool-cases,
}
use east.IoManager.Kernel.{Epoll, Events, no_events, ctl_del}
use east.IoManager.Context.{Event, Call, read, write, FdContext, has, any, trigger_event}
use east.IoManager.{IoManager, left_op, trigger}
use east.IoManager.Idle.{Flags, ready, real_events, meet, minus, trigger_real, handle_ready, handle}
use east.IoManager.Firing.{calls_of, trigger-runs, trigger_real-Fires}
use east.IoManager.Armed.{waiting, trigger_event-Triggers}
use east.IoManager.Kept.{IsKept, count, mask, count-le-total, replaced-IsKept}
use east.IoManager.Changes.{
  Changes, registered-left, unchanged, after_failure, few, events_new, others_kept,
}

-- An event that is not waited for is not triggered.
trigger-refused :
    {K : Type 0} (e : Epoll K) (fd : ℕ) (event : Event) (m : IoManager K) (c : FdContext)
    → get_elem? m.contexts fd ≡ some c
    → has c.events event ≡ false
    → trigger e fd event m ≡ throws assertion_failed
unfolding trigger trigger_event
trigger-refused e fd event m c here h = rw (here, h) refl

module _ {K : Type 0} (e : Epoll K) (pipe : ℕ) (m : IoManager K) (v : IsKept e pipe m) where
  handle_ready-Changes :
      (fd : ℕ) (real : Events) (c : FdContext)
      → get_elem? m.contexts fd ≡ some c
      → c.fd ≡ fd
      → (real.reads ≡ true → c.events.reads ≡ true)
      → (real.writes ≡ true → c.events.writes ≡ true)
      → (let done =
            any (meet c.events real)
            && (e.ctl m.kernel (left_op (minus c.events real)) fd (minus c.events real)).0 in
          Changes e pipe fd m
            (do m' ← handle_ready e fd real c m; ok (done, m'))
            done
            (minus c.events real)
            (calls_of real c))
  unfolding handle_ready
  handle_ready-Changes fd real c here own hr hw =
      rw (own) (elim (Bool-cases (any (meet c.events real))) [
        | inr h ↦ rw (h) (unchanged e pipe m v fd left (calls_of real c))
        | inl h ↦ elim (Bool-cases (e.ctl m.kernel (left_op left) fd left).0) [
          | inr failed ↦
              rw (h, failed)
                (after_failure e pipe m v fd (left_op left) left left (calls_of real c) failed)
          | inl done ↦
              let n : IoManager K = record m {
                kernel = (e.ctl m.kernel (left_op left) fd left).1;
              } in
              let f =
                trigger_real-Fires e fd real.reads real.writes n c here (v.coherent fd c here) hr hw
                  enough (omega (arith, few e pipe m v)) in
              rw (h, done)
                (record {
                  result = record n {
                    contexts = set m.contexts fd f.context;
                    pending = m.pending - count real;
                    calls = m.calls ++ calls_of real c;
                  };
                  runs = ap (λ o. o >>= (λ r. ok (true, r))) f.runs;
                  kept =
                      replaced-IsKept e pipe m v fd (left_op left) left c f.context
                        (m.pending - count real) (m.calls ++ calls_of real c) here done
                        (registered-left left ∙ ap mask (sym f.events)) f.coherent
                        (omega (arith, enough, split c.events real hr hw, ap count f.events));
                  events = λ x. events_new e pipe m v fd x c f.context left here f.events;
                  others = λ x. others_kept e pipe m v fd x f.context;
                  scheduled = refl;
                })
        ]
      ])
    where
      left : Events
      left = minus c.events real

      split :
          (x real : Events)
          → (real.reads ≡ true → x.reads ≡ true)
          → (real.writes ≡ true → x.writes ≡ true)
          → count (minus x real) + count real ≡ count x
      split x real hr hw = ground arith

      enough : count real ≤ m.pending
      enough =
          omega
            (arith, count-le-total m.contexts fd {c = c} here, v.counted, split c.events real hr hw)

  -- Under the invariant, for a context whose reported flags, with an error or a hang-up counted as both, are all
  -- waited for: the loop of `idle` leaves the events as they are if nothing is reported or epoll refuses the
  -- events that are left, with MOD or, if there are none, with DEL; else exactly the reported ones are
  -- taken out, and what waited for them has been scheduled. The invariant holds.
  pub handle_lem :
      (fd : ℕ) (flags : Flags) (c : FdContext)
      → get_elem? m.contexts fd ≡ some c
      → ((real_events flags).reads ≡ true → c.events.reads ≡ true)
      → ((real_events flags).writes ≡ true → c.events.writes ≡ true)
      → (let left = minus c.events (real_events flags) in
          let done =
            any (meet c.events (real_events flags)) && (e.ctl m.kernel (left_op left) fd left).0 in
          Changes e pipe fd m
            (do m' ← handle e (ready fd flags) m; ok (done, m'))
            done
            left
            (calls_of (real_events flags) c))
  unfolding handle
  handle_lem fd flags c here hr hw =
      rw (here)
        (handle_ready-Changes fd (real_events flags) c here (v.coherent fd c here).own hr hw)

  -- An error or a hang-up on a descriptor that waits for one event only, with the invariant: where epoll takes
  -- the registration out, the loop of `idle` triggers the other event too, and the assertion of
  -- `triggerEvent` fails.
  pub handle_failed_aborts :
      (fd : ℕ) (flags : Flags) (c : FdContext)
      → get_elem? m.contexts fd ≡ some c
      → flags.failed ≡ true
      → count c.events ≡ 1
      → (e.ctl m.kernel ctl_del fd no_events).0 ≡ true
      → handle e (ready fd flags) m ≡ throws assertion_failed
  unfolding handle handle_ready trigger_real
  handle_failed_aborts fd flags c here failed one done = rw (here) (
      ap (λ x. handle_ready e fd x c m) (all_events flags failed)
      ∙ rw
          (
            some_event c.events one,
            ap left_op (no_event c.events),
            no_event c.events,
            (v.coherent fd c here).own,
            done,
          )
          (elim (Bool-cases c.events.reads) [
            | inr h ↦ rw (trigger-refused e fd read n c here h) refl
            | inl h ↦
                let t = trigger_event-Triggers read fd c (v.coherent fd c here) h in
                rw
                  (trigger-runs e fd read n c here t (omega (arith, enough))
                    (omega (arith, few e pipe m v)))
                  (trigger-refused e fd write (after_read t.result (waiting c.reader)) t.result
                    (get_elem?-set_self m.contexts fd t.result here)
                    (ap (λ (x : Events). x.writes) t.events ∙ other c.events one h))
          ]))
    where
      n : IoManager K
      n = record m { kernel = (e.ctl m.kernel ctl_del fd no_events).1 }

      after_read : FdContext → List Call → IoManager K
      after_read d calls = record n {
        contexts = set m.contexts fd d;
        pending = m.pending - 1;
        calls = m.calls ++ calls;
      }

      enough : 1 ≤ m.pending
      enough = omega (arith, count-le-total m.contexts fd {c = c} here, v.counted, one)

      all_events :
          (f : Flags) → f.failed ≡ true → real_events f ≡ record { reads = true; writes = true }
      all_events f h = ground arith

      some_event :
          (x : Events) → count x ≡ 1 → any (meet x (record { reads = true; writes = true })) ≡ true
      some_event x h = ground arith

      no_event : (x : Events) → minus x (record { reads = true; writes = true }) ≡ no_events
      no_event x = ground arith

      other : (x : Events) → count x ≡ 1 → x.reads ≡ true → x.writes ≡ false
      other x one h = ground arith
