-- ===== src/IoManager/Members.antt =====
-- `addEvent`, `removeEvent`, `cancelEvent` and `cancelAll` of East/src/IOManager.cc as they are called, for
-- any descriptor.
use native.Mathlib.Decide.{dec_le}
use east.Common.{
  ℕ, ◌≡◌, refl, false, ◌&&◌, [], arith, length, get_elem?_of_lt, lt→leb-false, le→leb,
}
use east.IoManager.Kernel.{Epoll, no_events, ctl_del}
use east.IoManager.Context.{Event, nothing, read, write, has, without, any}
use east.IoManager.{IoManager, left_op, remove_event, cancel_all}
use east.IoManager.Firing.{calls_of}
use east.IoManager.Kept.{IsKept, events_of, events_at, context_or_new, context_at}
use east.IoManager.Kept.Room.{get_elem?-beyond}
use east.IoManager.Changes.{Changes, unchanged}
use east.IoManager.Taken.{remove_from-Changes, cancel_all_from-Changes}

module _ {K : Type 0} (e : Epoll K) (pipe : ℕ) (m : IoManager K) (v : IsKept e pipe m) where
  -- Under the invariant `removeEvent` fails without a change if the descriptor does not wait for the event or epoll
  -- refuses the events that are left, with MOD or, if there are none, with DEL; else that event of
  -- that descriptor is taken back. Nothing is scheduled and the invariant holds.
  pub remove_event_lem :
      (fd : ℕ) (event : Event)
      → Changes e pipe fd m
          (remove_event e fd event m)
          (has (events_at fd m) event
            && (e.ctl m.kernel
                (left_op (without (events_at fd m) event))
                fd
                (without (events_at fd m) event)).0)
          (without (events_at fd m) event)
          []
  unfolding remove_event events_of
  remove_event_lem fd event = elim (dec_le (length m.contexts) fd) [
    | yes h ↦
        rw (le→leb (length m.contexts) fd h, get_elem?-beyond m.contexts fd h, has_none event)
          (unchanged e pipe m v fd (without no_events event) [])
    | no h ↦
        let (c, here) = get_elem?_of_lt m.contexts fd (omega (arith, h)) in
        rw (lt→leb-false (length m.contexts) fd (omega (arith, h)), here)
          (remove_from-Changes e pipe m v fd event c here)
  ]
    where
      has_none : (event : Event) → has no_events event ≡ false
      has_none nothing = refl
      has_none read = refl
      has_none write = refl

  pub cancel_all_lem :
      (fd : ℕ)
      → Changes e pipe fd m
          (cancel_all e fd m)
          (any (events_at fd m) && (e.ctl m.kernel ctl_del fd no_events).0)
          no_events
          (calls_of (events_at fd m) (context_at fd m))
  unfolding cancel_all events_of context_or_new
  cancel_all_lem fd = elim (dec_le (length m.contexts) fd) [
    | yes h ↦
        rw (le→leb (length m.contexts) fd h, get_elem?-beyond m.contexts fd h)
          (unchanged e pipe m v fd no_events [])
    | no h ↦
        let (c, here) = get_elem?_of_lt m.contexts fd (omega (arith, h)) in
        rw (lt→leb-false (length m.contexts) fd (omega (arith, h)), here)
          (cancel_all_from-Changes e pipe m v fd c here)
  ]
