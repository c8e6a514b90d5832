-- ===== src/IoManager/Context.antt =====
-- FdContext of East/include/IOManager.h: what waits on one descriptor.
use east.Common.{
  ℕ, Bool, true, false, not, ◌&&◌, ◌||◌, Option, none, some, List, [], ◌∷◌, Outcome, ok, throws,
  undefined, assertion_failed, assert, ◌>>=◌, ◌>>◌,
}
use east.Scheduler.{Task, is_some}
use east.IoManager.Kernel.{Events, no_events}

-- IOManager::Event, as an argument.
pub data Event : Type 0 where
  nothing read write : Event

-- A scheduler and a fiber are known by their addresses, a callback by a number.
pub record EventContext : Type 0 where
  pub scheduler : Option ℕ
  pub fiber : Option ℕ
  pub cb : Option ℕ

abbrev pub empty_context : EventContext
empty_context = record { scheduler = none; fiber = none; cb = none }

pub record FdContext : Type 0 where
  pub fd : ℕ
  pub reader : EventContext
  pub writer : EventContext
  pub events : Events

abbrev pub new_context : ℕ → FdContext
new_context fd = record {
  fd = fd;
  reader = empty_context;
  writer = empty_context;
  events = no_events;
}

-- `events & event`, `events | event` and `events & ~event`.
abbrev pub has : Events → Event → Bool
has events nothing = false
has events read = events.reads
has events write = events.writes

abbrev pub with : Events → Event → Events
with events nothing = events
with events read = record events { reads = true }
with events write = record events { writes = true }

abbrev pub without : Events → Event → Events
without events nothing = events
without events read = record events { reads = false }
without events write = record events { writes = false }

abbrev pub any : Events → Bool
any events = events.reads || events.writes

-- `getContext`, whose assertion refuses NONE, and a write through the reference that it returns.
unfoldable pub get_context : Event → FdContext → Outcome EventContext
get_context nothing c = throws assertion_failed
get_context read c = ok c.reader
get_context write c = ok c.writer

abbrev pub set_context : Event → EventContext → FdContext → FdContext
set_context nothing e c = c
set_context read e c = record c { reader = e }
set_context write e c = record c { writer = e }

-- A call of `schedule` on a scheduler.
abbrev pub Call : Type 0
Call = ℕ × Task

-- `event_ctx.scheduler->schedule(t)`.
abbrev pub schedule_on : Option ℕ → Task → Outcome (List Call)
schedule_on none t = throws undefined
schedule_on (some s) t = ok ((s, t) ∷ [])

-- The two `schedule` calls of `triggerEvent`, which swap the callback or the fiber out, and what is left.
unfoldable pub fire : Option ℕ → Option ℕ → EventContext → Outcome (EventContext × List Call)
fire (some cb) fiber e = do
  calls ← schedule_on e.scheduler (record { fiber = none; cb = some cb; thread = none })
  ok (record e { cb = none }, calls)
fire none (some fiber) e = do
  calls ← schedule_on e.scheduler (record { fiber = some fiber; cb = none; thread = none })
  ok (record e { fiber = none }, calls)
fire none none e = ok (e, [])

unfoldable pub trigger_event : Event → FdContext → Outcome (FdContext × List Call)
trigger_event event c = do
  assert (has c.events event)
  e ← get_context event c
  (e', calls) ← fire e.cb e.fiber e
  ok (
    set_context event (record e' { scheduler = none })
        (record c { events = without c.events event }),
    calls,
  )

-- The end of `addEvent`: the context must be empty.
abbrev pub is_empty_context : EventContext → Bool
is_empty_context e = not (is_some e.cb) && not (is_some e.fiber) && not (is_some e.scheduler)

-- `Scheduler::GetThis()` and `Fiber::GetThis()` are the caller's.
abbrev pub armed : Option ℕ → ℕ → Option ℕ → EventContext
armed scheduler this_fiber none = record {
  scheduler = scheduler;
  fiber = some this_fiber;
  cb = none;
}
armed scheduler this_fiber (some cb) = record { scheduler = scheduler; fiber = none; cb = some cb }

unfoldable pub arm : Event → Option ℕ → ℕ → Option ℕ → FdContext → Outcome FdContext
arm event scheduler this_fiber cb c = do
  let c' = record c { events = with c.events event }
  e ← get_context event c'
  assert (is_empty_context e)
  ok (set_context event (armed scheduler this_fiber cb) c')
