-- ===== src/IoManager/Armed.antt =====
-- When a context of East/src/IOManager.cc is coherent, and what arming and triggering it do then.
use mathlib.Core.Path.{subst}
use east.Common.{
  ℕ, ◌≡◌, refl, Bool, true, false, Option, none, some, List, [], ◌∷◌, ok, ◌⊎◌, inl, inr,
}
use east.Scheduler.{Task}
use east.IoManager.Context.{
  Event, nothing, read, write, FdContext, EventContext, empty_context, new_context, Call, has, with,
  without, get_context, set_context, fire, trigger_event, arm, armed,
}

-- The context of an event that is waited for has a scheduler and either a fiber or a callback, and that of another is empty.
abbrev pub Slot : Bool → EventContext → Type 0
Slot false e = e ≡ empty_context
Slot true e =
    (scheduler : ℕ) × (fiber : ℕ) × (cb : Option ℕ) × (e ≡ armed (some scheduler) fiber cb)

pub record IsCoherent (fd : ℕ) (c : FdContext) : Type 0 where
  pub own : c.fd ≡ fd
  pub reading : Slot c.events.reads c.reader
  pub writing : Slot c.events.writes c.writer

abbrev pub slot : Event → FdContext → EventContext
slot nothing c = empty_context
slot read c = c.reader
slot write c = c.writer

-- The task that waits in a context: the callback before the fiber.
abbrev pub waiting_task : Option ℕ → Option ℕ → Task
waiting_task fiber (some cb) = record { fiber = none; cb = some cb; thread = none }
waiting_task fiber none = record { fiber = fiber; cb = none; thread = none }

abbrev pub call_to : Option ℕ → Task → List Call
call_to none t = []
call_to (some s) t = (s, t) ∷ []

abbrev pub waiting : EventContext → List Call
waiting e = call_to e.scheduler (waiting_task e.fiber e.cb)

-- Triggering an event that is waited for.
pub record Triggers (event : Event) (fd : ℕ) (c : FdContext) : Type 0 where
  pub result : FdContext
  pub runs : trigger_event event c ≡ ok (result, waiting (slot event c))
  pub coherent : IsCoherent fd result
  pub events : result.events ≡ without c.events event
  pub writer : event ≡ read → result.writer ≡ c.writer

-- What is left of a context that was armed and has fired.
fire-armed :
    (s fiber : ℕ) (cb : Option ℕ) (e : EventContext)
    → e ≡ armed (some s) fiber cb
    → (left : EventContext) × (fire e.cb e.fiber e ≡ ok (left, waiting e))
      × (record left { scheduler = none } ≡ empty_context)
unfolding fire
fire-armed s fiber none e h = (record e { fiber = none }, rw (h) refl, rw (h) refl)
fire-armed s fiber (some cb) e h = (record e { cb = none }, rw (h) refl, rw (h) refl)

pub trigger_event-Triggers :
    (event : Event) (fd : ℕ) (c : FdContext)
    → IsCoherent fd c
    → has c.events event ≡ true
    → Triggers event fd c
unfolding trigger_event get_context
trigger_event-Triggers nothing fd c v h = cc (h)
trigger_event-Triggers read fd c v h =
    let (s, fiber, cb, e) = subst (λ b. Slot b c.reader) h v.reading in
    let (left, fires, emptied) = fire-armed s fiber cb c.reader e in
    record {
      result = record c {
        reader = record left { scheduler = none };
        events = without c.events read;
      };
      runs = rw (h, fires) refl;
      coherent = record { own = v.own; reading = emptied; writing = v.writing };
      events = refl;
      writer = λ k. refl;
    }
trigger_event-Triggers write fd c v h =
    let (s, fiber, cb, e) = subst (λ b. Slot b c.writer) h v.writing in
    let (left, fires, emptied) = fire-armed s fiber cb c.writer e in
    record {
      result = record c {
        writer = record left { scheduler = none };
        events = without c.events write;
      };
      runs = rw (h, fires) refl;
      coherent = record { own = v.own; reading = v.reading; writing = emptied };
      events = refl;
      writer = λ k. cc (k);
    }

-- Arming an event that is not waited for.
pub record Arms (event : Event) (fd s fiber : ℕ) (cb : Option ℕ) (c : FdContext) : Type 0 where
  pub result : FdContext
  pub runs : arm event (some s) fiber cb c ≡ ok result
  pub coherent : IsCoherent fd result
  pub events : result.events ≡ with c.events event
  pub filled : slot event result ≡ armed (some s) fiber cb

pub arm-Arms :
    (event : Event) (fd s fiber : ℕ) (cb : Option ℕ) (c : FdContext)
    → IsCoherent fd c
    → (event ≡ read) ⊎ (event ≡ write)
    → has c.events event ≡ false
    → Arms event fd s fiber cb c
unfolding arm get_context
arm-Arms nothing fd s fiber cb c v (inl k) h = cc (k)
arm-Arms nothing fd s fiber cb c v (inr k) h = cc (k)
arm-Arms read fd s fiber cb c v k h = record {
  result = record c { reader = armed (some s) fiber cb; events = with c.events read };
  runs = rw (subst (λ b. Slot b c.reader) h v.reading) refl;
  coherent = record { own = v.own; reading = (s, fiber, cb, refl); writing = v.writing };
  events = refl;
  filled = refl;
}
arm-Arms write fd s fiber cb c v k h = record {
  result = record c { writer = armed (some s) fiber cb; events = with c.events write };
  runs = rw (subst (λ b. Slot b c.writer) h v.writing) refl;
  coherent = record { own = v.own; reading = v.reading; writing = (s, fiber, cb, refl) };
  events = refl;
  filled = refl;
}

-- A context whose event is taken back.
pub removed-IsCoherent :
    (event : Event) (fd : ℕ) (c : FdContext)
    → IsCoherent fd c
    → IsCoherent fd (set_context event empty_context (record c { events = without c.events event }))
removed-IsCoherent nothing fd c v = record { own = v.own; reading = v.reading; writing = v.writing }
removed-IsCoherent read fd c v = record { own = v.own; reading = refl; writing = v.writing }
removed-IsCoherent write fd c v = record { own = v.own; reading = v.reading; writing = refl }

pub new_context-IsCoherent : (fd : ℕ) → IsCoherent fd (new_context fd)
new_context-IsCoherent fd = record { own = refl; reading = refl; writing = refl }
