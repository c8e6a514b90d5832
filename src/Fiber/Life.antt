-- ===== src/Fiber/Life.antt =====
-- The life of a fiber of East/src/Fiber.cc, from `reset` to the destructor.
use east.Common.{ℕ, ◌≡◌, refl, true, some, Outcome, ok, throws, assertion_failed, ◌>>=◌}
use east.Fiber.{
  Fiber, Switch, returns, raises, yields_ready, yields_hold, is_resettable, reset, resume,
  switch_back, resume_until, destroy,
}

-- What comes of the destructor behind a switch back.
abbrev pub Destroyed : Switch → Outcome (Unit {0}) → Type 0
Destroyed returns out = out ≡ ok tt
Destroyed raises out = out ≡ ok tt
Destroyed yields_ready out = out ≡ throws assertion_failed
Destroyed yields_hold out = out ≡ throws assertion_failed

-- A fiber with a stack that is INIT or TERM can be reset to a callback and resumed; when it has switched back, its
-- destructor passes if the callback has returned or thrown, and fails at an assertion if it has
-- only yielded.
pub reset-destroy :
    (cb : ℕ) (sw : Switch) (f : Fiber)
    → f.has_stack ≡ true
    → is_resettable f.state ≡ true
    → Destroyed sw (do fresh ← reset (some cb) f; left ← resume_until sw fresh; destroy left)
unfolding reset resume_until resume switch_back destroy
reset-destroy cb returns f stack h = rw (stack, h) refl
reset-destroy cb raises f stack h = rw (stack, h) refl
reset-destroy cb yields_ready f stack h = rw (stack, h) refl
reset-destroy cb yields_hold f stack h = rw (stack, h) refl
