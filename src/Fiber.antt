-- ===== src/Fiber.antt =====
-- East/src/Fiber.cc: the states of a fiber. The context switches themselves are the system's: what a
-- fiber's body does until it switches back is an argument.
pub mod Life
mod Tests
use east.Common.{
  ℕ, Bool, true, false, Option, none, some, Outcome, ok, throws, undefined, assert, ◌>>=◌, ◌>>◌,
  if◌then◌else◌,
}

pub data State : Type 0 where
  init hold exec term ready except : State

-- A callback is known by a number. A fiber without a stack is the main fiber of a thread.
pub record Fiber : Type 0 where
  pub state : State
  pub cb : Option ℕ
  pub has_stack : Bool
  pub run_in_scheduler : Bool

abbrev pub is_exec : State → Bool
is_exec exec = true
is_exec _ = false

-- TERM or EXCEPT.
abbrev pub is_over : State → Bool
is_over term = true
is_over except = true
is_over _ = false

abbrev pub is_resettable : State → Bool
is_resettable term = true
is_resettable init = true
is_resettable _ = false

-- The main fiber of `Fiber()`, and that of the other constructor.
abbrev pub main_fiber : Fiber
main_fiber = record { state = exec; cb = none; has_stack = false; run_in_scheduler = false }

unfoldable pub new : Option ℕ → Bool → Fiber
new cb run_in_scheduler = record {
  state = init;
  cb = cb;
  has_stack = true;
  run_in_scheduler = run_in_scheduler;
}

unfoldable pub reset : Option ℕ → Fiber → Outcome Fiber
reset cb f = do
  assert f.has_stack
  assert (is_resettable f.state)
  ok (record f { cb = cb; state = init })

-- `resume` up to the switch. The context of a fiber that is over stands behind the end of `MainFunc`,
-- and `uc_link` is null.
unfoldable pub resume : Fiber → Outcome Fiber
resume f = do
  assert (if is_exec f.state then false else true)
  if is_over f.state then throws undefined else ok (record f { state = exec })

-- How a body gives the thread back: it returns or throws, which `MainFunc` handles, or it calls
-- `YieldToReady`, or it yields by `YieldToHold` or `yield`.
pub data Switch : Type 0 where
  returns raises yields_ready yields_hold : Switch

-- `MainFunc` behind the callback, and the two members that yield. They find the fiber executing.
unfoldable pub switch_back : Switch → Fiber → Outcome Fiber
switch_back returns f = ok (record f { cb = none; state = term })
switch_back raises f = ok (record f { state = except })
switch_back yields_ready f = do assert (is_exec f.state); ok (record f { state = ready })
switch_back yields_hold f = do assert (is_exec f.state); ok f

-- `MainFunc` calls `m_cb`, and to call an empty function throws `std::bad_function_call`.
abbrev pub actual : Option ℕ → Switch → Switch
actual none sw = raises
actual (some cb) sw = sw

-- `resume` as its caller sees it: from the switch to the fiber until the switch back.
unfoldable pub resume_until : Switch → Fiber → Outcome Fiber
resume_until sw f = do running ← resume f; switch_back (actual f.cb sw) running

-- The destructor's assertions.
unfoldable pub destroy : Fiber → Outcome (Unit {0})
destroy f =
    if f.has_stack
    then assert (if is_over f.state then true else is_resettable f.state)
    else (do assert (elim f.cb [ none ↦ true | some cb ↦ false ]); assert (is_exec f.state))
