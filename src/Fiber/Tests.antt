-- ===== src/Fiber/Tests.antt =====
-- A fiber of East/src/Fiber.cc that has returned and is used again.
use east.Common.{◌≡◌, refl, some, none, true, ok, ◌>>=◌}
use east.Fiber.{Fiber, term, returns, reset, resume, switch_back, resume_until, destroy}

abbrev used : Fiber
used = record { state = term; cb = none; has_stack = true; run_in_scheduler = true }

destroyed_run :
    (do fresh ← reset (some 7) used; left ← resume_until returns fresh; destroy left) ≡ ok tt
unfolding reset resume_until resume switch_back destroy
destroyed_run = refl
