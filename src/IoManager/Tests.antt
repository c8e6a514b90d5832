-- ===== src/IoManager/Tests.antt =====
-- A manager of East/src/IOManager.cc whose descriptor 1 waits for reading, over an epoll that refuses nothing.
use mathlib.Core.Path.{subst}
use east.Common.{
  ℕ, zero, suc, ◌≤◌, ◌≡◌, ◌≢◌, refl, ap, true, false, Option, none, some, List, [], ◌∷◌,
  if◌then◌else◌, ◌==◌, arith, get_elem?, ok, ◌>>=◌,
}
use east.IoManager.Kernel.{Epoll, Events, no_events, CtlOp, ctl_mod, registered}
use east.IoManager.Context.{FdContext, Call, new_context, armed, empty_context}
use east.IoManager.{IoManager}
use east.IoManager.Idle.{Flags, ready, handle}
use east.IoManager.Armed.{IsCoherent, new_context-IsCoherent}
use east.IoManager.Kept.{IsKept, total, mask, events_of, context_or_new}
use east.IoManager.Changes.{Changes}
use east.IoManager.Ready.{handle_lem}

abbrev Table : Type 0
Table = ℕ → Option Events

registers : Table → CtlOp → ℕ → Events → ℕ → Option Events
registers k op fd events x = if x == fd then registered op events else k x

at_itself : (x : ℕ) → (x == x) ≡ true
at_itself x = ground arith

at_other : (x fd : ℕ) → x ≢ fd → (x == fd) ≡ false
at_other x fd h = ground arith

willing : Epoll Table
unfolding registers
willing = record {
  ctl = λ k op fd events. (true, registers k op fd events);
  interest = λ k fd. k fd;
  succeeds = λ k op fd events h. rw (at_itself fd) refl;
  leaves = λ k op fd events other h. rw (at_other other fd h) refl;
  fails = λ k op fd events h. cc (h);
}

-- Reading of descriptor 1 is waited for by fiber 9 of scheduler 5; the pipe is descriptor 0.
abbrev reading : FdContext
reading = record {
  fd = 1;
  reader = armed (some 5) 9 none;
  writer = empty_context;
  events = record { reads = true; writes = false };
}

abbrev manager : IoManager Table
manager = record {
  contexts = new_context 0 ∷ reading ∷ [];
  pending = 1;
  kernel = λ x. if x == 1 then some reading.events else none;
  calls = [];
}

manager-IsKept : IsKept willing 0 manager
unfolding willing total
manager-IsKept = record {
  coherent = coherent;
  mirrors = mirrors;
  beyond = beyond;
  counted = refl;
  roomy = omega arith;
  sized = omega arith;
}
  where
    coherent : (fd : ℕ) (c : FdContext) → get_elem? manager.contexts fd ≡ some c → IsCoherent fd c
    coherent zero c h =
        let same : new_context 0 ≡ c = cc (h) in
        subst (IsCoherent 0) same (new_context-IsCoherent 0)
    coherent (suc zero) c h =
        let same : reading ≡ c = cc (h) in
        subst (IsCoherent 1) same
          (record { own = refl; reading = (5, 9, none, refl); writing = refl })
    coherent (suc (suc fd)) c h = cc (h)

    mirrors :
        (fd : ℕ) (c : FdContext)
        → fd ≢ 0
        → get_elem? manager.contexts fd ≡ some c
        → manager.kernel fd ≡ mask c.events
    mirrors zero c other h = absurd (other refl)
    mirrors (suc zero) c other h =
        let same : reading ≡ c = cc (h) in ap (λ (y : FdContext). mask y.events) same
    mirrors (suc (suc fd)) c other h = cc (h)

    beyond : (fd : ℕ) → fd ≢ 0 → 2 ≤ fd → manager.kernel fd ≡ none
    beyond fd other h = rw (at_other fd 1 (λ k. omega (arith, k, h))) refl

-- The fiber that waits is scheduled.
abbrev resumed : List Call
resumed = (5, record { fiber = some 9; cb = none; thread = none }) ∷ []

abbrev hung_up : Flags
hung_up = record { readable = false; writeable = false; failed = true }

abbrev input : Flags
input = record { readable = true; writeable = false; failed = false }

handle_lem_example :
    Changes willing 0 1 manager
      (do m ← handle willing (ready 1 input) manager; ok (true, m))
      true
      no_events
      resumed
unfolding willing events_of context_or_new
handle_lem_example =
    handle_lem willing 0 manager manager-IsKept 1 input reading refl (λ h. h) (λ h. cc (h))

-- Writing of descriptor 1 is waited for by callback 7, and given up.
abbrev both : IoManager Table
both = record manager {
  contexts =
      new_context 0
      ∷ record reading {
        writer = armed (some 5) 9 (some 7);
        events = record { reads = true; writes = true };
      }
      ∷ [];
  pending = 2;
  kernel = registers manager.kernel ctl_mod 1 (record { reads = true; writes = true });
}

abbrev single : IoManager Table
single = record manager {
  kernel = registers both.kernel ctl_mod 1 (record { reads = true; writes = false });
  calls = (5, record { fiber = none; cb = some 7; thread = none }) ∷ [];
}
