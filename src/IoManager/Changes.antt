-- ===== src/IoManager/Changes.antt =====
-- What `addEvent`, `removeEvent`, `cancelEvent` and `cancelAll` of East/src/IOManager.cc do to the events
-- of every descriptor, and what they schedule.
use mathlib.Core.List.{append-nil}
use east.Common.{
  ℕ, ◌+◌, ◌-◌, ◌^◌, ◌<◌, ◌≡◌, refl, sym, ap, ◌∙◌, Bool, true, false, ◌&&◌, not, ◌⊎◌, inl, inr,
  Option, some, List, [], ◌++◌, if◌then◌else◌, ◌==◌, arith, get_elem?, set, get_elem?-set_other,
  Outcome, ok, Bool-cases,
}
use east.Common.Words.{add64, add64-no_wrap}
use east.IoManager.Kernel.{Epoll, Events, CtlOp, ctl_add, ctl_mod, registered}
use east.IoManager.Context.{Event, nothing, read, write, FdContext, Call, has, with, without, any}
use east.IoManager.{IoManager, left_op, add_armed, add_to, ctl}
use east.IoManager.Armed.{arm-Arms}
use east.IoManager.Kept.{
  IsKept, total-le, count, mask, events_of, events_at, context_or_new, context_at, replaced-IsKept,
  failed-IsKept, events_at-replaced,
}

-- A member that returns `done`: if it is true the events of `fd` are `new` and `calls` have been scheduled, and
-- otherwise no context has changed, of no descriptor, and nothing has been scheduled; the contexts of the other
-- descriptors are as before. One without a context counts as a new one.
pub record Changes {K : Type 0} (e : Epoll K) (pipe fd : ℕ) (m : IoManager K)
    (out : Outcome (Bool × IoManager K)) (done : Bool) (new : Events) (calls : List Call)
    : Type 0 where
  pub result : IoManager K
  pub runs : out ≡ ok (done, result)
  pub kept : IsKept e pipe result
  pub events : (x : ℕ) → events_at x result ≡ (if done && (x == fd) then new else events_at x m)
  pub others :
      (x : ℕ) → (if done && (x == fd) then context_at x m else context_at x result) ≡ context_at x m
  pub scheduled : result.calls ≡ (if done then m.calls ++ calls else m.calls)

count-with :
    (events : Events) (event : Event)
    → (event ≡ read) ⊎ (event ≡ write)
    → has events event ≡ false
    → count (with events event) ≡ count events + 1
count-with events nothing (inl k) h = cc (k)
count-with events nothing (inr k) h = cc (k)
count-with events read k h = ground arith
count-with events write k h = ground arith

pub count-without :
    (events : Events) (event : Event)
    → has events event ≡ true
    → count (without events event) + 1 ≡ count events
count-without events nothing h = cc (h)
count-without events read h = ground arith
count-without events write h = ground arith

any-with :
    (events : Events) (event : Event)
    → (event ≡ read) ⊎ (event ≡ write)
    → any (with events event) ≡ true
any-with events nothing (inl k) = cc (k)
any-with events nothing (inr k) = cc (k)
any-with events read k = refl
any-with events write k = ground arith

pub registered-left : (events : Events) → registered (left_op events) events ≡ mask events
registered-left events = elim (Bool-cases (any events)) [
  | inl h ↦ rw (h) refl
  | inr h ↦ rw (h) refl
]

module _ {K : Type 0} (e : Epoll K) (pipe : ℕ) (m : IoManager K) (v : IsKept e pipe m) where
  -- Where nothing is done, with the kernel as it was or as a failed call leaves it.
  pub unchanged :
      (fd : ℕ) (new : Events) (calls : List Call)
      → Changes e pipe fd m (ok (false, m)) false new calls
  unchanged fd new calls = record {
    result = m;
    runs = refl;
    kept = v;
    events = λ x. refl;
    others = λ x. refl;
    scheduled = refl;
  }

  pub after_failure :
      (fd : ℕ) (op : CtlOp) (passed new : Events) (calls : List Call)
      → (e.ctl m.kernel op fd passed).0 ≡ false
      → Changes e pipe fd m (ok (false, (ctl e op fd passed m).1)) false new calls
  after_failure fd op passed new calls failed = record {
    result = (ctl e op fd passed m).1;
    runs = refl;
    kept = failed-IsKept e pipe m v fd op passed failed;
    events = λ x. refl;
    others = λ x. refl;
    scheduled = refl;
  }

  pub few : m.pending < 2 ^ 64 - 1
  few = omega (arith, v.counted, v.sized, total-le m.contexts)

  -- The events after the context of `fd` has got those that are `new`.
  pub events_new :
      (fd x : ℕ) (c c' : FdContext) (new : Events)
      → get_elem? m.contexts fd ≡ some c
      → c'.events ≡ new
      → events_of (get_elem? (set m.contexts fd c') x)
        ≡ (if true && (x == fd) then new else events_at x m)
  events_new fd x c c' new here same =
      events_at-replaced e pipe m v fd x c c' here
      ∙ ap (λ (y : Events). if x == fd then y else events_at x m) same

  -- The other contexts after that of `fd` has been replaced.
  pub others_kept :
      (fd x : ℕ) (c' : FdContext)
      → (if true && (x == fd)
          then context_at x m
          else context_or_new x (get_elem? (set m.contexts fd c') x))
        ≡ context_at x m
  others_kept fd x c' = elim (Bool-cases (x == fd)) [
    | inl k ↦ rw (k) refl
    | inr k ↦ rw (k, get_elem?-set_other m.contexts fd x c' (different k)) refl
  ]
    where
      different : (x == fd) ≡ false → x ≡ fd → ⊥
      different k h = ground arith

  pub add_to-Changes :
      (fd : ℕ) (event : Event) (s fiber : ℕ) (cb : Option ℕ) (c : FdContext)
      → get_elem? m.contexts fd ≡ some c
      → (event ≡ read) ⊎ (event ≡ write)
      → Changes e pipe fd m
          (add_to e fd event (some s) fiber cb c m)
          (not (has c.events event)
            && (e.ctl m.kernel
                (if any c.events then ctl_mod else ctl_add)
                fd
                (with c.events event)).0)
          (with c.events event)
          []
  unfolding add_to add_armed
  add_to-Changes fd event s fiber cb c here one = elim (Bool-cases (has c.events event)) [
    | inl h ↦ rw (h) (unchanged fd (with c.events event) [])
    | inr h ↦ elim (Bool-cases (e.ctl m.kernel op fd (with c.events event)).0) [
      | inr failed ↦
          rw (h, failed) (after_failure fd op (with c.events event) (with c.events event) [] failed)
      | inl done ↦
          let a = arm-Arms event fd s fiber cb c (v.coherent fd c here) one h in
          rw (h, done)
            (record {
              result = record {
                contexts = set m.contexts fd a.result;
                pending = add64 m.pending 1;
                kernel = (e.ctl m.kernel op fd (with c.events event)).1;
                calls = m.calls;
              };
              runs = rw (a.runs) refl;
              kept =
                  replaced-IsKept e pipe m v fd op (with c.events event) c a.result
                    (add64 m.pending 1) m.calls here done
                    (op_registers (any c.events) ∙ ap mask (sym a.events)) a.coherent
                    (omega (
                      arith,
                      add64-no_wrap m.pending 1 (omega (arith, few)),
                      count-with c.events event one h,
                      ap count a.events,
                    ));
              events = λ x. events_new fd x c a.result (with c.events event) here a.events;
              others = λ x. others_kept fd x a.result;
              scheduled = sym (append-nil m.calls);
            })
    ]
  ]
    where
      op : CtlOp
      op = if any c.events then ctl_mod else ctl_add

      op_registers :
          (b : Bool)
          → registered (if b then ctl_mod else ctl_add) (with c.events event)
            ≡ mask (with c.events event)
      op_registers true = rw (any-with c.events event one) refl
      op_registers false = rw (any-with c.events event one) refl
