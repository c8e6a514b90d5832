-- ===== src/IoManager/Kept.antt =====
-- The invariant of East/src/IOManager.cc and what changes it: the contexts are coherent, epoll has the
-- events that they wait for, and the counter is their number.
pub mod Room
use mathlib.Core.Path.{subst}
use native.Mathlib.Decide.{ℕ_discrete}
use east.Common.{
  ℕ, zero, suc, ◌+◌, ◌-◌, ◌*◌, ◌^◌, ◌≤◌, ◌<◌, ◌≡◌, ◌≢◌, refl, sym, ap, ◌∙◌, Bool, true, false, ◌||◌,
  ◌&&◌, not, Option, none, some, List, [], ◌∷◌, ◌++◌, if◌then◌else◌, ◌==◌, arith, length, get_elem?,
  set, get_elem?-set_self, get_elem?-set_other, length-set, get_elem?-lt,
}
use east.IoManager.Kernel.{Epoll, Events, no_events, CtlOp, ctl_add, ctl_mod, ctl_del, registered}
use east.IoManager.Context.{
  Event, nothing, read, write, FdContext, new_context, Call, has, with, without, any,
}
use east.IoManager.{IoManager, left_op}
use east.IoManager.Armed.{IsCoherent}

abbrev pub flag : Bool → ℕ
flag true = 1
flag false = 0

-- How many events a mask waits for.
abbrev pub count : Events → ℕ
count events = flag events.reads + flag events.writes

unfoldable pub total : List FdContext → ℕ
total [] = 0
total (c ∷ cs) = count c.events + total cs

-- What epoll has for a mask.
abbrev pub mask : Events → Option Events
mask events = if any events then some events else none

unfoldable pub events_of : Option FdContext → Events
events_of none = no_events
events_of (some c) = c.events

-- The events that a descriptor waits for: none outside the array.
abbrev pub events_at : {K : Type 0} → ℕ → IoManager K → Events
events_at fd m = events_of (get_elem? m.contexts fd)

unfoldable pub context_or_new : ℕ → Option FdContext → FdContext
context_or_new fd none = new_context fd
context_or_new fd (some c) = c

-- The context of a descriptor: a new one outside the array.
abbrev pub context_at : {K : Type 0} → ℕ → IoManager K → FdContext
context_at fd m = context_or_new fd (get_elem? m.contexts fd)

-- The pipe of `tickle` is registered without a context, and left out.
pub record IsKept {K : Type 0} (e : Epoll K) (pipe : ℕ) (m : IoManager K) : Type 0 where
  pub coherent : (fd : ℕ) (c : FdContext) → get_elem? m.contexts fd ≡ some c → IsCoherent fd c
  pub mirrors :
      (fd : ℕ) (c : FdContext)
      → fd ≢ pipe
      → get_elem? m.contexts fd ≡ some c
      → e.interest m.kernel fd ≡ mask c.events
  pub beyond : (fd : ℕ) → fd ≢ pipe → length m.contexts ≤ fd → e.interest m.kernel fd ≡ none
  pub counted : m.pending ≡ total m.contexts
  pub roomy : 2 ≤ length m.contexts
  pub sized : length m.contexts < 2 ^ 32

pub total-set :
    (cs : List FdContext) (i : ℕ) (v c : FdContext)
    → get_elem? cs i ≡ some c
    → total (set cs i v) + count c.events ≡ total cs + count v.events
unfolding total
total-set [] i v c h = cc (h)
total-set (d ∷ ds) zero v c h = let e : d ≡ c = cc (h) in rw (e) (omega arith)
total-set (d ∷ ds) (suc i) v c h = omega (arith, total-set ds i v c h)

pub count-le-total :
    (cs : List FdContext) (i : ℕ) {c : FdContext}
    → get_elem? cs i ≡ some c
    → count c.events ≤ total cs
unfolding total
count-le-total [] i h = cc (h)
count-le-total (d ∷ ds) zero {c} h = let e : d ≡ c = cc (h) in rw (← e) (omega arith)
count-le-total (d ∷ ds) (suc i) {c} h = omega (arith, count-le-total ds i {c = c} h)

pub total-le : (cs : List FdContext) → total cs ≤ 2 * length cs
unfolding total
total-le [] = omega arith
total-le (c ∷ cs) = omega (arith, total-le cs, small c.events)
  where
    small : (events : Events) → count events ≤ 2
    small events = ground arith

module _ {K : Type 0} (e : Epoll K) (pipe : ℕ) (m : IoManager K) (v : IsKept e pipe m) where
  -- A successful call of `epoll_ctl` with the context written back that it is for.
  pub replaced-IsKept :
      (fd : ℕ) (op : CtlOp) (passed : Events) (c c' : FdContext) (pending : ℕ) (calls : List Call)
      → get_elem? m.contexts fd ≡ some c
      → (e.ctl m.kernel op fd passed).0 ≡ true
      → registered op passed ≡ mask c'.events
      → IsCoherent fd c'
      → pending + count c.events ≡ m.pending + count c'.events
      → IsKept e pipe (record {
        contexts = set m.contexts fd c';
        pending = pending;
        kernel = (e.ctl m.kernel op fd passed).1;
        calls = calls;
      })
  replaced-IsKept fd op passed c c' pending calls here done same coherent counts = record {
    coherent = λ x d at. elim (ℕ_discrete x fd) [
      | yes k ↦ coherent_here x d k at
      | no k ↦ v.coherent x d (sym (get_elem?-set_other m.contexts fd x c' k) ∙ at)
    ];
    mirrors = λ x d other at. elim (ℕ_discrete x fd) [
      | yes k ↦ mirrors_here x d k at
      | no k ↦
          e.leaves m.kernel op fd passed x k
          ∙ v.mirrors x d other (sym (get_elem?-set_other m.contexts fd x c' k) ∙ at)
    ];
    beyond = λ x other h.
        e.leaves m.kernel op fd passed x (λ k. outside x k h)
        ∙ v.beyond x other (omega (arith, length-set m.contexts fd c'));
    counted = omega (arith, total-set m.contexts fd c' c here, v.counted);
    roomy = omega (arith, length-set m.contexts fd c', v.roomy);
    sized = omega (arith, length-set m.contexts fd c', v.sized);
  }
    where
      written :
          (x : ℕ) (d : FdContext) → x ≡ fd → get_elem? (set m.contexts fd c') x ≡ some d → c' ≡ d
      written x d k at = cc (get_elem?-set_self m.contexts fd c' here, k, at)

      coherent_here :
          (x : ℕ) (d : FdContext)
          → x ≡ fd
          → get_elem? (set m.contexts fd c') x ≡ some d
          → IsCoherent x d
      coherent_here x d k at =
          subst (λ y. IsCoherent y d) (sym k) (subst (IsCoherent fd) (written x d k at) coherent)

      mirrors_here :
          (x : ℕ) (d : FdContext)
          → x ≡ fd
          → get_elem? (set m.contexts fd c') x ≡ some d
          → e.interest (e.ctl m.kernel op fd passed).1 x ≡ mask d.events
      mirrors_here x d k at =
          ap (e.interest (e.ctl m.kernel op fd passed).1) k
          ∙ e.succeeds m.kernel op fd passed done
          ∙ same
          ∙ ap (λ (y : FdContext). mask y.events) (written x d k at)

      outside : (x : ℕ) → x ≡ fd → length (set m.contexts fd c') ≤ x → ⊥
      outside x k h = omega (arith, length-set m.contexts fd c', get_elem?-lt m.contexts fd here)

  -- A call that fails changes nothing that is registered.
  pub failed-IsKept :
      (fd : ℕ) (op : CtlOp) (passed : Events)
      → (e.ctl m.kernel op fd passed).0 ≡ false
      → IsKept e pipe (record m { kernel = (e.ctl m.kernel op fd passed).1 })
  failed-IsKept fd op passed failed = record {
    coherent = v.coherent;
    mirrors = λ x d other at. same x ∙ v.mirrors x d other at;
    beyond = λ x other h. same x ∙ v.beyond x other h;
    counted = v.counted;
    roomy = v.roomy;
    sized = v.sized;
  }
    where
      same : (x : ℕ) → e.interest (e.ctl m.kernel op fd passed).1 x ≡ e.interest m.kernel x
      same x = elim (ℕ_discrete x fd) [
        | yes k ↦ rw (k) (e.fails m.kernel op fd passed failed)
        | no k ↦ e.leaves m.kernel op fd passed x k
      ]

  -- The events of every descriptor, after the context of one has been replaced.
  pub events_at-replaced :
      (fd x : ℕ) (c c' : FdContext)
      → get_elem? m.contexts fd ≡ some c
      → events_of (get_elem? (set m.contexts fd c') x)
        ≡ (if x == fd then c'.events else events_at x m)
  unfolding events_of
  events_at-replaced fd x c c' here = elim (ℕ_discrete x fd) [
    | yes k ↦ rw (equal x fd k) (rw (k, get_elem?-set_self m.contexts fd c' here) refl)
    | no k ↦ rw (different x fd k, get_elem?-set_other m.contexts fd x c' k) refl
  ]
    where
      equal : (x fd : ℕ) → x ≡ fd → (x == fd) ≡ true
      equal x fd h = ground arith

      different : (x fd : ℕ) → (x ≡ fd → ⊥) → (x == fd) ≡ false
      different x fd h = ground arith
