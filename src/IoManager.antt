-- ===== src/IoManager.antt =====
-- East/src/IOManager.cc: the events that a descriptor waits for, and what happens to them. epoll is the
-- kernel's, and is the parameter `e`; a member is one step, under the lock of its descriptor.
pub mod Kernel
pub mod Context
pub mod Timeout
pub mod Idle
pub mod Armed
pub mod Kept
pub mod Firing
pub mod Changes
pub mod Taken
pub mod Members
pub mod Waits
pub mod Ready
mod Tests
use east.Common.{
  ℕ, zero, suc, ◌+◌, ◌*◌, ◌/◌, ◌-◌, Bool, true, false, not, ◌&&◌, ◌||◌, Option, none, some, List,
  [], ◌∷◌, ◌++◌, Outcome, ok, throws, undefined, ◌>>=◌, if◌then◌else◌, ltb, leb, length, take,
  get_elem?, set,
}
use east.Common.Words.{add64, sub64}
use east.IoManager.Kernel.{Epoll, Events, no_events, CtlOp, ctl_add, ctl_mod, ctl_del}
use east.IoManager.Context.{
  Event, read, write, FdContext, EventContext, Call, has, with, without, any, trigger_event, arm,
  new_context, set_context, empty_context,
}

-- `contexts` are the contexts that `m_fdContexts` points to, by descriptor; `calls` are the calls of
-- `schedule` so far.
pub record IoManager (K : Type 0) : Type 0 where
  pub contexts : List FdContext
  pub pending : ℕ
  pub kernel : K
  pub calls : List Call

-- The contexts that a resize makes, from descriptor `fd` on.
abbrev pub fresh_contexts : ℕ → ℕ → List FdContext
fresh_contexts fd zero = []
fresh_contexts fd (suc count) = new_context fd ∷ fresh_contexts (suc fd) count

-- `m_fdContexts.resize(sz)` and the loop that fills it.
abbrev pub resized : ℕ → List FdContext → List FdContext
resized sz contexts = take sz contexts ++ fresh_contexts (length contexts) (sz - length contexts)

-- The operation for the events that are left.
abbrev pub left_op : Events → CtlOp
left_op events = if any events then ctl_mod else ctl_del

abbrev pub got : Option FdContext → Outcome FdContext
got none = throws undefined
got (some c) = ok c

module _ {K : Type 0} where
  unfoldable pub context_resize : ℕ → IoManager K → IoManager K
  context_resize sz m = record m { contexts = resized sz m.contexts }

  -- It keeps the size growing only if the caller's size is above the current one.
  unfoldable pub safe_context_resize : ℕ → IoManager K → IoManager K
  safe_context_resize sz m =
      if leb sz (length m.contexts) then record m { contexts = take sz m.contexts } else record m {
        contexts = m.contexts ++ fresh_contexts (length m.contexts) (sz - length m.contexts);
      }

  -- `m_fdContexts[fd]`.
  abbrev pub at : ℕ → IoManager K → Outcome FdContext
  at fd m = got (get_elem? m.contexts fd)

  abbrev pub put : ℕ → FdContext → IoManager K → IoManager K
  put fd c m = record m { contexts = set m.contexts fd c }

  -- The first lines of `addEvent`: the array grows to `fd * 1.5`, rounded down.
  abbrev pub make_room : ℕ → IoManager K → IoManager K
  make_room fd m = if ltb fd (length m.contexts) then m else safe_context_resize (fd * 3 / 2) m

  module _ (e : Epoll K) where
    abbrev pub ctl : CtlOp → ℕ → Events → IoManager K → Bool × IoManager K
    ctl op fd events m =
        ((e.ctl m.kernel op fd events).0, record m { kernel = (e.ctl m.kernel op fd events).1 })

    -- `addEvent` behind `epoll_ctl`.
    unfoldable pub add_armed :
        ℕ → Event → Option ℕ → ℕ → Option ℕ → FdContext → IoManager K → Outcome (Bool × IoManager K)
    add_armed fd event scheduler this_fiber cb c m = do
      c' ← arm event scheduler this_fiber cb c
      ok (true, put fd c' (record m { pending = add64 m.pending 1 }))

    -- `addEvent` with the context of the descriptor.
    unfoldable pub add_to :
        ℕ → Event → Option ℕ → ℕ → Option ℕ → FdContext → IoManager K → Outcome (Bool × IoManager K)
    add_to fd event scheduler this_fiber cb c m =
        let op = if any c.events then ctl_mod else ctl_add in
        let called = ctl op fd (with c.events event) m in
        if has c.events event
        then ok (false, m)
        else if called.0
        then add_armed fd event scheduler this_fiber cb c called.1
        else ok (false, called.1)

    -- `addEvent(fd, event, cb)` for a descriptor that is not negative: true is the return value 0.
    unfoldable pub add_event :
        ℕ → Event → Option ℕ → ℕ → Option ℕ → IoManager K → Outcome (Bool × IoManager K)
    add_event fd event scheduler this_fiber cb m = do
      c ← at fd (make_room fd m)
      add_to fd event scheduler this_fiber cb c (make_room fd m)

    unfoldable pub remove_from : ℕ → Event → FdContext → IoManager K → Outcome (Bool × IoManager K)
    remove_from fd event c m =
        let left = without c.events event in
        let called = ctl (left_op left) fd left m in
        let c' = set_context event empty_context (record c { events = left }) in
        if not (has c.events event)
        then ok (false, m)
        else if called.0
        then ok (true, put fd c' (record called.1 { pending = sub64 m.pending 1 }))
        else ok (false, called.1)

    unfoldable pub remove_event : ℕ → Event → IoManager K → Outcome (Bool × IoManager K)
    remove_event fd event m =
        if leb (length m.contexts) fd
        then ok (false, m)
        else do c ← at fd m; remove_from fd event c m

    -- `triggerEvent` of the context of `fd`, and `--m_pendingEventCount`.
    unfoldable pub trigger : ℕ → Event → IoManager K → Outcome (IoManager K)
    trigger fd event m = do
      c ← at fd m
      (c', calls) ← trigger_event event c
      ok (record m {
        contexts = set m.contexts fd c';
        pending = sub64 m.pending 1;
        calls = m.calls ++ calls;
      })

    unfoldable pub cancel_from : ℕ → Event → FdContext → IoManager K → Outcome (Bool × IoManager K)
    cancel_from fd event c m =
        let left = without c.events event in
        let called = ctl (left_op left) fd left m in
        if not (has c.events event)
        then ok (false, m)
        else if called.0
        then (do m' ← trigger fd event called.1; ok (true, m'))
        else ok (false, called.1)

    unfoldable pub cancel_event : ℕ → Event → IoManager K → Outcome (Bool × IoManager K)
    cancel_event fd event m =
        if leb (length m.contexts) fd
        then ok (false, m)
        else do c ← at fd m; cancel_from fd event c m

    abbrev pub trigger_if : Bool → ℕ → Event → IoManager K → Outcome (IoManager K)
    trigger_if true fd event m = trigger fd event m
    trigger_if false fd event m = ok m

    -- `if (fd_ctx->events & event) { triggerEvent(event); --m_pendingEventCount; }`.
    unfoldable pub trigger_held : ℕ → Event → IoManager K → Outcome (IoManager K)
    trigger_held fd event m = do c ← at fd m; trigger_if (has c.events event) fd event m

    unfoldable pub trigger_both : ℕ → IoManager K → Outcome (Bool × IoManager K)
    trigger_both fd m = do m1 ← trigger_held fd read m; m2 ← trigger_held fd write m1; ok (true, m2)

    unfoldable pub cancel_all_from : ℕ → FdContext → IoManager K → Outcome (Bool × IoManager K)
    cancel_all_from fd c m =
        let called = ctl ctl_del fd no_events m in
        if not (any c.events)
        then ok (false, m)
        else if called.0
        then trigger_both fd called.1
        else ok (false, called.1)

    unfoldable pub cancel_all : ℕ → IoManager K → Outcome (Bool × IoManager K)
    cancel_all fd m =
        if leb (length m.contexts) fd then ok (false, m) else do c ← at fd m; cancel_all_from fd c m
