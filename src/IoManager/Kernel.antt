-- ===== src/IoManager/Kernel.antt =====
-- What East/src/IOManager.cc relies on from `epoll_ctl`, and the event masks that it passes.
use east.Common.{ℕ, ◌≡◌, ◌≢◌, Bool, true, false, Option, none, some}

-- A mask of IOManager::Event: the flags READ and WRITE, which are EPOLLIN and EPOLLOUT.
pub record Events : Type 0 where
  pub reads : Bool
  pub writes : Bool

abbrev pub no_events : Events
no_events = record { reads = false; writes = false }

-- EPOLL_CTL_ADD, EPOLL_CTL_MOD and EPOLL_CTL_DEL.
pub data CtlOp : Type 0 where
  ctl_add ctl_mod ctl_del : CtlOp

-- What a call that succeeds leaves registered.
abbrev pub registered : CtlOp → Events → Option Events
registered ctl_add events = some events
registered ctl_mod events = some events
registered ctl_del events = none

-- The kernel's side of an epoll descriptor: `ctl` answers whether it succeeded, and `interest` is what is
-- registered for a descriptor. Which calls succeed is not said.
pub record Epoll (K : Type 0) : Type 0 where
  pub ctl : K → CtlOp → ℕ → Events → Bool × K
  pub interest : K → ℕ → Option Events
  pub succeeds :
      (k : K) (op : CtlOp) (fd : ℕ) (events : Events)
      → (ctl k op fd events).0 ≡ true
      → interest (ctl k op fd events).1 fd ≡ registered op events
  pub leaves :
      (k : K) (op : CtlOp) (fd : ℕ) (events : Events) (other : ℕ)
      → other ≢ fd
      → interest (ctl k op fd events).1 other ≡ interest k other
  pub fails :
      (k : K) (op : CtlOp) (fd : ℕ) (events : Events)
      → (ctl k op fd events).0 ≡ false
      → interest (ctl k op fd events).1 fd ≡ interest k fd
