-- ===== src/Hook/Blocking.antt =====
-- O_NONBLOCK as the user of East/src/Hook.cc sees it, and as the system has it.
use east.Common.{ℕ, ◌≡◌, refl, Bool, true, false, some, get_elem?, get_elem?-set_self}
use east.FdManager.{System, FileDescriptor, FdManager, found}
use east.Hook.{is_open_socket, ioctl_fionbio}

module _ {K : Type 0} (sys : System K) (m : FdManager K) (fd : ℕ) (f : FileDescriptor) where
  abbrev marked : Bool → FileDescriptor
  marked on = record f { user_non_block = on }

  -- For the same socket `ioctl` with FIONBIO and 0, when it has succeeded, leaves the system with O_NONBLOCK cleared, though
  -- the library goes on to take the socket for non-blocking.
  pub ioctl_blocks :
      get_elem? m.fds fd ≡ some (some f)
      → is_open_socket f ≡ true
      → f.sys_non_block ≡ true
      → (ioctl_fionbio sys fd false m).0 ≡ true
      → ((sys.get_flags (ioctl_fionbio sys fd false m).1.kernel fd).non_block ≡ false)
        × (found fd (ioctl_fionbio sys fd false m).1 ≡ some (marked false))
        × ((marked false).sys_non_block ≡ true)
  unfolding ioctl_fionbio
  ioctl_blocks here opened ours =
      rw (here, opened)
        (λ done. (
          sys.remembers m.kernel fd (record (sys.get_flags m.kernel fd) { non_block = false }) done,
          rw (get_elem?-set_self m.fds fd (some (marked false)) here) refl,
          ours,
        ))
