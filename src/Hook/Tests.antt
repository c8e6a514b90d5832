-- ===== src/Hook/Tests.antt =====
-- Calls on descriptor 1, a socket, of East/src/Hook.cc.
use east.Common.{
  ◌^◌, ◌-◌, ◌≡◌, refl, Bool, true, false, Option, none, some, [], ◌∷◌, arith, Outcome, ok, ◌>>=◌,
}
use east.Common.Words.{add64}
use east.FdManager.{System, FileDescriptor, FdManager, get_fd, create_fd, new_fd, delete_fd, found}
use east.Hook.{
  eintr, eagain, value, fails, woken, timed_out, returned, etimedout, do_io, retry, rcvtimeo,
  set_timeout, ioctl_fionbio,
}
use east.Hook.Retries.{do_io_lem}
use east.Hook.Blocking.{ioctl_blocks}

abbrev socket : FileDescriptor
socket = record {
  is_init = true;
  is_socket = true;
  sys_non_block = true;
  user_non_block = false;
  is_closed = false;
  fd = 1;
  recv_timeout = 500;
  send_timeout = 2 ^ 64 - 1;
}

-- A system that knows of one descriptor only.
abbrev single : System Bool
single = record {
  stat = λ k fd. some true;
  get_flags = λ k fd. record { non_block = k; others = 0 };
  set_flags = λ k fd flags. (true, flags.non_block);
  remembers = λ k fd flags h. refl;
}

abbrev table : FdManager Bool
table = record { fds = none ∷ some socket ∷ []; kernel = true }

-- Two waits and an interruption, and then seven bytes.
do_io_lem_example :
    do_io true
      (some socket)
      rcvtimeo
      (fails eagain ∷ fails eintr ∷ fails eagain ∷ value 7 ∷ [])
      (woken ∷ woken ∷ [])
    ≡ (returned (value 7), record { calls = 4; timers = 2; cancelled = 2; yields = 2 })
do_io_lem_example =
    do_io_lem socket rcvtimeo (fails eagain ∷ fails eintr ∷ fails eagain ∷ []) (value 7) []
      (woken ∷ woken ∷ []) refl refl refl (refl, (refl, (refl, tt))) refl (refl, (refl, tt))
      (omega arith)

-- A time of zero, which is no timeout for the system, is a timer of zero milliseconds here.
zero_timeout_run :
    do_io true
      (found 1 (set_timeout true 1 rcvtimeo 0 0 table))
      rcvtimeo
      (fails eagain ∷ value 7 ∷ [])
      (timed_out ∷ [])
    ≡ (returned (fails etimedout), record { calls = 1; timers = 1; cancelled = 1; yields = 1 })
unfolding do_io retry set_timeout add64
zero_timeout_run = refl

ioctl_run : (single.get_flags (ioctl_fionbio single 1 false table).1.kernel 1).non_block ≡ false
unfolding ioctl_fionbio
ioctl_run = (ioctl_blocks single table 1 socket refl refl refl refl).0

-- A descriptor that is looked up, made, found again, and deleted.
made : Outcome (Option FileDescriptor × Option FileDescriptor)
unfolding get_fd create_fd new_fd delete_fd
made = do
  (f, m) ← get_fd single 0 true table
  (g, n) ← get_fd single 0 false m
  (h, o) ← get_fd single 1 false (delete_fd 1 n)
  ok (g, h)

made_run : made ≡ ok (some (record socket { fd = 0; recv_timeout = 2 ^ 64 - 1 }), none)
unfolding made
made_run = refl
