-- ===== src/Hook.antt =====
-- East/src/Hook.cc: the calls of the system that give the thread back where they would block. What the
-- calls answer, and how a fiber that waits is resumed, are scripts.
pub mod Retries
pub mod Calls
pub mod Blocking
mod Tests
use east.Common.{
  ℕ, suc, ◌+◌, ◌*◌, ◌/◌, ◌%◌, ◌^◌, ◌-◌, Bool, true, false, not, ◌&&◌, ◌||◌, Option, none, some,
  List, [], ◌∷◌, if◌then◌else◌, ◌==◌, ltb,
}
use east.Common.Words.{add64}
use east.FdManager.{Flags, System, FileDescriptor, FdManager, found, put_fd, delete_fd}

pub data Errno : Type 0 where
  eintr eagain ebadf etimedout einprogress : Errno
  other : ℕ → Errno

-- What a call returns: a number, or -1 with `errno`.
pub data Answer : Type 0 where
  value : ℕ → Answer
  fails : Errno → Answer

-- What becomes of a fiber that calls `addEvent`: it is refused, with an `errno`, or it yields and is
-- resumed, by the timer or otherwise.
pub data Wake : Type 0 where
  refused : Errno → Wake
  woken timed_out : Wake

-- A hooked call that has returned, or one that still waits for an answer or to be resumed.
pub data Result : Type 0 where
  returned : Answer → Result
  waits : Result

-- What a call has done so far: calls of the original function, timers added and cancelled, yields.
pub record Trace : Type 0 where
  pub calls : ℕ
  pub timers : ℕ
  pub cancelled : ℕ
  pub yields : ℕ

abbrev pub no_trace : Trace
no_trace = record { calls = 0; timers = 0; cancelled = 0; yields = 0 }

abbrev pub called : Trace → Trace
called t = record t { calls = suc t.calls }

abbrev pub is_timed : Option ℕ → Bool
is_timed none = false
is_timed (some ms) = true

-- `addConditionTimer`, where there is a timeout, and `cancel`.
abbrev pub add_timer : Option ℕ → Trace → Trace
add_timer none t = t
add_timer (some ms) t = record t { timers = suc t.timers }

abbrev pub cancel_timer : Option ℕ → Trace → Trace
cancel_timer none t = t
cancel_timer (some ms) t = record t { cancelled = suc t.cancelled }

abbrev pub yielded : Trace → Trace
yielded t = record t { yields = suc t.yields }

-- `do_io` from the label `retry` on.
unfoldable pub retry : Option ℕ → List Answer → List Wake → Trace → Result × Trace
retry timeout [] ws t = (waits, t)
retry timeout (value n ∷ answers) ws t = (returned (value n), called t)
retry timeout (fails eintr ∷ answers) ws t = retry timeout answers ws (called t)
retry timeout (fails eagain ∷ answers) [] t = (waits, yielded (add_timer timeout (called t)))
retry timeout (fails eagain ∷ answers) (refused e ∷ ws) t =
    (returned (fails e), cancel_timer timeout (add_timer timeout (called t)))
retry timeout (fails eagain ∷ answers) (woken ∷ ws) t =
    retry timeout answers ws (cancel_timer timeout (yielded (add_timer timeout (called t))))
retry timeout (fails eagain ∷ answers) (timed_out ∷ ws) t =
    let t' = cancel_timer timeout (yielded (add_timer timeout (called t))) in
    let rest = retry timeout answers ws t' in
    if is_timed timeout then (returned (fails etimedout), t') else rest
retry timeout (fails e ∷ answers) ws t = (returned (fails e), called t)

-- The original function alone.
abbrev pub direct : List Answer → Result × Trace
direct [] = (waits, no_trace)
direct (a ∷ answers) = (returned a, called no_trace)

-- SO_RCVTIMEO and SO_SNDTIMEO.
pub data TimeoutSo : Type 0 where
  rcvtimeo sndtimeo : TimeoutSo

abbrev pub timeout_of : TimeoutSo → FileDescriptor → ℕ
timeout_of rcvtimeo f = f.recv_timeout
timeout_of sndtimeo f = f.send_timeout

-- All bits set is no timeout.
abbrev pub timer_of : ℕ → Option ℕ
timer_of ms = if ms == 2 ^ 64 - 1 then none else some ms

abbrev pub do_io_on : FileDescriptor → TimeoutSo → List Answer → List Wake → Result × Trace
do_io_on f so answers ws =
    if f.is_closed
    then (returned (fails ebadf), no_trace)
    else if not f.is_socket || f.user_non_block
    then direct answers
    else retry (timer_of (timeout_of so f)) answers ws no_trace

unfoldable pub do_io :
    Bool → Option FileDescriptor → TimeoutSo → List Answer → List Wake → Result × Trace
do_io false status so answers ws = direct answers
do_io true none so answers ws = direct answers
do_io true (some f) so answers ws = do_io_on f so answers ws

-- `setsockopt` with SO_RCVTIMEO or SO_SNDTIMEO and a time that is not negative.
abbrev pub with_timeout : TimeoutSo → ℕ → FileDescriptor → FileDescriptor
with_timeout rcvtimeo ms f = record f { recv_timeout = ms }
with_timeout sndtimeo ms f = record f { send_timeout = ms }

abbrev pub set_timeout_on :
    {K : Type 0} → Option FileDescriptor → ℕ → TimeoutSo → ℕ → FdManager K → FdManager K
set_timeout_on none fd so ms m = m
set_timeout_on (some f) fd so ms m = put_fd fd (with_timeout so ms f) m

unfoldable pub set_timeout : {K : Type 0} → Bool → ℕ → TimeoutSo → ℕ → ℕ → FdManager K → FdManager K
set_timeout false fd so sec usec m = m
set_timeout true fd so sec usec m =
    set_timeout_on (found fd m) fd so (add64 (sec * 1000 % 2 ^ 64) (usec / 1000)) m

-- A descriptor that `fcntl` and `ioctl` treat differently: an open socket.
abbrev pub is_open_socket : FileDescriptor → Bool
is_open_socket f = not f.is_closed && f.is_socket

module _ {K : Type 0} (sys : System K) where
  abbrev pub system_set : ℕ → Flags → FdManager K → Bool × FdManager K
  system_set fd flags m =
      let done = sys.set_flags m.kernel fd flags in (done.0, record m { kernel = done.1 })

  -- `fcntl` with F_SETFL.
  abbrev pub set_flags_on : Option FileDescriptor → ℕ → Flags → FdManager K → Bool × FdManager K
  set_flags_on none fd arg m = system_set fd arg m
  set_flags_on (some f) fd arg m =
      if is_open_socket f
      then system_set fd (record arg { non_block = f.sys_non_block })
          (put_fd fd (record f { user_non_block = arg.non_block }) m)
      else system_set fd arg m

  unfoldable pub fcntl_setfl : ℕ → Flags → FdManager K → Bool × FdManager K
  fcntl_setfl fd arg m = set_flags_on (found fd m) fd arg m

  -- `fcntl` with F_GETFL.
  abbrev pub shown : Option FileDescriptor → Flags → Flags
  shown none flags = flags
  shown (some f) flags =
      if is_open_socket f then record flags { non_block = f.user_non_block } else flags

  unfoldable pub fcntl_getfl : ℕ → FdManager K → Flags
  fcntl_getfl fd m = shown (found fd m) (sys.get_flags m.kernel fd)

  -- `ioctl` with FIONBIO, which sets O_NONBLOCK alone: the call goes to the system as it is.
  abbrev pub mark_user : Option FileDescriptor → ℕ → Bool → FdManager K → FdManager K
  mark_user none fd on m = m
  mark_user (some f) fd on m =
      if is_open_socket f then put_fd fd (record f { user_non_block = on }) m else m

  unfoldable pub ioctl_fionbio : ℕ → Bool → FdManager K → Bool × FdManager K
  ioctl_fionbio fd on m =
      system_set fd (record (sys.get_flags m.kernel fd) { non_block = on })
        (mark_user (found fd m) fd on m)
