-- ===== src/Hook/Calls.antt =====
-- East/src/Hook.cc: connect, sleep and close.
use native.Mathlib.Decide.{dec_le}
use east.Common.{
  zero, suc, ap, length, ◌≤◌, get_elem?, get_elem?_of_lt, get_elem?-set_self, arith, le→leb,
  lt→leb-false, ℕ, ◌*◌, ◌/◌, ◌%◌, ◌^◌, ◌≡◌, refl, Bool, true, false, not, ◌||◌, ◌&&◌, Option, none,
  some, List, [], ◌∷◌, ◌++◌, Outcome, ok, ◌>>=◌, if◌then◌else◌,
}
use east.Common.Words.{add64}
use east.FdManager.{FileDescriptor, FdManager, found, entry, delete_fd}
use east.IoManager.{IoManager, cancel_all}
use east.IoManager.Kernel.{Epoll, no_events, ctl_del}
use east.IoManager.Context.{any}
use east.IoManager.Kept.{IsKept, events_at, context_at}
use east.IoManager.Firing.{calls_of}
use east.IoManager.Members.{cancel_all_lem}
use east.Hook.{
  Errno, ebadf, etimedout, einprogress, Answer, value, fails, Wake, refused, woken, timed_out,
  Trace, no_trace, called, yielded, add_timer, cancel_timer, timer_of, is_timed,
}

-- What `getsockopt` with SO_ERROR answers: it fails, or gives the socket's error, none for 0.
pub data SockError : Type 0 where
  unread : Errno → SockError
  error : Option Errno → SockError

abbrev pub after_connect : SockError → Answer
after_connect (unread e) = fails e
after_connect (error none) = value 0
after_connect (error (some e)) = fails e

-- `connect_with_timeout` behind EINPROGRESS.
unfoldable pub await : Option ℕ → Wake → SockError → Trace → Answer × Trace
await timeout (refused e) err t = (fails e, cancel_timer timeout (add_timer timeout t))
await timeout woken err t =
    (after_connect err, cancel_timer timeout (yielded (add_timer timeout t)))
await timeout timed_out err t = (
  if is_timed timeout then fails etimedout else after_connect err,
  cancel_timer timeout (yielded (add_timer timeout t)),
)

abbrev pub connected : ℕ → Answer → Wake → SockError → Trace → Answer × Trace
connected timeout (fails einprogress) w err t = await (timer_of timeout) w err t
connected timeout answer w err t = (answer, t)

abbrev pub connect_on : FileDescriptor → ℕ → Answer → Wake → SockError → Answer × Trace
connect_on f timeout answer w err =
    if f.is_closed
    then (fails ebadf, no_trace)
    else if not f.is_socket || f.user_non_block
    then (answer, called no_trace)
    else connected timeout answer w err (called no_trace)

-- `answer` is that of the original `connect`, where it is called.
unfoldable pub connect_with_timeout :
    Bool → Option FileDescriptor → ℕ → Answer → Wake → SockError → Answer × Trace
connect_with_timeout false status timeout answer w err = (answer, called no_trace)
connect_with_timeout true none timeout answer w err = (fails ebadf, no_trace)
connect_with_timeout true (some f) timeout answer w err = connect_on f timeout answer w err

-- The timers that the hooked `sleep`, `usleep` and `nanosleep` add, in milliseconds. An `unsigned int` has
-- 32 bits.
unfoldable pub sleep_timer : ℕ → ℕ
sleep_timer seconds = seconds * 1000 % 2 ^ 32

unfoldable pub usleep_timer : ℕ → ℕ
usleep_timer usec = usec / 1000

unfoldable pub nanosleep_timer : ℕ → ℕ → ℕ
nanosleep_timer sec nsec = add64 (sec * 1000 % 2 ^ 64) (nsec / 1000000)

-- The hooked `close` of a descriptor, up to the original one, in a thread of the manager `io`.
module _ {K L : Type 0} (e : Epoll K) where
  abbrev pub close_found :
      Option FileDescriptor → ℕ → FdManager L → IoManager K → Outcome (FdManager L × IoManager K)
  close_found none fd m io = ok (m, io)
  close_found (some f) fd m io = do (done, io') ← cancel_all e fd io; ok (delete_fd fd m, io')

  unfoldable pub close : Bool → ℕ → FdManager L → IoManager K → Outcome (FdManager L × IoManager K)
  close false fd m io = ok (m, io)
  close true fd m io = close_found (found fd m) fd m io

found-delete_fd : {L : Type 0} (fd : ℕ) (m : FdManager L) → found fd (delete_fd fd m) ≡ none
unfolding delete_fd
found-delete_fd fd m = elim (dec_le (length m.fds) fd) [
  | yes h ↦ rw (le→leb (length m.fds) fd h) (ap entry (beyond m.fds fd h))
  | no h ↦
      let (x, here) = get_elem?_of_lt m.fds fd (omega (arith, h)) in
      rw (lt→leb-false (length m.fds) fd (omega (arith, h)))
        (ap entry (get_elem?-set_self m.fds fd none here))
]
  where
    beyond : (xs : List (Option FileDescriptor)) (i : ℕ) → length xs ≤ i → get_elem? xs i ≡ none
    beyond [] i h = refl
    beyond (x ∷ xs) zero h = absurd (omega arith)
    beyond (x ∷ xs) (suc i) h = beyond xs i (omega arith)

-- A descriptor in the table, of a manager with the invariant: `close` takes it out, keeps the invariant, and
-- schedules what waited for it if epoll takes the registration out.
pub close_lem :
    {K L : Type 0} (e : Epoll K) (pipe fd : ℕ) (f : FileDescriptor) (m : FdManager L)
    (io : IoManager K)
    → IsKept e pipe io
    → found fd m ≡ some f
    → (m' : FdManager L) × (io' : IoManager K) × (close e true fd m io ≡ ok (m', io'))
      × (found fd m' ≡ none)
      × IsKept e pipe io'
      × (io'.calls ≡ (
          if any (events_at fd io) && (e.ctl io.kernel ctl_del fd no_events).0
          then io.calls ++ calls_of (events_at fd io) (context_at fd io)
          else io.calls))
unfolding close
close_lem e pipe fd f m io v h =
    let c = cancel_all_lem e pipe io v fd in
    (delete_fd fd m, c.result, rw (h, c.runs) refl, found-delete_fd fd m, c.kept, c.scheduled)
