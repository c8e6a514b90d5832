-- ===== src/Hook/Retries.antt =====
-- The retries of `do_io` of East/src/Hook.cc.
use east.Common.{
  ℕ, suc, ◌+◌, ◌≤◌, ◌≡◌, refl, ap, ◌∙◌, Bool, true, false, not, ◌||◌, Option, none, some, List, [],
  ◌∷◌, ◌++◌, arith, All, length, if◌then◌else◌,
}
use east.FdManager.{FileDescriptor}
use east.Hook.{
  eintr, eagain, ebadf, etimedout, einprogress, other, Answer, value, fails, Wake, refused, woken,
  timed_out, Result, returned, Trace, retry, do_io, TimeoutSo, timeout_of, timer_of, no_trace,
}

-- An answer after which the call is made again.
abbrev pub is_retried : Answer → Bool
is_retried (fails eintr) = true
is_retried (fails eagain) = true
is_retried _ = false

-- How many answers say that the call would block.
abbrev pub blocks : List Answer → ℕ
blocks [] = 0
blocks (fails eagain ∷ answers) = suc (blocks answers)
blocks (_ ∷ answers) = blocks answers

-- One timer for each of `n` waits, if there is a timeout.
abbrev pub timers_of : Option ℕ → ℕ → ℕ
timers_of none n = 0
timers_of (some ms) n = n

abbrev after : Option ℕ → List Answer → Trace → Trace
after timeout retried t = record {
  calls = t.calls + suc (length retried);
  timers = t.timers + timers_of timeout (blocks retried);
  cancelled = t.cancelled + timers_of timeout (blocks retried);
  yields = t.yields + blocks retried;
}

same_trace :
    {a b c d a' b' c' d' : ℕ}
    → a ≡ a'
    → b ≡ b'
    → c ≡ c'
    → d ≡ d'
    → ◌≡◌ {A = Trace}
        (record { calls = a; timers = b; cancelled = c; yields = d })
        (record { calls = a'; timers = b'; cancelled = c'; yields = d' })
same_trace p q r s = cc (p, q, r, s)

no_timers : (timeout : Option ℕ) → timers_of timeout 0 ≡ 0
no_timers none = refl
no_timers (some ms) = refl

retry-final :
    (timeout : Option ℕ) (final : Answer) (rest : List Answer) (ws : List Wake) (t : Trace)
    → is_retried final ≡ false
    → retry timeout (final ∷ rest) ws t ≡ (returned final, record t { calls = suc t.calls })
unfolding retry
retry-final timeout (value n) rest ws t h = refl
retry-final timeout (fails eintr) rest ws t h = cc (h)
retry-final timeout (fails eagain) rest ws t h = cc (h)
retry-final timeout (fails ebadf) rest ws t h = refl
retry-final timeout (fails etimedout) rest ws t h = refl
retry-final timeout (fails einprogress) rest ws t h = refl
retry-final timeout (fails (other n)) rest ws t h = refl

retry_lem :
    (timeout : Option ℕ) (retried : List Answer) (final : Answer) (rest : List Answer)
    (ws : List Wake) (t : Trace)
    → All (λ a. is_retried a ≡ true) retried
    → is_retried final ≡ false
    → All (λ w. w ≡ woken) ws
    → blocks retried ≤ length ws
    → retry timeout (retried ++ (final ∷ rest)) ws t ≡ (returned final, after timeout retried t)
unfolding retry
retry_lem timeout [] final rest ws t r h w enough =
    retry-final timeout final rest ws t h
    ∙ ap (λ (x : Trace). (returned final, x))
        (same_trace (omega arith) (omega (arith, no_timers timeout))
          (omega (arith, no_timers timeout)) (omega arith))
retry_lem timeout (fails eintr ∷ retried) final rest ws t r h w enough =
    retry_lem timeout retried final rest ws _ r.1 h w enough
    ∙ ap (λ (x : Trace). (returned final, x))
        (same_trace (omega arith) (omega arith) (omega arith) (omega arith))
retry_lem timeout (fails eagain ∷ retried) final rest [] t r h w enough =
    absurd (omega (arith, enough))
retry_lem timeout (fails eagain ∷ retried) final rest (refused e ∷ ws) t r h w enough = cc (w.0)
retry_lem timeout (fails eagain ∷ retried) final rest (timed_out ∷ ws) t r h w enough = cc (w.0)
retry_lem none (fails eagain ∷ retried) final rest (woken ∷ ws) t r h w enough =
    retry_lem none retried final rest ws _ r.1 h w.1 (omega (arith, enough))
    ∙ ap (λ (x : Trace). (returned final, x))
        (same_trace (omega arith) (omega arith) (omega arith) (omega arith))
retry_lem (some ms) (fails eagain ∷ retried) final rest (woken ∷ ws) t r h w enough =
    retry_lem (some ms) retried final rest ws _ r.1 h w.1 (omega (arith, enough))
    ∙ ap (λ (x : Trace). (returned final, x))
        (same_trace (omega arith) (omega arith) (omega arith) (omega arith))
retry_lem timeout (value n ∷ retried) final rest ws t r h w enough = cc (r.0)
retry_lem timeout (fails ebadf ∷ retried) final rest ws t r h w enough = cc (r.0)
retry_lem timeout (fails etimedout ∷ retried) final rest ws t r h w enough = cc (r.0)
retry_lem timeout (fails einprogress ∷ retried) final rest ws t r h w enough = cc (r.0)
retry_lem timeout (fails (other n) ∷ retried) final rest ws t r h w enough = cc (r.0)

chosen :
    (a b c : Bool) (x y z : Result × Trace)
    → a ≡ false
    → b ≡ true
    → c ≡ false
    → (if a then x else if not b || c then y else z) ≡ z
chosen a b c x y z h k l = rw (h, k, l) refl

-- In a hooked thread, on an open socket that its user did not make non-blocking: as long as every wait is ended
-- by the event and not by the timer, `do_io` calls the original function again behind every EINTR and
-- every EAGAIN, and returns the first other answer; it yields once for every EAGAIN, and has
-- cancelled every timer that it added, which is one for every EAGAIN if there is a timeout.
pub do_io_lem :
    (f : FileDescriptor) (so : TimeoutSo) (retried : List Answer) (final : Answer)
    (rest : List Answer) (ws : List Wake)
    → f.is_closed ≡ false
    → f.is_socket ≡ true
    → f.user_non_block ≡ false
    → All (λ a. is_retried a ≡ true) retried
    → is_retried final ≡ false
    → All (λ w. w ≡ woken) ws
    → blocks retried ≤ length ws
    → do_io true (some f) so (retried ++ (final ∷ rest)) ws ≡ (
      returned final,
      record {
        calls = suc (length retried);
        timers = timers_of (timer_of (timeout_of so f)) (blocks retried);
        cancelled = timers_of (timer_of (timeout_of so f)) (blocks retried);
        yields = blocks retried;
      },
    )
unfolding do_io
do_io_lem f so retried final rest ws opened socket blocking r h w enough =
    chosen f.is_closed f.is_socket f.user_non_block _ _ _ opened socket blocking
    ∙ retry_lem (timer_of (timeout_of so f)) retried final rest ws no_trace r h w enough
    ∙ ap (λ (x : Trace). (returned final, x))
        (same_trace (omega arith) (omega arith) (omega arith) (omega arith))
