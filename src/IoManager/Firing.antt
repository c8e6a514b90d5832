-- ===== src/IoManager/Firing.antt =====
-- Triggering one event or both of a context of East/src/IOManager.cc.
use mathlib.Core.Path.{ap₂}
use mathlib.Core.List.{append-nil, append_assoc}
use east.Common.{
  ℕ, ◌+◌, ◌-◌, ◌^◌, ◌≤◌, ◌<◌, ◌≡◌, refl, sym, ap, ◌∙◌, Bool, true, false, some, List, [], ◌++◌,
  arith, get_elem?, set, set_self, set-set, get_elem?-set_self, Outcome, ok,
}
use east.Common.Words.{sub64-no_wrap}
use east.IoManager.Kernel.{Epoll, Events}
use east.IoManager.Context.{Event, read, write, FdContext, Call, without}
use east.IoManager.{IoManager, trigger}
use east.IoManager.Idle.{minus, trigger_real}
use east.IoManager.Armed.{IsCoherent, slot, waiting, Triggers, trigger_event-Triggers}
use east.IoManager.Kept.{flag}

-- What is triggered of `c`: `left` is still waited for, `fired` events are not, and `calls` are made.
pub record Fires {K : Type 0} (fd : ℕ) (m : IoManager K) (left : Events) (fired : ℕ)
    (calls : List Call) (out : Outcome (IoManager K)) : Type 0 where
  pub context : FdContext
  pub runs :
      out
      ≡ ok (record m {
        contexts = set m.contexts fd context;
        pending = m.pending - fired;
        calls = m.calls ++ calls;
      })
  pub coherent : IsCoherent fd context
  pub events : context.events ≡ left

-- The calls of the events in a mask.
abbrev pub calls_if : Bool → List Call → List Call
calls_if true calls = calls
calls_if false calls = []

abbrev pub calls_of : Events → FdContext → List Call
calls_of real c = calls_if real.reads (waiting c.reader) ++ calls_if real.writes (waiting c.writer)

minus_none : (x : Events) → x ≡ minus x (record { reads = false; writes = false })
minus_none x = ground arith

minus-read : (x : Events) → without x read ≡ minus x (record { reads = true; writes = false })
minus-read x = ground arith

minus-write : (x : Events) → without x write ≡ minus x (record { reads = false; writes = true })
minus-write x = ground arith

minus_both :
    (x : Events) → without (without x read) write ≡ minus x (record { reads = true; writes = true })
minus_both x = ground arith

module _ {K : Type 0} (e : Epoll K) (fd : ℕ) where
  pub trigger-runs :
      (event : Event) (m : IoManager K) (c : FdContext)
      → get_elem? m.contexts fd ≡ some c
      → (t : Triggers event fd c) → 1 ≤ m.pending
      → m.pending < 2 ^ 64
      → trigger e fd event m
        ≡ ok (record m {
          contexts = set m.contexts fd t.result;
          pending = m.pending - 1;
          calls = m.calls ++ waiting (slot event c);
        })
  unfolding trigger
  trigger-runs event m c here t some_left small =
      rw (here, t.runs, sub64-no_wrap m.pending 1 some_left small) refl

  -- Both flags of `real` are flags of the context.
  pub trigger_real-Fires :
      (r w : Bool) (m : IoManager K) (c : FdContext)
      → get_elem? m.contexts fd ≡ some c
      → IsCoherent fd c
      → (r ≡ true → c.events.reads ≡ true)
      → (w ≡ true → c.events.writes ≡ true)
      → flag r + flag w ≤ m.pending
      → m.pending < 2 ^ 64
      → Fires fd m
          (minus c.events (record { reads = r; writes = w }))
          (flag r + flag w)
          (calls_of (record { reads = r; writes = w }) c)
          (trigger_real e fd (record { reads = r; writes = w }) m)
  unfolding trigger_real
  trigger_real-Fires false false m c here v hr hw enough small = record {
    context = c;
    runs = ap ok (
        ap₂ (λ cs (k : ℕ × List Call). record m { contexts = cs; pending = k.0; calls = k.1 })
          (sym (set_self m.contexts fd here))
          (ap₂ (λ (n : ℕ) (l : List Call). (n, l)) (omega arith) (sym (append-nil m.calls))));
    coherent = v;
    events = minus_none c.events;
  }
  trigger_real-Fires true false m c here v hr hw enough small =
      let t = trigger_event-Triggers read fd c v (hr refl) in
      record {
        context = t.result;
        runs = rw (trigger-runs read m c here t (omega arith) small) (
            ap
              (λ l. ok (record m {
                contexts = set m.contexts fd t.result;
                pending = m.pending - 1;
                calls = m.calls ++ l;
              }))
              (sym (append-nil (waiting c.reader))));
        coherent = t.coherent;
        events = t.events ∙ minus-read c.events;
      }
  trigger_real-Fires false true m c here v hr hw enough small =
      let t = trigger_event-Triggers write fd c v (hw refl) in
      record {
        context = t.result;
        runs = trigger-runs write m c here t (omega arith) small;
        coherent = t.coherent;
        events = t.events ∙ minus-write c.events;
      }
  trigger_real-Fires true true m c here v hr hw enough small =
      let t = trigger_event-Triggers read fd c v (hr refl) in
      let u =
        trigger_event-Triggers write fd t.result t.coherent
          (ap (λ (x : Events). x.writes) t.events ∙ hw refl) in
      record {
        context = u.result;
        runs = rw (trigger-runs read m c here t (omega arith) small) (
            trigger-runs write
              (record m {
                contexts = set m.contexts fd t.result;
                pending = m.pending - 1;
                calls = m.calls ++ waiting c.reader;
              })
              t.result (get_elem?-set_self m.contexts fd t.result here) u (omega arith)
              (omega arith)
            ∙ ap ok (
                ap₂
                  (λ cs (k : ℕ × List Call). record m { contexts = cs; pending = k.0; calls = k.1 })
                  (set-set m.contexts fd t.result u.result)
                  (ap₂ (λ (n : ℕ) (l : List Call). (n, l)) (omega arith)
                    (append_assoc m.calls (waiting c.reader) (waiting t.result.writer)
                      ∙ ap (λ x. m.calls ++ (waiting c.reader ++ waiting x)) (t.writer refl)))));
        coherent = u.coherent;
        events = u.events ∙ ap (λ x. without x write) t.events ∙ minus_both c.events;
      }
