-- ===== src/IoManager/Kept/Room.antt =====
-- `SafeContextResize` of East/src/IOManager.cc: with room made for a descriptor the
-- invariant stays.
use native.Mathlib.Decide.{dec_lt}
use east.Common.{
  ℕ, zero, suc, ◌+◌, ◌-◌, ◌*◌, ◌/◌, ◌^◌, ◌≤◌, ◌<◌, ◌≡◌, refl, sym, ap, ◌∙◌, Option, none, some,
  List, [], ◌∷◌, ◌++◌, arith, length, get_elem?, length-append, lt→ltb, le→ltb-false, lt→leb-false,
  get_elem?_of_lt,
}
use east.IoManager.Kernel.{Epoll, no_events}
use east.IoManager.Context.{FdContext, new_context}
use east.IoManager.{IoManager, fresh_contexts, safe_context_resize, make_room}
use east.IoManager.Armed.{new_context-IsCoherent}
use east.IoManager.Kept.{IsKept, total, events_of, events_at, context_or_new, context_at}

length-fresh : (fd count : ℕ) → length (fresh_contexts fd count) ≡ count
length-fresh fd zero = refl
length-fresh fd (suc count) = ap suc (length-fresh (suc fd) count)

total-append-fresh :
    (cs : List FdContext) (fd count : ℕ) → total (cs ++ fresh_contexts fd count) ≡ total cs
unfolding total
total-append-fresh [] fd zero = refl
total-append-fresh [] fd (suc count) = omega (arith, total-append-fresh [] (suc fd) count)
total-append-fresh (c ∷ cs) fd count = omega (arith, total-append-fresh cs fd count)

-- Behind the old contexts the new ones stand under their numbers.
get_elem?-fresh :
    (fd count i : ℕ) (c : FdContext)
    → get_elem? (fresh_contexts fd count) i ≡ some c
    → c ≡ new_context (fd + i)
get_elem?-fresh fd zero i c h = cc (h)
get_elem?-fresh fd (suc count) zero c h =
    let e : fd ≡ fd + 0 = omega arith in cc (h, ap new_context e)
get_elem?-fresh fd (suc count) (suc i) c h =
    let e : suc fd + i ≡ fd + suc i = omega arith in
    get_elem?-fresh (suc fd) count i c h ∙ ap new_context e

get_elem?-append_left :
    (xs ys : List FdContext) (i : ℕ) → i < length xs → get_elem? (xs ++ ys) i ≡ get_elem? xs i
get_elem?-append_left [] ys i h = absurd (omega arith)
get_elem?-append_left (x ∷ xs) ys zero h = refl
get_elem?-append_left (x ∷ xs) ys (suc i) h = get_elem?-append_left xs ys i (omega arith)

get_elem?-append_right :
    (xs ys : List FdContext) (i : ℕ)
    → length xs ≤ i
    → get_elem? (xs ++ ys) i ≡ get_elem? ys (i - length xs)
get_elem?-append_right [] ys i h = ap (get_elem? ys) (omega arith)
get_elem?-append_right (x ∷ xs) ys zero h = absurd (omega arith)
get_elem?-append_right (x ∷ xs) ys (suc i) h =
    get_elem?-append_right xs ys i (omega arith) ∙ ap (get_elem? ys) (omega arith)

pub get_elem?-beyond : (xs : List FdContext) (i : ℕ) → length xs ≤ i → get_elem? xs i ≡ none
get_elem?-beyond [] i h = refl
get_elem?-beyond (x ∷ xs) zero h = absurd (omega arith)
get_elem?-beyond (x ∷ xs) (suc i) h = get_elem?-beyond xs i (omega arith)

-- Room for a descriptor: the context is there, nothing that waits has changed.
pub record HasRoom {K : Type 0} (e : Epoll K) (pipe fd : ℕ) (m m' : IoManager K) : Type 0 where
  pub kept : IsKept e pipe m'
  pub context : FdContext
  pub here : get_elem? m'.contexts fd ≡ some context
  pub same_events : (x : ℕ) → events_at x m' ≡ events_at x m
  pub same_contexts : (x : ℕ) → context_at x m' ≡ context_at x m
  pub same_kernel : m'.kernel ≡ m.kernel
  pub same_calls : m'.calls ≡ m.calls

module _ {K : Type 0} (e : Epoll K) (pipe : ℕ) (m : IoManager K) (v : IsKept e pipe m) where
  grown : ℕ → IoManager K
  grown more = record m { contexts = m.contexts ++ fresh_contexts (length m.contexts) more }

  found_new :
      (more x : ℕ) (c : FdContext)
      → length m.contexts ≤ x
      → get_elem? (m.contexts ++ fresh_contexts (length m.contexts) more) x ≡ some c
      → c ≡ new_context x
  found_new more x c h at =
      let e : length m.contexts + (x - length m.contexts) ≡ x = omega arith in
      get_elem?-fresh (length m.contexts) more (x - length m.contexts) c
        (sym (get_elem?-append_right m.contexts (fresh_contexts (length m.contexts) more) x h) ∙ at)
      ∙ ap new_context e

  found_old :
      (more x : ℕ)
      → x < length m.contexts
      → get_elem? (m.contexts ++ fresh_contexts (length m.contexts) more) x ≡ get_elem? m.contexts x
  found_old more x h =
      get_elem?-append_left m.contexts (fresh_contexts (length m.contexts) more) x h

  length-grown :
      (more : ℕ)
      → length (m.contexts ++ fresh_contexts (length m.contexts) more) ≡ length m.contexts + more
  length-grown more = omega (
    arith,
    length-append m.contexts (fresh_contexts (length m.contexts) more),
    length-fresh (length m.contexts) more,
  )

  grown-IsKept : (more : ℕ) → length m.contexts + more < 2 ^ 32 → IsKept e pipe (grown more)
  unfolding grown
  grown-IsKept more small = record {
    coherent = λ x c at. elim (dec_lt x (length m.contexts)) [
      | yes h ↦ v.coherent x c (sym (found_old more x h) ∙ at)
      | no h ↦ rw (found_new more x c (omega arith) at) (new_context-IsCoherent x)
    ];
    mirrors = λ x c other at. elim (dec_lt x (length m.contexts)) [
      | yes h ↦ v.mirrors x c other (sym (found_old more x h) ∙ at)
      | no h ↦ rw (found_new more x c (omega arith) at) (v.beyond x other (omega arith))
    ];
    beyond = λ x other h. v.beyond x other (omega (arith, length-grown more));
    counted = v.counted ∙ sym (total-append-fresh m.contexts (length m.contexts) more);
    roomy = omega (arith, length-grown more, v.roomy);
    sized = omega (arith, length-grown more);
  }

  events_at-grown : (more x : ℕ) → events_at x (grown more) ≡ events_at x m
  unfolding grown events_of
  events_at-grown more x = elim (dec_lt x (length m.contexts)) [
    | yes h ↦ ap events_of (found_old more x h)
    | no h ↦
        new_events (get_elem? (m.contexts ++ fresh_contexts (length m.contexts) more) x) refl
          (omega arith)
        ∙ sym (ap events_of (get_elem?-beyond m.contexts x (omega arith)))
  ]
    where
      new_events :
          (o : Option FdContext)
          → get_elem? (m.contexts ++ fresh_contexts (length m.contexts) more) x ≡ o
          → length m.contexts ≤ x
          → events_of o ≡ no_events
      new_events none at h = refl
      new_events (some c) at h = ap (λ (y : FdContext). y.events) (found_new more x c h at)

  context_at-grown : (more x : ℕ) → context_at x (grown more) ≡ context_at x m
  unfolding grown context_or_new
  context_at-grown more x = elim (dec_lt x (length m.contexts)) [
    | yes h ↦ ap (context_or_new x) (found_old more x h)
    | no h ↦
        or_new (get_elem? (m.contexts ++ fresh_contexts (length m.contexts) more) x) refl
          (omega arith)
        ∙ sym (ap (context_or_new x) (get_elem?-beyond m.contexts x (omega arith)))
  ]
    where
      or_new :
          (o : Option FdContext)
          → get_elem? (m.contexts ++ fresh_contexts (length m.contexts) more) x ≡ o
          → length m.contexts ≤ x
          → context_or_new x o ≡ new_context x
      or_new none at h = refl
      or_new (some c) at h = found_new more x c h at

  -- `addEvent` makes room for every descriptor below 2 ^ 31.
  pub make_room-HasRoom : (fd : ℕ) → fd < 2 ^ 31 → HasRoom e pipe fd m (make_room fd m)
  unfolding safe_context_resize grown
  make_room-HasRoom fd small = elim (dec_lt fd (length m.contexts)) [
    | yes h ↦
        let (c, at) = get_elem?_of_lt m.contexts fd h in
        rw (lt→ltb fd (length m.contexts) h) (record {
          kept = v;
          context = c;
          here = at;
          same_events = λ x. refl;
          same_contexts = λ x. refl;
          same_kernel = refl;
          same_calls = refl;
        })
    | no h ↦
        let more = fd * 3 / 2 - length m.contexts in
        let (c, at) =
          get_elem?_of_lt (grown more).contexts fd (omega (arith, length-grown more, v.roomy)) in
        rw
          (
            le→ltb-false fd (length m.contexts) (omega arith),
            lt→leb-false (fd * 3 / 2) (length m.contexts) (omega (arith, v.roomy)),
          )
          (record {
            kept = grown-IsKept more (omega (arith, v.roomy));
            context = c;
            here = at;
            same_events = events_at-grown more;
            same_contexts = context_at-grown more;
            same_kernel = refl;
            same_calls = refl;
          })
  ]
