-- ===== src/Pool/Bound.antt =====
-- The pool of East/http/HttpConnection.cc never opens more connections than it may.
use east.Common.{
  ℕ, suc, ◌+◌, ◌-◌, ◌%◌, ◌^◌, ◌≤◌, ◌<◌, ◌≡◌, refl, List, [], ◌∷◌, length, length-append, arith, ok,
  Bool-cases, le→leb, lt→leb-false, inl, inr,
}
use mathlib.Core.Option.{Option, none, some}
use native.Mathlib.Decide.{dec_le}
use east.Common.Outcomes.{Returns, Returns-bind}
use east.Pool.{
  HttpConnection, HttpConnectionPool, scan, connect_new, get_connection, release_ptr, decrement,
  is_stale, closes, counted,
}

-- With `out` connections lent: the total counts them besides the idle connections, and is at most `m_maxSize`, a
-- `uint32_t`.
pub record IsBounded (out : ℕ) (pool : HttpConnectionPool) : Type 0 where
  pub counts : out + length pool.conns ≤ pool.total
  pub total_le : pool.total ≤ pool.max_size
  pub word : pool.max_size < 2 ^ 32

-- How many connections are given.
abbrev pub lent : Option HttpConnection → ℕ
lent none = 0
lent (some conn) = 1

abbrev Left : ℕ → ℕ → Option HttpConnection × List HttpConnection × List HttpConnection × ℕ → Type 0
Left out total r = (lent r.0 + out + length r.2 ≤ r.3) × (r.3 ≤ total)

decrement_lem : (total : ℕ) → 1 ≤ total → total < 2 ^ 32 → decrement total ≡ total - 1
decrement_lem total h w = omega arith

scan-Left :
    (now alive out : ℕ) (conns : List HttpConnection) (total : ℕ)
    → out + length conns ≤ total
    → total < 2 ^ 32
    → Returns (Left out total) (scan now alive conns total)
unfolding scan
scan-Left now alive out [] total h w = (omega arith, omega arith)
scan-Left now alive out (conn ∷ []) total h w = elim (Bool-cases (is_stale now alive conn)) [
  | inl e ↦ rw (e) tt
  | inr e ↦ rw (e) (omega arith, omega arith)
]
scan-Left now alive out (conn ∷ popped ∷ others) total h w =
    elim (Bool-cases (is_stale now alive conn)) [
      | inl e ↦ rw (e) (
          Returns-bind (Left out (decrement total)) (Left out total)
            (scan now alive others (decrement total)) (λ r. ok (r.0, conn ∷ r.1, r.2, r.3))
            (scan-Left now alive out others (decrement total) (omega (arith, fewer))
              (omega (arith, fewer)))
            (λ r left. (left.0, omega (arith, left.1, fewer))))
      | inr e ↦ rw (e) (omega arith, omega arith)
    ]
  where
    fewer : decrement total ≡ total - 1
    fewer = decrement_lem total (omega arith) w

-- What `getConnection` returns. `out` connections are lent at its lock, `out1` when it compares the total, and `out2`
-- when it raises it: an idle connection, null because the pool is full, or what the attempt to connect gives.
pub data Lent (out out1 out2 : ℕ)
    (r : Option HttpConnection × List HttpConnection × HttpConnectionPool) : Type 0 where
  from_idle : lent r.0 ≡ 1 → IsBounded (1 + out) r.2 → Lent out out1 out2 r
  is_full : r.0 ≡ none → IsBounded out1 r.2 → Lent out out1 out2 r
  tried : IsBounded (lent r.0 + out2) r.2 → Lent out out1 out2 r

-- What the calls of others may do meanwhile, which change the number of connections lent: they keep the bound, and they
-- keep a place free. `ReleasePtr` does both; a second `getConnection` that raises the total while the first connects may
-- take the last place.
abbrev pub KeepsBound : ℕ → ℕ → (HttpConnectionPool → HttpConnectionPool) → Type 0
KeepsBound out out' others =
    (pool : HttpConnectionPool) → IsBounded out pool → IsBounded out' (others pool)

abbrev pub LeavesRoom : ℕ → (HttpConnectionPool → HttpConnectionPool) → Type 0
LeavesRoom out others =
    (pool : HttpConnectionPool)
    → IsBounded out pool
    → pool.total < pool.max_size
    → (others pool).total < (others pool).max_size

counted-IsBounded :
    (out : ℕ) (o : Option HttpConnection) (pool : HttpConnectionPool)
    → IsBounded out pool
    → pool.total < pool.max_size
    → ((counted pool o).0 ≡ o) × IsBounded (lent o + out) (counted pool o).1
counted-IsBounded out none pool v h =
    (refl, record { counts = omega (arith, v.counts); total_le = v.total_le; word = v.word })
counted-IsBounded out (some conn) pool v h = (
  refl,
  record { counts = omega (arith, next, v.counts); total_le = omega (arith, next); word = v.word },
)
  where
    next : suc pool.total % 2 ^ 32 ≡ suc pool.total
    next = omega (arith, v.word)

module _ (out out1 out2 : ℕ) (opened : Option HttpConnection)
    (unlocked connecting : HttpConnectionPool → HttpConnectionPool)
    (unlocked_keeps : KeepsBound out out1 unlocked)
    (connecting_keeps : KeepsBound out1 out2 connecting)
    (connecting_leaves : LeavesRoom out1 connecting) where
  connect_new-Lent :
      (to_delete : List HttpConnection) (pool : HttpConnectionPool)
      → IsBounded out1 pool
      → Lent out out1 out2 (
        (connect_new opened connecting pool).0,
        to_delete,
        (connect_new opened connecting pool).1,
      )
  unfolding connect_new
  connect_new-Lent to_delete pool v = elim (dec_le pool.max_size pool.total) [
    | yes full ↦ rw (le→leb pool.max_size pool.total full) (is_full refl v)
    | no room ↦
        let c =
          counted-IsBounded out2 opened (connecting pool) (connecting_keeps pool v)
            (connecting_leaves pool v (omega arith)) in
        rw (lt→leb-false pool.max_size pool.total (omega arith), c.0) (tried c.1)
  ]

  -- `getConnection`, where it returns, leaves a pool whose total is at most `m_maxSize` and counts the idle connections,
  -- those that are lent, and besides them the one that it gives. This is under the conditions that what others do after
  -- its lock is given up, which may change how many are lent, keeps such a pool, and that those that run while it
  -- connects keep a place free when there was one.
  pub get_connection-Lent :
      (now : ℕ) (pool : HttpConnectionPool)
      → IsBounded out pool
      → Returns (Lent out out1 out2) (get_connection now opened unlocked connecting pool)
  unfolding get_connection
  get_connection-Lent now pool v =
      Returns-bind (Left out pool.total) (Lent out out1 out2)
        (scan now pool.max_alive_time pool.conns pool.total) _
        (scan-Left now pool.max_alive_time out pool.conns pool.total v.counts
          (omega (arith, v.total_le, v.word)))
        λ r left. given r.0 r.1 r.2 r.3 left
    where
      end_of : HttpConnectionPool → Option HttpConnection × HttpConnectionPool
      end_of left = connect_new opened connecting (unlocked left)

      given :
          (res : Option HttpConnection) (to_delete conns : List HttpConnection) (total : ℕ)
          → Left out pool.total (res, to_delete, conns, total)
          → Returns (Lent out out1 out2) (elim res [
            | none ↦ ok (
              (end_of (record pool { conns = conns; total = total })).0,
              to_delete,
              (end_of (record pool { conns = conns; total = total })).1,
            )
            | some conn ↦ ok (some conn, to_delete, record pool { conns = conns; total = total })
          ])
      given (some conn) to_delete conns total left = from_idle refl (record {
        counts = omega (arith, left.0);
        total_le = omega (arith, left.1, v.total_le);
        word = v.word;
      })
      given none to_delete conns total left =
          let pool' = record pool { conns = conns; total = total } in
          connect_new-Lent to_delete (unlocked pool') (
            unlocked_keeps pool' (record {
              counts = omega (arith, left.0);
              total_le = omega (arith, left.1, v.total_le);
              word = v.word;
            }))

-- `ReleasePtr` of a lent connection keeps the bound for the others, and the total does not grow.
pub release_ptr-IsBounded :
    (now out : ℕ) (ptr : HttpConnection) (pool : HttpConnectionPool)
    → IsBounded (suc out) pool
    → IsBounded out (release_ptr now ptr pool)
      × ((release_ptr now ptr pool).total ≤ pool.total)
      × ((release_ptr now ptr pool).max_size ≡ pool.max_size)
unfolding release_ptr
release_ptr-IsBounded now out ptr pool v = elim (Bool-cases (closes now ptr pool)) [
  | inl e ↦ rw (e) (
    record {
      counts = omega (arith, one_less, v.counts);
      total_le = omega (arith, one_less, v.total_le);
      word = v.word;
    },
    omega (arith, one_less),
    refl,
  )
  | inr e ↦ rw (e) (
    record {
      counts = omega (
        arith,
        length-append pool.conns
            ((record ptr { request_count = suc ptr.request_count % 2 ^ 32 }) ∷ []),
        v.counts,
      );
      total_le = v.total_le;
      word = v.word;
    },
    omega arith,
    refl,
  )
]
  where
    one_less : decrement pool.total ≡ pool.total - 1
    one_less =
        decrement_lem pool.total (omega (arith, v.counts)) (omega (arith, v.total_le, v.word))
