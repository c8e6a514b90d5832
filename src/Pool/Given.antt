-- ===== src/Pool/Given.antt =====
-- Which connections `getConnection` of East/http/HttpConnection.cc takes off the idle ones, hands out and deletes.
use mathlib.Core.Option.{Option, none, some}
use east.Common.{
  ℕ, ◌+◌, ◌*◌, ◌^◌, ◌%◌, ◌≤◌, ◌<◌, ◌≡◌, refl, sym, ap, arith, true, false, List, [], ◌∷◌, ◌++◌,
  length, All, ok, Bool-cases, ◌⊎◌, inl, inr, leb,
}
use east.Common.Words.{add64}
use east.Pool.{
  HttpConnection, HttpConnectionPool, is_stale, scan, counted, connect_new, get_connection,
  decrement,
}
use east.Common.Outcomes.{Returns, Returns-bind}

-- The first, the third, and so on.
abbrev pub every_other : List HttpConnection → List HttpConnection
every_other [] = []
every_other (a ∷ []) = a ∷ []
every_other (a ∷ b ∷ others) = a ∷ every_other others

module _ (now alive : ℕ) where
  -- Closed or too old, and open and not too old; the sum of the times is one of 64 bits.
  abbrev pub IsGone : HttpConnection → Type 0
  IsGone conn = (conn.connected ≡ false) ⊎ ((conn.create_time + alive) % 2 ^ 64 < now)

  abbrev pub IsLive : HttpConnection → Type 0
  IsLive conn = (conn.connected ≡ true) × (now ≤ (conn.create_time + alive) % 2 ^ 64)

  stale-IsGone : (conn : HttpConnection) → is_stale now alive conn ≡ true → IsGone conn
  unfolding add64
  stale-IsGone conn e = elim (Bool-cases conn.connected) [
    | inl c ↦ inr (too_old c e)
    | inr c ↦ inl c
  ]
    where
      too_old :
          conn.connected ≡ true
          → is_stale now alive conn ≡ true
          → (conn.create_time + alive) % 2 ^ 64 < now
      too_old c = rw (c) (λ h. ground (arith, h))

  fresh-IsLive : (conn : HttpConnection) → is_stale now alive conn ≡ false → IsLive conn
  unfolding add64
  fresh-IsLive conn = elim (Bool-cases conn.connected) [
    | inl c ↦ rw (c) (λ h. (refl, ground (arith, h)))
    | inr c ↦ rw (c) (λ h. absurd (cc (h)))
  ]

  -- The idle connections are those in front, the one that is taken, if there is one, and those that are left. From the
  -- front every other one is deleted, and the one behind each of these is dropped.
  pub record TakesOff (idle taken deleted left : List HttpConnection) : Type 0 where
    pub front : List HttpConnection
    pub splits : idle ≡ front ++ (taken ++ left)
    pub pairs : length front ≡ 2 * length deleted
    pub every : deleted ≡ every_other front
    pub gone : All IsGone deleted
    pub live : All IsLive taken

  abbrev SortedOut :
      List HttpConnection
      → Option HttpConnection × List HttpConnection × List HttpConnection × ℕ
      → Type 0
  SortedOut idle (none, deleted, left, total) = TakesOff idle [] deleted [] × (left ≡ [])
  SortedOut idle (some conn, deleted, left, total) = TakesOff idle (conn ∷ []) deleted left

  takes_first :
      (conn : HttpConnection) (others : List HttpConnection)
      → is_stale now alive conn ≡ false
      → TakesOff (conn ∷ others) (conn ∷ []) [] others
  takes_first conn others e = record {
    front = [];
    splits = refl;
    pairs = refl;
    every = refl;
    gone = tt;
    live = (fresh-IsLive conn e, tt);
  }

  two_more :
      (conn popped : HttpConnection) (others taken deleted left : List HttpConnection)
      → is_stale now alive conn ≡ true
      → TakesOff others taken deleted left
      → TakesOff (conn ∷ popped ∷ others) taken (conn ∷ deleted) left
  two_more conn popped others taken deleted left e t = record {
    front = conn ∷ popped ∷ t.front;
    splits = ap (λ l. conn ∷ popped ∷ l) t.splits;
    pairs = omega (arith, t.pairs);
    every = ap (λ l. conn ∷ l) t.every;
    gone = (stale-IsGone conn e, t.gone);
    live = t.live;
  }

  scan-SortedOut :
      (conns : List HttpConnection) (total : ℕ)
      → Returns (SortedOut conns) (scan now alive conns total)
  unfolding scan
  scan-SortedOut [] total =
      (record { front = []; splits = refl; pairs = refl; every = refl; gone = tt; live = tt }, refl)
  scan-SortedOut (conn ∷ []) total = elim (Bool-cases (is_stale now alive conn)) [
    | inl e ↦ rw (e) tt
    | inr e ↦ rw (e) (takes_first conn [] e)
  ]
  scan-SortedOut (conn ∷ popped ∷ others) total = elim (Bool-cases (is_stale now alive conn)) [
    | inl e ↦ rw (e) (
        Returns-bind (SortedOut others) (SortedOut (conn ∷ popped ∷ others))
          (scan now alive others (decrement total)) (λ r. ok (r.0, conn ∷ r.1, r.2, r.3))
          (scan-SortedOut others (decrement total)) (λ r s. more e r s))
    | inr e ↦ rw (e) (takes_first conn (popped ∷ others) e)
  ]
    where
      more :
          is_stale now alive conn ≡ true
          → (r : Option HttpConnection × List HttpConnection × List HttpConnection × ℕ)
          → SortedOut others r
          → SortedOut (conn ∷ popped ∷ others) (r.0, conn ∷ r.1, r.2, r.3)
      more e (none, deleted, left, total) (t, z) =
          (two_more conn popped others [] deleted [] e t, z)
      more e (some c, deleted, left, total) t =
          two_more conn popped others (c ∷ []) deleted left e t

  -- What a call gives: an idle connection, or, with none left, null or the one that was opened.
  pub data Given (idle : List HttpConnection) (opened : Option HttpConnection)
      (r : Option HttpConnection × List HttpConnection × HttpConnectionPool) : Type 0 where
    from_idle :
        (conn : HttpConnection)
        → r.0 ≡ some conn
        → TakesOff idle (conn ∷ []) r.1 r.2.conns
        → Given idle opened r
    from_network : TakesOff idle [] r.1 [] → (r.0 ≡ none) ⊎ (r.0 ≡ opened) → Given idle opened r

-- What `getConnection` gives, where it returns, whatever others do to the pool meanwhile. Either it is one of the idle
-- connections, which is open and not older than `m_maxAliveTime`, and those behind it are left idle; or no idle one
-- is left of those that there were, and it is null or the connection that was opened. Of the idle connections in
-- front every other one is deleted, beginning with the first, and each of these is closed or too old; the one
-- behind each of these is dropped. Times are added in 64 bits.
pub get_connection-Given :
    (now : ℕ) (opened : Option HttpConnection)
    (unlocked connecting : HttpConnectionPool → HttpConnectionPool) (pool : HttpConnectionPool)
    → Returns
        (Given now pool.max_alive_time pool.conns opened)
        (get_connection now opened unlocked connecting pool)
unfolding get_connection connect_new
get_connection-Given now opened unlocked connecting pool =
    Returns-bind (SortedOut now alive pool.conns) (Given now alive pool.conns opened)
      (scan now alive pool.conns pool.total) _ (scan-SortedOut now alive pool.conns pool.total)
      λ r s. given r.0 r.1 r.2 r.3 s
  where
    alive : ℕ
    alive = pool.max_alive_time

    end_of : HttpConnectionPool → Option HttpConnection × HttpConnectionPool
    end_of left = connect_new opened connecting (unlocked left)

    counted_one :
        (o : Option HttpConnection) (met : HttpConnectionPool)
        → opened ≡ o
        → ((counted met o).0 ≡ none) ⊎ ((counted met o).0 ≡ opened)
    counted_one none met e = inl refl
    counted_one (some conn) met e = inr (sym e)

    opened_one :
        (left : HttpConnectionPool)
        → ((connect_new opened connecting left).0 ≡ none)
          ⊎ ((connect_new opened connecting left).0 ≡ opened)
    opened_one left = elim (Bool-cases (leb left.max_size left.total)) [
      | inl e ↦ rw (e) (inl refl)
      | inr e ↦ rw (e) (counted_one opened (connecting left) refl)
    ]

    given :
        (res : Option HttpConnection) (to_delete conns : List HttpConnection) (total : ℕ)
        → SortedOut now alive pool.conns (res, to_delete, conns, total)
        → Returns (Given now alive pool.conns opened) (elim res [
          | none ↦ ok (
            (end_of (record pool { conns = conns; total = total })).0,
            to_delete,
            (end_of (record pool { conns = conns; total = total })).1,
          )
          | some conn ↦ ok (some conn, to_delete, record pool { conns = conns; total = total })
        ])
    given (some conn) to_delete conns total s = from_idle conn refl s
    given none to_delete conns total s =
        from_network s.0 (opened_one (unlocked (record pool { conns = conns; total = total })))
