-- ===== src/Pool.antt =====
-- HttpConnectionPool of East/http/HttpConnection.cc: the idle connections and the total. The clock and
-- the network are arguments. `getConnection` gives up its lock before it compares and raises `m_total`, and yields in
-- between while it connects: what the calls of others make of the pool meanwhile are arguments too.
pub mod Bound
pub mod Given
mod Tests
use mathlib.Core.Option.{Option, none, some}
use east.Common.{
  ℕ, suc, ◌+◌, ◌-◌, ◌%◌, ◌^◌, Bool, true, false, List, [], ◌∷◌, ◌++◌, if◌then◌else◌, ltb, leb,
  Outcome, ok, throws, undefined, ◌>>=◌,
}
use east.Common.Words.{add64}

pub record HttpConnection : Type 0 where
  pub id : ℕ
  pub connected : Bool
  pub create_time : ℕ
  pub request_count : ℕ

pub record HttpConnectionPool : Type 0 where
  pub max_size : ℕ
  pub max_alive_time : ℕ
  pub max_request : ℕ
  pub conns : List HttpConnection
  pub total : ℕ

-- `--m_total` on a `uint32_t`.
abbrev pub decrement : ℕ → ℕ
decrement total = (total + (2 ^ 32 - 1)) % 2 ^ 32

-- A connection that the loop of `getConnection` deletes: it is closed, or its time is over.
abbrev pub is_stale : ℕ → ℕ → HttpConnection → Bool
is_stale now alive conn = if conn.connected then ltb (add64 conn.create_time alive) now else true

-- The loop of `getConnection`: the connection found, the connections to delete, the idle ones that are left,
-- and the total. Behind a connection to delete it takes another one off the list, and that is
-- undefined if there is none.
unfoldable pub scan :
    ℕ
    → ℕ
    → List HttpConnection
    → ℕ
    → Outcome (Option HttpConnection × List HttpConnection × List HttpConnection × ℕ)
scan now alive [] total = ok (none, [], [], total)
scan now alive (conn ∷ []) total =
    if is_stale now alive conn then throws undefined else ok (some conn, [], [], total)
scan now alive (conn ∷ popped ∷ others) total =
    let rest = scan now alive others (decrement total) in
    if is_stale now alive conn
    then (do (res, to_delete, conns, total') ← rest; ok (res, conn ∷ to_delete, conns, total'))
    else ok (some conn, [], popped ∷ others, total)

-- What `getConnection` makes of the new connection, if there is one.
abbrev pub counted :
    HttpConnectionPool → Option HttpConnection → Option HttpConnection × HttpConnectionPool
counted pool none = (none, pool)
counted pool (some conn) = (some conn, record pool { total = suc pool.total % 2 ^ 32 })

-- The end of `getConnection` without an idle connection: `opened` is the new connection, if the
-- address is found and the socket connects, and `connecting` what others make of the pool between the comparison of
-- the total and its increment.
unfoldable pub connect_new :
    Option HttpConnection
    → (HttpConnectionPool → HttpConnectionPool)
    → HttpConnectionPool
    → Option HttpConnection × HttpConnectionPool
connect_new opened connecting pool =
    if leb pool.max_size pool.total then (none, pool) else counted (connecting pool) opened

-- `getConnection`: the connection, those that it deleted, and the pool. `unlocked` is what others make of the pool
-- between the end of the lock and the comparison of the total.
unfoldable pub get_connection :
    ℕ
    → Option HttpConnection
    → (HttpConnectionPool → HttpConnectionPool)
    → (HttpConnectionPool → HttpConnectionPool)
    → HttpConnectionPool
    → Outcome (Option HttpConnection × List HttpConnection × HttpConnectionPool)
get_connection now opened unlocked connecting pool = do
  (res, to_delete, conns, total) ← scan now pool.max_alive_time pool.conns pool.total
  let left = record pool { conns = conns; total = total }
  let fresh = connect_new opened connecting (unlocked left)
  elim res [ none ↦ ok (fresh.0, to_delete, fresh.1) | some conn ↦ ok (some conn, to_delete, left) ]

-- When `ReleasePtr` closes a connection, with what `isConnected` answers then.
abbrev pub closes : ℕ → HttpConnection → HttpConnectionPool → Bool
closes now ptr pool =
    if is_stale now pool.max_alive_time ptr
    then true
    else leb pool.max_request (suc ptr.request_count % 2 ^ 32)

unfoldable pub release_ptr : ℕ → HttpConnection → HttpConnectionPool → HttpConnectionPool
release_ptr now ptr pool =
    let used = record ptr { request_count = suc ptr.request_count % 2 ^ 32 } in
    if closes now ptr pool
    then record pool { total = decrement pool.total }
    else record pool { conns = pool.conns ++ (used ∷ []) }
