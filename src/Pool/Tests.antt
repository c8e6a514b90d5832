-- ===== src/Pool/Tests.antt =====
-- Runs of the pool of East/http/HttpConnection.cc.
use mathlib.Core.Option.{none, some}
use east.Common.{ℕ, suc, ◌≡◌, refl, Bool, true, false, List, [], ◌∷◌, ok, throws, undefined, arith}
use east.Common.Words.{add64}
use east.Common.Outcomes.{Returns}
use east.Pool.{HttpConnection, HttpConnectionPool, scan, get_connection, connect_new, release_ptr}
use east.Pool.Bound.{IsBounded, Lent, get_connection-Lent, release_ptr-IsBounded}
use east.Pool.Given.{Given, get_connection-Given}

abbrev conn : ℕ → Bool → HttpConnection
conn id connected = record { id = id; connected = connected; create_time = 100; request_count = 0 }

abbrev pool_of : List HttpConnection → ℕ → HttpConnectionPool
pool_of conns total = record {
  max_size = 3;
  max_alive_time = 1000;
  max_request = 5;
  conns = conns;
  total = total;
}

-- One closed connection in front of two open ones.
abbrev pool : HttpConnectionPool
pool = pool_of (conn 1 false ∷ conn 2 true ∷ conn 3 true ∷ []) 3

-- Nobody else uses the pool.
abbrev alone : HttpConnectionPool → HttpConnectionPool
alone pool = pool

-- All three connections are lent, and two come back, which are closed: one before the total is compared, and one while
-- the new connection is made.
abbrev releases : ℕ → HttpConnectionPool → HttpConnectionPool
releases id = release_ptr 200 (conn id false)

abbrev all_lent : HttpConnectionPool
all_lent = pool_of [] 3

all_lent-IsBounded : IsBounded 3 all_lent
all_lent-IsBounded = record { counts = omega arith; total_le = omega arith; word = omega arith }

get_connection-Lent_example :
    Returns
      (Lent 3 2 1)
      (get_connection 200 (some (conn 9 true)) (releases 4) (releases 5) all_lent)
get_connection-Lent_example =
    get_connection-Lent 3 2 1 (some (conn 9 true)) (releases 4) (releases 5)
      (λ p v. (release_ptr-IsBounded 200 2 (conn 4 false) p v).0)
      (λ p v. (release_ptr-IsBounded 200 1 (conn 5 false) p v).0)
      (λ p v h.
        let r = release_ptr-IsBounded 200 1 (conn 5 false) p v in omega (arith, r.1, r.2, h))
      200 all_lent all_lent-IsBounded

released_run :
    get_connection 200 (some (conn 9 true)) (releases 4) (releases 5) all_lent
    ≡ ok (some (conn 9 true), [], pool_of [] 2)
unfolding get_connection connect_new scan release_ptr
released_run = refl

get_connection-Given_example :
    Returns (Given 200 1000 pool.conns none) (get_connection 200 none alone alone pool)
get_connection-Given_example = get_connection-Given 200 none alone alone pool

-- Another thread opens the third connection while this one connects: four of at most three.
abbrev another : HttpConnectionPool → HttpConnectionPool
another p = record p { total = suc p.total }

overfull_run :
    get_connection 200 (some (conn 9 true)) alone another (pool_of [] 2)
    ≡ ok (some (conn 9 true), [], pool_of [] 4)
unfolding get_connection connect_new scan
overfull_run = refl

-- The open connection 2 is dropped: it is neither given, nor deleted, nor idle, and stays counted.
dropped_run :
    get_connection 200 none alone alone pool
    ≡ ok (some (conn 3 true), conn 1 false ∷ [], pool_of [] 2)
unfolding get_connection connect_new scan add64
dropped_run = refl

-- With a closed connection alone the list is taken from when it is empty.
empty_run : get_connection 200 none alone alone (pool_of (conn 1 false ∷ []) 1) ≡ throws undefined
unfolding get_connection connect_new scan add64
empty_run = refl
