-- ===== src/Pool.antt =====
-- utils/mysql.py: the connections of one process. A connection is its number; opening, pinging,
-- rolling back and closing one are the driver's, and what they come to is an argument.
pub mod Balance
pub mod Acquiring
use incident_agent.Common.{
  ℕ, ◌+◌, ◌-◌, ℤ, pos, negsuc, Bool, true, false, ◌&&◌, not, Option, none, some, List, [], ◌∷◌,
  ◌==◌, ltb, leb, length, if◌then◌else◌,
}

-- `available` has the connection that was put last at its head.
pub record Pool : Type 0 where
  pub available : List ℕ
  pub created : ℕ
  pub pid : ℕ

-- What a call of the driver comes to: a new connection or an exception, and for each connection
-- whether ping, rollback and close return.
pub record Driver : Type 0 where
  pub connect : Option ℕ
  pub ping : ℕ → Bool
  pub rollback : ℕ → Bool
  pub close : ℕ → Bool

pub record PooledConnection : Type 0 where
  pub connection : ℕ
  pub acquired_pid : ℕ
  pub released : Bool

abbrev pub new_pool : ℕ → Pool
new_pool pid = record { available = []; created = 0; pid = pid }

-- What is inherited from another process is closed, whether or not that raises, and left.
abbrev pub ensure_process : ℕ → Pool → Pool
ensure_process current_pid p = if current_pid == p.pid then p else new_pool current_pid

abbrev pub taken : List ℕ → Pool → Option ℕ × Pool
taken [] p = (none, p)
taken (c ∷ cs) p = (some c, record p { available = cs })

-- self._available.get_nowait(), and get() where another thread has put one, or has not in time
unfoldable pub take_idle : Pool → Option ℕ × Pool
take_idle p = taken p.available p

pub data Created : Type 0 where
  connected : ℕ → Created
  connect_error at_limit : Created

abbrev opened : Option ℕ → Pool → Created × Pool
opened none p = (connect_error, p)
opened (some c) p = (connected c, record p { created = p.created + 1 })

-- The block under the lock.
unfoldable pub create_below : ℕ → Driver → Pool → Created × Pool
create_below size d p = if ltb p.created size then opened d.connect p else (at_limit, p)

-- The lock is taken whether or not close raises.
unfoldable pub discard : Pool → Pool
discard p = record p { created = p.created - 1 }

pub data Acquired : Type 0 where
  acquired : PooledConnection → Acquired
  exhausted not_connected not_alive : Acquired

-- The ping, during which others may step, and the discard of a connection that is not alive.
unfoldable pub with_ping : Driver → (ℕ → Pool → Pool) → ℕ → Pool → Acquired × Pool
with_ping d between c p =
    let q = between 2 p in
    if d.ping c
    then (acquired (record { connection = c; acquired_pid = q.pid; released = false }), q)
    else (not_alive, discard q)

abbrev pub after_wait : Driver → (ℕ → Pool → Pool) → Option ℕ × Pool → Acquired × Pool
after_wait d between (some c, p) = with_ping d between c p
after_wait d between (none, p) = (exhausted, p)

abbrev pub after_create : Driver → (ℕ → Pool → Pool) → Created × Pool → Acquired × Pool
after_create d between (connected c, p) = with_ping d between c p
after_create d between (connect_error, p) = (not_connected, p)
after_create d between (at_limit, p) = after_wait d between (take_idle (between 1 p))

abbrev pub after_idle : ℕ → Driver → (ℕ → Pool → Pool) → Option ℕ × Pool → Acquired × Pool
after_idle size d between (some c, p) = with_ping d between c p
after_idle size d between (none, p) = after_create d between (create_below size d (between 0 p))

-- `between` is what other threads do between the accesses of one call to the pool: here before the
-- lock is taken (0), while this one waits for a connection (1) and while it pings one (2).
unfoldable pub acquire : ℕ → Driver → (ℕ → Pool → Pool) → ℕ → Pool → Acquired × Pool
acquire size d between current_pid p =
    after_idle size d between (take_idle (ensure_process current_pid p))

pub data Released : Type 0 where
  returned discarded raised foreign : Released

-- LifoQueue.full: a maxsize of zero is none.
abbrev pub is_full : ℕ → Pool → Bool
is_full size p = ltb 0 size && leb size (length p.available)

-- put_nowait(conn) where there is room
abbrev pub put_idle : ℕ → Pool → Pool
put_idle c p = record p { available = c ∷ p.available }

abbrev pub discarded_by : Bool → Pool → Released × Pool
discarded_by closed p = (if closed then discarded else raised, discard p)

-- conn.rollback(), during which others may step (3), put_nowait(conn), and what an exception of the
-- two leads to, the close coming before the lock is taken (4).
abbrev pub put_back : ℕ → Driver → (ℕ → Pool → Pool) → ℕ → Pool → Released × Pool
put_back size d between c p =
    let q = between 3 p in
    if d.rollback c && not (is_full size q)
    then (returned, put_idle c q)
    else discarded_by (d.close c) (between 4 q)

unfoldable pub release : ℕ → Driver → (ℕ → Pool → Pool) → ℕ → ℕ → ℕ → Pool → Released × Pool
release size d between c acquired_pid current_pid p =
    let q = ensure_process current_pid p in
    if acquired_pid == current_pid then put_back size d between c q else (foreign, q)

-- PooledConnection.close, once
unfoldable pub close :
    ℕ
    → Driver
    → (ℕ → Pool → Pool)
    → ℕ
    → PooledConnection
    → Pool
    → PooledConnection × Option Released × Pool
close size d between current_pid x p =
    if x.released
    then (x, none, p)
    else let (result, q) = release size d between x.connection x.acquired_pid current_pid p in
      (record x { released = true }, some result, q)

-- a - b on the integers
abbrev pub difference : ℕ → ℕ → ℤ
difference a b = if leb b a then pos (a - b) else negsuc (b - a - 1)

pub record Stats : Type 0 where
  pub size : ℕ
  pub created : ℕ
  pub available : ℕ
  pub in_use : ℤ

-- `_created` is read under the lock, and the queue's size after it, twice (5 and 6).
unfoldable pub stats : ℕ → (ℕ → Pool → Pool) → ℕ → Pool → Stats
stats size between current_pid p =
    let q = ensure_process current_pid p in
    let first = between 5 q in
    let second = between 6 first in
    record {
      size = size;
      created = q.created;
      available = length first.available;
      in_use = difference q.created (length second.available);
    }
