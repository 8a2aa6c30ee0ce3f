-- ===== src/Tests/Pools.antt =====
-- Concrete runs of the pool of utils/mysql.py.
use incident_agent.Common.{ℕ, ◌≤◌, ◌<◌, ◌≡◌, refl, ◌+◌, true, some, [], ◌∷◌, pos, negsuc, length}
use incident_agent.Pool.{
  Driver, returned, take_idle, create_below, put_idle, release, stats, new_pool,
}
use incident_agent.Pool.Balance.{World, Reach, start, take, create, Reach-in_use}

abbrev healthy : Driver
healthy = record { connect = some 3; ping = λ c. true; rollback = λ c. true; close = λ c. true }

-- One thread has opened connection 3.
abbrev one_open : World
one_open = record { pool = record { available = []; created = 1; pid = 40 }; held = 1 }

one_open-Reach : Reach 2 40 one_open
unfolding take_idle create_below
one_open-Reach = create healthy (take start)

Reach-in_use_example :
    (1 ≤ 2)
    × (1 ≡ length one_open.pool.available + 1)
    × ((stats 2 (λ k p. p) 40 one_open.pool).in_use ≡ pos 1)
    × ((d : Driver) (c : ℕ)
        → 0 < 1
        → d.rollback c ≡ true
        → release 2 d (λ k p. one_open.pool) c 40 40 one_open.pool
          ≡ (returned, put_idle c one_open.pool))
Reach-in_use_example = Reach-in_use 2 40 one_open one_open one_open-Reach one_open-Reach

-- A connection that is opened and released between the reads of the stats makes them negative.
stats_torn :
    (stats 2 (λ k p. record p { available = 3 ∷ []; created = 1 }) 40 (new_pool 40)).in_use
    ≡ negsuc 0
unfolding stats
stats_torn = refl
