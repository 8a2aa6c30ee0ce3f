-- ===== src/Pool/Balance.antt =====
-- The threads of one process share a pool: what their steps keep, in whatever order they come.
use incident_agent.Common.{
  ℕ, ◌+◌, ◌-◌, ◌≤◌, ◌<◌, pos, ◌≡◌, ◌≢◌, refl, ap, true, false, Option, none, some, List, [], ◌∷◌,
  ◌==◌, ==_refl, length, arith, Bool-cases, Option-cases, inl, inr, ltb, leb,
}
use incident_agent.Pool.{
  Pool, Driver, Created, connected, connect_error, at_limit, returned, new_pool, ensure_process,
  taken, take_idle, create_below, discard, release, put_idle, is_full, stats,
}

-- The pool with the number of connections that have left its queue and are neither back nor closed.
pub record World : Type 0 where
  pub pool : Pool
  pub held : ℕ

abbrev pub took : ℕ → Option ℕ × Pool → World
took held (none, p) = record { pool = p; held = held }
took held (some c, p) = record { pool = p; held = held + 1 }

abbrev pub opened_one : ℕ → Created × Pool → World
opened_one held (connected c, p) = record { pool = p; held = held + 1 }
opened_one held (connect_error, p) = record { pool = p; held = held }
opened_one held (at_limit, p) = record { pool = p; held = held }

-- The pools of a process: new, or inherited through a fork, and after each step of a thread. A step
-- is one access to the pool, which no other thread comes between: a get of the queue, the block of
-- `acquire` under the lock, that of `discard`, and a put where there is room; the last two are for a
-- connection that is held.
pub data Reach (size pid : ℕ) : World → Type 0 where
  start : Reach size pid (record { pool = new_pool pid; held = 0 })
  forked :
      (parent : Pool)
      → parent.pid ≢ pid
      → Reach size pid (record { pool = ensure_process pid parent; held = 0 })
  take : {w : World} → Reach size pid w → Reach size pid (took w.held (take_idle w.pool))
  create :
      {w : World} (d : Driver)
      → Reach size pid w
      → Reach size pid (opened_one w.held (create_below size d w.pool))
  drop :
      {w : World} (others : ℕ)
      → Reach size pid w
      → w.held ≡ others + 1
      → Reach size pid (record { pool = discard w.pool; held = others })
  put :
      {w : World} (c others : ℕ)
      → Reach size pid w
      → w.held ≡ others + 1
      → is_full size w.pool ≡ false
      → Reach size pid (record { pool = put_idle c w.pool; held = others })

pub record IsBalanced (size pid : ℕ) (w : World) : Type 0 where
  pub own : w.pool.pid ≡ pid
  pub total : w.pool.created ≡ length w.pool.available + w.held
  pub bounded : w.pool.created ≤ size

taken-IsBalanced :
    (size pid : ℕ) (w : World) (cs : List ℕ)
    → w.pool.available ≡ cs
    → IsBalanced size pid w
    → IsBalanced size pid (took w.held (taken cs w.pool))
taken-IsBalanced size pid w [] e b = b
taken-IsBalanced size pid w (c ∷ cs) e b = record {
  own = b.own;
  total = omega (arith, b.total, ap length e);
  bounded = b.bounded;
}

take_idle-IsBalanced :
    (size pid : ℕ) (w : World)
    → IsBalanced size pid w
    → IsBalanced size pid (took w.held (take_idle w.pool))
unfolding take_idle
take_idle-IsBalanced size pid w b = taken-IsBalanced size pid w w.pool.available refl b

create_below-IsBalanced :
    (size pid : ℕ) (d : Driver) (w : World)
    → IsBalanced size pid w
    → IsBalanced size pid (opened_one w.held (create_below size d w.pool))
unfolding create_below
create_below-IsBalanced size pid d w b = elim (Bool-cases (ltb w.pool.created size)) [
  | inr e ↦ rw e b
  | inl e ↦ elim (Option-cases d.connect) [
    | inl o ↦ rw (e, o) b
    | inr (c, o) ↦
        rw (e, o)
          (record { own = b.own; total = omega (arith, b.total); bounded = ground (arith, e) })
  ]
]

-- One connection fewer, closed.
discard-IsBalanced :
    (size pid others : ℕ) (w : World)
    → IsBalanced size pid w
    → w.held ≡ others + 1
    → IsBalanced size pid (record { pool = discard w.pool; held = others })
unfolding discard
discard-IsBalanced size pid others w b h = record {
  own = b.own;
  total = omega (arith, b.total, h);
  bounded = omega (arith, b.bounded);
}

-- A balanced pool is its process's own.
pub ensure_process-own :
    (size pid : ℕ) (w : World) → IsBalanced size pid w → ensure_process pid w.pool ≡ w.pool
ensure_process-own size pid w b = rw (b.own, ==_refl pid) refl

pub Reach-IsBalanced : (size pid : ℕ) (w : World) → Reach size pid w → IsBalanced size pid w
Reach-IsBalanced size pid w start = record { own = refl; total = refl; bounded = omega arith }
Reach-IsBalanced size pid w (forked parent n) =
    let differs : (pid == parent.pid) ≡ false = ground (arith, n) in
    rw differs (record { own = refl; total = refl; bounded = omega arith })
Reach-IsBalanced size pid _ (take {w} r) =
    take_idle-IsBalanced size pid w (Reach-IsBalanced size pid w r)
Reach-IsBalanced size pid _ (create {w} d r) =
    create_below-IsBalanced size pid d w (Reach-IsBalanced size pid w r)
Reach-IsBalanced size pid _ (drop {w} others r h) =
    discard-IsBalanced size pid others w (Reach-IsBalanced size pid w r) h
Reach-IsBalanced size pid _ (put {w} c others r h f) =
    let b = Reach-IsBalanced size pid w r in
    record { own = b.own; total = omega (arith, b.total, h); bounded = b.bounded }

pub has_room :
    (size pid : ℕ) (w : World) → Reach size pid w → 0 < w.held → is_full size w.pool ≡ false
has_room size pid w r h =
    let b = Reach-IsBalanced size pid w r in ground (arith, b.total, b.bounded, h)

-- However the accesses of the threads of a process to its pool come, after a fork or not: the
-- connections that are open are no more than the size of the pool, and are those in the queue and
-- those that have left it and are neither back nor closed. Where no other thread comes between the
-- reads of the stats, their number in use is that of the latter. A release by the process, if its
-- rollback returns and the connection is still held when it does, finds room in the queue and puts
-- it back, whatever the pool has become during the rollback.
pub Reach-in_use :
    (size pid : ℕ) (w v : World)
    → Reach size pid w
    → Reach size pid v
    → (w.pool.created ≤ size)
      × (w.pool.created ≡ length w.pool.available + w.held)
      × ((stats size (λ k p. p) pid w.pool).in_use ≡ pos w.held)
      × ((d : Driver) (c : ℕ)
          → 0 < v.held
          → d.rollback c ≡ true
          → release size d (λ k p. v.pool) c pid pid w.pool ≡ (returned, put_idle c v.pool))
unfolding stats release
Reach-in_use size pid w v r later =
    let b = Reach-IsBalanced size pid w r in
    let no_less : leb (length w.pool.available) w.pool.created ≡ true = ground (arith, b.total) in
    let exact : w.pool.created - length w.pool.available ≡ w.held = omega (arith, b.total) in
    (
      b.bounded,
      b.total,
      rw (ensure_process-own size pid w b, no_less) (ap pos exact),
      λ d c h k.
          rw (ensure_process-own size pid w b, ==_refl pid, k, has_room size pid v later h) refl,
    )
