-- ===== src/Pool/Acquiring.antt =====
-- The calls of `acquire` and `release` are sequences of the steps of a thread.
use incident_agent.Common.{
  ℕ, ◌+◌, ◌-◌, ◌≤◌, ◌<◌, ◌≡◌, ◌&&◌, not, Option, none, some, ◌==◌, Bool-cases, arith, inl, inr,
}
use incident_agent.Pool.{
  Pool, Driver, Created, connected, connect_error, at_limit, acquire, after_idle, after_create,
  after_wait, take_idle, create_below, with_ping, discard, ensure_process, release, put_back,
  is_full,
}
use incident_agent.Pool.Balance.{
  World, Reach, take, create, drop, put, took, opened_one, ensure_process-own, Reach-IsBalanced,
  has_room,
}

-- A pool that is reached, whatever number of connections has left its queue.
abbrev pub IsReached : ℕ → ℕ → Pool → Type 0
IsReached size pid p = (held : ℕ) × Reach size pid (record { pool = p; held = held })

-- `later k` is the world that the thread finds after the `k`-th of its gaps; in those from 2 on a
-- connection is held, its own.
module _ (size pid : ℕ) (d : Driver) (later : ℕ → World)
    (reached : (k : ℕ) → Reach size pid (later k))
    (own : (k : ℕ) → 2 ≤ k → 0 < (later k).held) where
  abbrev pub between : ℕ → Pool → Pool
  between k p = (later k).pool

  dropped-IsReached : (k : ℕ) → 2 ≤ k → IsReached size pid (discard (later k).pool)
  dropped-IsReached k h =
      let others = (later k).held - 1 in (others, drop others (reached k) (omega (arith, own k h)))

  with_ping-IsReached : (c : ℕ) (p : Pool) → IsReached size pid (with_ping d between c p).1
  unfolding with_ping
  with_ping-IsReached c p = elim (Bool-cases (d.ping c)) [
    | inl e ↦ rw e ((later 2).held, reached 2)
    | inr e ↦ rw e (dropped-IsReached 2 (omega arith))
  ]

  after_wait-IsReached :
      (held : ℕ) (x : Option ℕ × Pool)
      → Reach size pid (took held x)
      → IsReached size pid (after_wait d between x).1
  after_wait-IsReached held (none, p) r = (held, r)
  after_wait-IsReached held (some c, p) r = with_ping-IsReached c p

  after_create-IsReached :
      (held : ℕ) (x : Created × Pool)
      → Reach size pid (opened_one held x)
      → IsReached size pid (after_create d between x).1
  after_create-IsReached held (connected c, p) r = with_ping-IsReached c p
  after_create-IsReached held (connect_error, p) r = (held, r)
  after_create-IsReached held (at_limit, p) r =
      after_wait-IsReached (later 1).held (take_idle (later 1).pool) (take (reached 1))

  after_idle-IsReached : (x : Option ℕ × Pool) → IsReached size pid (after_idle size d between x).1
  after_idle-IsReached (some c, p) = with_ping-IsReached c p
  after_idle-IsReached (none, p) =
      after_create-IsReached (later 0).held (create_below size d (later 0).pool)
        (create d (reached 0))

  -- A call of `acquire` ends in a pool that is reached, whether it has a connection or raises.
  acquire-IsReached : (p : Pool) → IsReached size pid (acquire size d between pid p).1
  unfolding acquire
  acquire-IsReached p = after_idle-IsReached (take_idle (ensure_process pid p))

  put_back-IsReached : (c : ℕ) (p : Pool) → IsReached size pid (put_back size d between c p).1
  put_back-IsReached c p = elim (Bool-cases (d.rollback c && not (is_full size (later 3).pool))) [
    | inr e ↦ rw e (dropped-IsReached 4 (omega arith))
    | inl e ↦
        let others = (later 3).held - 1 in
        let mine : (later 3).held ≡ others + 1 = omega (arith, own 3 (omega arith)) in
        rw e (
          others,
          put c others (reached 3) mine
              (has_room size pid (later 3) (reached 3) (own 3 (omega arith))),
        )
  ]

  -- So does a call of `release`, of a connection of this process or of another.
  release-IsReached :
      (c acquired_pid : ℕ) (w : World)
      → Reach size pid w
      → IsReached size pid (release size d between c acquired_pid pid w.pool).1
  unfolding release
  release-IsReached c acquired_pid w r =
      let same = ensure_process-own size pid w (Reach-IsBalanced size pid w r) in
      elim (Bool-cases (acquired_pid == pid)) [
        | inl e ↦ rw (e, same) (put_back-IsReached c w.pool)
        | inr e ↦ rw (e, same) (w.held, r)
      ]
