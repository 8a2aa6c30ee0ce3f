-- ===== src/Tools/Limits.antt =====
-- No sequence of tool calls leaves the limits of its session.
use incident_agent.Common.{
  ℕ, ◌+◌, ◌≤◌, String, ◌≡◌, refl, Option, none, some, List, [], ◌∷◌, length, length-append, ltb,
  leb, find, arith, Bool-cases, Option-cases, inl, inr,
}
use incident_agent.Investigation.{elapsed_since}
use incident_agent.ModelUsage.{is_past}
use incident_agent.Tools.{
  Arguments, Validated, normalized, refused, validate_tool_request, argument, remote_cost,
}
use incident_agent.Tools.Session.{
  Status, blocked, executed, cache, policy_blocked, Cached, Budget, Dispatched, returned, raised,
  Context, with_key, stopped, outside, args_of, record_call, charge, remember, after_dispatch,
  after_cache, after_stop, after_policy, run,
}

-- A call of a tool: its name, its arguments, what the tool answers and the time.
pub record Call {ℓ} (R : Type ℓ) : Type ℓ where
  pub name : String
  pub args : Arguments
  pub dispatch : List (String × String) → Dispatched R
  pub now : ℕ

module _ {ℓ} {R : Type ℓ} where
  -- The limits and the rounds are those of the budget `s`.
  abbrev pub KeepsLimits : Budget R → Budget R → Type 0
  KeepsLimits s b =
      (b.max_remote_units ≡ s.max_remote_units)
      × (b.expansion_loop.max_result_bytes ≡ s.expansion_loop.max_result_bytes)
      × (b.expansion_loop.max_rounds ≡ s.expansion_loop.max_rounds)
      × (b.expansion_loop.round ≡ s.expansion_loop.round)

  -- The units and the bytes that are used are within the limits, which are those of `s`, the cache
  -- holds at most 16 results and the history shows at most 20 calls.
  pub record IsWithin (s b : Budget R) : Type ℓ where
    pub same : KeepsLimits s b
    pub units : b.used_remote_units ≤ b.max_remote_units
    pub bytes : b.expansion_loop.used_result_bytes ≤ b.expansion_loop.max_result_bytes
    pub cached : length b.tool_cache ≤ 16
    pub shown : length b.tool_history ≤ 20

  module _ {s : Budget R} where
    record_call-IsWithin :
        (b : Budget R) (name : String) (args : List (String × String)) (units : ℕ) (status : Status)
        (bytes : ℕ)
        → IsWithin s b
        → IsWithin s (record_call b name args units status bytes)
    unfolding record_call
    record_call-IsWithin b name args units status bytes h =
        elim (Bool-cases (ltb (length b.tool_history) 20)) [
          | inr e ↦ rw e h
          | inl e ↦ rw e (record {
            same = h.same;
            units = h.units;
            bytes = h.bytes;
            cached = h.cached;
            shown = rw length-append (ground arith);
          })
        ]

    remember-IsWithin :
        (b : Budget R) (key : String) (r : R) → IsWithin s b → IsWithin s (remember b key r)
    remember-IsWithin b key r h = elim (Bool-cases (ltb (length b.tool_cache) 16)) [
      | inr e ↦ rw e h
      | inl e ↦ rw e (record {
        same = h.same;
        units = h.units;
        bytes = h.bytes;
        cached = rw length-append (ground arith);
        shown = h.shown;
      })
    ]

    charge-IsWithin :
        (b : Budget R) (cost used : ℕ)
        → b.used_remote_units + cost ≤ b.max_remote_units
        → used ≤ b.expansion_loop.max_result_bytes
        → IsWithin s b
        → IsWithin s (charge b cost used)
    charge-IsWithin b cost used u v h = record {
      same = h.same;
      units = u;
      bytes = v;
      cached = h.cached;
      shown = h.shown;
    }

    module _ (c : Context R) (b : Budget R) (name : String) (args : List (String × String))
        (h : IsWithin s b) where
      after_dispatch-IsWithin :
          (key : String) (cost : ℕ) (d : Dispatched R)
          → b.used_remote_units + cost ≤ b.max_remote_units
          → IsWithin s (after_dispatch c b name args key cost d).1
      unfolding after_dispatch
      after_dispatch-IsWithin key cost (raised e) u = h
      after_dispatch-IsWithin key cost (returned r) u =
          elim (Bool-cases (
            ltb b.expansion_loop.max_result_bytes
              (b.expansion_loop.used_result_bytes + c.size (c.compact r)))) [
                | inl e ↦ rw e (
                    record_call-IsWithin _ name args cost blocked _
                      (charge-IsWithin b cost _ u (omega arith) h))
                | inr e ↦ rw e (
                    record_call-IsWithin _ name args cost executed _ (
                      remember-IsWithin _ key (c.compact r)
                        (charge-IsWithin b cost _ u (ground arith) h)))
              ]

      after_cache-IsWithin :
          (key : String) (d : Dispatched R) (found : Option (Cached R))
          → IsWithin s (after_cache c b name args key d found).1
      unfolding after_cache
      after_cache-IsWithin key d (some found) = record_call-IsWithin b name args 0 cache 0 h
      after_cache-IsWithin key d none =
          elim (Bool-cases
            (ltb b.max_remote_units (b.used_remote_units + remote_cost c.scope name args))) [
              | inl e ↦ rw e (record_call-IsWithin b name args 0 blocked 0 h)
              | inr e ↦
                  rw e
                    (elim (Option-cases
                      (outside c.scope b.expansion_loop.max_services (argument "service" args))) [
                        | inl q ↦ rw q (after_dispatch-IsWithin key _ d (ground arith))
                        | inr (service, q) ↦ rw q (record_call-IsWithin b name args 0 blocked 0 h)
                      ])
            ]

      after_stop-IsWithin :
          (d : Dispatched R) (elapsed : ℕ) (reason : Option String)
          → IsWithin s (after_stop c b name args d elapsed reason).1
      after_stop-IsWithin d elapsed (some reason) = record_call-IsWithin b name args 0 blocked 0 h
      after_stop-IsWithin d elapsed none =
          elim (Bool-cases (leb b.expansion_loop.max_elapsed elapsed)) [
            | inl e ↦ rw e (record_call-IsWithin b name args 0 blocked 0 h)
            | inr e ↦ rw e (
                after_cache-IsWithin (c.cache_key name args) d
                  (find (with_key (c.cache_key name args)) b.tool_cache))
          ]

    after_policy-IsWithin :
        (c : Context R) (b : Budget R) (name : String) (d : Dispatched R) (now : ℕ) (v : Validated)
        → IsWithin s b
        → IsWithin s (after_policy c b name d now v).1
    unfolding after_policy
    after_policy-IsWithin c b name d now (refused v) h =
        record_call-IsWithin b name [] 0 policy_blocked 0 h
    after_policy-IsWithin c b name d now (normalized args) h =
        elim (Bool-cases (is_past c.deadline_at now)) [
          | inl e ↦ rw e (record_call-IsWithin b name args 0 blocked 0 h)
          | inr e ↦
              let l = record b.expansion_loop {
                elapsed = c.round_milliseconds (elapsed_since b.expansion_loop.started_at now);
              } in
              let b' : Budget R = record b { expansion_loop = l } in
              let h' : IsWithin s b' = record {
                same = h.same;
                units = h.units;
                bytes = h.bytes;
                cached = h.cached;
                shown = h.shown;
              } in
              rw e (after_stop-IsWithin c b' name args h' d _ (stopped l))
        ]

    pub run-IsWithin :
        (c : Context R) (b : Budget R) (name : String) (args : Arguments)
        (dispatch : List (String × String) → Dispatched R) (now : ℕ)
        → IsWithin s b
        → IsWithin s (run c b name args dispatch now).1
    unfolding run
    run-IsWithin c b name args dispatch now h =
        let v = validate_tool_request c.lower name args in
        after_policy-IsWithin c b name (dispatch (args_of v)) now v h

  -- The budget after a sequence of calls of one session.
  unfoldable pub run_all : Context R → Budget R → List (Call R) → Budget R
  run_all c b [] = b
  run_all c b (x ∷ xs) = run_all c (run c b x.name x.args x.dispatch x.now).1 xs

  run_all_bounded :
      {s : Budget R} (c : Context R) (b : Budget R) (xs : List (Call R))
      → IsWithin s b
      → IsWithin s (run_all c b xs)
  unfolding run_all
  run_all_bounded c b [] h = h
  run_all_bounded c b (x ∷ xs) h =
      run_all_bounded c (run c b x.name x.args x.dispatch x.now).1 xs
        (run-IsWithin c b x.name x.args x.dispatch x.now h)

  -- From a session within its limits, no sequence of calls, whatever is asked and whatever the
  -- tools answer, uses more remote units or bytes than the limits, which stay as they are with the
  -- rounds, keeps more than 16 results or shows more than 20 calls.
  pub run_all-IsWithin :
      (c : Context R) (b : Budget R) (xs : List (Call R))
      → b.used_remote_units ≤ b.max_remote_units
      → b.expansion_loop.used_result_bytes ≤ b.expansion_loop.max_result_bytes
      → length b.tool_cache ≤ 16
      → length b.tool_history ≤ 20
      → IsWithin b (run_all c b xs)
  run_all-IsWithin c b xs u v k n =
      run_all_bounded c b xs
        (record { same = (refl, refl, refl, refl); units = u; bytes = v; cached = k; shown = n })
