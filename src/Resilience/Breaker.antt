-- ===== src/Resilience/Breaker.antt =====
-- The circuit of a source implements a breaker that is specified on the history of its calls.
use incident_agent.Common.{
  ℕ, suc, ◌+◌, ◌≤◌, ◌<◌, String, ◌≡◌, ◌≢◌, ◌↔◌, refl, ap, sym, Bool, true, Option, none, List, [],
  ◌∷◌, str_eq, eq_iff, leb, ltb, lt→ltb, if◌then◌else◌, arith, Bool-cases, inl, inr,
}
use incident_agent.Resilience.{
  Policy, Tried, answered, fatal, out_of_attempts, Circuit, Circuits, failures_of, open_until_of,
  Requested, response, connector_error, circuit_open, source_unavailable, Call, settle, request,
}

-- What a call came to for its source: it succeeded, it failed after all attempts at a time, or it
-- says nothing about the source (an error of the request itself, or the open circuit).
pub data Event : Type 0 where
  succeeded neutral : Event
  gave_up : ℕ → Event

-- The failures since the last success; the newest event is first.
unfoldable pub in_a_row : List Event → ℕ
in_a_row [] = 0
in_a_row (succeeded ∷ h) = 0
in_a_row (neutral ∷ h) = in_a_row h
in_a_row (gave_up t ∷ h) = suc (in_a_row h)

-- The third failure in a row, and each one after it, blocks the source for a time.
unfoldable pub blocked_until : ℕ → List Event → ℕ
blocked_until time [] = 0
blocked_until time (succeeded ∷ h) = 0
blocked_until time (neutral ∷ h) = blocked_until time h
blocked_until time (gave_up t ∷ h) = if leb 3 (suc (in_a_row h)) then t + time else 0

abbrev pub event_of : Call → Requested → Event
event_of x (response status) = succeeded
event_of x (connector_error category status id) = neutral
event_of x circuit_open = neutral
event_of x (source_unavailable n last) = gave_up x.ended

-- The history of a source after a call of some source.
abbrev pub recorded : String → Call → Requested → List Event → List Event
recorded source x r h = if str_eq source x.source then event_of x r ∷ h else h

-- A circuit stands for a history.
pub record Represents (p : Policy) (c : Option Circuit) (h : List Event) : Type 0 where
  pub failures : failures_of c ≡ in_a_row h
  pub until : open_until_of c ≡ blocked_until p.circuit_open h

no_calls : (p : Policy) → Represents p none []
unfolding in_a_row blocked_until
no_calls p = record { failures = refl; until = refl }

settle-Represents :
    (policies : String → Policy) (source : String) (cs : Circuits) (x : Call) (t : Tried)
    (h : List Event)
    → Represents (policies source) (cs source) h
    → let s = settle (policies x.source) cs x t in
      Represents (policies source) (s.1 source) (recorded source x s.0 h)
unfolding in_a_row blocked_until
settle-Represents policies source cs x (fatal category status id) h r =
    elim (Bool-cases (str_eq source x.source)) [
      | inl e ↦ rw e (record { failures = r.failures; until = r.until })
      | inr e ↦ rw e r
    ]
settle-Represents policies source cs x (answered status) h r =
    elim (Bool-cases (str_eq source x.source)) [
      | inl e ↦ rw e (record { failures = refl; until = refl })
      | inr e ↦ rw e r
    ]
settle-Represents policies source cs x (out_of_attempts last) h r =
    elim (Bool-cases (str_eq source x.source)) [
      | inl e ↦
          let same : x.source ≡ source = sym ((eq_iff source x.source).0 e) in
          let row : failures_of (cs x.source) + 1 ≡ suc (in_a_row h) =
            omega (arith, ap (λ n. failures_of (cs n)) same, r.failures) in
          let time : (policies x.source).circuit_open ≡ (policies source).circuit_open =
            ap (λ n. (policies n).circuit_open) same in
          rw e (record { failures = row; until = rw (row, time) refl })
      | inr e ↦ rw e r
    ]

module _ (raises : ℕ → Bool) (policies : String → Policy) where
  -- The circuits after a sequence of calls, and what the calls came to for a source.
  unfoldable pub request_all : Circuits → List Call → Circuits
  request_all cs [] = cs
  request_all cs (x ∷ xs) = request_all (request raises policies cs x).1 xs

  unfoldable pub history : String → Circuits → List Event → List Call → List Event
  history source cs h [] = h
  history source cs h (x ∷ xs) =
      history source (request raises policies cs x).1
        (recorded source x (request raises policies cs x).0 h) xs

  request-Represents :
      (source : String) (cs : Circuits) (x : Call) (h : List Event)
      → Represents (policies source) (cs source) h
      → let s = request raises policies cs x in
        Represents (policies source) (s.1 source) (recorded source x s.0 h)
  unfolding request in_a_row blocked_until
  request-Represents source cs x h r = elim (Bool-cases (ltb x.now (open_until_of (cs x.source)))) [
    | inr e ↦ rw e (settle-Represents policies source cs x _ h r)
    | inl e ↦ rw e (elim (Bool-cases (str_eq source x.source)) [
      | inl q ↦ rw q (record { failures = r.failures; until = r.until })
      | inr q ↦ rw q r
    ])
  ]

  all-Represents :
      (source : String) (cs : Circuits) (xs : List Call) (h : List Event)
      → Represents (policies source) (cs source) h
      → Represents (policies source) (request_all cs xs source) (history source cs h xs)
  unfolding request_all history
  all-Represents source cs [] h r = r
  all-Represents source cs (x ∷ xs) h r =
      all-Represents source (request raises policies cs x).1 xs _
        (request-Represents source cs x h r)

three_in_a_row : (time now : ℕ) (h : List Event) → now < blocked_until time h → 3 ≤ in_a_row h
unfolding blocked_until in_a_row
three_in_a_row time now [] e = absurd (omega arith)
three_in_a_row time now (succeeded ∷ h) e = absurd (omega arith)
three_in_a_row time now (neutral ∷ h) e = three_in_a_row time now h e
three_in_a_row time now (gave_up t ∷ h) e = ground arith

settle_closed :
    (p : Policy) (cs : Circuits) (x : Call) (t : Tried) → (settle p cs x t).0 ≢ circuit_open
settle_closed p cs x (answered status) = λ e. grind arith
settle_closed p cs x (fatal category status id) = λ e. grind arith
settle_closed p cs x (out_of_attempts last) = λ e. grind arith

-- `_STATE = {}`
abbrev pub no_circuits : Circuits
no_circuits source = none

-- After any calls of any sources, from the empty state on, a call is refused by the circuit in
-- exactly the cases in which, of the calls of its source since the last one that succeeded, three or
-- more failed after all their attempts, and the last of these ended less than the source's
-- circuit_open_seconds ago.
pub request-circuit_open :
    (raises : ℕ → Bool) (policies : String → Policy) (xs : List Call) (x : Call)
    → let h = history raises policies x.source no_circuits [] xs in
      ((request raises policies (request_all raises policies no_circuits xs) x).0 ≡ circuit_open)
      ↔ ((3 ≤ in_a_row h) × (x.now < blocked_until (policies x.source).circuit_open h))
unfolding request
request-circuit_open raises policies xs x =
    let cs = request_all raises policies no_circuits xs in
    let h = history raises policies x.source no_circuits [] xs in
    let r : Represents (policies x.source) (cs x.source) h =
      all-Represents raises policies x.source no_circuits xs [] (no_calls (policies x.source)) in
    (
      λ e. elim (Bool-cases (ltb x.now (open_until_of (cs x.source)))) [
        | inl q ↦
            let now_before : x.now < blocked_until (policies x.source).circuit_open h =
              ground (arith, r.until) in
            (three_in_a_row _ _ h now_before, now_before)
        | inr q ↦ absurd (settle_closed (policies x.source) cs x _ (rw q at e))
      ],
      λ b.
          let opened : ltb x.now (open_until_of (cs x.source)) ≡ true =
            lt→ltb _ _ (rw r.until b.1) in
          rw opened refl,
    )
