-- ===== src/ModelUsage/Totals.antt =====
-- The totals of the ledger: what an authorized call may add to them.
use incident_agent.Common.{
  count-append, ℕ, ◌+◌, ◌≤◌, ◌<◌, ℤ, at_least_zero, String, ◌≡◌, refl, Bool, true, false, Option,
  none, some, List, [], ◌∷◌, ◌++◌, leb, ltb, count, if◌then◌else◌, arith, Bool-cases, inl, inr,
}
use incident_agent.Investigation.{get_or}
use incident_agent.ModelUsage.{
  Settings, Entry, Reservation, Request, reservation_cost, blocked_usage_entry,
}
use incident_agent.ModelUsage.Accounting.{
  was_made, budget_input, budget_output, budget_cost, sum_of, Used, budget_totals, Limits,
  limits_of, Authorized, reserved, exceeded, within_cost, authorize_model_call,
}

-- The totals are within the limits, but for `a` more input tokens and `b` more output tokens; the
-- cost only where it is limited and there is no such excess.
pub record IsWithin (l : Limits) (a b : ℕ) (t : Used) : Type 0 where
  pub calls : t.call_count ≤ l.max_calls
  pub input : t.input_tokens ≤ l.max_input_tokens + a
  pub output : t.output_tokens ≤ l.max_output_tokens + b
  pub total : t.input_tokens + t.output_tokens ≤ l.max_total_tokens + (a + b)
  pub money : a + b ≡ 0 → 0 < l.max_cost → t.cost ≤ l.max_cost

pub IsWithin-more : (l : Limits) (a b : ℕ) (t : Used) → IsWithin l 0 0 t → IsWithin l a b t
IsWithin-more l a b t h = record {
  calls = h.calls;
  input = omega (arith, h.input);
  output = omega (arith, h.output);
  total = omega (arith, h.total);
  money = λ z p. h.money refl p;
}

-- A call that adds what its reservation says, at most, leaves the totals within the limits.
pub record LeavesRoom (l : Limits) (t : Used) (r : Reservation) : Type 0 where
  pub calls : t.call_count < l.max_calls
  pub input : t.input_tokens + r.input_tokens ≤ l.max_input_tokens
  pub output : t.output_tokens + r.output_tokens ≤ l.max_output_tokens
  pub total :
      (t.input_tokens + r.input_tokens) + (t.output_tokens + r.output_tokens) ≤ l.max_total_tokens
  pub money : 0 < l.max_cost → t.cost + get_or r.estimated_cost 0 ≤ l.max_cost
  pub known : 0 < l.max_cost → (c : ℕ) × (r.estimated_cost ≡ some c)

within_cost_reserved :
    (limit used : ℕ) (cost : Option ℕ) (r s : Reservation)
    → within_cost limit used cost (reserved r) ≡ reserved s
    → (r ≡ s) × (used + get_or cost 0 ≤ limit) × ((c : ℕ) × (cost ≡ some c))
within_cost_reserved limit used none r s e = absurd (grind arith)
within_cost_reserved limit used (some c) r s e = (grind arith, grind arith, (c, refl))

guard_passed :
    (b : Bool) (reason : String) (x : Authorized) (r : Reservation)
    → (if b then exceeded reason else x) ≡ reserved r
    → (b ≡ false) × (x ≡ reserved r)
guard_passed true reason x r e = absurd (grind arith)
guard_passed false reason x r e = (refl, e)

money_passed :
    (limit used : ℕ) (cost : Option ℕ) (r s : Reservation)
    → (if ltb 0 limit then within_cost limit used cost (reserved r) else reserved r) ≡ reserved s
    → (r ≡ s) × (0 < limit → used + get_or cost 0 ≤ limit) × (0 < limit → (c : ℕ) × (cost ≡ some c))
money_passed limit used cost r s e = elim (Bool-cases (ltb 0 limit)) [
  | inl q ↦
      let w = within_cost_reserved limit used cost r s (rw q at e) in (w.0, λ p. w.1, λ p. w.2)
  | inr q ↦ (grind (arith, (rw q at e)), λ p. absurd (ground arith), λ p. absurd (ground arith))
]

-- A reservation is what was asked for, and there is room for it.
pub authorize_model_call-LeavesRoom :
    (s : Settings) (existing pending : List Entry) (input_bytes : ℕ) (max_output : ℤ)
    (r : Reservation)
    → authorize_model_call s existing pending input_bytes max_output ≡ reserved r
    → (r.input_tokens ≡ input_bytes)
      × (r.output_tokens ≡ at_least_zero max_output)
      × (r.estimated_cost ≡ reservation_cost s r.input_tokens r.output_tokens)
      × LeavesRoom (limits_of s) (budget_totals existing pending) r
unfolding authorize_model_call
authorize_model_call-LeavesRoom s existing pending input_bytes max_output r e =
    let t = budget_totals existing pending in
    let l = limits_of s in
    let output = at_least_zero max_output in
    let a = guard_passed (leb l.max_calls t.call_count) _ _ r e in
    let b = guard_passed (ltb l.max_input_tokens (t.input_tokens + input_bytes)) _ _ r a.1 in
    let c = guard_passed (ltb l.max_output_tokens (t.output_tokens + output)) _ _ r b.1 in
    let d =
      guard_passed
        (ltb l.max_total_tokens ((t.input_tokens + input_bytes) + (t.output_tokens + output))) _ _ r
        c.1 in
    let m = money_passed l.max_cost t.cost (reservation_cost s input_bytes output) _ r d.1 in
    rw (← m.0) (
      refl,
      refl,
      refl,
      record {
        calls = ground (arith, a.0);
        input = ground (arith, b.0);
        output = ground (arith, c.0);
        total = ground (arith, d.0);
        money = m.1;
        known = m.2;
      },
    )

pub sum_of-append :
    (f : Entry → ℕ) (xs ys : List Entry) → sum_of f (xs ++ ys) ≡ sum_of f xs + sum_of f ys
unfolding sum_of
sum_of-append f [] ys = omega arith
sum_of-append f (x ∷ xs) ys = omega (arith, sum_of-append f xs ys)

-- An entry uses no more than its reservation and the excess of `a` and `b` tokens.
pub record Fits (l : Limits) (a b : ℕ) (r : Reservation) (e : Entry) : Type 0 where
  pub input : budget_input e ≤ r.input_tokens + a
  pub output : budget_output e ≤ r.output_tokens + b
  pub money : a + b ≡ 0 → 0 < l.max_cost → budget_cost e ≤ get_or r.estimated_cost 0

sum_of_added :
    (f : Entry → ℕ) (xs ys : List Entry) (e : Entry)
    → sum_of f (xs ++ (ys ++ e ∷ [])) ≡ sum_of f (xs ++ ys) + f e
unfolding sum_of
sum_of_added f xs ys e =
    omega
      (arith, sum_of-append f xs (ys ++ e ∷ []), sum_of-append f ys (e ∷ []), sum_of-append f xs ys)

count_added :
    (xs ys : List Entry) (e : Entry)
    → count was_made (xs ++ (ys ++ e ∷ []))
      ≡ count was_made (xs ++ ys) + (if was_made e then 1 else 0)
unfolding count
count_added xs ys e =
    let last : count was_made (e ∷ []) ≡ (if was_made e then 1 else 0) = refl in
    omega (
      arith,
      last,
      count-append was_made xs (ys ++ e ∷ []),
      count-append was_made ys (e ∷ []),
      count-append was_made xs ys,
    )

one_at_most : (b : Bool) → (if b then 1 else 0) ≤ 1
one_at_most true = omega arith
one_at_most false = omega arith

pub Fits-IsWithin :
    (l : Limits) (a b : ℕ) (existing pending : List Entry) (r : Reservation) (e : Entry)
    → LeavesRoom l (budget_totals existing pending) r
    → Fits l a b r e
    → IsWithin l a b (budget_totals existing (pending ++ e ∷ []))
unfolding budget_totals
Fits-IsWithin l a b existing pending r e room fits = record {
  calls = omega (arith, count_added existing pending e, one_at_most (was_made e), room.calls);
  input = omega (arith, sum_of_added budget_input existing pending e, room.input, fits.input);
  output = omega (arith, sum_of_added budget_output existing pending e, room.output, fits.output);
  total = omega (
    arith,
    sum_of_added budget_input existing pending e,
    sum_of_added budget_output existing pending e,
    room.total,
    fits.input,
    fits.output,
  );
  money = λ z p.
      omega (arith, sum_of_added budget_cost existing pending e, room.money p, fits.money z p);
}

pub blocked_usage_entry-IsWithin :
    (l : Limits) (existing pending : List Entry) (q : Request) (reason : String)
    → IsWithin l 0 0 (budget_totals existing pending)
    → IsWithin l 0 0 (budget_totals existing (pending ++ blocked_usage_entry q reason ∷ []))
unfolding budget_totals blocked_usage_entry
blocked_usage_entry-IsWithin l existing pending q reason h =
    let e = blocked_usage_entry q reason in
    record {
      calls = omega (arith, count_added existing pending e, h.calls);
      input = omega (arith, sum_of_added budget_input existing pending e, h.input);
      output = omega (arith, sum_of_added budget_output existing pending e, h.output);
      total = omega (
        arith,
        sum_of_added budget_input existing pending e,
        sum_of_added budget_output existing pending e,
        h.total,
      );
      money = λ z p. omega (arith, sum_of_added budget_cost existing pending e, h.money z p);
    }
