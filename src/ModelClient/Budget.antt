-- ===== src/ModelClient/Budget.antt =====
-- How far the requests to the model provider may take the totals of the ledger beyond the limits.
use incident_agent.Common.{
  ℕ, zero, suc, ◌+◌, ◌≤◌, at_least_zero, ◌≡◌, refl, ◌∙◌, Option, some, List, [], ◌∷◌, ◌++◌, length,
  length-append, ltb, arith, Bool-cases, inl, inr, ◌⊎◌,
}
use incident_agent.ModelUsage.{
  Settings, is_past, Response, Entry, Reservation, prompt_of, completion_of,
}
use incident_agent.ModelUsage.Accounting.{
  Authorized, reserved, exceeded, authorize_model_call, budget_totals, limits_of,
}
use incident_agent.ModelUsage.Totals.{
  IsWithin, IsWithin-more, Fits-IsWithin, blocked_usage_entry-IsWithin,
  authorize_model_call-LeavesRoom,
}
use incident_agent.ModelUsage.Entries.{IsMonotone, usage_entry-Fits, failed_usage_entry-Fits}
use incident_agent.ModelClient.{
  Policy, Asked, Called, responded, raised, World, Tried, response, provider_error, out_of_attempts,
  Client, request_of, request_timeout, Attempt, done, again, called_entry, authorized_attempt,
  attempt, attempts, settle, create_response,
}

-- How far the responses of the provider go beyond what was reserved: by at most `over_input` tokens
-- beyond the bytes of `input`, which are reserved for it, whatever else is sent, as the definitions
-- of tools, and by at most `over_output` tokens beyond max_output_tokens.
abbrev pub ReportsWithin : World → Asked → ℕ → ℕ → Type 0
ReportsWithin w a over_input over_output =
    (i timeout : ℕ) (r : Response)
    → w.call i timeout ≡ responded r
    → (prompt_of r.usage ≤ a.input_bytes + over_input)
      × (completion_of r.usage ≤ at_least_zero a.max_output_tokens + over_output)

Attempt-cases :
    (x : Attempt) → ((t : Tried) × (e : Entry) × (x ≡ done t e)) ⊎ ((e : Entry) × (x ≡ again e))
Attempt-cases (done t e) = inl (t, e, refl)
Attempt-cases (again e) = inr (e, refl)

module _ (s : Settings) (p : Policy) (w : World) (ledger : List Entry) (a : Asked)
    (over_input over_output : ℕ) (mono : IsMonotone s.round_cost)
    (reports : ReportsWithin w a over_input over_output) where
  abbrev Within : ℕ → ℕ → List Entry → Type 0
  Within x y es = IsWithin (limits_of s) x y (budget_totals ledger es)

  abbrev Responds : Called → Type 0
  Responds c =
      (x : Response)
      → c ≡ responded x
      → (prompt_of x.usage ≤ a.input_bytes + over_input)
        × (completion_of x.usage ≤ at_least_zero a.max_output_tokens + over_output)

  -- The totals with the entry of an attempt: only a response goes beyond its reservation.
  abbrev Counted : List Entry → Attempt → Type 0
  Counted es (done t e) = Within over_input over_output (es ++ e ∷ [])
  Counted es (again e) = Within 0 0 (es ++ e ∷ [])

  called_entry-Counted :
      (i latency : ℕ) (es : List Entry) (r : Reservation) (c : Called)
      → authorize_model_call s ledger es a.input_bytes a.max_output_tokens ≡ reserved r
      → Responds c
      → Counted es (called_entry s a i latency r c)
  unfolding called_entry
  called_entry-Counted i latency es r (responded x) e k =
      let f = authorize_model_call-LeavesRoom s ledger es a.input_bytes a.max_output_tokens r e in
      let b = k x refl in
      Fits-IsWithin (limits_of s) over_input over_output ledger es r _ f.3 (
        usage_entry-Fits (limits_of s) over_input over_output s (request_of a i) x r latency mono
          f.2 (omega (arith, f.0, b.0)) (omega (arith, f.1, b.1)))
  called_entry-Counted i latency es r (raised error_type) e k =
      let f = authorize_model_call-LeavesRoom s ledger es a.input_bytes a.max_output_tokens r e in
      Fits-IsWithin (limits_of s) 0 0 ledger es r _ f.3
        (failed_usage_entry-Fits (limits_of s) s (request_of a i) r latency error_type f.2)

  authorized_attempt-Counted :
      (i latency : ℕ) (es : List Entry) (z : Authorized) (c : Called)
      → authorize_model_call s ledger es a.input_bytes a.max_output_tokens ≡ z
      → Responds c
      → Within 0 0 es
      → Counted es (authorized_attempt s a i latency z c)
  authorized_attempt-Counted i latency es (reserved r) c e k h =
      called_entry-Counted i latency es r c e k
  authorized_attempt-Counted i latency es (exceeded reason) c e k h =
      IsWithin-more (limits_of s) over_input over_output _
        (blocked_usage_entry-IsWithin (limits_of s) ledger es (request_of a i) reason h)

  attempt-Counted :
      (i : ℕ) (es : List Entry) → Within 0 0 es → Counted es (attempt s p w ledger a i (some es))
  unfolding attempt
  attempt-Counted i es h =
      authorized_attempt-Counted i (w.latency i) es
        (authorize_model_call s ledger es a.input_bytes a.max_output_tokens)
        (w.call i (request_timeout p a.deadline_at (w.wall i))) refl (reports i _) h

  -- The totals are kept, and each attempt adds one entry at most.
  pub record Kept (es : List Entry) (left : ℕ) (o : Option (List Entry)) : Type 0 where
    pub entries : List Entry
    pub same : o ≡ some entries
    pub within : Within over_input over_output entries
    pub bounded : length entries ≤ length es + left

  unchanged-Kept : (es : List Entry) (left : ℕ) → Within 0 0 es → Kept es left (some es)
  unchanged-Kept es left h = record {
    entries = es;
    same = refl;
    within = IsWithin-more (limits_of s) over_input over_output _ h;
    bounded = omega arith;
  }

  attempts-Kept :
      (left i : ℕ) (es : List Entry)
      → Within 0 0 es
      → Kept es left (attempts s p w ledger a left i (some es)).1
  unfolding attempts
  attempts-Kept zero i es h = unchanged-Kept es 0 h
  attempts-Kept (suc left) i es h = elim (Bool-cases (is_past a.deadline_at (w.wall i))) [
    | inl q ↦ rw (attempts, q) (unchanged-Kept es (suc left) h)
    | inr q ↦
        let next = attempt-Counted i es h in
        elim (Attempt-cases (attempt s p w ledger a i (some es))) [
          | inl (t, e, m) ↦
              rw (attempts, q, m)
                (record {
                  entries = es ++ e ∷ [];
                  same = refl;
                  within = rw m at next;
                  bounded = rw length-append (omega arith);
                })
          | inr (e, m) ↦
              let rest = attempts-Kept left (suc i) (es ++ e ∷ []) (rw m at next) in
              rw (attempts, q, m)
                (record {
                  entries = rest.entries;
                  same = rest.same;
                  within = rest.within;
                  bounded = omega (arith, rest.bounded, length-append es (e ∷ []));
                })
        ]
  ]

  settled_entries :
      (opened : ℕ) (o : Tried × Option (List Entry)) → (settle p w opened o).1.entries ≡ o.1
  settled_entries opened (response r, es) = refl
  settled_entries opened (provider_error e, es) = refl
  settled_entries opened (out_of_attempts, es) = refl

  -- Where the totals of the ledger and of the new entries are within the limits of the settings, a
  -- request, whatever its attempts come to, leaves the calls within their limit, and goes beyond the
  -- limits of the input tokens, of the output tokens and of both together by no more than what a
  -- response of the provider reports beyond the reservation, once, whatever the number of attempts.
  -- Where no response reports more than was reserved, the cost stays within its limit, if it has
  -- one. It adds at most one entry for each of its attempts. The rounding of a cost is assumed to be
  -- monotone.
  pub create_response-IsWithin :
      (c : Client) (es : List Entry)
      → c.entries ≡ some es
      → IsWithin (limits_of s) 0 0 (budget_totals ledger es)
      → Kept es (suc p.retry_attempts) (create_response s p w ledger a c).1.entries
  unfolding create_response
  create_response-IsWithin c es e h = elim (Bool-cases (ltb w.started c.opened_until)) [
    | inl q ↦ rw (q, e) (unchanged-Kept es (suc p.retry_attempts) h)
    | inr q ↦
        let k = attempts-Kept (suc p.retry_attempts) 0 es h in
        let o = attempts s p w ledger a (suc p.retry_attempts) 0 (some es) in
        rw (q, e)
          (record {
            entries = k.entries;
            same = settled_entries c.opened_until o ∙ k.same;
            within = k.within;
            bounded = k.bounded;
          })
  ]
