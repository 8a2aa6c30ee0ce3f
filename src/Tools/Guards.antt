-- ===== src/Tools/Guards.antt =====
-- A tool is reached only where every guard of ToolSession.run lets the request pass.
use incident_agent.Common.{
  ℕ, ◌+◌, ◌≤◌, ◌<◌, String, ◌≡◌, refl, ◌⊎◌, false, Option, none, some, List, ltb, leb, find, take,
  [], ◌∷◌, true, Memᴰ, found-Memᴰ, arith, Bool-cases, Option-cases, inl, inr,
}
use incident_agent.Investigation.{elapsed_since, is_empty}
use incident_agent.ModelUsage.{is_past}
use incident_agent.Tools.{
  Scope, is_member, Arguments, Validated, normalized, refused, validate_tool_request, argument,
  remote_cost,
}
use incident_agent.Tools.Session.{
  Cached, Budget, Dispatched, Context, with_key, stopped, outside, args_of, after_cache, after_stop,
  after_policy, run,
}

outside-none :
    (scope : Scope) (n : ℕ) (asked : Option String)
    → outside scope n asked ≡ none
    → (service : String) → asked ≡ some service
    → Memᴰ service (take n scope.services) ⊎ (take n scope.services ≡ [])
unfolding outside
outside-none scope n none h service e = absurd (grind arith)
outside-none scope n (some s) h service e =
    let same : s ≡ service = grind arith in
    elim (Bool-cases (is_empty (take n scope.services))) [
      | inl q ↦ inr (empty_list (take n scope.services) q)
      | inr q ↦ elim (Bool-cases (is_member (take n scope.services) s)) [
        | inl m ↦ inl (found-Memᴰ service _ (rw same at m))
        | inr m ↦ absurd (grind (arith, (rw (q, m) at h)))
      ]
    ]
  where
    empty_list : (xs : List String) → is_empty xs ≡ true → xs ≡ []
    empty_list [] h = refl
    empty_list (x ∷ xs) h = absurd (grind arith)

module _ {ℓ} {R : Type ℓ} where
  -- What holds of a request that reaches its tool: it is valid, it comes before the deadline and
  -- within the time of a loop that has not stopped, its result is not in the cache, the remote
  -- units that are left pay for it, and its service, if it names one, is among the services of the
  -- scope that the loop allows, unless there is none of these.
  pub record Reaches (c : Context R) (b : Budget R) (name : String) (args : Arguments) (now : ℕ)
      : Type ℓ where
    pub given : List (String × String)
    pub valid : validate_tool_request c.lower name args ≡ normalized given
    pub in_time : is_past c.deadline_at now ≡ false
    pub active : stopped b.expansion_loop ≡ none
    pub within : elapsed_since b.expansion_loop.started_at now < b.expansion_loop.max_elapsed
    pub uncached : find (with_key (c.cache_key name given)) b.tool_cache ≡ none
    pub paid : b.used_remote_units + remote_cost c.scope name given ≤ b.max_remote_units
    pub in_scope :
        (service : String)
        → argument "service" given ≡ some service
        → Memᴰ service (take b.expansion_loop.max_services c.scope.services)
          ⊎ (take b.expansion_loop.max_services c.scope.services ≡ [])

  module _ (c : Context R) (b : Budget R) (name : String) (args : Arguments) (now : ℕ) where
    module _ (given : List (String × String))
        (valid : validate_tool_request c.lower name args ≡ normalized given)
        (in_time : is_past c.deadline_at now ≡ false) where
      abbrev timed : Budget R
      timed = record b {
        expansion_loop = record b.expansion_loop {
          elapsed = c.round_milliseconds (elapsed_since b.expansion_loop.started_at now);
        };
      }

      after_cache_guarded :
          stopped b.expansion_loop ≡ none
          → elapsed_since b.expansion_loop.started_at now < b.expansion_loop.max_elapsed
          → (found : Option (Cached R))
          → find (with_key (c.cache_key name given)) b.tool_cache ≡ found
          → Reaches c b name args now
            ⊎ ((d e : Dispatched R)
                → after_cache c timed name given (c.cache_key name given) d found
                  ≡ after_cache c timed name given (c.cache_key name given) e found)
      unfolding after_cache
      after_cache_guarded active within (some found) p = inr (λ d e. refl)
      after_cache_guarded active within none p =
          elim (Bool-cases
            (ltb b.max_remote_units (b.used_remote_units + remote_cost c.scope name given))) [
              | inl q ↦ inr (λ d e. rw q refl)
              | inr q ↦
                  elim (Option-cases
                    (outside c.scope b.expansion_loop.max_services (argument "service" given))) [
                      | inr (service, s) ↦ inr (λ d e. rw (q, s) refl)
                      | inl s ↦ inl (record {
                        given = given;
                        valid = valid;
                        in_time = in_time;
                        active = active;
                        within = within;
                        uncached = p;
                        paid = ground arith;
                        in_scope = outside-none c.scope b.expansion_loop.max_services _ s;
                      })
                    ]
            ]

      after_stop_guarded :
          Reaches c b name args now
          ⊎ ((d e : Dispatched R)
              → let t = elapsed_since b.expansion_loop.started_at now in
                let s = stopped b.expansion_loop in
                after_stop c timed name given d t s ≡ after_stop c timed name given e t s)
      after_stop_guarded = elim (Option-cases (stopped b.expansion_loop)) [
        | inr (reason, p) ↦ inr (λ d e. rw p refl)
        | inl p ↦
            elim (Bool-cases
              (leb b.expansion_loop.max_elapsed (elapsed_since b.expansion_loop.started_at now))) [
                | inl q ↦ inr (λ d e. rw (p, q) refl)
                | inr q ↦
                    elim (after_cache_guarded p (ground arith)
                      (find (with_key (c.cache_key name given)) b.tool_cache) refl) [
                        | inl r ↦ inl r
                        | inr r ↦ inr (λ d e. rw (p, q) (r d e))
                      ]
              ]
      ]

    after_policy_guarded :
        (v : Validated)
        → validate_tool_request c.lower name args ≡ v
        → Reaches c b name args now
          ⊎ ((d e : Dispatched R) → after_policy c b name d now v ≡ after_policy c b name e now v)
    unfolding after_policy
    after_policy_guarded (refused v) p = inr (λ d e. refl)
    after_policy_guarded (normalized given) p = elim (Bool-cases (is_past c.deadline_at now)) [
      | inl q ↦ inr (λ d e. rw q refl)
      | inr q ↦ elim (after_stop_guarded given p q) [
        | inl r ↦ inl r
        | inr r ↦ inr (λ d e. rw q (r d e))
      ]
    ]

    -- A call comes to the same, whatever its tool would answer, unless the request is valid, comes
    -- before the deadline and within the time of a loop that has not stopped, is not in the cache, is
    -- paid by the units that are left, and, if it names a service, names one of the first services
    -- of the scope, as many as the loop allows, unless there is none of these.
    pub run-Reaches :
        Reaches c b name args now
        ⊎ ((d e : List (String × String) → Dispatched R)
            → run c b name args d now ≡ run c b name args e now)
    unfolding run
    run-Reaches =
        let v = validate_tool_request c.lower name args in
        elim (after_policy_guarded v refl) [
          | inl r ↦ inl r
          | inr r ↦ inr (λ d e. r (d (args_of v)) (e (args_of v)))
        ]
