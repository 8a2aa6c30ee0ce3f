-- ===== src/GraphReview/Restart.antt =====
-- A reviewer's question starts the tools with a fresh, bounded allowance.
use incident_agent.Common.{ℕ, max, ◌≡◌, refl, Option, none, List, arith}
use incident_agent.Investigation.{Limits, Stored, get_or, initialize_loop}
use incident_agent.Tools.Session.{Budget, Context}
use incident_agent.Tools.Limits.{Call, IsWithin, run_all, run_all-IsWithin}
use incident_agent.GraphReview.{previous_loop, restart_budget}

-- After a reviewer's question, however much of the previous allowance was consumed, the tools start
-- from nothing used, in round 0, with the limits of the previous loop where it had them; and
-- whatever calls follow, they stay within these limits.
pub restart_budget-IsWithin {ℓ} :
    {R : Type ℓ} (c : Context R) (limits : Limits) (max_remote_units : ℕ)
    (of_budget of_state : Option Stored) (now : ℕ) (calls : List (Call R))
    → let b : Budget R = restart_budget limits max_remote_units of_budget of_state now in
      let l = previous_loop of_budget of_state in
      IsWithin b (run_all c b calls)
      × (b.used_remote_units ≡ 0)
      × (b.expansion_loop.round ≡ 0)
      × (b.expansion_loop.used_result_bytes ≡ 0)
      × (b.expansion_loop.stop_reason ≡ none)
      × (b.max_remote_units ≡ max_remote_units)
      × (b.expansion_loop.max_result_bytes
          ≡ max (get_or l.max_result_bytes limits.max_result_bytes) 1)
      × (b.expansion_loop.max_rounds ≡ max (get_or l.max_rounds limits.max_rounds) 1)
unfolding restart_budget initialize_loop
restart_budget-IsWithin c limits max_remote_units of_budget of_state now calls =
    let b : Budget _ = restart_budget limits max_remote_units of_budget of_state now in
    (
      run_all-IsWithin c b calls (omega arith) (omega arith) (omega arith) (omega arith),
      refl,
      refl,
      refl,
      refl,
      refl,
      refl,
      refl,
    )
