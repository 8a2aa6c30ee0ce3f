-- ===== src/Registry/Review.antt =====
-- Histories over any sequence of calls of webhook/registry.py. A call of `resolve_incident` is its
-- read, which changes nothing, and a call of `transition_lifecycle`.
use incident_agent.Common.{ℕ, String, ◌≡◌, true, Option, some, List, [], ◌∷◌, All}
use incident_agent.Lifecycle.{Status}
use incident_agent.Registry.{Row, transition_lifecycle, reopen_incident}
use incident_agent.Registry.Chain.{
  AllAudited, transition_lifecycle-AllAudited, reopen_incident-AllAudited, reviewed_since_intake,
  after_review, chain_reviewed,
}

pub data Call : Type 0 where
  transition : String → Status → Option String → Option ℕ → ℕ → Call
  reopen : String → Option String → ℕ → Call

call : List Row → Call → List Row
call rows (transition thread_id t reason expected now) =
    (transition_lifecycle rows thread_id t reason expected now).1
call rows (reopen thread_id reason now) = (reopen_incident rows thread_id reason now).1

unfoldable pub run : List Row → List Call → List Row
unfolding call
run rows [] = rows
run rows (c ∷ cs) = run (call rows c) cs

call-AllAudited : (rows : List Row) (c : Call) → AllAudited rows → AllAudited (call rows c)
unfolding call
call-AllAudited rows (transition thread_id t reason expected now) h =
    transition_lifecycle-AllAudited rows thread_id t reason expected now h
call-AllAudited rows (reopen thread_id reason now) h =
    reopen_incident-AllAudited rows thread_id reason now h

-- From a table whose histories are unbroken chains, any sequence of transitions and reopenings
-- leads to such a table.
pub run-AllAudited : (cs : List Call) (rows : List Row) → AllAudited rows → AllAudited (run rows cs)
unfolding run
run-AllAudited [] rows h = h
run-AllAudited (c ∷ cs) rows h = run-AllAudited cs (call rows c) (call-AllAudited rows c h)

abbrev pub WasReviewed : Row → Type 0
WasReviewed r = after_review (some r.status) ≡ true → reviewed_since_intake r.history ≡ true

audited_reviewed : (rows : List Row) → AllAudited rows → All WasReviewed rows
audited_reviewed [] h = tt
audited_reviewed (r ∷ rows) h = (λ e. chain_reviewed h.0.chain e, audited_reviewed rows h.1)

-- After any sequence of transitions and reopenings from the empty table, an incident that awaits
-- analysis review, drafts a postmortem, awaits publication review or is completed has entered
-- analysis review since it was last received.
pub review_before_completion : (cs : List Call) → All WasReviewed (run [] cs)
review_before_completion cs = audited_reviewed (run [] cs) (run-AllAudited cs [] tt)
