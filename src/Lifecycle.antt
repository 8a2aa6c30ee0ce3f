-- ===== src/Lifecycle.antt =====
-- webhook/lifecycle.py: the states of an incident and the table of allowed transitions. A status
-- is a text in the source; `other` stands for a text that the table does not name. The key None
-- of the table is `none`.
use incident_agent.Common.{String, Bool, true, false, Option, none, some, if◌then◌else◌}

pub data Status : Type 0 where
  received collecting analyzing awaiting_analysis_review drafting_postmortem : Status
  awaiting_publish_review degraded completed resolved failed : Status
  other : String → Status

-- `target in ALLOWED_TRANSITIONS.get(current, set())`
unfoldable pub allowed : Option Status → Status → Bool
allowed none received = true
allowed (some received) collecting = true
allowed (some received) resolved = true
allowed (some received) failed = true
allowed (some collecting) analyzing = true
allowed (some collecting) degraded = true
allowed (some collecting) resolved = true
allowed (some collecting) failed = true
allowed (some analyzing) awaiting_analysis_review = true
allowed (some analyzing) degraded = true
allowed (some analyzing) resolved = true
allowed (some analyzing) failed = true
allowed (some awaiting_analysis_review) analyzing = true
allowed (some awaiting_analysis_review) drafting_postmortem = true
allowed (some awaiting_analysis_review) resolved = true
allowed (some awaiting_analysis_review) failed = true
allowed (some drafting_postmortem) awaiting_publish_review = true
allowed (some drafting_postmortem) completed = true
allowed (some drafting_postmortem) resolved = true
allowed (some drafting_postmortem) failed = true
allowed (some awaiting_publish_review) completed = true
allowed (some awaiting_publish_review) drafting_postmortem = true
allowed (some awaiting_publish_review) resolved = true
allowed (some awaiting_publish_review) failed = true
allowed (some degraded) analyzing = true
allowed (some degraded) awaiting_analysis_review = true
allowed (some degraded) resolved = true
allowed (some degraded) failed = true
allowed (some completed) resolved = true
allowed (some resolved) received = true
allowed _ _ = false

-- The error carries the refused pair; `none` is no error.
pub data LifecycleTransitionError : Type 0 where
  illegal_transition : Option Status → Status → LifecycleTransitionError

unfoldable pub validate_transition : Option Status → Status → Option LifecycleTransitionError
unfolding allowed
validate_transition current target =
    if allowed current target then none else some (illegal_transition current target)
