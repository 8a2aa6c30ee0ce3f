-- ===== src/Tests/Lifecycles.antt =====
-- Concrete histories of webhook/registry.py.
use incident_agent.Common.{none, List, [], ◌∷◌, All}
use incident_agent.Lifecycle.{
  received, collecting, analyzing, awaiting_analysis_review, drafting_postmortem, completed,
}
use incident_agent.Registry.Review.{
  Call, transition, run, WasReviewed, review_before_completion, run-AllAudited,
}
use incident_agent.Registry.Chain.{AllAudited}

abbrev life : List Call
life =
    transition "INC-1" received none none 1
    ∷ transition "INC-1" collecting none none 2
    ∷ transition "INC-1" completed none none 3
    ∷ transition "INC-1" analyzing none none 4
    ∷ transition "INC-1" awaiting_analysis_review none none 5
    ∷ transition "INC-1" drafting_postmortem none none 6
    ∷ transition "INC-1" completed none none 7
    ∷ []

review_before_completion_example : All WasReviewed (run [] life)
review_before_completion_example = review_before_completion life

run-AllAudited_example : AllAudited (run [] life)
run-AllAudited_example = run-AllAudited life [] tt
