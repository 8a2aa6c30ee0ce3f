-- ===== src/Tests/Publishing.antt =====
-- Concrete runs of the publication guard of webhook/incident_store.py and of graph/nodes/publish.py.
use incident_agent.Common.{String, ◌≡◌, ◌≤◌, refl, true, none, some, List, [], ◌∷◌, find}
use incident_agent.Publication.Once.{Op, begin, complete, claim_count, claimed_at_most_once}
use incident_agent.Publication.Node.{
  Destinations, Answers, returned, raised, NodeError, publish, again, retry_calls_nobody,
}
use incident_agent.Tests.Queue.{env}

abbrev ops : List Op
ops =
    begin "INC-1" "draft" "t1" 10
    ∷ complete "INC-1:draft" "t1" (some "https://issue") 20
    ∷ begin "INC-1" "draft" "t2" 30
    ∷ []

claimed_at_most_once_example : claim_count env "INC-1:draft" [] ops ≤ 1
claimed_at_most_once_example = claimed_at_most_once env "INC-1:draft" ops []

abbrev all_on : Destinations
all_on = record { external = true; slack = true; github = true; jira = true }

abbrev fine : Answers
fine = record {
  slack = returned none;
  github = returned (some "https://github/1");
  jira = returned (some "https://jira/1");
}

abbrev github_down : Answers
github_down = record { slack = returned none; github = raised "502"; jira = returned none }

abbrev describe : NodeError → String
describe e = "diagnostics"

retry_calls_nobody_example :
    publish env describe all_on fine
      (λ x. x)
      (publish env describe all_on github_down (λ x. x) [] "INC-1" "draft" "t1" 10).2
      "INC-1"
      "draft"
      "t2"
      20
    ≡ (
      again env [] "INC-1" "draft" "t1" 10
          (unfold find in refl)
          (publish env describe all_on github_down (λ x. x) [] "INC-1" "draft" "t1" 10).0,
      [],
      (publish env describe all_on github_down (λ x. x) [] "INC-1" "draft" "t1" 10).2,
    )
retry_calls_nobody_example =
    retry_calls_nobody env [] "INC-1" "draft" "t1" 10 (unfold find in refl) describe all_on
      github_down fine "t2" 20 refl refl
