-- ===== src/Tests/Limits.antt =====
-- Concrete runs of webhook/rate_limit.py.
use incident_agent.Common.{◌+◌, ◌≤◌, List, [], ◌∷◌, find, arith}
use incident_agent.RateLimit.{window_at}
use incident_agent.RateLimit.Windows.{Request, IsOrdered, allowed_in, stored, allowed_in-bounded}
use incident_agent.Tests.Queue.{env}

abbrev requests : List Request
requests =
    record { key = "api"; now = 59000000 }
    ∷ record { key = "api"; now = 59500000 }
    ∷ record { key = "api"; now = 61000000 }
    ∷ []

requests-IsOrdered : IsOrdered 60 0 requests
unfolding window_at
requests-IsOrdered = (omega arith, (omega arith, (omega arith, tt)))

allowed_in-bounded_example :
    allowed_in env 1 60 "api" 0 [] requests + stored env 1 60 "api" 0 [] ≤ 1
allowed_in-bounded_example =
    allowed_in-bounded env 1 60 "api" 0 0 [] requests requests-IsOrdered
      (unfold stored find in omega arith)
