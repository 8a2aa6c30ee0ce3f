-- ===== src/Tests/Work.antt =====
-- Concrete runs of webhook/worker.py.
use incident_agent.Common.{◌≡◌, refl}
use incident_agent.Worker.{
  Settings, Run, Raised, raised, kept, process_one, lease_lost, returned, type_error,
}
use incident_agent.Worker.Settling.{Settled, process_one-Settled, process_one_overtaken}
use incident_agent.Tests.Queue.{
  env, no_row, queued, running, job, taken_over, job_again, claimed_first, claimed_again, w1_not_w2,
}

abbrev settings : Settings
settings = record { lease = 120; retry_delay = 30 }

abbrev bad_input : Raised
bad_input = record { class = type_error; text = "bad payload" }

abbrev refusing : Run
refusing = record {
  meanwhile = λ db. db;
  handled = raised bad_input;
  heartbeat = kept;
  describe = λ r e. e.text;
  done_at = 40;
}

process_one-Settled_example :
    let o = process_one env no_row settings queued "w1" refusing 20 in
    Settled job refusing (raised bad_input) o.0 o.1
process_one-Settled_example =
    process_one-Settled env no_row settings queued "w1" refusing 20 job running claimed_first refl
      refl

-- The handler returns after the job has been taken over.
abbrev late : Run
late = record {
  meanwhile = λ db. taken_over;
  handled = returned "{}";
  heartbeat = kept;
  describe = λ r e. e.text;
  done_at = 210;
}

process_one_overtaken_example :
    process_one env no_row settings queued "w1" late 20 ≡ (lease_lost 1, taken_over)
process_one_overtaken_example =
    process_one_overtaken env no_row settings queued "w1" late 20 job running claimed_first running
      "w2" 120 200 job_again claimed_again refl w1_not_w2
