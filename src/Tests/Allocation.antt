-- ===== src/Tests/Allocation.antt =====
-- Concrete runs of the allocation of revisions, and of the transaction loop, in
-- webhook/incident_store.py.
use incident_agent.Common.{
  ℕ, suc, ◌≡◌, ◌≢◌, ◌≤◌, ◌<◌, refl, true, Option, none, some, [], find, select, arith, ltb,
  if◌then◌else◌,
}
use incident_agent.Store.{ok, err, value_error}
use incident_agent.Revisions.{
  RevisionDb, create_revision_once, ensure_head, max_revision, is_stale, new_revision,
}
use incident_agent.Revisions.Numbering.{IsSequential, create_revision-IsSequential}
use incident_agent.Revisions.Jobs.{one_writer_wins}
use incident_agent.Retry.{
  returned, with_retries, with_retries-recovers, IsTransientFault, is_transient,
}

abbrev no_revisions : RevisionDb
no_revisions = record { revisions = []; heads = [] }

none-IsSequential : IsSequential no_revisions
none-IsSequential = record {
  numbered = λ i. unfold select in tt;
  head = λ i. unfold select find in omega arith;
}

create_revision-IsSequential_example :
    IsSequential
      (create_revision_once no_revisions "INC-1" "new alert observation"
        (some 0)
        "{}"
        (some 7)
        10).1
create_revision-IsSequential_example =
    create_revision-IsSequential no_revisions "INC-1" "new alert observation" (some 0) "{}" (some 7)
      10 none-IsSequential

abbrev first_for_job : RevisionDb
first_for_job =
    (create_revision_once no_revisions "INC-1" "new alert observation" none "{}" (some 7) 10).1

job_first :
    create_revision_once no_revisions "INC-1" "new alert observation" none "{}" (some 7) 10
    ≡ (ok 1, first_for_job)
unfolding create_revision_once ensure_head find max_revision is_stale new_revision
job_first = refl

abbrev first : RevisionDb
first = (create_revision_once no_revisions "INC-1" "manual" (some 0) "{}" none 10).1

one_writer_wins_example :
    (◌≡◌ {A = ℕ} 0 0
      → ((create_revision_once no_revisions "INC-1" "manual" (some 0) "{}" none 10).0 ≡ ok 1)
        × (create_revision_once first "INC-1" "new alert observation" (some 0) "{}" (some 7) 20
            ≡ (err (value_error "stale incident revision"), first)))
    × (◌≢◌ {A = ℕ} 0 0
        → ((create_revision_once no_revisions "INC-1" "manual" (some 0) "{}" none 10).0
            ≡ err (value_error "stale incident revision"))
          × (first ≡ no_revisions))
unfolding create_revision_once ensure_head find max_revision is_stale new_revision select
one_writer_wins_example =
    one_writer_wins no_revisions "INC-1" "manual" "new alert observation" 0 "{}" "{}" none (some 7)
      10 20 none-IsSequential refl refl

-- An attempt that adds one, and deadlocks in the first two rounds.
abbrev add_one : ℕ → ℕ → ℕ × ℕ
add_one attempt s = (s, suc s)

abbrev deadlocks : ℕ → Option ℕ
deadlocks attempt = if ltb attempt 2 then some 1213 else none

deadlocks_first : (i : ℕ) → i < 2 → IsTransientFault (deadlocks i)
unfolding IsTransientFault is_transient
deadlocks_first i h = let early : ltb i 2 ≡ true = ground arith in rw early refl

with_retries-recovers_example :
    let (answer, s, slept) = with_retries add_one deadlocks 5 in
    (answer ≡ returned 5) × (s ≡ 6) × (slept ≤ 1130)
with_retries-recovers_example =
    with_retries-recovers add_one deadlocks 2 5 (omega arith) deadlocks_first refl
