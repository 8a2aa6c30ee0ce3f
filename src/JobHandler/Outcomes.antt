-- ===== src/JobHandler/Outcomes.antt =====
-- How a run of the handler on a new incident ends.
use incident_agent.Common.{
  ℕ, String, ◌≡◌, refl, ap, ◌∙◌, true, Option, none, some, List, [], ◌∷◌, eq_refl, find, arith,
}
use incident_agent.Lifecycle.{
  Status, LifecycleTransitionError, received, collecting, analyzing, awaiting_analysis_review,
  completed, illegal_transition, validate_transition,
}
use incident_agent.Registry.{
  Row, ok, err, transition_error, get_lifecycle, status_of, save, advance, transition_lifecycle,
}
use incident_agent.JobHandler.{
  Course, finished, awaiting_review, handled, failed, registry_error, run_normalized_alert,
}

save-find : (new : Row) (rows : List Row) → get_lifecycle (save new rows) new.thread_id ≡ some new
unfolding get_lifecycle find save
save-find new [] = rw eq_refl refl
save-find new (r ∷ rows) = ground (arith, save-find new rows, eq_refl new.thread_id)

module _ (rows : List Row) (thread_id : String) (row : Option Row) (target : Status)
    (reason : Option String) (now : ℕ) (stored : get_lifecycle rows thread_id ≡ row) where
  accepted :
      validate_transition (status_of row) target ≡ none
      → transition_lifecycle rows thread_id target reason none now ≡ (
        ok (advance row thread_id target reason now),
        save (advance row thread_id target reason now) rows,
      )
  unfolding transition_lifecycle
  accepted v = rw (stored, v) refl

  refused :
      (e : LifecycleTransitionError)
      → validate_transition (status_of row) target ≡ some e
      → transition_lifecycle rows thread_id target reason none now
        ≡ (err (transition_error e), rows)
  unfolding transition_lifecycle
  refused e v = rw (stored, v) refl

module _ (c : Course) (rows : List Row) (thread_id : String)
    (new : get_lifecycle rows thread_id ≡ none)
    (undisturbed : (k : ℕ) (rs : List Row)
      → get_lifecycle (c.between k rs) thread_id ≡ get_lifecycle rs thread_id)
    (named : c.has_alertname ≡ true) where
  -- A run on an incident that the registry does not know, of an alert with a name, whose row no
  -- other process writes meanwhile, ends with the incident awaiting its review where the analysis
  -- awaits one. Where it awaits none, the handler fails: the transition from analyzing to completed
  -- is refused, and the incident stays analyzing.
  pub run_normalized_alert-new :
      ((run_normalized_alert c rows thread_id awaiting_review).0 ≡ handled awaiting_review)
      × (status_of
            (get_lifecycle (run_normalized_alert c rows thread_id awaiting_review).1 thread_id)
          ≡ some awaiting_analysis_review)
      × ((run_normalized_alert c rows thread_id finished).0
          ≡ failed
              (registry_error (transition_error (illegal_transition (some analyzing) completed))))
      × (status_of (get_lifecycle (run_normalized_alert c rows thread_id finished).1 thread_id)
          ≡ some analyzing)
  unfolding run_normalized_alert
  run_normalized_alert-new =
      let b = c.between in
      let r1 = advance none thread_id received (some "validated webhook alert") (c.now 0) in
      let rows1 = save r1 (b 0 rows) in
      let r2 = advance (some r1) thread_id collecting (some "workflow started") (c.now 1) in
      let rows2 = save r2 (b 1 rows1) in
      let r3 =
        advance (some r2) thread_id analyzing (some "evidence collection started") (c.now 2) in
      let rows3 = save r3 (b 2 rows2) in
      let f0 : get_lifecycle (b 0 rows) thread_id ≡ none = undisturbed 0 rows ∙ new in
      let f1 : get_lifecycle (b 1 rows1) thread_id ≡ some r1 =
        undisturbed 1 rows1 ∙ (unfold advance in save-find r1 (b 0 rows)) in
      let f2 : get_lifecycle (b 2 rows2) thread_id ≡ some r2 =
        undisturbed 2 rows2 ∙ (unfold advance in save-find r2 (b 1 rows1)) in
      let f3 : get_lifecycle (b 3 rows3) thread_id ≡ some r3 =
        undisturbed 3 rows3 ∙ (unfold advance in save-find r3 (b 2 rows2)) in
      let t1 =
        accepted (b 0 rows) thread_id none received (some "validated webhook alert") (c.now 0) f0
          (unfold validate_transition in refl) in
      let t2 =
        accepted (b 1 rows1) thread_id (some r1) collecting (some "workflow started") (c.now 1) f1
          (unfold advance validate_transition in refl) in
      let t3 =
        accepted (b 2 rows2) thread_id (some r2) analyzing (some "evidence collection started")
          (c.now 2) f2 (unfold advance validate_transition in refl) in
      let t4 =
        accepted (b 3 rows3) thread_id (some r3) awaiting_analysis_review
          (some "human review required") (c.now 3) f3
          (unfold advance validate_transition in refl) in
      let t5 =
        refused (b 3 rows3) thread_id (some r3) completed (some "workflow completed") (c.now 3) f3
          (illegal_transition (some analyzing) completed)
          (unfold advance validate_transition in refl) in
      rw (new, t1, t2, t3, t4, t5, named)
        (
          refl,
          unfold advance in ap status_of (save-find _ (b 3 rows3)),
          refl,
          unfold advance in ap status_of f3,
        )
