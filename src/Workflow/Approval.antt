-- ===== src/Workflow/Approval.antt =====
-- Nothing is published without the two approvals.
use incident_agent.Common.{
  String, ◌||◌, Option, none, some, ◌≡◌, refl, sym, ap, ◌∙◌, Memᴰ-All, All, str_eq, eq_iff, arith,
  Bool-cases, inl, inr,
}
use incident_agent.Investigation.{Next, expansion_router, get_or}
use incident_agent.GraphReview.{
  State, Resume, known_status, human_review as answer_review, review_router, PublishResume,
  PublishReviewed, reviewed, draft_mismatch, publish_review as answer_publish_review,
  publish_review_router, publish_status,
}
use incident_agent.Workflow.{
  Node, ingest_alert, classify_severity, plan_collection, gather_logs, gather_metrics,
  gather_deploys, normalize_logs, aggregate_by_labels, extract_features, apply_detection_rules,
  enrich_groups, correlate, reassess_severity, scope_expansion, score_candidates, build_llm_context,
  build_evidence_pack, semantic_correlate, integrate_targeted_evidence, reinvestigate_feedback,
  interpret_incident, human_review, deep_rca, draft_postmortem, publish_review, publish, finished,
  entry_point, successors, expansion_target, review_target, publish_target, after, Answers,
  with_review, with_publication, Place, at_node, Step, follow, expand, review, review_publication,
  Walk, stay, then_step,
}

-- The last answer of the analysis review.
abbrev pub IsAnalysisApproved : Answers → Type 0
IsAnalysisApproved a = (r : Resume) × (a.review ≡ some r) × (r.status ≡ some "approved")

-- Both reviewers have approved last: the second one with the hash of the draft of the state, which
-- the state keeps.
pub record IsApproved (sha256 : String → String) (s : State) (a : Answers) : Type 0 where
  pub analysis : IsAnalysisApproved a
  pub publication :
      (r : PublishResume) × (a.publication ≡ some r)
      × (r.status ≡ some "approved")
      × (get_or r.draft_sha256 "" ≡ sha256 s.postmortem_draft)
  pub kept : s.approved_draft_sha256 ≡ sha256 s.postmortem_draft

-- What holds where a node runs.
abbrev pub Holds : (String → String) → Node → State → Answers → Type 0
Holds sha256 deep_rca s a = IsAnalysisApproved a
Holds sha256 draft_postmortem s a = IsAnalysisApproved a
Holds sha256 publish_review s a = IsAnalysisApproved a
Holds sha256 publish s a = IsApproved sha256 s a
Holds sha256 _ s a = Unit

approved_given : (o : Option String) → get_or o "rejected" ≡ "approved" → o ≡ some "approved"
approved_given none e = absurd (ground (arith, (eq_iff "rejected" "approved").1 e))
approved_given (some status) e = ap some e

known_status-approved : (status : String) → known_status status ≡ "approved" → status ≡ "approved"
known_status-approved status e =
    elim (Bool-cases (
      str_eq status "approved"
      || (str_eq status "rejected" || str_eq status "request_more_evidence"))) [
        | inl q ↦ rw q at e
        | inr q ↦ absurd (let f = rw q at e in ground (arith, (eq_iff "rejected" "approved").1 f))
      ]

publish_status-approved :
    (status : String) → publish_status status ≡ "approved" → status ≡ "approved"
publish_status-approved status e =
    elim (Bool-cases (str_eq status "approved" || str_eq status "rejected")) [
      | inl q ↦ rw q at e
      | inr q ↦ absurd (let f = rw q at e in ground (arith, (eq_iff "rejected" "approved").1 f))
    ]

abbrev state_or : State → PublishReviewed → State
state_or d (reviewed s) = s
state_or d draft_mismatch = d

-- A publication review approves only with the hash of the draft.
publish_review-approved :
    (sha256 : String → String) (s t : State) (r : PublishResume)
    → answer_publish_review sha256 s r ≡ reviewed t
    → t.publish_review_status ≡ "approved"
    → (r.status ≡ some "approved")
      × (get_or r.draft_sha256 "" ≡ sha256 t.postmortem_draft)
      × (t.approved_draft_sha256 ≡ sha256 t.postmortem_draft)
unfolding answer_publish_review
publish_review-approved sha256 s t r e a =
    let status = publish_status (get_or r.status "rejected") in
    elim (Bool-cases (str_eq status "approved")) [
      | inl q ↦ elim (Bool-cases (str_eq (get_or r.draft_sha256 "") (sha256 s.postmortem_draft))) [
        | inl v ↦
            let same = ap (state_or s) (rw (q, v) at e) in
            let draft = ap (λ x. sha256 x.postmortem_draft) same in
            (
              approved_given r.status (publish_status-approved _ ((eq_iff _ _).0 q)),
              (eq_iff _ _).0 v ∙ draft,
              ap (λ x. x.approved_draft_sha256) (sym same) ∙ draft,
            )
        | inr v ↦ absurd (grind (arith, (rw (q, v) at e)))
      ]
      | inr q ↦
          let same = ap (state_or s) (rw q at e) in
          let given : status ≡ "approved" = ap (λ x. x.publish_review_status) same ∙ a in
          absurd (ground (arith, (eq_iff status "approved").1 given))
    ]

module _ (sha256 : String → String) where
  follow-All :
      (n : Node) (s : State) (a : Answers) (text : String)
      → Holds sha256 n s a
      → All (λ m. Holds sha256 m (after n s text) a) (successors n)
  unfolding successors after
  follow-All ingest_alert s a text h = (tt, tt)
  follow-All classify_severity s a text h = (tt, tt)
  follow-All plan_collection s a text h = (tt, (tt, (tt, tt)))
  follow-All gather_logs s a text h = (tt, tt)
  follow-All gather_metrics s a text h = (tt, tt)
  follow-All gather_deploys s a text h = (tt, tt)
  follow-All normalize_logs s a text h = (tt, tt)
  follow-All aggregate_by_labels s a text h = (tt, tt)
  follow-All extract_features s a text h = (tt, tt)
  follow-All apply_detection_rules s a text h = (tt, tt)
  follow-All enrich_groups s a text h = (tt, tt)
  follow-All correlate s a text h = (tt, tt)
  follow-All reassess_severity s a text h = (tt, tt)
  follow-All scope_expansion s a text h = (tt, tt)
  follow-All score_candidates s a text h = (tt, tt)
  follow-All build_llm_context s a text h = (tt, tt)
  follow-All build_evidence_pack s a text h = (tt, tt)
  follow-All semantic_correlate s a text h = (tt, tt)
  follow-All integrate_targeted_evidence s a text h = tt
  follow-All reinvestigate_feedback s a text h = (tt, tt)
  follow-All interpret_incident s a text h = (tt, tt)
  follow-All human_review s a text h = tt
  follow-All deep_rca s a text h = (h, tt)
  follow-All draft_postmortem s a text h = (h, tt)
  follow-All publish_review s a text h = tt
  follow-All publish s a text h = (tt, tt)
  follow-All finished s a text h = tt

  expansion_target-Holds :
      (n : Next) (s : State) (a : Answers) → Holds sha256 (expansion_target n) s a
  expansion_target-Holds Next.semantic_correlate s a = tt
  expansion_target-Holds Next.interpret_incident s a = tt

  review_target-Holds :
      (s : State) (a : Answers) (r : Resume)
      → let t = answer_review s r in
        Holds sha256 (review_target (review_router t)) t (with_review a r)
  unfolding review_router answer_review
  review_target-Holds s a r =
      let status = known_status (get_or r.status "rejected") in
      elim (Bool-cases (str_eq status "approved")) [
        | inl e ↦ rw e (
          r,
          refl,
          approved_given r.status (known_status-approved _ ((eq_iff status "approved").0 e)),
        )
        | inr e ↦ rw e tt
      ]

  publish_target-Holds :
      (s t : State) (a : Answers) (r : PublishResume)
      → answer_publish_review sha256 s r ≡ reviewed t
      → IsAnalysisApproved a
      → Holds sha256 (publish_target (publish_review_router t)) t (with_publication a r)
  unfolding publish_review_router
  publish_target-Holds s t a r e h = elim (Bool-cases (str_eq t.publish_review_status "approved")) [
    | inl q ↦
        let p = publish_review-approved sha256 s t r e ((eq_iff _ _).0 q) in
        rw q (record { analysis = h; publication = (r, refl, p.0, p.1); kept = p.2 })
    | inr q ↦ rw q tt
  ]

  Step-Holds :
      {p q : Place}
      → Step sha256 p q
      → Holds sha256 p.node p.state p.answers
      → Holds sha256 q.node q.state q.answers
  Step-Holds (follow n m s a text w) h = Memᴰ-All _ (successors n) m (follow-All n s a text h) w
  Step-Holds (expand s a l) h = expansion_target-Holds (expansion_router l) s a
  Step-Holds (review s a r) h = review_target-Holds s a r
  Step-Holds (review_publication s t a r e) h = publish_target-Holds s t a r e h

  Walk-Holds :
      {p q : Place}
      → Walk sha256 p q
      → Holds sha256 p.node p.state p.answers
      → Holds sha256 q.node q.state q.answers
  Walk-Holds (stay p) h = h
  Walk-Holds (then_step p q r w x) h = Step-Holds x (Walk-Holds w h)

  -- Whatever walk the graph takes from its entry, in any state, where it reaches the publish node
  -- the last answer of the analysis review approved, and the last answer of the publication review
  -- approved with the hash of the draft that is then in the state, which the state keeps.
  pub publish-IsApproved :
      (s t : State) (a b : Answers)
      → Walk sha256 (at_node entry_point s a) (at_node publish t b)
      → IsApproved sha256 t b
  publish-IsApproved s t a b w = Walk-Holds w tt
