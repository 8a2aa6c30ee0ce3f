-- ===== src/Workflow.antt =====
-- graph/workflow.py: the nodes of the analysis graph and its edges. A walk follows the edges one
-- node at a time; of the three branches after plan_collection, which join again in
-- aggregate_by_labels, it takes one.
pub mod Approval
use incident_agent.Common.{String, ◌≡◌, Bool, Option, some, List, [], ◌∷◌, Memᴰ}
use incident_agent.Investigation.{Loop, Next, expansion_router}
use incident_agent.GraphReview.{
  State, Resume, human_review as answer_review, AfterReview, review_router, PublishResume,
  PublishReviewed, reviewed, publish_review as answer_publish_review, AfterPublishReview,
  publish_review_router,
}

-- `finished` is langgraph's END.
pub data Node : Type 0 where
  ingest_alert classify_severity plan_collection gather_logs gather_metrics gather_deploys : Node
  normalize_logs aggregate_by_labels extract_features apply_detection_rules enrich_groups : Node
  correlate reassess_severity scope_expansion score_candidates build_llm_context : Node
  build_evidence_pack semantic_correlate integrate_targeted_evidence reinvestigate_feedback : Node
  interpret_incident human_review deep_rca draft_postmortem publish_review publish finished : Node

-- set_entry_point
abbrev pub entry_point : Node
entry_point = ingest_alert

-- add_edge; the nodes with conditional edges have none.
unfoldable pub successors : Node → List Node
successors ingest_alert = classify_severity ∷ []
successors classify_severity = plan_collection ∷ []
successors plan_collection = gather_logs ∷ gather_metrics ∷ gather_deploys ∷ []
successors gather_logs = normalize_logs ∷ []
successors normalize_logs = aggregate_by_labels ∷ []
successors gather_metrics = aggregate_by_labels ∷ []
successors gather_deploys = aggregate_by_labels ∷ []
successors aggregate_by_labels = apply_detection_rules ∷ []
successors apply_detection_rules = enrich_groups ∷ []
successors enrich_groups = extract_features ∷ []
successors extract_features = correlate ∷ []
successors correlate = reassess_severity ∷ []
successors reassess_severity = scope_expansion ∷ []
successors scope_expansion = score_candidates ∷ []
successors score_candidates = build_llm_context ∷ []
successors build_llm_context = build_evidence_pack ∷ []
successors build_evidence_pack = semantic_correlate ∷ []
successors semantic_correlate = integrate_targeted_evidence ∷ []
successors integrate_targeted_evidence = []
successors interpret_incident = human_review ∷ []
successors human_review = []
successors reinvestigate_feedback = semantic_correlate ∷ []
successors deep_rca = draft_postmortem ∷ []
successors draft_postmortem = publish_review ∷ []
successors publish_review = []
successors publish = finished ∷ []
successors finished = []

-- add_conditional_edges: the names that the three routers return
abbrev pub expansion_target : Next → Node
expansion_target Next.semantic_correlate = semantic_correlate
expansion_target Next.interpret_incident = interpret_incident

abbrev pub review_target : AfterReview → Node
review_target AfterReview.deep_rca = deep_rca
review_target AfterReview.reinvestigate_feedback = reinvestigate_feedback

abbrev pub publish_target : AfterPublishReview → Node
publish_target AfterPublishReview.publish = publish
publish_target AfterPublishReview.end = finished

-- Of the nodes without conditional edges, draft_postmortem alone writes a field of the state here:
-- the draft that the model makes. reinvestigate_feedback writes the status back as it is.
unfoldable pub after : Node → State → String → State
after draft_postmortem s text = record s { postmortem_draft = text }
after _ s text = s

-- The last answers that the reviewers have given.
pub record Answers : Type 0 where
  pub review : Option Resume
  pub publication : Option PublishResume

pub record Place : Type 0 where
  pub node : Node
  pub state : State
  pub answers : Answers

abbrev pub at_node : Node → State → Answers → Place
at_node n s a = record { node = n; state = s; answers = a }

abbrev pub with_review : Answers → Resume → Answers
with_review a r = record a { review = some r }

abbrev pub with_publication : Answers → PublishResume → Answers
with_publication a r = record a { publication = some r }

-- A node runs and an edge is followed. `sha256` is hashlib's.
pub data Step (sha256 : String → String) : Place → Place → Type 0 where
  follow :
      (n m : Node) (s : State) (a : Answers) (text : String)
      → Memᴰ m (successors n)
      → Step sha256 (at_node n s a) (at_node m (after n s text) a)
  expand :
      (s : State) (a : Answers) (l : Loop)
      → Step sha256
          (at_node integrate_targeted_evidence s a)
          (at_node (expansion_target (expansion_router l)) s a)
  review :
      (s : State) (a : Answers) (r : Resume)
      → Step sha256 (at_node human_review s a) (
          at_node
            (review_target (review_router (answer_review s r)))
            (answer_review s r)
            (with_review a r))
  review_publication :
      (s t : State) (a : Answers) (r : PublishResume)
      → answer_publish_review sha256 s r ≡ reviewed t
      → Step sha256
          (at_node publish_review s a)
          (at_node (publish_target (publish_review_router t)) t (with_publication a r))

pub data Walk (sha256 : String → String) : Place → Place → Type 0 where
  stay : (p : Place) → Walk sha256 p p
  then_step : (p q r : Place) → Walk sha256 p q → Step sha256 q r → Walk sha256 p r
