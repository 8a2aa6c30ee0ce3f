-- ===== src/Tests/Flow.antt =====
-- A walk through the graph to the publication.
use incident_agent.Common.{pos, String, ◌≡◌, refl, none, some, Memᴰ}
use incident_agent.Investigation.{expansion_router, initialize_loop}
use incident_agent.GraphReview.{
  State, Resume, number, human_review as answer_review, PublishResume,
  publish_review as answer_publish_review, reviewed, review_router, publish_review_router,
}
use incident_agent.ModelUsage.{prefix}
use incident_agent.Workflow.{
  Node, ingest_alert, classify_severity, plan_collection, gather_metrics, aggregate_by_labels,
  apply_detection_rules, enrich_groups, extract_features, correlate, reassess_severity,
  scope_expansion, score_candidates, build_llm_context, build_evidence_pack, semantic_correlate,
  integrate_targeted_evidence, interpret_incident, human_review, deep_rca, draft_postmortem,
  publish_review, publish, entry_point, successors, after, Answers, with_review, with_publication,
  Place, at_node, follow, expand, review, review_publication, Walk, stay, then_step,
}
use incident_agent.Workflow.Approval.{IsApproved, publish-IsApproved}
use incident_agent.Tests.Agents.{loop}

abbrev sha256 : String → String
sha256 s = s

abbrev start : State
start = record {
  review_status = "";
  review_feedback = "";
  chosen_hypothesis = 1;
  postmortem_draft = "";
  publish_review_status = "";
  publish_review_feedback = "";
  approved_draft_sha256 = "";
}

abbrev none_yet : Answers
none_yet = record { review = none; publication = none }

go :
    {p : Place} (n m : Node) (s : State) {a : Answers} (draft : String)
    → Memᴰ m (successors n)
    → Walk sha256 p (at_node n s a)
    → Walk sha256 p (at_node m (after n s draft) a)
go n m s {a} draft e w = then_step _ _ _ w (follow n m s a draft e)

collected :
    Walk sha256 (at_node entry_point start none_yet) (at_node aggregate_by_labels start none_yet)
unfolding successors after
collected = go gather_metrics aggregate_by_labels start "" (Memᴰ.head refl) (
    go plan_collection gather_metrics start "" (Memᴰ.tail (Memᴰ.head refl)) (
      go classify_severity plan_collection start "" (Memᴰ.head refl)
        (go ingest_alert classify_severity start "" (Memᴰ.head refl) (stay _))))

featured : Walk sha256 (at_node entry_point start none_yet) (at_node correlate start none_yet)
unfolding successors after
featured = go extract_features correlate start "" (Memᴰ.head refl) (
    go enrich_groups extract_features start "" (Memᴰ.head refl) (
      go apply_detection_rules enrich_groups start "" (Memᴰ.head refl)
        (go aggregate_by_labels apply_detection_rules start "" (Memᴰ.head refl) collected)))

scoped : Walk sha256 (at_node entry_point start none_yet) (at_node build_llm_context start none_yet)
unfolding successors after
scoped = go score_candidates build_llm_context start "" (Memᴰ.head refl) (
    go scope_expansion score_candidates start "" (Memᴰ.head refl) (
      go reassess_severity scope_expansion start "" (Memᴰ.head refl)
        (go correlate reassess_severity start "" (Memᴰ.head refl) featured)))

expanded :
    Walk sha256
      (at_node entry_point start none_yet)
      (at_node integrate_targeted_evidence start none_yet)
unfolding successors after
expanded = go semantic_correlate integrate_targeted_evidence start "" (Memᴰ.head refl) (
    go build_evidence_pack semantic_correlate start "" (Memᴰ.head refl)
      (go build_llm_context build_evidence_pack start "" (Memᴰ.head refl) scoped))

abbrev approval : Resume
approval = record {
  status = some "approved";
  chosen_hypothesis = some (number (pos 2));
  feedback = none;
}

abbrev one_given : Answers
one_given = with_review none_yet approval

abbrev approved : State
approved = record start { review_status = "approved"; chosen_hypothesis = 2 }

to_deep_rca : Walk sha256 (at_node entry_point start none_yet) (at_node deep_rca approved one_given)
unfolding successors after expansion_router initialize_loop answer_review review_router
to_deep_rca =
    then_step _ _ _
      (go interpret_incident human_review start "" (Memᴰ.head refl)
        (then_step _ _ _ expanded (expand start none_yet loop)))
      (review start none_yet approval)

abbrev drafted : State
drafted = record approved { postmortem_draft = "draft" }

abbrev published : State
published = record drafted { publish_review_status = "approved"; approved_draft_sha256 = "draft" }

abbrev publication : PublishResume
publication = record { status = some "approved"; draft_sha256 = some "draft"; feedback = none }

abbrev both_given : Answers
both_given = with_publication one_given publication

publication_reviewed : answer_publish_review sha256 drafted publication ≡ reviewed published
unfolding answer_publish_review prefix
publication_reviewed = refl

to_publish : Walk sha256 (at_node entry_point start none_yet) (at_node publish published both_given)
unfolding successors after publish_review_router
to_publish =
    then_step _ _ _
      (go draft_postmortem publish_review approved "draft" (Memᴰ.head refl)
        (go deep_rca draft_postmortem approved "" (Memᴰ.head refl) to_deep_rca))
      (review_publication drafted published one_given publication publication_reviewed)

publish-IsApproved_example : IsApproved sha256 published both_given
publish-IsApproved_example =
    publish-IsApproved sha256 start published none_yet both_given to_publish
