-- ===== src/Drafts/History.antt =====
-- The drafts of every incident are a history: versions without a gap, each superseding the last.
use mathlib.Core.Option
use incident_agent.Common.{
  ℕ, ◌+◌, String, ◌≡◌, refl, sym, ap, subst, ◌∙◌, true, false, Option, none, some, List, str_eq,
  eq_iff, eq_refl, select-insert, newest, IsHistory, IsHistory-append, newest-append, newest-All,
  All, All-append, select-All, arith, Bool-cases, inl, inr, ◌⊎◌,
}
use incident_agent.Store.{Env}
use incident_agent.Drafts.{
  Draft, DraftDb, Recorded, Result, ok, err, recorded, of_incident, drafts_of, newest_draft,
  draft_version, new_draft, insert_draft, record_after, is_source, text_of, record_postmortem_draft,
}

abbrev pub IsDraftHistory : List Draft → Type 0
IsDraftHistory = IsHistory (λ d. d.version) (λ d. d.draft_id) (λ d. d.supersedes_draft_id) none 0

-- Every incident's drafts are a history.
unfoldable pub IsVersioned : DraftDb → Type 0
IsVersioned db = (i : String) → IsDraftHistory (drafts_of i db)

-- The transaction inserts the draft, or finds its content in the newest one.
record_after-cases :
    (env : Env) (db : DraftDb) (p : Option Draft) (d : Draft)
    → (record_after env db p d ≡ (ok (recorded d.incident_id d false), insert_draft db d))
      ⊎ ((x : Draft) × (p ≡ some x)
          × (x.content_sha256 ≡ d.content_sha256)
          × (record_after env db p d ≡ (ok (recorded d.incident_id x true), db)))
record_after-cases env db none d = inl refl
record_after-cases env db (some x) d =
    elim (Bool-cases (str_eq x.content_sha256 d.content_sha256)) [
      | inl e ↦ inr (x, refl, (eq_iff _ _).0 e, rw e refl)
      | inr e ↦ inl (rw e refl)
    ]

module _ (env : Env) (db : DraftDb) (incident_id text : String) (analysis_revision : Option ℕ)
    (source : String) (editor_identity : Option String) (now : ℕ) (previous : Option Draft)
    (read : newest_draft (drafts_of incident_id db) ≡ previous) where
  draft : Draft
  draft = new_draft env db incident_id text analysis_revision source editor_identity previous now

  insert-IsVersioned : IsVersioned db → IsVersioned (insert_draft db draft)
  unfolding IsVersioned draft new_draft
  insert-IsVersioned h i =
      rw (select-insert (of_incident i) db.drafts draft) (elim (Bool-cases (str_eq incident_id i)) [
        | inl e ↦
            let same : incident_id ≡ i = (eq_iff _ _).0 e in
            let here = subst (λ x. newest_draft (drafts_of x db) ≡ previous) same read in
            rw e (
              IsHistory-append _ _ _ (drafts_of i db) draft (h i)
                (ap (λ x. draft_version x + 1) (sym here))
                (ap (Option.map (λ d. d.draft_id)) (sym here)))
        | inr e ↦ rw e (h i)
      ])

  inserted_newest : newest_draft (drafts_of incident_id (insert_draft db draft)) ≡ some draft
  unfolding draft new_draft
  inserted_newest =
      rw (select-insert (of_incident incident_id) db.drafts draft, eq_refl)
        (newest-append _ _ _ (drafts_of incident_id db) draft (rw read (omega arith)))

  record_after-IsVersioned : IsVersioned db → IsVersioned (record_after env db previous draft).1
  record_after-IsVersioned h = elim (record_after-cases env db previous draft) [
    | inl e ↦ rw e (insert-IsVersioned h)
    | inr (x, f, s, e) ↦ rw e h
  ]

-- Each row's digest is that of its content.
abbrev pub IsDigested : Env → DraftDb → Type 0
IsDigested env db = All (λ d. d.content_sha256 ≡ env.sha256 d.content) db.drafts

-- A stored draft of the incident that has the digest of the text holds it.
abbrev pub HasNoCollision : Env → DraftDb → String → String → Type 0
HasNoCollision env db incident_id text =
    All (λ d. env.sha256 d.content ≡ env.sha256 text → d.content ≡ text) (drafts_of incident_id db)

-- The newest draft of the incident is the one that the answer names, and holds the content.
pub record IsNewest (env : Env) (db : DraftDb) (incident_id content : String) (r : Recorded)
    : Type 0 where
  pub row : Draft
  pub newest : newest_draft (drafts_of incident_id db) ≡ some row
  pub draft_id : row.draft_id ≡ r.draft_id
  pub version : row.version ≡ r.version
  pub holds : row.content ≡ content
  pub digest : row.content_sha256 ≡ env.sha256 content

-- Recording a post-mortem keeps every incident's drafts numbered from 1 without a gap, each
-- superseding the one before it, whatever it is asked to record.
pub record_postmortem_draft-IsVersioned :
    (env : Env) (db : DraftDb) (incident_id : String) (content : Option String)
    (analysis_revision : Option ℕ) (source : String) (editor_identity : Option String) (now : ℕ)
    → IsVersioned db
    → IsVersioned
        (record_postmortem_draft env db incident_id content analysis_revision source editor_identity
          now).1
unfolding record_postmortem_draft
record_postmortem_draft-IsVersioned env db incident_id content analysis_revision source
      editor_identity now h =
    elim (Bool-cases (is_source source)) [
      | inr e ↦ rw e h
      | inl e ↦ rw e (elim (Bool-cases (str_eq (text_of content) "")) [
        | inl q ↦ rw q h
        | inr q ↦ rw q (
            unfold draft in
            record_after-IsVersioned env db incident_id (text_of content) analysis_revision source
              editor_identity now (newest_draft (drafts_of incident_id db)) refl h)
      ])
    ]

-- A second recording finds the newest row.
IsNewest-again :
    (env : Env) (db : DraftDb) (i text : String) (a : Option ℕ) (source : String)
    (e : Option String) (now : ℕ) (r : Recorded)
    → IsNewest env db i text r
    → record_after env db
        (newest_draft (drafts_of i db))
        (new_draft env db i text a source e (newest_draft (drafts_of i db)) now)
      ≡ (
        ok (record {
          draft_id = r.draft_id;
          incident_id = i;
          version = r.version;
          deduplicated = true;
        }),
        db,
      )
unfolding new_draft
IsNewest-again env db i text a source e now r h =
    rw (h.newest, h.digest, eq_refl, h.draft_id, h.version) refl

-- The answer of a recording.
abbrev pub answer_of : Result → Option Recorded
answer_of (ok r) = some r
answer_of (err e) = none

module _ (env : Env) (db : DraftDb) (incident_id text : String) (a : Option ℕ) (source : String)
    (e : Option String) (now : ℕ) where
  found_content :
      (x : Draft)
      → IsDigested env db
      → HasNoCollision env db incident_id text
      → newest_draft (drafts_of incident_id db) ≡ some x
      → x.content_sha256 ≡ env.sha256 text
      → x.content ≡ text
  found_content x digested free q s =
      let here =
        select-All (of_incident incident_id) (λ d. d.content_sha256 ≡ env.sha256 d.content)
          db.drafts digested in
      newest-All (λ d. d.version) (λ d. d.draft_id) (λ d. d.supersedes_draft_id)
        (λ d. env.sha256 d.content ≡ env.sha256 text → d.content ≡ text) (drafts_of incident_id db)
        x free q
        (sym (
            newest-All (λ d. d.version) (λ d. d.draft_id) (λ d. d.supersedes_draft_id)
              (λ d. d.content_sha256 ≡ env.sha256 d.content) (drafts_of incident_id db) x here q)
          ∙ s)

  record_after-IsNewest :
      (p : Option Draft)
      → IsDigested env db
      → HasNoCollision env db incident_id text
      → newest_draft (drafts_of incident_id db) ≡ p
      → let (x, db') = record_after env db p (new_draft env db incident_id text a source e p now) in
        (r : Recorded) × (x ≡ ok r) × IsNewest env db' incident_id text r × IsDigested env db'
  unfolding new_draft draft
  record_after-IsNewest p digested free q =
      elim (record_after-cases env db p (new_draft env db incident_id text a source e p now)) [
        | inl c ↦ rw c (
          _,
          refl,
          record {
            row = draft env db incident_id text a source e now p q;
            newest = inserted_newest env db incident_id text a source e now p q;
            draft_id = refl;
            version = refl;
            holds = refl;
            digest = refl;
          },
          All-append _ db.drafts _ digested (refl, tt),
        )
        | inr (x, f, s, c) ↦ rw c (
          _,
          refl,
          record {
            row = x;
            newest = q ∙ f;
            draft_id = refl;
            version = refl;
            holds = found_content x digested free (q ∙ f) s;
            digest = s;
          },
          digested,
        )
      ]

module _ (env : Env) (db : DraftDb) (incident_id content : String) (analysis_revision : Option ℕ)
    (source : String) (editor_identity : Option String) (now : ℕ) (valid : is_source source ≡ true)
    (not_empty : str_eq content "" ≡ false) where
  reads_newest :
      record_postmortem_draft env db incident_id
        (some content)
        analysis_revision
        source
        editor_identity
        now
      ≡ (let p = newest_draft (drafts_of incident_id db) in
          record_after env db p
            (new_draft env db incident_id content analysis_revision source editor_identity p now))
  unfolding record_postmortem_draft
  reads_newest = rw (valid, not_empty) refl

module _ (env : Env) (db : DraftDb) (incident_id content : String) (analysis_revision : Option ℕ)
    (source : String) (editor_identity : Option String) (now : ℕ) (valid : is_source source ≡ true)
    (not_empty : str_eq content "" ≡ false) where
  -- In a table whose digests are those of the contents, in which no other content of the incident
  -- has the digest of the new one, recording a content that is not empty, from a known source,
  -- answers with the incident's newest draft, which holds that content, and leaves such digests.
  -- Recording it again, by whoever and whenever, answers with the same draft as a duplicate and
  -- writes nothing.
  pub record_postmortem_draft-idempotent :
      (analysis_revision' : Option ℕ) (editor_identity' : Option String) (now' : ℕ)
      → IsDigested env db
      → HasNoCollision env db incident_id content
      → let (x, db') =
          record_postmortem_draft env db incident_id
            (some content)
            analysis_revision
            source
            editor_identity
            now in
        (r : Recorded) × (x ≡ ok r)
        × IsNewest env db' incident_id content r
        × IsDigested env db'
        × (record_postmortem_draft env db' incident_id
              (some content)
              analysis_revision'
              source
              editor_identity'
              now'
            ≡ (
              ok (record {
                draft_id = r.draft_id;
                incident_id = incident_id;
                version = r.version;
                deduplicated = true;
              }),
              db',
            ))
  record_postmortem_draft-idempotent a e n digested free =
      let p = newest_draft (drafts_of incident_id db) in
      let (r, answered, newest, kept) =
        record_after-IsNewest env db incident_id content analysis_revision source editor_identity
          now p digested free refl in
      rw
        (reads_newest env db incident_id content analysis_revision source editor_identity now valid
          not_empty)
        (
          r,
          answered,
          newest,
          kept,
          reads_newest env _ incident_id content a source e n valid not_empty
              ∙ IsNewest-again env _ incident_id content a source e n r newest,
        )
