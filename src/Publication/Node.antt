-- ===== src/Publication/Node.antt =====
-- graph/nodes/publish.py: the providers are called behind the publication guard. The HTML report
-- and the print lines are left out; what a provider answers is an argument.
use incident_agent.Common.{
  ℕ, String, ◌≡◌, ◌≢◌, refl, Bool, true, false, ◌||◌, Option, none, some, List, [], ◌∷◌, ◌++◌,
  str_eq, eq_refl, ◌==◌, find, find-append, find-update_where, update_where, count, count-append,
  if◌then◌else◌, arith,
}
use incident_agent.Store.{Env, Result, ok, err, Error, value_error}
use incident_agent.Publication.{
  Publication, Begun, claimed, deduplicated, publication_key, with_publication_key, is_attempt,
  is_completed, started, incomplete, begin_publication, complete_publication,
  mark_publication_uncertain, completed_publication, uncertain_publication, url_or_empty,
}

pub data Provider : Type 0 where
  slack github jira : Provider

-- PUBLISH_EXTERNAL and the switches of the three destinations.
pub record Destinations : Type 0 where
  pub external : Bool
  pub slack : Bool
  pub github : Bool
  pub jira : Bool

-- A provider's call returns the URL of an issue, or raises.
pub data Answer : Type 0 where
  returned : Option String → Answer
  raised : String → Answer

pub record Answers : Type 0 where
  pub slack : Answer
  pub github : Answer
  pub jira : Answer

-- A switched-off destination is not called, and its URL stays None.
abbrev call :
    Bool → Provider → Answer → (Option String → List Provider × Answer) → List Provider × Answer
call false p a rest = rest none
call true p (raised e) rest = (p ∷ [], raised e)
call true p (returned url) rest = let (calls, x) = rest url in (p ∷ calls, x)

-- `jira_url or github_url`
abbrev or_url : Option String → Option String → Option String
or_url none g = g
or_url (some u) g = if str_eq u "" then g else some u

unfoldable pub call_providers : Destinations → Answers → List Provider × Answer
call_providers d a = call d.slack slack a.slack λ _.
    call d.github github a.github
      λ github_url. call d.jira jira a.jira λ jira_url. ([], returned (or_url jira_url github_url))

pub data NodeError : Type 0 where
  store_error : Error → NodeError
  provider_error : String → NodeError

-- The `postmortem_url` of the node's result, or the exception.
pub data Published : Type 0 where
  url : String → Published
  failed : NodeError → Published

-- The `except` branch: the attempt is marked, and the exception is raised again.
abbrev give_up :
    (NodeError → String)
    → List Publication
    → String
    → String
    → List Provider
    → NodeError
    → ℕ
    → Published × List Provider × List Publication
give_up describe rows key token calls e now =
    (failed e, calls, mark_publication_uncertain rows key token (describe e) now)

abbrev finish :
    (NodeError → String)
    → Result (Unit {0}) × List Publication
    → String
    → String
    → List Provider
    → Option String
    → ℕ
    → Published × List Provider × List Publication
finish describe (ok _, rows) key token calls issue now = (url (url_or_empty issue), calls, rows)
finish describe (err e, rows) key token calls issue now =
    give_up describe rows key token calls (store_error e) now

abbrev attempt :
    (NodeError → String)
    → List Provider × Answer
    → List Publication
    → String
    → String
    → ℕ
    → Published × List Provider × List Publication
attempt describe (calls, raised e) rows key token now =
    give_up describe rows key token calls (provider_error e) now
attempt describe (calls, returned issue) rows key token now =
    finish describe (complete_publication rows key token issue now) key token calls issue now

-- `meanwhile` is what other processes write while the providers are called.
abbrev guarded :
    (NodeError → String)
    → Destinations
    → Answers
    → (List Publication → List Publication)
    → Result Begun × List Publication
    → String
    → ℕ
    → Published × List Provider × List Publication
guarded describe d a meanwhile (err e, rows) key now = (failed (store_error e), [], rows)
guarded describe d a meanwhile (ok (deduplicated issue), rows) key now = (url issue, [], rows)
guarded describe d a meanwhile (ok (claimed token), rows) key now =
    attempt describe (call_providers d a) (meanwhile rows) key token now

abbrev pub no_destination : NodeError
no_destination = store_error (value_error "external publishing is enabled without a destination")

unfoldable pub publish :
    Env
    → (NodeError → String)
    → Destinations
    → Answers
    → (List Publication → List Publication)
    → List Publication
    → String
    → String
    → String
    → ℕ
    → Published × List Provider × List Publication
publish env describe d a meanwhile rows incident_id draft token now =
    if d.external
    then (if d.slack || (d.github || d.jira)
        then guarded describe d a meanwhile (begin_publication env rows incident_id draft token now)
            (publication_key env incident_id draft) now
        else (failed no_destination, [], rows))
    else (url "", [], rows)

-- The providers are called only where the guard has granted the claim of this incident and draft.
pub calls_need_claim :
    (env : Env) (describe : NodeError → String) (d : Destinations) (a : Answers)
    (meanwhile : List Publication → List Publication) (rows : List Publication)
    (incident_id draft token : String) (now : ℕ)
    → (publish env describe d a meanwhile rows incident_id draft token now).1 ≢ []
    → ((d.external ≡ true)
        × ((begin_publication env rows incident_id draft token now).0 ≡ ok (claimed token)))
unfolding publish begin_publication
calls_need_claim env describe d a meanwhile rows incident_id draft token now h = ground arith

abbrev pub claimed_row : Env → String → String → String → ℕ → Publication
claimed_row env incident_id draft token now = record {
  publication_key = publication_key env incident_id draft;
  incident_id = incident_id;
  draft_sha256 = env.sha256 draft;
  status = started;
  attempt_token = token;
  issue_url = none;
  diagnostics = none;
  created_at = now;
  updated_at = now;
  completed_at = none;
}

module _ (env : Env) (rows : List Publication) (incident_id draft token : String) (now : ℕ)
    (new : find (with_publication_key (publication_key env incident_id draft)) rows ≡ none) where
  key : String
  key = publication_key env incident_id draft

  row : Publication
  row = claimed_row env incident_id draft token now

  -- After an update of the attempt, the key's row is the updated one.
  settled_row :
      (f : Publication → Publication)
      → ((x : Publication) → (f x).publication_key ≡ x.publication_key)
      → find (with_publication_key key) (update_where (is_attempt key token) f (rows ++ row ∷ []))
        ≡ some (f row)
  unfolding key row
  settled_row f k =
      rw
        (
          find-update_where (with_publication_key key) (is_attempt key token) f (λ x. rw k)
              (rows ++ row ∷ []),
          find-append,
          new,
        )
        (unfold find in rw (eq_refl, eq_refl, eq_refl))

  counted : (count (is_attempt key token) (rows ++ row ∷ []) == 0) ≡ false
  unfolding key row
  counted = rw count-append (unfold count in rw (eq_refl, eq_refl) (ground arith))

  begun_again :
      (p : Publication) (rows' : List Publication) (token' : String) (now' : ℕ)
      → find (with_publication_key key) rows' ≡ some p
      → begin_publication env rows' incident_id draft token' now' ≡ (
        if is_completed p.status
            then ok (deduplicated (url_or_empty p.issue_url))
            else err incomplete,
        rows',
      )
  unfolding key begin_publication
  begun_again p rows' token' now' f = ground arith

  -- What a second run of the node answers.
  abbrev pub again : Published → Published
  again (url u) = url u
  again (failed e) = failed (store_error incomplete)

  begun :
      begin_publication env rows incident_id draft token now
      ≡ (ok (claimed token), rows ++ row ∷ [])
  unfolding key row begin_publication
  begun = rw new

  -- The second run meets the row that the first one settled.
  second :
      (describe : NodeError → String) (d : Destinations) (a' : Answers) (token' : String) (now' : ℕ)
      (calls : List Provider) (x : Answer)
      → let (r, cs, rows') = attempt describe (calls, x) (rows ++ row ∷ []) key token now in
        guarded describe d a'
          (λ y. y)
          (begin_publication env rows' incident_id draft token' now')
          key
          now'
        ≡ (again r, [], rows')
  unfolding mark_publication_uncertain complete_publication
  second describe d a' token' now' calls (raised e) =
      let diagnostics = describe (provider_error e) in
      rw
        (begun_again (uncertain_publication diagnostics now row) _ token' now' (
          settled_row (uncertain_publication diagnostics now)
            (unfold uncertain_publication in λ y. refl)))
        (unfold uncertain_publication in refl)
  second describe d a' token' now' calls (returned issue) = rw counted (
      rw
        (begun_again (completed_publication issue now row) _ token' now' (
          settled_row (completed_publication issue now)
            (unfold completed_publication in λ y. refl)))
        (unfold completed_publication in refl))

  -- Where external publishing is on with a destination and the table has no row of the key, the
  -- first run of the node for an incident and draft settles it, nothing being written in between: a
  -- second run calls no provider and writes nothing. It returns the URL of the first, or is refused
  -- if the first failed.
  pub retry_calls_nobody :
      (describe : NodeError → String) (d : Destinations) (a a' : Answers) (token' : String)
      (now' : ℕ)
      → d.external ≡ true
      → (d.slack || (d.github || d.jira)) ≡ true
      → let (r, calls, rows') =
          publish env describe d a (λ x. x) rows incident_id draft token now in
        publish env describe d a' (λ x. x) rows' incident_id draft token' now'
        ≡ (again r, [], rows')
  unfolding publish key
  retry_calls_nobody describe d a a' token' now' on some_on =
      let (calls, x) = call_providers d a in
      simp (on, some_on, begun) (second describe d a' token' now' calls x)
