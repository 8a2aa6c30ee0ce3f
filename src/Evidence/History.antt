-- ===== src/Evidence/History.antt =====
-- The versions of a piece of evidence are a history, and what the unique keys refuse.
use mathlib.Core.Option
use incident_agent.Common.{
  ℕ, ◌+◌, String, ◌≡◌, refl, ap, subst, false, ◌&&◌, Option, none, some, List, [], ◌∷◌, str_eq,
  eq_iff, eq_refl, ◌==◌, Memᴰ, count, count-Memᴰ, select-insert, IsHistory, IsHistory-append, arith,
  Bool-cases, inl, inr, ◌⊎◌,
}
use incident_agent.Evidence.{
  Item, EvidenceRecord, Link, EvidenceDb, Error, Result, ok, err, incident_evidence_content,
  of_evidence, versions_of, newest_record, record_version, same_version, same_content, new_record,
  add_record, insert_record, add_link, insert_link, link_of, then_link, append_after, append_item,
  append_analysis_evidence,
}

abbrev pub IsRecordHistory : List EvidenceRecord → Type 0
IsRecordHistory =
    IsHistory (λ r. r.version) (λ r. r.evidence_record_id) (λ r. r.supersedes_record_id) none 0

-- The records of every piece of evidence are a history.
unfoldable pub IsVersioned : EvidenceDb → Type 0
IsVersioned db = (i e : String) → IsRecordHistory (versions_of i e db)

-- What a successful insertion did.
insert_record-ok :
    (db : EvidenceDb) (r : EvidenceRecord) (db' : EvidenceDb)
    → insert_record db r ≡ ok db'
    → db' ≡ add_record db r
unfolding insert_record
insert_record-ok db r db' e = ground arith

insert_link-ok :
    (db : EvidenceDb) (l : Link) (db' : EvidenceDb)
    → insert_link db l ≡ ok db'
    → db' ≡ add_link db l
unfolding insert_link
insert_link-ok db l db' e = ground arith

then_link-ok :
    (i : String) (revision : ℕ) (item : Item) (id : ℕ) (r : Result) (db' : EvidenceDb)
    → then_link i revision item id r ≡ ok db'
    → (d : EvidenceDb) × (r ≡ ok d) × (db' ≡ add_link d (link_of i revision item id))
then_link-ok i revision item id (err x) db' e = absurd (ground arith)
then_link-ok i revision item id (ok d) db' e = (d, refl, insert_link-ok d _ db' e)

-- What a successful round did: a new version and its link, or a link to the newest version.
module _ (db : EvidenceDb) (i : String) (revision : ℕ) (item : Item) (now : ℕ) where
  unfoldable pub Inserted : Option EvidenceRecord → EvidenceDb → Type 0
  Inserted p db' =
      db'
      ≡ add_link (add_record db (new_record db i revision item p now))
          (link_of i revision item db.next_record_id)

  unfoldable pub Linked : Option EvidenceRecord → EvidenceDb → Type 0
  Linked p db' =
      (x : EvidenceRecord) × (p ≡ some x)
      × (x.content_sha256 ≡ item.content_sha256)
      × (db' ≡ add_link db (link_of i revision item x.evidence_record_id))

  inserted-ok :
      (p : Option EvidenceRecord) (db' : EvidenceDb)
      → then_link i revision item db.next_record_id
          (insert_record db (new_record db i revision item p now))
        ≡ ok db'
      → Inserted p db'
  unfolding Inserted
  inserted-ok p db' e =
      let (d, q, f) = then_link-ok i revision item _ _ db' e in rw (insert_record-ok db _ d q) at f

  pub append_after-ok :
      (p : Option EvidenceRecord) (db' : EvidenceDb)
      → append_after db i revision item now p ≡ ok db'
      → Inserted p db' ⊎ Linked p db'
  unfolding Linked
  append_after-ok none db' e = inl (inserted-ok none db' e)
  append_after-ok (some x) db' e = elim (Bool-cases (str_eq x.content_sha256 item.content_sha256)) [
    | inl s ↦ inr (x, refl, (eq_iff _ _).0 s, insert_link-ok db _ db' (rw s at e))
    | inr s ↦ inl (inserted-ok (some x) db' (rw s at e))
  ]

  -- Appending an item keeps every piece of evidence a history.
  append_item-IsVersioned :
      (db' : EvidenceDb)
      → append_item db i revision item now ≡ ok db'
      → IsVersioned db
      → IsVersioned db'
  unfolding IsVersioned append_item Inserted Linked new_record
  append_item-IsVersioned db' e h j k =
      elim (append_after-ok (newest_record (versions_of i item.evidence_id db)) db' e) [
        | inr (x, f, s, q) ↦ rw q (h j k)
        | inl q ↦
            rw (q, select-insert (of_evidence j k))
              (elim (Bool-cases (str_eq i j && str_eq item.evidence_id k)) [
                | inr s ↦ rw s (h j k)
                | inl s ↦
                    let incident : i ≡ j = (eq_iff _ _).0 (ground arith) in
                    let evidence : item.evidence_id ≡ k = (eq_iff _ _).0 (ground arith) in
                    let here : newest_record (versions_of i item.evidence_id db)
                        ≡ newest_record (versions_of j k db) =
                      cc in
                    rw s (
                      IsHistory-append _ _ _ (versions_of j k db) _ (h j k)
                        (ap (λ x. record_version x + 1) here)
                        (ap (Option.map (λ r. r.evidence_record_id)) here))
              ])
      ]

err_ok : (x : Error) (d : EvidenceDb) → err x ≡ ok d → ⊥
err_ok x d e = grind arith

pub ok-inj : (d d' : EvidenceDb) → ok d ≡ ok d' → d ≡ d'
ok-inj d d' e = cc

Result-cases : (r : Result) → ((x : Error) × (r ≡ err x)) ⊎ ((d : EvidenceDb) × (r ≡ ok d))
Result-cases (err x) = inl (x, refl)
Result-cases (ok d) = inr (d, refl)

-- A successful loop is a successful round and a successful rest.
pub append_cons-ok :
    (db : EvidenceDb) (i : String) (revision : ℕ) (item : Item) (items : List Item) (now : ℕ)
    (db' : EvidenceDb)
    → append_analysis_evidence db i revision (item ∷ items) now ≡ ok db'
    → (d : EvidenceDb) × (append_item db i revision item now ≡ ok d)
      × (append_analysis_evidence d i revision items now ≡ ok db')
unfolding append_analysis_evidence
append_cons-ok db i revision item items now db' e =
    elim (Result-cases (append_item db i revision item now)) [
      | inl (x, q) ↦ absurd (err_ok x db' (rw (append_analysis_evidence, q) at e))
      | inr (d, q) ↦ (d, q, rw (append_analysis_evidence, q) at e)
    ]

-- Appending the evidence of an analysis keeps the records of every piece of evidence numbered from
-- 1 without a gap, each superseding the one before it.
pub append_analysis_evidence-IsVersioned :
    (db : EvidenceDb) (incident_id : String) (revision : ℕ) (items : List Item) (now : ℕ)
    (db' : EvidenceDb)
    → append_analysis_evidence db incident_id revision items now ≡ ok db'
    → IsVersioned db
    → IsVersioned db'
unfolding append_analysis_evidence
append_analysis_evidence-IsVersioned db i revision [] now db' e h =
    subst IsVersioned (ok-inj db db' e) h
append_analysis_evidence-IsVersioned db i revision (item ∷ items) now db' e h =
    let (d, first, rest) = append_cons-ok db i revision item items now db' e in
    append_analysis_evidence-IsVersioned d i revision items now db' rest
      (append_item-IsVersioned db i revision item now d first h)

-- An item whose content is that of an older version of its evidence, but not that of the newest,
-- is refused by the unique key on contents, if the version number itself is free: the loop raises
-- an IntegrityError and the analysis revision is not recorded.
pub append_item-reverted :
    (db : EvidenceDb) (incident_id : String) (revision : ℕ) (item : Item) (now : ℕ)
    (old new : EvidenceRecord)
    → newest_record (versions_of incident_id item.evidence_id db) ≡ some new
    → str_eq new.content_sha256 item.content_sha256 ≡ false
    → Memᴰ old db.records
    → old.incident_id ≡ incident_id
    → old.evidence_id ≡ item.evidence_id
    → old.content_sha256 ≡ item.content_sha256
    → count (same_version (new_record db incident_id revision item (some new) now)) db.records ≡ 0
    → (items : List Item)
    → append_analysis_evidence db incident_id revision (item ∷ items) now
      ≡ err incident_evidence_content
unfolding append_analysis_evidence append_item insert_record
append_item-reverted db i revision item now old new n differs m a b c free items =
    let taken : (count (same_content (new_record db i revision item (some new) now)) db.records
          == 0)
        ≡ false =
      count-Memᴰ _ old db.records m
        (unfold new_record in rw (a, b, c, eq_refl, eq_refl, eq_refl) refl) in
    rw (append_analysis_evidence, n, differs, free, taken) refl
