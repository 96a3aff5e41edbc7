-- ===== src/Authoring/Drafts.antt =====
-- packages/persistence/src/index.ts: authoring drafts and their event log. An operation is a call that does
-- one statement at a time, since the source runs them outside of a transaction: others may write in
-- between, and any statement may fail.
use ehfconcept.Prelude.{
  ℕ, ◌+◌, Bool, true, false, not, ◌&&◌, ◌||◌, String, List, [], ◌∷◌, ◌++◌, Option, none, some, ◌==◌,
  compare_texts, compare_numbers, if◌then◌else◌, find, includes, is_some, or_else, coalesce,
  update_rows, returned, Result, ok, err,
}
use ehfconcept.Contracts.Value.{Value, undefined, object, field, end, string}
use ehfconcept.Ledger.Plans.{Plan}

pub data AuthoringStatus : Type 0 where
  draft compiled evaluated approved published : AuthoringStatus

abbrev pub status_name : AuthoringStatus → String
status_name draft = "DRAFT"
status_name compiled = "COMPILED"
status_name evaluated = "EVALUATED"
status_name approved = "APPROVED"
status_name published = "PUBLISHED"

-- `draft.${input.status.toLowerCase()}`
abbrev pub event_type_of : AuthoringStatus → String
event_type_of draft = "draft.draft"
event_type_of compiled = "draft.compiled"
event_type_of evaluated = "draft.evaluated"
event_type_of approved = "draft.approved"
event_type_of published = "draft.published"

abbrev pub is_published : AuthoringStatus → Bool
is_published published = true
is_published _ = false

abbrev pub is_approved : AuthoringStatus → Bool
is_approved approved = true
is_approved _ = false

-- harness_control.authoring_drafts
pub record Draft : Type 0 where
  pub draft_id : String
  pub tenant_id : String
  pub name : String
  pub domain : String
  pub version : String
  pub status : AuthoringStatus
  pub revision : ℕ
  pub package_source : String
  pub workflow_source : String
  pub parsed_package : Value
  pub parsed_workflow : Value
  pub compiled_plan : Option Plan
  pub diagnostics : Value
  pub evaluation_report : Option Value
  pub approved_by : Option String
  pub published_by : Option String
  pub published_plan_digest : Option String
  pub created_at : ℕ
  pub updated_at : ℕ

-- harness_control.authoring_events
pub record AuthoringEvent : Type 0 where
  pub draft_id : String
  pub revision : ℕ
  pub event_type : String
  pub actor : String
  pub details : Value

pub record AuthoringDb : Type 0 where
  pub drafts : List Draft
  pub events : List AuthoringEvent

-- What a caller of `createAuthoringDraft` and `updateAuthoringSources` hands over.
pub record Sources : Type 0 where
  pub package_source : String
  pub workflow_source : String
  pub parsed_package : Value
  pub parsed_workflow : Value
  pub name : String
  pub domain : String
  pub version : String
  pub diagnostics : Value
  pub actor : String

unfoldable pub get_authoring_draft : String → Option String → List Draft → Option Draft
get_authoring_draft draft_id none ds = find (λ (d : Draft). d.draft_id == draft_id) ds
get_authoring_draft draft_id (some tenant_id) ds =
    find (λ (d : Draft). d.draft_id == draft_id && d.tenant_id == tenant_id) ds

abbrev pub new_draft : ℕ → String → String → Sources → Draft
new_draft now draft_id tenant_id input = record {
  draft_id = draft_id;
  tenant_id = tenant_id;
  name = input.name;
  domain = input.domain;
  version = input.version;
  status = draft;
  revision = 1;
  package_source = input.package_source;
  workflow_source = input.workflow_source;
  parsed_package = input.parsed_package;
  parsed_workflow = input.parsed_workflow;
  compiled_plan = none;
  diagnostics = input.diagnostics;
  evaluation_report = none;
  approved_by = none;
  published_by = none;
  published_plan_digest = none;
  created_at = now;
  updated_at = now;
}

abbrev pub created_event : String → Sources → AuthoringEvent
created_event draft_id input = record {
  draft_id = draft_id;
  revision = 1;
  event_type = "draft.created";
  actor = input.actor;
  details = object (field "source" (string "authoring-plane") end);
}

pub record LifecycleInput : Type 0 where
  pub expected_status : AuthoringStatus
  pub status : AuthoringStatus
  pub actor : String
  pub compiled_plan : Option Plan
  pub diagnostics : Option Value
  pub evaluation_report : Option Value
  pub published_plan_digest : Option String

-- Where an operation has come to: the statement that it does next, or its answer.
pub data Call : Type 0 where
  creating : String → String → Sources → Call
  updating : String → ℕ → Sources → Call
  checking changing : String → LifecycleInput → Call
  logging : AuthoringEvent → Draft → Call
  answered : Result String Draft → Call

-- `draft_id` is the fresh identifier.
unfoldable pub create_authoring_draft : String → String → Sources → Call
create_authoring_draft draft_id tenant_id input = creating draft_id tenant_id input

-- The primary key refuses an identifier that is taken.
unfoldable pub insert_draft : ℕ → String → String → Sources → AuthoringDb → AuthoringDb × Call
unfolding get_authoring_draft
insert_draft now draft_id tenant_id input db =
    let row = new_draft now draft_id tenant_id input in
    if is_some (get_authoring_draft draft_id none db.drafts)
    then (db, answered (err "unique_violation"))
    else (record db { drafts = db.drafts ++ row ∷ [] }, logging (created_event draft_id input) row)

-- `event_type in ('draft.created', 'draft.updated', 'draft.compiled')`
abbrev pub is_authorship : String → Bool
is_authorship event_type =
    event_type == "draft.created" || event_type == "draft.updated" || event_type == "draft.compiled"

-- The actors, with repetitions; the source's `distinct` drops those.
unfoldable pub authoring_contributors : String → List AuthoringEvent → List String
authoring_contributors draft_id [] = []
authoring_contributors draft_id (e ∷ es) =
    let rest = authoring_contributors draft_id es in
    if e.draft_id == draft_id && is_authorship e.event_type then e.actor ∷ rest else rest

unfoldable pub update_sources_row : ℕ → String → ℕ → Sources → Draft → Option Draft
update_sources_row now draft_id expected_revision input d =
    if d.draft_id == draft_id && d.revision == expected_revision && not (is_published d.status)
    then some (record d {
      name = input.name;
      domain = input.domain;
      version = input.version;
      package_source = input.package_source;
      workflow_source = input.workflow_source;
      parsed_package = input.parsed_package;
      parsed_workflow = input.parsed_workflow;
      diagnostics = input.diagnostics;
      status = draft;
      revision = d.revision + 1;
      compiled_plan = none;
      evaluation_report = none;
      approved_by = none;
      published_plan_digest = none;
      updated_at = now;
    })
    else none

abbrev pub updated_event : String → Draft → Sources → AuthoringEvent
updated_event draft_id row input = record {
  draft_id = draft_id;
  revision = row.revision;
  event_type = "draft.updated";
  actor = input.actor;
  details = object end;
}

unfoldable pub update_authoring_sources : String → ℕ → Sources → Call
update_authoring_sources draft_id expected_revision input =
    updating draft_id expected_revision input

unfoldable pub change_sources : ℕ → String → ℕ → Sources → AuthoringDb → AuthoringDb × Call
unfolding update_sources_row
change_sources now draft_id expected_revision input db =
    let change = update_sources_row now draft_id expected_revision input in
    elim (returned change db.drafts) [
      | none ↦ (db, answered (err "authoring.revision_conflict_or_published"))
      | some row ↦ (
        record db { drafts = update_rows change db.drafts },
        logging (updated_event draft_id row input) row,
      )
    ]

unfoldable pub lifecycle_row : ℕ → String → LifecycleInput → Draft → Option Draft
lifecycle_row now draft_id input d =
    if d.draft_id == draft_id && status_name d.status == status_name input.expected_status
    then some (record d {
      status = input.status;
      compiled_plan = coalesce input.compiled_plan d.compiled_plan;
      diagnostics = or_else input.diagnostics d.diagnostics;
      evaluation_report = coalesce input.evaluation_report d.evaluation_report;
      approved_by = if is_approved input.status then some input.actor else d.approved_by;
      published_by = if is_published input.status then some input.actor else d.published_by;
      published_plan_digest = coalesce input.published_plan_digest d.published_plan_digest;
      updated_at = now;
    })
    else none

-- `input.compiledPlan?.planDigest ?? input.publishedPlanDigest`
abbrev pub lifecycle_digest : LifecycleInput → Value
lifecycle_digest input = elim input.compiled_plan [
  | some plan ↦ string plan.plan_digest
  | none ↦ elim input.published_plan_digest [ some digest ↦ string digest | none ↦ undefined ]
]

abbrev pub lifecycle_event : String → Draft → LifecycleInput → AuthoringEvent
lifecycle_event draft_id row input = record {
  draft_id = draft_id;
  revision = row.revision;
  event_type = event_type_of input.status;
  actor = input.actor;
  details = object (
      field "from" (string (status_name input.expected_status)) (
        field "to" (string (status_name input.status))
          (field "planDigest" (lifecycle_digest input) end)));
}

abbrev pub releases : LifecycleInput → Bool
releases input = is_approved input.status || is_published input.status

-- Only the transitions that confer authority look at who contributed.
unfoldable pub set_authoring_lifecycle : String → LifecycleInput → Call
set_authoring_lifecycle draft_id input =
    if is_approved input.status || is_published input.status
    then checking draft_id input
    else changing draft_id input

unfoldable pub check_separation : String → LifecycleInput → AuthoringDb → Call
unfolding authoring_contributors
check_separation draft_id input db =
    if includes (authoring_contributors draft_id db.events) input.actor
    then answered (err "authoring.separation_of_duties")
    else changing draft_id input

unfoldable pub change_lifecycle : ℕ → String → LifecycleInput → AuthoringDb → AuthoringDb × Call
unfolding lifecycle_row
change_lifecycle now draft_id input db =
    let change = lifecycle_row now draft_id input in
    elim (returned change db.drafts) [
      | none ↦ (db, answered (err "authoring.lifecycle_conflict"))
      | some row ↦ (
        record db { drafts = update_rows change db.drafts },
        logging (lifecycle_event draft_id row input) row,
      )
    ]

unfoldable pub log_event : AuthoringEvent → AuthoringDb → AuthoringDb
log_event e db = record db { events = db.events ++ e ∷ [] }

-- The next statement of a call, at a time, which may fail.
unfoldable pub authoring_step : ℕ → Bool → Call → AuthoringDb → AuthoringDb × Call
unfolding insert_draft change_sources check_separation change_lifecycle log_event
authoring_step now false c db = (db, answered (err "database.error"))
authoring_step now true (creating draft_id tenant_id input) db =
    insert_draft now draft_id tenant_id input db
authoring_step now true (updating draft_id expected_revision input) db =
    change_sources now draft_id expected_revision input db
authoring_step now true (checking draft_id input) db = (db, check_separation draft_id input db)
authoring_step now true (changing draft_id input) db = change_lifecycle now draft_id input db
authoring_step now true (logging e row) db = (log_event e db, answered (ok row))
authoring_step now true (answered r) db = (db, answered r)
