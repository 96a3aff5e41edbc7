-- ===== src/Access/Tests.antt =====
-- Decisions and envelopes on small examples.
use ehfconcept.Prelude.{
  ℕ, [], ◌∷◌, if◌then◌else◌, ◌==◌, compare_texts, none, some, true, false, refl, ◌≡◌, ◌≢◌, ◌↔◌, ◌⊎◌,
  Option, String, ok, err, arith,
}
use ehfconcept.Contracts.Value.{Value, undefined, string, object, field, end, array, item, nil}
use ehfconcept.Contracts.Canonical.{Hashing}
use ehfconcept.Contracts.Read.{property, elements, text, texts}
use ehfconcept.Ledger.Row.{Run, new_run, claim_row}
use ehfconcept.Ledger.Plans.{Plan, get_plan}
use ehfconcept.Ledger.Store.{Db, empty_db, get_run, current_fencing_epoch}
use ehfconcept.Ledger.Journal.{FencedRun}
use ehfconcept.Ledger.System.{here}
use ehfconcept.Ledger.System.History.{IsConsistent}
use ehfconcept.Access.Roles.{
  Principal, ResourceRef, AuthorizationDecision, role_actions, evaluate, decision, require_action,
  http_status,
}
use ehfconcept.Access.Decisions.{
  MayAct, require_action-MayAct, refusal_status, writes_drafts, approves_drafts,
  author_roles_cannot_approve,
}
use ehfconcept.Access.Grants.{RuntimeGrant, Tokens, mint_execution_envelope}
use ehfconcept.Access.Broker.{
  EnvelopeRequest, BrokerDependencies, IssuedEnvelope, broker_checks, envelope_for, find_permission,
  declared_case_writes, issue_execution_envelope, authorize_state_write,
}
use ehfconcept.Access.Authority.{
  IsAuthorized, IsCurrent, authorized_write-IsCurrent, issued_envelope-IsAuthorized,
  stale_runtime_refused,
}

abbrev operator : Principal
operator = record {
  subject_id = "alice";
  tenant_id = "T";
  actor_type = "human";
  roles = "Harness.Operator" ∷ [];
  source = "entra";
}

abbrev own_plan : ResourceRef
own_plan = record { kind = "plan"; id = none; tenant_id = some "T" }

require_action-MayAct_example :
    ((d : AuthorizationDecision) × (require_action (some operator) "run.start" own_plan ≡ ok d))
    ↔ ((p : Principal) × (some operator ≡ some p) × MayAct p "run.start" own_plan)
require_action-MayAct_example = require_action-MayAct (some operator) "run.start" own_plan

abbrev nobody : Option Principal
nobody = none

refused_none : require_action none "run.start" own_plan ≡ err (evaluate none "run.start" own_plan)
unfolding require_action evaluate decision
refused_none = refl

refusal_status_example :
    ((nobody ≡ none) × (http_status (evaluate none "run.start" own_plan) ≡ 401))
    ⊎ ((p : Principal) × (nobody ≡ some p)
        × (http_status (evaluate none "run.start" own_plan) ≡ 403))
refusal_status_example =
    refusal_status none "run.start" own_plan (evaluate none "run.start" own_plan) refused_none

author_writes : writes_drafts (role_actions "Harness.Author") ≡ true
unfolding role_actions
author_writes = refl

author_roles_cannot_approve_example : approves_drafts (role_actions "Harness.Author") ≡ false
author_roles_cannot_approve_example = author_roles_cannot_approve "Harness.Author" author_writes

abbrev one_text : Value → Value
one_text v = array (item v nil)

-- A plan with one node that may call one capability.
abbrev small_plan : Plan
small_plan = record {
  plan_digest = "d";
  plan_id = "PLAN-1";
  content = object (
      field "permissionEnvelopes"
        (one_text (
          object (
            field "nodeId" (string "N") (
              field "capabilities" (one_text (string "C"))
                (field "effects" (one_text (string "read")) (field "digest" (string "p") end))))))
        end);
}

abbrev row : Run
row = claim_row 5 "W" 30 (new_run "R" "T" "K" "d" "q" undefined 1)

abbrev ledger : Db
ledger = record empty_db {
  plans = record { tenant_id = "T"; plan_digest = "d"; plan = small_plan } ∷ [];
  runs = row ∷ [];
}

abbrev grant : RuntimeGrant
grant = record { run_id = "R"; attempt = 1; worker_id = "W"; plan_digest = "d"; fencing_epoch = 1 }

abbrev old_grant : RuntimeGrant
old_grant = record grant { fencing_epoch = 0 }

-- The secret is not used: the token `G` stands for the grant, and every other token for the old one.
abbrev verify : String → String → Option RuntimeGrant
verify token secret = if token == "G" then some grant else some old_grant

abbrev tokens : Tokens
tokens = record {
  sign_envelope = λ secret envelope. "E";
  sign_grant = λ secret ttl g. "G";
  verify_grant = verify;
}

abbrev deps : BrokerDependencies
deps = record {
  db = ledger;
  envelope_secret = "s";
  grant_secret = "s";
  envelope_ttl_seconds = none;
}

abbrev request : EnvelopeRequest
request = record { run_id = "R"; node_id = "N"; attempt = 1; invocation_id = "I" }

abbrev issued : IssuedEnvelope
issued = record { envelope = "E"; expires_in_seconds = 60; case_writes = [] }

issues : issue_execution_envelope tokens deps "G" request ≡ ok issued
unfolding issue_execution_envelope broker_checks get_run current_fencing_epoch get_plan
    find_permission envelope_for declared_case_writes mint_execution_envelope property elements text
    texts claim_row new_run
issues = refl

issued_envelope-IsAuthorized_example :
    (plan : Plan) × (permission : Value) × (epoch : ℕ) × IsAuthorized tokens deps "G" request plan
      permission epoch
    × (issued.envelope
        ≡ mint_execution_envelope tokens "s" (envelope_for request plan permission epoch) (some 60))
    × (issued.case_writes ≡ declared_case_writes plan "N")
issued_envelope-IsAuthorized_example =
    issued_envelope-IsAuthorized tokens deps "G" request issued issues

abbrev fenced : FencedRun
fenced = record { run_id = "R"; attempt = 1; worker_id = "W"; fencing_epoch = 1 }

authorizes : authorize_state_write tokens ledger (some "G") "s" fenced ≡ ok tt
unfolding authorize_state_write get_run current_fencing_epoch claim_row new_run
authorizes = refl

IsConsistent-ledger : IsConsistent ledger
unfolding claim_row new_run
IsConsistent-ledger = record { unique = (tt, tt); sound = (ground arith, tt) }

authorized_write-IsCurrent_example : IsCurrent tokens ledger (some "G") "s" fenced
authorized_write-IsCurrent_example =
    authorized_write-IsCurrent tokens ledger (some "G") "s" fenced IsConsistent-ledger.unique
      authorizes

get_row : get_run "R" none ledger ≡ some row
unfolding get_run claim_row new_run
get_row = refl

fence_row : row.fencing_epoch ≡ 1
unfolding claim_row new_run
fence_row = refl

abbrev runtime : Hashing
runtime = record { stringify = λ v. "v"; sha256 = λ s. s }

stale_runtime_refused_example :
    ((i : IssuedEnvelope) → issue_execution_envelope tokens deps "old" request ≢ ok i)
    × (authorize_state_write tokens ledger (some "old") "s" fenced ≢ ok tt)
stale_runtime_refused_example =
    stale_runtime_refused runtime tokens "R" "old" "s" old_grant ledger row deps request fenced
      IsConsistent-ledger get_row here refl refl (omega (arith, fence_row))
