-- ===== src/Access/Broker.antt =====
-- apps/control-api/src/envelope-broker.ts, and `authorizeStateWrite` of
-- apps/control-api/src/runtime-state-routes.ts. Only what an error is called is kept of it.
use ehfconcept.Prelude.{
  ℕ, not, String, List, [], ◌∷◌, ◌++◌, Option, none, some, ◌==◌, compare_texts, compare_numbers,
  if◌then◌else◌, includes, find, Result, ok, err, ◌>>=◌, ◌>>◌, require, or_else,
}
use ehfconcept.Contracts.Value.{Value, object}
use ehfconcept.Contracts.Read.{property, elements, text, texts}
use ehfconcept.Ledger.Row.{is_running}
use ehfconcept.Ledger.Plans.{Plan, get_plan}
use ehfconcept.Ledger.Store.{Db, get_run, current_fencing_epoch}
use ehfconcept.Ledger.Journal.{FencedRun}
use ehfconcept.Access.Grants.{ExecutionEnvelope, Tokens, mint_execution_envelope}

-- `businessCommandTypeSchema`
abbrev pub business_command_types : List String
business_command_types =
    "AddSubject" ∷ "LinkEvidence" ∷ "ProposeClaim" ∷ "AcceptClaimAsFact" ∷ "RecordScreeningFinding"
    ∷ "RecordAssumption" ∷ "RaiseContradiction" ∷ "ResolveContradiction" ∷ "ProposeWorkItem"
    ∷ "CompleteWorkItem" ∷ "LinkExecution" ∷ "SubmitDecisionRecommendation" ∷ "RecordGateResult"
    ∷ "RecordQAResult" ∷ "RecordReview" ∷ "RequestHumanReview" ∷ "TransitionCaseStatus"
    ∷ "FinalizeDisposition" ∷ []

-- The command type of one entry of `caseWrites`, if it is an object with one of the known types.
unfoldable pub command_types : Value → List String
unfolding property text
command_types (object fs) =
    let name = text (property "commandType" (object fs)) in
    if includes business_command_types name then name ∷ [] else []
command_types _ = []

unfoldable pub all_command_types : List Value → List String
unfolding command_types
all_command_types [] = []
all_command_types (v ∷ vs) = command_types v ++ all_command_types vs

-- `[...new Set(xs)]`: each text once, where it stood first.
unfoldable pub distinct_from : List String → List String → List String
distinct_from seen [] = []
distinct_from seen (x ∷ xs) =
    let rest_old = distinct_from seen xs in
    let rest_new = distinct_from (x ∷ seen) xs in if includes seen x then rest_old else x ∷ rest_new

unfoldable pub declared_case_writes : Plan → String → List String
unfolding property elements all_command_types distinct_from text
declared_case_writes plan node_id =
    let nodes = elements (property "nodes" (property "graph" plan.content)) in
    elim (find (λ n. text (property "id" n) == node_id) nodes) [
      | none ↦ []
      | some found ↦
          distinct_from []
            (all_command_types (elements (property "caseWrites" (property "config" found))))
    ]

pub record EnvelopeRequest : Type 0 where
  pub run_id : String
  pub node_id : String
  pub attempt : ℕ
  pub invocation_id : String

pub record BrokerDependencies : Type 0 where
  pub db : Db
  pub envelope_secret : String
  pub grant_secret : String
  pub envelope_ttl_seconds : Option ℕ

pub record IssuedEnvelope : Type 0 where
  pub envelope : String
  pub expires_in_seconds : ℕ
  pub case_writes : List String

-- `if (x === null) throw e`
abbrev pub present : {A : Type 0} → Option A → String → Result String A
present none e = err e
present (some a) e = ok a

unfoldable pub find_permission : Plan → String → Option Value
unfolding property elements text
find_permission plan node_id =
    find (λ p. text (property "nodeId" p) == node_id)
      (elements (property "permissionEnvelopes" plan.content))

-- What the envelope is minted from.
unfoldable pub envelope_for : EnvelopeRequest → Plan → Value → ℕ → ExecutionEnvelope
unfolding property elements text texts declared_case_writes
envelope_for request plan permission epoch = record {
  invocation_id = request.invocation_id;
  run_id = request.run_id;
  node_id = request.node_id;
  attempt = request.attempt;
  plan_digest = plan.plan_digest;
  permission_digest = text (property "digest" permission);
  capabilities = texts (elements (property "capabilities" permission));
  effects = texts (elements (property "effects" permission));
  case_writes = declared_case_writes plan request.node_id;
  fencing_epoch = epoch;
  ttl = 0;
}

-- The guards, up to the permission that the plan gives the node.
unfoldable pub broker_checks :
    Tokens → BrokerDependencies → String → EnvelopeRequest → Result String (Plan × Value × ℕ)
unfolding get_run current_fencing_epoch get_plan find_permission
broker_checks tokens deps grant_token request =
    present (tokens.verify_grant grant_token deps.grant_secret) "broker.grant_invalid" >>= λ grant.
    require (grant.run_id == request.run_id) "broker.run_mismatch"
    >> require (grant.attempt == request.attempt) "broker.attempt_mismatch"
    >> (present (get_run request.run_id none deps.db) "broker.run_not_found" >>= λ run.
        require (is_running run.status) "broker.run_not_running"
        >> require (run.plan_digest == grant.plan_digest) "broker.plan_mismatch"
        >> (present (current_fencing_epoch request.run_id deps.db) "broker.stale_fence" >>= λ epoch.
            require (epoch == grant.fencing_epoch) "broker.stale_fence"
            >> (present (get_plan run.plan_digest none deps.db.plans) "broker.plan_not_admitted"
                >>= λ plan.
                    present (find_permission plan request.node_id) "broker.node_not_permitted"
                    >>= λ permission. ok (plan, permission, epoch))))

unfoldable pub issue_execution_envelope :
    Tokens → BrokerDependencies → String → EnvelopeRequest → Result String IssuedEnvelope
unfolding broker_checks mint_execution_envelope envelope_for declared_case_writes
issue_execution_envelope tokens deps grant_token request =
    broker_checks tokens deps grant_token request >>= λ (plan, permission, epoch).
    let ttl_seconds = or_else deps.envelope_ttl_seconds 60 in
    ok (record {
      envelope =
          mint_execution_envelope tokens deps.envelope_secret
            (envelope_for request plan permission epoch) (some ttl_seconds);
      expires_in_seconds = ttl_seconds;
      case_writes = declared_case_writes plan request.node_id;
    })

unfoldable pub authorize_state_write :
    Tokens → Db → Option String → String → FencedRun → Result String (Unit {0})
unfolding get_run current_fencing_epoch
authorize_state_write tokens db grant_token grant_secret run =
    present grant_token "runtime_state.grant_missing" >>= λ token.
    require (not (token == "")) "runtime_state.grant_missing"
    >> (present (tokens.verify_grant token grant_secret) "runtime_state.grant_invalid" >>= λ grant.
        require (grant.run_id == run.run_id) "runtime_state.run_mismatch"
        >> require (grant.attempt == run.attempt) "runtime_state.attempt_mismatch"
        >> require (grant.worker_id == run.worker_id) "runtime_state.worker_mismatch"
        >> require (grant.fencing_epoch == run.fencing_epoch) "runtime_state.grant_fence_mismatch"
        >> (present (get_run run.run_id none db) "runtime_state.run_not_found" >>= λ record_.
            require (is_running record_.status) "runtime_state.run_not_running"
            >> (present (current_fencing_epoch run.run_id db) "runtime_state.stale_fence"
                >>= λ epoch. require (epoch == run.fencing_epoch) "runtime_state.stale_fence")))
