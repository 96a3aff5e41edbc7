-- ===== src/Access/Authority.antt =====
-- What an issued envelope and an authorized state write rest on, and that a stale runtime gets neither.
use ehfconcept.Prelude.{
  ℕ, ◌≡◌, ◌≢◌, ◌<◌, sym, ap, subst, ◌∙◌, true, ◌&&◌, String, Option, none, some, inl, inr, find, ok,
  or_else, arith, eq_iff, nat_beq_iff, Option-cases, ◌==◌, compare_texts, compare_numbers,
}
use ehfconcept.Contracts.Value.{Value}
use ehfconcept.Contracts.Canonical.{Hashing}
use ehfconcept.Ledger.Row.{Run, is_running}
use ehfconcept.Ledger.Plans.{Plan, get_plan}
use ehfconcept.Ledger.Machine.{Any}
use ehfconcept.Ledger.Store.{Db, get_run, current_fencing_epoch}
use ehfconcept.Ledger.Journal.{FencedRun}
use ehfconcept.Ledger.System.{Reach}
use ehfconcept.Ledger.System.Evolve.{HasUniqueIds, In-find}
use ehfconcept.Ledger.System.Single.{find_of_In}
use ehfconcept.Ledger.System.History.{IsConsistent, Reach-IsConsistent}
use ehfconcept.Ledger.Guarantees.{runs_persist}
use ehfconcept.Access.Grants.{RuntimeGrant, Tokens, mint_execution_envelope}
use ehfconcept.Access.Broker.{
  EnvelopeRequest, BrokerDependencies, IssuedEnvelope, find_permission, envelope_for, broker_checks,
  issue_execution_envelope, authorize_state_write, declared_case_writes,
}

-- The fence that is read is that of a running row of the run.
current_fencing_epoch-found :
    (k : String) (s : Db) (epoch : ℕ) (r : Run)
    → HasUniqueIds s.runs
    → get_run k none s ≡ some r
    → current_fencing_epoch k s ≡ some epoch
    → r.fencing_epoch ≡ epoch
unfolding current_fencing_epoch get_run
current_fencing_epoch-found k s epoch r u f e =
    elim (Option-cases (find (λ (x : Run). x.run_id == k && is_running x.status) s.runs)) [
      | inl n ↦ let no : none ≡ some epoch = rw (n, current_fencing_epoch) at e in absurd cc
      | inr (row, n) ↦
          let same : some row.fencing_epoch ≡ some epoch = rw (n, current_fencing_epoch) at e in
          let (i, g) = In-find _ s.runs row n in
          let id : row.run_id ≡ k = left_eq k row g in
          let found =
            subst (λ z. find (λ (x : Run). x.run_id == z) s.runs ≡ some row) id
              (find_of_In s.runs row u i) in
          let it : some r ≡ some row = sym f ∙ found in
          ap (λ o. (or_else o r).fencing_epoch) it ∙ ap (λ o. or_else o epoch) same
    ]
  where
    left_eq :
        (k : String) (row : Run)
        → (row.run_id == k && is_running row.status) ≡ true
        → row.run_id ≡ k
    left_eq k row g = ground (arith, eq_iff row.run_id k)

-- The authority behind an envelope, as it stands in the ledger.
pub record IsAuthorized (tokens : Tokens) (deps : BrokerDependencies) (token : String)
    (request : EnvelopeRequest) (plan : Plan) (permission : Value) (epoch : ℕ) : Type 0 where
  pub grant : RuntimeGrant
  pub run : Run
  pub verified : tokens.verify_grant token deps.grant_secret ≡ some grant
  pub same_run : grant.run_id ≡ request.run_id
  pub same_attempt : grant.attempt ≡ request.attempt
  pub same_plan : run.plan_digest ≡ grant.plan_digest
  pub found : get_run request.run_id none deps.db ≡ some run
  pub runs : is_running run.status ≡ true
  pub fence : current_fencing_epoch request.run_id deps.db ≡ some epoch
  pub same_fence : epoch ≡ grant.fencing_epoch
  pub admitted : get_plan run.plan_digest none deps.db.plans ≡ some plan
  pub permitted : find_permission plan request.node_id ≡ some permission

broker_checks-parts :
    (tokens : Tokens) (deps : BrokerDependencies) (token : String) (request : EnvelopeRequest)
    (plan : Plan) (permission : Value) (epoch : ℕ)
    → broker_checks tokens deps token request ≡ ok (plan, permission, epoch)
    → (grant : RuntimeGrant) × (run : Run) × (tokens.verify_grant token deps.grant_secret
        ≡ some grant)
      × (get_run request.run_id none deps.db ≡ some run)
      × ((grant.run_id == request.run_id) ≡ true)
      × ((grant.attempt == request.attempt) ≡ true)
      × (is_running run.status ≡ true)
      × ((run.plan_digest == grant.plan_digest) ≡ true)
      × (current_fencing_epoch request.run_id deps.db ≡ some epoch)
      × ((epoch == grant.fencing_epoch) ≡ true)
      × (get_plan run.plan_digest none deps.db.plans ≡ some plan)
      × (find_permission plan request.node_id ≡ some permission)
unfolding broker_checks
broker_checks-parts tokens deps token request plan permission epoch e = ground arith

broker_checks-IsAuthorized :
    (tokens : Tokens) (deps : BrokerDependencies) (token : String) (request : EnvelopeRequest)
    (plan : Plan) (permission : Value) (epoch : ℕ)
    → broker_checks tokens deps token request ≡ ok (plan, permission, epoch)
    → IsAuthorized tokens deps token request plan permission epoch
broker_checks-IsAuthorized tokens deps token request plan permission epoch e =
    let (grant, run, v, f, r, a, w, p, c, g, d, m) =
      broker_checks-parts tokens deps token request plan permission epoch e in
    record {
      grant = grant;
      run = run;
      verified = v;
      same_run = (eq_iff _ _).0 r;
      same_attempt = (nat_beq_iff _ _).0 a;
      same_plan = (eq_iff _ _).0 p;
      found = f;
      runs = w;
      fence = c;
      same_fence = (nat_beq_iff _ _).0 g;
      admitted = d;
      permitted = m;
    }

issue_execution_envelope-parts :
    (tokens : Tokens) (deps : BrokerDependencies) (token : String) (request : EnvelopeRequest)
    (issued : IssuedEnvelope)
    → issue_execution_envelope tokens deps token request ≡ ok issued
    → (plan : Plan) × (permission : Value) × (epoch : ℕ) × (broker_checks tokens deps token request
        ≡ ok (plan, permission, epoch))
      × (issued.envelope
          ≡ mint_execution_envelope tokens deps.envelope_secret
              (envelope_for request plan permission epoch)
              (some (or_else deps.envelope_ttl_seconds 60)))
      × (issued.case_writes ≡ declared_case_writes plan request.node_id)
unfolding issue_execution_envelope
issue_execution_envelope-parts tokens deps token request issued e = ground arith

authorize_state_write-parts :
    (tokens : Tokens) (db : Db) (token : Option String) (secret : String) (run : FencedRun)
    → authorize_state_write tokens db token secret run ≡ ok tt
    → (t : String) × (grant : RuntimeGrant) × (row : Run) × (token ≡ some t)
      × (tokens.verify_grant t secret ≡ some grant)
      × (get_run run.run_id none db ≡ some row)
      × ((grant.run_id == run.run_id) ≡ true)
      × ((grant.attempt == run.attempt) ≡ true)
      × ((grant.worker_id == run.worker_id) ≡ true)
      × ((grant.fencing_epoch == run.fencing_epoch) ≡ true)
      × (is_running row.status ≡ true)
      × (current_fencing_epoch run.run_id db ≡ some run.fencing_epoch)
unfolding authorize_state_write
authorize_state_write-parts tokens db token secret run e = ground arith

-- What the ledger says of a state write that is let through.
pub record IsCurrent (tokens : Tokens) (db : Db) (given : Option String) (secret : String)
    (run : FencedRun) : Type 0 where
  pub token : String
  pub grant : RuntimeGrant
  pub row : Run
  pub presented : given ≡ some token
  pub verified : tokens.verify_grant token secret ≡ some grant
  pub same_run : grant.run_id ≡ run.run_id
  pub same_attempt : grant.attempt ≡ run.attempt
  pub same_worker : grant.worker_id ≡ run.worker_id
  pub same_grant_fence : grant.fencing_epoch ≡ run.fencing_epoch
  pub found : get_run run.run_id none db ≡ some row
  pub runs : is_running row.status ≡ true
  pub same_fence : row.fencing_epoch ≡ run.fencing_epoch

-- A state write that is authorized names the run, the attempt, the worker and the fence of a grant that
-- verifies, and that run is in the ledger, is running, and is on that fence.
pub authorized_write-IsCurrent :
    (tokens : Tokens) (db : Db) (token : Option String) (secret : String) (run : FencedRun)
    → HasUniqueIds db.runs
    → authorize_state_write tokens db token secret run ≡ ok tt
    → IsCurrent tokens db token secret run
authorized_write-IsCurrent tokens db token secret run u e =
    let (t, grant, row, q, v, f, r, a, w, p, c, g) =
      authorize_state_write-parts tokens db token secret run e in
    record {
      token = t;
      presented = q;
      grant = grant;
      row = row;
      verified = v;
      same_run = (eq_iff _ _).0 r;
      same_attempt = (nat_beq_iff _ _).0 a;
      same_worker = (eq_iff _ _).0 w;
      same_grant_fence = (nat_beq_iff _ _).0 p;
      found = f;
      runs = c;
      same_fence = current_fencing_epoch-found run.run_id db run.fencing_epoch row u f g;
    }

-- An envelope that is issued is minted from the present ledger: the grant verifies and names the run and
-- the attempt of the request, the run is in the ledger, running, on the grant's plan and on the grant's
-- fence, and the plan is admitted. Capabilities, effects, the permission digest and the case commands
-- are those that this plan gives the node, and the case commands in the answer are the same.
pub issued_envelope-IsAuthorized :
    (tokens : Tokens) (deps : BrokerDependencies) (token : String) (request : EnvelopeRequest)
    (issued : IssuedEnvelope)
    → issue_execution_envelope tokens deps token request ≡ ok issued
    → (plan : Plan) × (permission : Value) × (epoch : ℕ) × IsAuthorized tokens deps token request
        plan permission epoch
      × (issued.envelope
          ≡ mint_execution_envelope tokens deps.envelope_secret
              (envelope_for request plan permission epoch)
              (some (or_else deps.envelope_ttl_seconds 60)))
      × (issued.case_writes ≡ declared_case_writes plan request.node_id)
issued_envelope-IsAuthorized tokens deps token request issued e =
    let (plan, permission, epoch, checks, minted, writes) =
      issue_execution_envelope-parts tokens deps token request issued e in
    (
      plan,
      permission,
      epoch,
      broker_checks-IsAuthorized tokens deps token request plan permission epoch checks,
      minted,
      writes,
    )

found_same :
    (k : String) (db : Db) (r r' : Run)
    → get_run k none db ≡ some r
    → get_run k none db ≡ some r'
    → r ≡ r'
found_same k db r r' f g = let it : some r ≡ some r' = sym f ∙ g in ap (λ o. or_else o r) it

grant_same :
    (tokens : Tokens) (token secret : String) (g g' : RuntimeGrant)
    → tokens.verify_grant token secret ≡ some g
    → tokens.verify_grant token secret ≡ some g'
    → g ≡ g'
grant_same tokens token secret g g' f e =
    let it : some g ≡ some g' = sym f ∙ e in ap (λ o. or_else o g) it

left_fence :
    (grant : RuntimeGrant) (k : String) (db : Db) (r row : Run) (asked : String)
    → grant.run_id ≡ k
    → get_run k none db ≡ some r
    → get_run asked none db ≡ some row
    → grant.run_id ≡ asked
    → row.fencing_epoch ≡ grant.fencing_epoch
    → grant.fencing_epoch < r.fencing_epoch
    → ⊥
left_fence grant k db r row asked id found found' asks fence stale =
    let same : k ≡ asked = sym id ∙ asks in
    let it =
      found_same asked db r row (subst (λ z. get_run z none db ≡ some r) same found) found' in
    let fence' : r.fencing_epoch ≡ grant.fencing_epoch =
      ap (λ (x : Run). x.fencing_epoch) it ∙ fence in
    omega (arith, fence')

-- A runtime whose grant was issued under a fence that its run has left gets nothing more, whatever
-- happens in the ledger in between: no envelope for any request, and no state write.
pub stale_runtime_refused :
    (h : Hashing) (tokens : Tokens) (k token secret : String) (grant : RuntimeGrant) (s : Db)
    (r : Run) (deps : BrokerDependencies) (request : EnvelopeRequest) (write : FencedRun)
    → IsConsistent s
    → get_run k none s ≡ some r
    → Reach h (λ x. Any) s deps.db
    → tokens.verify_grant token deps.grant_secret ≡ some grant
    → grant.run_id ≡ k
    → grant.fencing_epoch < r.fencing_epoch
    → ((issued : IssuedEnvelope) → issue_execution_envelope tokens deps token request ≢ ok issued)
      × (authorize_state_write tokens deps.db (some token) deps.grant_secret write ≢ ok tt)
stale_runtime_refused h tokens k token secret grant s r deps request write c f reach v id stale =
    let (r', found, same, grows) = runs_persist h k s deps.db r c f reach in
    let u = (Reach-IsConsistent h (λ x. Any) reach c).unique in
    let stale' : grant.fencing_epoch < r'.fencing_epoch = omega (arith, grows.fence) in
    (
      λ issued e.
          let (plan, permission, epoch, a, _, _) =
            issued_envelope-IsAuthorized tokens deps token request issued e in
          let it = grant_same tokens token deps.grant_secret a.grant grant a.verified v in
          left_fence grant k deps.db r' a.run request.run_id id found a.found
            (sym (ap (λ (g : RuntimeGrant). g.run_id) it) ∙ a.same_run)
            (current_fencing_epoch-found request.run_id deps.db epoch a.run u a.found a.fence
              ∙ a.same_fence
              ∙ ap (λ (g : RuntimeGrant). g.fencing_epoch) it)
            stale',
      λ e.
          let a =
            authorized_write-IsCurrent tokens deps.db (some token) deps.grant_secret write u e in
          let same_token = ap (λ o. or_else o token) a.presented in
          let it =
            grant_same tokens token deps.grant_secret a.grant grant
              (subst (λ t. tokens.verify_grant t deps.grant_secret ≡ some a.grant) (sym same_token)
                a.verified)
              v in
          left_fence grant k deps.db r' a.row write.run_id id found a.found
            (sym (ap (λ (g : RuntimeGrant). g.run_id) it) ∙ a.same_run)
            (a.same_fence ∙ sym a.same_grant_fence ∙ ap (λ (g : RuntimeGrant). g.fencing_epoch) it)
            stale',
    )
