-- ===== src/Cases/Accepted.antt =====
-- packages/case-store/src/index.ts: what `submitBusinessCommand` has done when it succeeds.
use ehfconcept.Prelude.{
  ◌≡◌, ◌⊎◌, inl, inr, refl, sym, ap, ◌∙◌, true, suc, String, none, some, Result, ok, err, ok-inj,
  if◌then◌else◌, ◌==◌, compare_texts, compare_numbers, eq_iff, Bool-cases, Option-cases,
  update_rows, Yields, Yields-ok, Yields-bind_with, Yields-require, Yields-last, Yields-weaken,
  nat_beq_iff,
}
use ehfconcept.Contracts.Value.{Value}
use ehfconcept.Cases.Payload.{Failure, case_error, normalize_digest, opaque_id}
use ehfconcept.Cases.Tables.{Tables}
use ehfconcept.Cases.Command.Base.{BusinessCommand, CaseRow, MutationResult}
use ehfconcept.Cases.Command.Apply.{apply_mutation}
use ehfconcept.Cases.Db.{
  Receipt, CaseDb, find_case, advance_row, insert_event, find_receipt, write_receipt, committed,
  as_conflict, on_error,
}
use ehfconcept.Cases.Submit.{
  Surroundings, call_of, command_digest, as_replay, as_invalid_payload, admit_command, event_input,
  response_of, receipt_of, record_command, accept_command, submit, submit_business_command,
}

-- A command that was accepted: its case, its mutation, and what stands in the database afterwards.
pub record IsAccepted (e : Surroundings) (command : BusinessCommand) (db db' : CaseDb)
    (response : Value) : Type 0 where
  pub current : CaseRow
  pub found : find_case command.tenant_id command.case_id db.cases ≡ some current
  pub first :
      find_receipt command.tenant_id command.case_id command.idempotency_key db.receipts ≡ none
  pub expected : command.case_sequence ≡ current.case_sequence
  pub same_plan :
      normalize_digest command.authority.plan_digest ≡ normalize_digest current.harness_plan_digest
  pub same_policy :
      normalize_digest command.authority.policy_snapshot_digest
      ≡ normalize_digest current.policy_snapshot_digest
  pub mutation : MutationResult
  pub applied : apply_mutation (call_of e) command current db.tables ≡ ok (db'.tables, mutation)
  pub appended :
      insert_event e.platform
        (opaque_id "evt" e.event_uuid)
        (opaque_id "outbox" e.outbox_uuid)
        (event_input e command current mutation db.ledger)
        db.ledger
      ≡ ok db'.ledger
  pub advanced :
      db'.cases
      ≡ update_rows
          (advance_row command.tenant_id command.case_id
            (suc current.case_sequence)
            mutation.next_status
            e.recorded_at)
          db.cases
  pub receipted :
      write_receipt (receipt_of e command current mutation db.ledger) db.receipts ≡ ok db'.receipts
  pub answered : response ≡ response_of e command current mutation db.ledger

-- A command whose key has a receipt for the same request.
pub record IsReplayed (e : Surroundings) (command : BusinessCommand) (db db' : CaseDb)
    (response : Value) : Type 0 where
  pub prior : Receipt
  pub recorded :
      find_receipt command.tenant_id command.case_id command.idempotency_key db.receipts
      ≡ some prior
  pub same_request : prior.request_digest ≡ command_digest e.platform command
  pub unchanged : db' ≡ db
  pub answered : response ≡ as_replay prior.response

pub on_error-ok :
    {A : Type 0} (f : Failure → Failure) (r : Result Failure A) (a : A)
    → on_error f r ≡ ok a
    → r ≡ ok a
unfolding on_error
on_error-ok f (ok b) a h = h
on_error-ok f (err x) a h = absurd (cc h)

pub committed-cases :
    {A : Type 0} (db : CaseDb) (r : Result Failure (CaseDb × A)) (db' : CaseDb)
    (o : Result Failure A)
    → committed db r ≡ (db', o)
    → ((v : A) × (o ≡ ok v) × (r ≡ ok (db', v))) ⊎ ((f : Failure) × (o ≡ err f) × (db' ≡ db))
unfolding committed
committed-cases db (ok (d, v)) db' o h = inl (v, sym (ap (λ p. p.1) h), ap (λ p. ok (p.0, v)) h)
committed-cases db (err f) db' o h = inr (f, sym (ap (λ p. p.1) h), sym (ap (λ p. p.0) h))

module _ (e : Surroundings) (command : BusinessCommand) (db : CaseDb) where
  abbrev Recorded : CaseRow → Tables → MutationResult → CaseDb × Value → Type 0
  Recorded current tables mutation r =
      (r.0.tables ≡ tables)
      × (insert_event e.platform (opaque_id "evt" e.event_uuid) (opaque_id "outbox" e.outbox_uuid)
            (event_input e command current mutation db.ledger) db.ledger
          ≡ ok r.0.ledger)
      × (r.0.cases
          ≡ update_rows
              (advance_row command.tenant_id command.case_id (suc current.case_sequence)
                mutation.next_status e.recorded_at)
              db.cases)
      × (write_receipt (receipt_of e command current mutation db.ledger) db.receipts
          ≡ ok r.0.receipts)
      × (r.1 ≡ response_of e command current mutation db.ledger)

  record_command-Recorded :
      (current : CaseRow) (tables : Tables) (mutation : MutationResult)
      → Yields
          (Recorded current tables mutation)
          (record_command e command current tables mutation db)
  unfolding record_command
  record_command-Recorded current tables mutation = search (Yields-bind_with) depth 15

  abbrev Admitted : CaseRow → Unit {0} → Type 0
  Admitted current u =
      (command.case_sequence ≡ current.case_sequence)
      × (normalize_digest command.authority.plan_digest
          ≡ normalize_digest current.harness_plan_digest)
      × (normalize_digest command.authority.policy_snapshot_digest
          ≡ normalize_digest current.policy_snapshot_digest)

  admit_command-Admitted :
      (current : CaseRow) → Yields (Admitted current) (admit_command command current)
  unfolding admit_command
  admit_command-Admitted current =
      search
        (
          Yields-require,
          Yields-last,
          (λ (n : (command.case_sequence == current.case_sequence) ≡ true). (nat_beq_iff _ _).0 n),
          (λ (a b : String) (t : (a == b) ≡ true). (eq_iff a b).0 t),
        )
        depth 12

  accept_command-IsAccepted :
      (current : CaseRow) (db' : CaseDb) (v : Value)
      → find_case command.tenant_id command.case_id db.cases ≡ some current
      → find_receipt command.tenant_id command.case_id command.idempotency_key db.receipts ≡ none
      → accept_command e command current db ≡ ok (db', v)
      → IsAccepted e command db db' v
  unfolding accept_command
  accept_command-IsAccepted current db' v found first h =
      Yields-ok (λ r. IsAccepted e command db r.0 r.1) _ (db', v)
        (Yields-bind_with (λ r. IsAccepted e command db r.0 r.1) (admit_command command current) _
          (λ u admitted.
            Yields-bind_with (λ r. IsAccepted e command db r.0 r.1)
              (on_error as_invalid_payload (apply_mutation (call_of e) command current db.tables)) _
              (λ applied done.
                Yields-weaken (Recorded current applied.0 applied.1)
                  (λ r. IsAccepted e command db r.0 r.1) _
                  (λ r kept.
                    let (n, plan, policy) =
                      Yields-ok (Admitted current) _ u (admit_command-Admitted current) admitted in
                    record {
                      current = current;
                      found = found;
                      first = first;
                      expected = n;
                      same_plan = plan;
                      same_policy = policy;
                      mutation = applied.1;
                      applied =
                          on_error-ok as_invalid_payload _ _ done
                          ∙ ap (λ t. ok (t, applied.1)) (sym kept.0);
                      appended = kept.1;
                      advanced = kept.2;
                      receipted = kept.3;
                      answered = kept.4;
                    })
                  (record_command-Recorded current applied.0 applied.1))))
        h

  submit-outcome :
      (db' : CaseDb) (v : Value)
      → submit e command db ≡ ok (db', v)
      → IsReplayed e command db db' v ⊎ IsAccepted e command db db' v
  unfolding submit
  submit-outcome db' v h =
      elim (Option-cases (find_case command.tenant_id command.case_id db.cases)) [
        | inl n ↦
            let no : err (case_error "case.not_found" 404) ≡ ok (db', v) = rw (n, submit) at h in
            absurd (cc no)
        | inr (current, found) ↦
            elim (Option-cases (
              find_receipt command.tenant_id command.case_id command.idempotency_key db.receipts)) [
                | inl first ↦ inr (
                    accept_command-IsAccepted current db' v found first
                      (rw (found, first, submit) at h))
                | inr (prior, recorded) ↦
                    inl (replayed prior recorded (rw (found, recorded, submit) at h))
              ]
      ]
    where
      replayed :
          (prior : Receipt)
          → find_receipt command.tenant_id command.case_id command.idempotency_key db.receipts
            ≡ some prior
          → if◌then◌else◌ {A = Result Failure (CaseDb × Value)}
              (prior.request_digest == command_digest e.platform command)
              (ok (db, as_replay prior.response))
              (err (case_error "command.idempotency_conflict" 409))
            ≡ ok (db', v)
          → IsReplayed e command db db' v
      replayed prior recorded s =
          elim (Bool-cases (prior.request_digest == command_digest e.platform command)) [
            | inl same ↦
                let r : ok (db, as_replay prior.response) ≡ ok (db', v) = rw same at s in
                let pair = ok-inj (ok (db, as_replay prior.response)) _ (db', v) refl r in
                record {
                  prior = prior;
                  recorded = recorded;
                  same_request = (eq_iff _ _).0 same;
                  unchanged = sym (ap (λ p. p.0) pair);
                  answered = sym (ap (λ p. p.1) pair);
                }
            | inr other ↦
                let no : err (case_error "command.idempotency_conflict" 409) ≡ ok (db', v) =
                  rw other at s in
                absurd (cc no)
          ]

  -- A submission that answers without an error either repeats a request on record, and then changes
  -- nothing, or is accepted: its case is there, its key is new, it expects the sequence number of the case
  -- and has its plan and its policy, and its mutation, its event under the next number and the new
  -- state of the case are what the database has afterwards. A submission that fails changes nothing.
  pub submit_business_command-outcome :
      (db' : CaseDb) (r : Result Failure Value)
      → submit_business_command e command db ≡ (db', r)
      → ((v : Value) × (r ≡ ok v) × (IsReplayed e command db db' v ⊎ IsAccepted e command db db' v))
        ⊎ ((f : Failure) × (r ≡ err f) × (db' ≡ db))
  unfolding submit_business_command
  submit_business_command-outcome db' r h =
      elim (committed-cases db (on_error (as_conflict "command.conflict") (submit e command db)) db'
        r h) [
          | inl (v, answer, done) ↦ inl (v, answer, submit-outcome db' v (on_error-ok _ _ _ done))
          | inr kept ↦ inr kept
        ]
