-- ===== src/Cases/Repeats.antt =====
-- packages/case-store/src/index.ts, `submitBusinessCommand`: a command that comes again, and two commands
-- that expect the same sequence number.
use ehfconcept.Prelude.{
  ◌≡◌, ◌≤◌, refl, sym, ap, ◌∙◌, true, false, ◌&&◌, ℕ, suc, String, List, [], ◌∷◌, ◌++◌, none, some,
  ok, err, unless-ok, ◌==◌, compare_texts, compare_numbers, eq_iff, arith,
}
use ehfconcept.Contracts.Value.{Value}
use ehfconcept.Cases.Payload.{case_error}
use ehfconcept.Cases.Command.Base.{BusinessCommand, CaseRow}
use ehfconcept.Cases.Db.{
  Receipt, CaseDb, find_case, is_keyed, find_receipt, write_receipt, committed, on_error,
  as_conflict,
}
use ehfconcept.Cases.Submit.{
  Surroundings, command_digest, as_replay, admit_command, receipt_of, accept_command, submit,
  submit_business_command,
}
use ehfconcept.Cases.Rows.{find_case-advanced}
use ehfconcept.Cases.Accepted.{IsAccepted}
use ehfconcept.Cases.History.{Served}
use ehfconcept.Cases.Later.{Served-receipt, Served-number}

find_receipt-new :
    (t c k : String) (rs : List Receipt) (r : Receipt)
    → find_receipt t c k rs ≡ none
    → is_keyed t c k r ≡ true
    → find_receipt t c k (rs ++ r ∷ []) ≡ some r
unfolding find_receipt
find_receipt-new t c k [] r h y = ground arith
find_receipt-new t c k (x ∷ xs) r h y = ground (arith, find_receipt-new t c k xs r)

module _ {e : Surroundings} {command : BusinessCommand} {db db' : CaseDb} {v : Value} where
  accepted-found :
      IsAccepted e command db db' v
      → (r : CaseRow) × (find_case command.tenant_id command.case_id db'.cases ≡ some r)
        × (r.case_sequence ≡ suc command.case_sequence)
  accepted-found a = (
    _,
    ap (find_case command.tenant_id command.case_id) a.advanced
        ∙ find_case-advanced _ _ _ _ _ db.cases a.current a.found,
    ap suc (sym a.expected),
  )

  accepted-recorded :
      IsAccepted e command db db' v
      → (r : Receipt) × (find_receipt command.tenant_id command.case_id command.idempotency_key
            db'.receipts
          ≡ some r)
        × (r.request_digest ≡ command_digest e.platform command)
        × (r.response ≡ v)
  unfolding receipt_of write_receipt
  accepted-recorded a = (
    receipt_of e command a.current a.mutation db.ledger,
    ap (find_receipt command.tenant_id command.case_id command.idempotency_key)
          (unless-ok _ _ _ _ a.receipted).1
        ∙ find_receipt-new _ _ _ db.receipts (receipt_of e command a.current a.mutation db.ledger)
            a.first keyed,
    refl,
    sym a.answered,
  )
    where
      keyed :
          (command.tenant_id == command.tenant_id
            && command.case_id == command.case_id
            && command.idempotency_key == command.idempotency_key)
          ≡ true
      keyed = ground (
        arith,
        eq_iff command.tenant_id command.tenant_id,
        eq_iff command.case_id command.case_id,
        eq_iff command.idempotency_key command.idempotency_key,
      )

  -- A command that was accepted and comes again, whatever cases were created and commands submitted since,
  -- and whatever happens to be the time and whatever identifiers are drawn, changes nothing and is
  -- answered as the first time, with the mark of a replay.
  pub accepted_command_replays :
      {Allowed : String → Type 0} (again : Surroundings) (now : CaseDb)
      → again.platform ≡ e.platform
      → IsAccepted e command db db' v
      → Served e.platform Allowed db' now
      → submit_business_command again command now ≡ (now, ok (as_replay v))
  unfolding submit_business_command submit committed on_error
  accepted_command_replays again now platform a since =
      let (row, found, n) = accepted-found a in
      let (r, recorded, digest, response) = accepted-recorded a in
      let (row', found', m) = Served-number command.tenant_id command.case_id row since found in
      let recorded' =
        Served-receipt command.tenant_id command.case_id command.idempotency_key r since recorded in
      let same : (r.request_digest == command_digest again.platform command) ≡ true =
        (eq_iff _ _).1 (digest ∙ ap (λ p. command_digest p command) (sym platform)) in
      let done : submit again command now ≡ ok (now, as_replay r.response) =
        rw (found', recorded', same, submit) refl in
      ap (λ o. committed now (on_error (as_conflict "command.conflict") o)) done
      ∙ ap (λ x. (now, ok (as_replay x))) response

  -- Of two commands on a case that expect the same sequence number, at most one is accepted: once the first
  -- is, the second, whenever it comes and whatever cases were created and commands submitted in between,
  -- is refused with `command.case_sequence_conflict`, status 409, and changes nothing, provided that its
  -- key has no receipt then.
  pub expected_sequence_serves_once :
      {Allowed : String → Type 0} (again : Surroundings) (second : BusinessCommand) (now : CaseDb)
      → IsAccepted e command db db' v
      → Served e.platform Allowed db' now
      → second.tenant_id ≡ command.tenant_id
      → second.case_id ≡ command.case_id
      → second.case_sequence ≡ command.case_sequence
      → find_receipt second.tenant_id second.case_id second.idempotency_key now.receipts ≡ none
      → submit_business_command again second now
        ≡ (now, err (case_error "command.case_sequence_conflict" 409))
  unfolding submit_business_command submit committed on_error accept_command admit_command
      as_conflict
  expected_sequence_serves_once again second now a since st sc sn new =
      let (row, found, n) = accepted-found a in
      let (row', later, m) = Served-number command.tenant_id command.case_id row since found in
      let found' : find_case second.tenant_id second.case_id now.cases ≡ some row' =
        ap (λ t. find_case t second.case_id now.cases) st
        ∙ ap (λ c. find_case command.tenant_id c now.cases) sc
        ∙ later in
      let stale : (second.case_sequence == row'.case_sequence) ≡ false =
        passed_number _ _ _ sn n m in
      let done : submit again second now ≡ err (case_error "command.case_sequence_conflict" 409) =
        rw (found', new, stale, submit, accept_command, admit_command) refl in
      ap (λ o. committed now (on_error (as_conflict "command.conflict") o)) done
    where
      passed_number :
          (a b c : ℕ)
          → a ≡ command.case_sequence
          → b ≡ suc command.case_sequence
          → b ≤ c
          → (a == c) ≡ false
      passed_number a b c h i j = ground (arith, h, i, j)
