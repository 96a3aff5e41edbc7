-- ===== src/Cases/Growth.antt =====
-- packages/case-store/src/index.ts: what one transaction of `createKycCase` or `submitBusinessCommand`
-- does to the cases and to the ledger.
use ehfconcept.Prelude.{
  ◌≡◌, ◌⊎◌, inl, inr, refl, sym, ap, ◌∙◌, subst, true, false, ◌&&◌, ℕ, suc, String, Option, none,
  some, Result, unless-ok, ◌==◌, compare_texts, compare_numbers, or_else,
}
use ehfconcept.Contracts.Value.{Value}
use ehfconcept.Cases.Payload.{Failure, opaque_id}
use ehfconcept.Cases.Tables.{CaseStatus}
use ehfconcept.Cases.Events.{Platform, EventInput, append_case_event, head_digest}
use ehfconcept.Cases.Status.{may_go}
use ehfconcept.Cases.Command.Base.{BusinessCommand, CaseRow}
use ehfconcept.Cases.Db.{CaseDb, find_case, insert_case}
use ehfconcept.Cases.Submit.{Surroundings, event_input, submit_business_command}
use ehfconcept.Cases.Create.{
  CreateKycCaseRequest, Occasion, Created, new_case, creation_event, create_kyc_case,
}
use ehfconcept.Cases.Accepted.{IsAccepted, submit_business_command-outcome}
use ehfconcept.Cases.Opened.{IsOpened, create_kyc_case-outcome}
use ehfconcept.Cases.Rows.{
  insert_event-appends, find_case-advanced, find_case-elsewhere, find_case-new, find_case-apart,
  none-clashes,
}
use ehfconcept.Cases.Lawful.{apply_mutation-IsLawful}

-- The sequence number of a case, and zero where there is no such case.
abbrev pub number_of : Option CaseRow → ℕ
number_of none = 0
number_of (some r) = r.case_sequence

abbrev pub sequence_of : String → String → CaseDb → ℕ
sequence_of t c db = number_of (find_case t c db.cases)

-- What a transaction that changes a case does: one event, under the next number of its case.
pub record Grows (p : Platform) (Allowed : String → Type 0) (db db' : CaseDb) : Type 0 where
  pub input : EventInput
  pub event_id : String
  pub outbox_id : String
  pub occurred : Allowed input.occurred_at
  pub recorded : Allowed input.recorded_at
  pub numbered : input.sequence ≡ suc (sequence_of input.tenant_id input.case_id db)
  pub linked :
      (input.previous_event_digest ≡ head_digest input.tenant_id input.case_id db.ledger.heads)
      ⊎ ((input.previous_event_digest ≡ none) × (sequence_of input.tenant_id input.case_id db ≡ 0))
  pub appended : db'.ledger ≡ append_case_event p event_id outbox_id input db.ledger
  pub own : sequence_of input.tenant_id input.case_id db' ≡ input.sequence
  pub others :
      (t c : String)
      → (input.tenant_id == t && input.case_id == c) ≡ false
      → find_case t c db'.cases ≡ find_case t c db.cases
  pub statuses :
      (r : CaseRow)
      → find_case input.tenant_id input.case_id db.cases ≡ some r
      → (r' : CaseRow) × (find_case input.tenant_id input.case_id db'.cases ≡ some r')
        × ((r'.status ≡ r.status) ⊎ (may_go r.status r'.status ≡ true))

-- A transaction, at times that `Allowed` admits.
pub data Step (p : Platform) (Allowed : String → Type 0) (db db' : CaseDb) : Type 0 where
  created :
      (o : Occasion) (request : CreateKycCaseRequest) (key : String) (r : Result Failure Created)
      → o.platform ≡ p
      → Allowed o.now
      → create_kyc_case o request key db ≡ (db', r)
      → Step p Allowed db db'
  submitted :
      (e : Surroundings) (command : BusinessCommand) (r : Result Failure Value)
      → e.platform ≡ p
      → Allowed e.recorded_at
      → Allowed (or_else command.occurred_at e.recorded_at)
      → submit_business_command e command db ≡ (db', r)
      → Step p Allowed db db'

module _ {p : Platform} {Allowed : String → Type 0} {db db' : CaseDb} where
  opened-Grows :
      (o : Occasion) (request : CreateKycCaseRequest) (case_id key : String) (c : Created)
      → o.platform ≡ p
      → Allowed o.now
      → IsOpened o request case_id key db db' c
      → Grows p Allowed db db'
  unfolding creation_event new_case insert_case
  opened-Grows o request case_id key c platform now opened =
      let (fresh, cases) = unless-ok _ _ _ _ opened.inserted in
      let absent = none-clashes (new_case o request case_id) db.cases fresh in
      record {
        input = creation_event o request case_id key;
        event_id = _;
        outbox_id = _;
        occurred = now;
        recorded = now;
        numbered = ap (λ r. suc (number_of r)) (sym absent);
        linked = inr (refl, ap number_of absent);
        appended =
            subst
              (λ q.
                db'.ledger
                ≡ append_case_event q (opaque_id "evt" o.event_uuid)
                    (opaque_id "outbox" o.outbox_uuid) (creation_event o request case_id key)
                    db.ledger)
              platform (insert_event-appends _ _ _ _ _ _ opened.appended);
        own = ap number_of (
            ap (find_case request.tenant_id case_id) cases
            ∙ find_case-new db.cases (new_case o request case_id) absent);
        others = λ t c apart.
            ap (find_case t c) cases
            ∙ find_case-apart t c db.cases (new_case o request case_id) apart;
        statuses = λ r found. absurd (cc (absent, found));
      }

  accepted-Grows :
      (e : Surroundings) (command : BusinessCommand) (v : Value)
      → e.platform ≡ p
      → Allowed e.recorded_at
      → Allowed (or_else command.occurred_at e.recorded_at)
      → IsAccepted e command db db' v
      → Grows p Allowed db db'
  unfolding event_input
  accepted-Grows e command v platform recorded occurred accepted = record {
    input = event_input e command accepted.current accepted.mutation db.ledger;
    event_id = _;
    outbox_id = _;
    occurred = occurred;
    recorded = recorded;
    numbered = ap (λ r. suc (number_of r)) (sym accepted.found);
    linked = inl refl;
    appended =
        subst
          (λ q.
            db'.ledger
            ≡ append_case_event q (opaque_id "evt" e.event_uuid) (opaque_id "outbox" e.outbox_uuid)
                (event_input e command accepted.current accepted.mutation db.ledger) db.ledger)
          platform (insert_event-appends _ _ _ _ _ _ accepted.appended);
    own = ap number_of (
        ap (find_case command.tenant_id command.case_id) accepted.advanced
        ∙ find_case-advanced _ _ _ _ _ db.cases accepted.current accepted.found);
    others = λ t c apart.
        ap (find_case t c) accepted.advanced ∙ find_case-elsewhere t c _ _ _ _ _ db.cases apart;
    statuses = λ r found. (
      _,
      ap (find_case command.tenant_id command.case_id) accepted.advanced
          ∙ find_case-advanced _ _ _ _ _ db.cases r found,
      moved r found accepted.mutation.next_status refl,
    );
  }
    where
      moved :
          (r : CaseRow)
          → find_case command.tenant_id command.case_id db.cases ≡ some r
          → (next : Option CaseStatus) → next ≡ accepted.mutation.next_status
          → (or_else next r.status ≡ r.status) ⊎ (may_go r.status (or_else next r.status) ≡ true)
      moved r found none n = inl refl
      moved r found (some s) n =
          let same : accepted.current ≡ r = ap (λ o. or_else o r) (sym accepted.found ∙ found) in
          inr (
            subst (λ x. may_go x.status s ≡ true) same
              (apply_mutation-IsLawful _ _ _ _ _ _ accepted.applied s (sym n)).0)

  -- A transaction changes nothing of the database, or it adds one event, under the next number of its case
  -- and under the head of its case, gives this number to the case, and leaves every other case as it was.
  pub Step-Grows : Step p Allowed db db' → (db' ≡ db) ⊎ Grows p Allowed db db'
  Step-Grows (created o request key r platform now done) =
      elim (create_kyc_case-outcome o request key db db' r done) [
        | inl (c, answer, inl repeated) ↦ inl repeated.unchanged
        | inl (c, answer, inr opened) ↦ inr (opened-Grows o request _ key c platform now opened)
        | inr (f, failed, kept) ↦ inl kept
      ]
  Step-Grows (submitted e command r platform recorded occurred done) =
      elim (submit_business_command-outcome e command db db' r done) [
        | inl (v, answer, inl replayed) ↦ inl replayed.unchanged
        | inl (v, answer, inr accepted) ↦
            inr (accepted-Grows e command v platform recorded occurred accepted)
        | inr (f, failed, kept) ↦ inl kept
      ]
