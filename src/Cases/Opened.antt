-- ===== src/Cases/Opened.antt =====
-- packages/case-store/src/index.ts: what `createKycCase` has done when it succeeds.
use ehfconcept.Prelude.{
  ◌≡◌, ◌⊎◌, inl, inr, refl, sym, ap, ◌∙◌, true, false, String, some, Result, ok, err, ok-inj, ◌==◌,
  compare_texts, eq_iff, ◌>>◌, Bool-cases, Option-cases, forbid, Yields, Yields-ok,
  Yields-bind_with,
}
use ehfconcept.Contracts.Canonical.{stable_digest}
use ehfconcept.Contracts.Read.{property}
use ehfconcept.Contracts.Value.{string}
use ehfconcept.Cases.Payload.{Failure, case_error, database_error, opaque_id}
use ehfconcept.Cases.Db.{
  Receipt, CaseDb, find_case, insert_case, insert_event, find_receipt, write_receipt, on_error,
  as_conflict,
}
use ehfconcept.Cases.Create.{
  CreateKycCaseRequest, Occasion, Created, request_value, case_id_for, new_case, creation_event,
  creation_receipt, create_case, create, create_kyc_case,
}
use ehfconcept.Cases.Accepted.{on_error-ok, committed-cases}

-- A case that was created: it stands with its event and its receipt in the database.
pub record IsOpened (o : Occasion) (request : CreateKycCaseRequest) (case_id key : String)
    (db db' : CaseDb) (c : Created) : Type 0 where
  pub inserted : insert_case (new_case o request case_id) db.cases ≡ ok db'.cases
  pub appended :
      insert_event o.platform
        (opaque_id "evt" o.event_uuid)
        (opaque_id "outbox" o.outbox_uuid)
        (creation_event o request case_id key)
        db.ledger
      ≡ ok db'.ledger
  pub receipted :
      write_receipt (creation_receipt o request case_id key) db.receipts ≡ ok db'.receipts
  pub kept : db'.tables ≡ db.tables
  pub answered : c ≡ record {
    created = true;
    kyc_case = new_case o request case_id;
    event_id = string (opaque_id "evt" o.event_uuid);
  }

-- A creation whose key has a receipt for the same request.
pub record IsRepeated (o : Occasion) (request : CreateKycCaseRequest) (case_id key : String)
    (db db' : CaseDb) (c : Created) : Type 0 where
  pub prior : Receipt
  pub recorded : find_receipt request.tenant_id case_id key db.receipts ≡ some prior
  pub same_request : prior.request_digest ≡ stable_digest o.platform.hashing (request_value request)
  pub found : find_case request.tenant_id case_id db.cases ≡ some c.kyc_case
  pub unchanged : db' ≡ db
  pub answered : (c.created ≡ false) × (c.event_id ≡ property "eventId" prior.response)

module _ (o : Occasion) (request : CreateKycCaseRequest) (key : String) (db : CaseDb) where
  create_case-IsOpened :
      (case_id : String)
      → Yields
          (λ r. IsOpened o request case_id key db r.0 r.1)
          (create_case o request case_id key db)
  unfolding create_case
  create_case-IsOpened case_id =
      Yields-bind_with _ (insert_case (new_case o request case_id) db.cases) _ (λ cases i.
        Yields-bind_with _
          (insert_event o.platform (opaque_id "evt" o.event_uuid) (opaque_id "outbox" o.outbox_uuid)
            (creation_event o request case_id key) db.ledger)
          _
          (λ ledger a.
            Yields-bind_with _ (write_receipt (creation_receipt o request case_id key) db.receipts)
              _
              (λ receipts w. record {
                inserted = i;
                appended = a;
                receipted = w;
                kept = refl;
                answered = refl;
              })))

  create-outcome :
      (db' : CaseDb) (c : Created)
      → create o request key db ≡ ok (db', c)
      → IsRepeated o request (case_id_for o.platform.hashing request.tenant_id key) key db db' c
        ⊎ IsOpened o request (case_id_for o.platform.hashing request.tenant_id key) key db db' c
  unfolding create
  create-outcome db' c h =
      elim (Option-cases (
        find_receipt request.tenant_id (case_id_for o.platform.hashing request.tenant_id key) key
          db.receipts)) [
            | inl new ↦ inr (
                Yields-ok _ _ (db', c)
                  (create_case-IsOpened (case_id_for o.platform.hashing request.tenant_id key))
                  (rw (new, create) at h))
            | inr (prior, recorded) ↦
                elim (Bool-cases (
                  prior.request_digest
                  == stable_digest o.platform.hashing (request_value request))) [
                    | inr other ↦
                        let no : err (case_error "case.idempotency_conflict" 409) ≡ ok (db', c) =
                          rw (recorded, other, create) at h in
                        absurd (cc no)
                    | inl same ↦
                        elim (Option-cases (
                          find_case request.tenant_id
                            (case_id_for o.platform.hashing request.tenant_id key) db.cases)) [
                              | inl missing ↦
                                  let no : err database_error ≡ ok (db', c) =
                                    rw (recorded, same, missing, create) at h in
                                  absurd (cc no)
                              | inr (row, found) ↦
                                  let done : ok (
                                    db,
                                    record {
                                      created = false;
                                      kyc_case = row;
                                      event_id = property "eventId" prior.response;
                                    },
                                  )
                                      ≡ ok (db', c) =
                                    rw (recorded, same, found, create) at h in
                                  let pair =
                                    ok-inj
                                      (ok (
                                        db,
                                        record {
                                          created = false;
                                          kyc_case = row;
                                          event_id = property "eventId" prior.response;
                                        },
                                      ))
                                      _ (db', c) refl done in
                                  inl (record {
                                    prior = prior;
                                    recorded = recorded;
                                    same_request = (eq_iff _ _).0 same;
                                    found = found ∙ ap (λ p. some p.1.kyc_case) pair;
                                    unchanged = sym (ap (λ p. p.0) pair);
                                    answered = (
                                      sym (ap (λ p. p.1.created) pair),
                                      sym (ap (λ p. p.1.event_id) pair),
                                    );
                                  })
                            ]
                  ]
          ]

  -- A creation that succeeds either repeats a request on record, changes nothing and gives back the case
  -- that stands under the identifier of its key, or it is carried out: no case has that identifier or
  -- that external reference yet, and the case stands afterwards with its first event and its receipt. A
  -- creation that fails changes nothing.
  pub create_kyc_case-outcome :
      (db' : CaseDb) (r : Result Failure Created)
      → create_kyc_case o request key db ≡ (db', r)
      → ((c : Created) × (r ≡ ok c)
          × (IsRepeated o request
                (case_id_for o.platform.hashing request.tenant_id key)
                key
                db
                db'
                c
              ⊎ IsOpened o request
                  (case_id_for o.platform.hashing request.tenant_id key)
                  key
                  db
                  db'
                  c))
        ⊎ ((f : Failure) × (r ≡ err f) × (db' ≡ db))
  unfolding create_kyc_case
  create_kyc_case-outcome db' r h =
      elim (committed-cases db
        (on_error (as_conflict "case.conflict") (
          forbid (key == "") (case_error "case.idempotency_key_required" 400)
          >> create o request key db))
        db' r h) [
          | inl (c, answer, done) ↦
              inl (c, answer, create-outcome db' c (keyed (on_error-ok _ _ _ done)))
          | inr kept ↦ inr kept
        ]
    where
      keyed :
          {c : Created}
          → (forbid (key == "") (case_error "case.idempotency_key_required" 400)
              >> create o request key db)
            ≡ ok (db', c)
          → create o request key db ≡ ok (db', c)
      keyed {c} g = elim (Bool-cases (key == "")) [
        | inl empty ↦
            let no : err (case_error "case.idempotency_key_required" 400) ≡ ok (db', c) =
              rw empty at g in
            absurd (cc no)
        | inr given ↦ rw given at g
      ]
