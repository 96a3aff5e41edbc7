-- ===== src/Cases/Registered.antt =====
-- packages/case-store/src/index.ts: a registration of evidence that comes again.
use ehfconcept.Prelude.{
  ◌≡◌, refl, sym, ap, ◌∙◌, true, false, ◌&&◌, ℕ, String, List, [], ◌∷◌, ◌++◌, Option, none, some,
  Result, ok, err, ◌==◌, compare_texts, eq_iff, arith, Bool, Yields, Yields-ok, Yields-bind_with,
  Yields-require, Yields-forbid, Yields-weaken, if◌then◌else◌,
}
use ehfconcept.Contracts.Canonical.{stable_digest}
use ehfconcept.Contracts.Read.{property}
use ehfconcept.Prelude.{◌⊎◌, inl, inr}
use ehfconcept.Cases.Db.{CaseDb}
use ehfconcept.Cases.Payload.{Failure, case_error}
use ehfconcept.Cases.Register.{
  RegisterEvidenceRequest, RegistrationReceipt, EvidenceDb, Vault, Registered, request_value,
  check_content, find_registration, new_evidence, evidence_value, registration_receipt,
  register_new, register, register_evidence,
}

find_registration-new :
    (t k : String) (rs : List RegistrationReceipt) (r : RegistrationReceipt)
    → find_registration t k rs ≡ none
    → (r.tenant_id == t && r.idempotency_key == k) ≡ true
    → find_registration t k (rs ++ r ∷ []) ≡ some r
unfolding find_registration
find_registration-new t k [] r h y = ground arith
find_registration-new t k (x ∷ xs) r h y = ground (arith, find_registration-new t k xs r)

find_registration-more :
    (t k : String) (rs : List RegistrationReceipt) (x r : RegistrationReceipt)
    → find_registration t k rs ≡ some r
    → find_registration t k (rs ++ x ∷ []) ≡ some r
unfolding find_registration
find_registration-more t k [] x r h = absurd (cc h)
find_registration-more t k (y ∷ rs) x r h = ground (arith, find_registration-more t k rs x r)

module _ (v : Vault) (request : RegisterEvidenceRequest) (key : String) where
  abbrev is_same : RegistrationReceipt → Bool
  is_same r = r.request_digest == stable_digest v.platform.hashing (request_value request)

  -- The receipt of the request stands in the database and has the evidence that is answered.
  record IsRegistered (db' : EvidenceDb) (r : Registered) : Type 0 where
    receipt : RegistrationReceipt
    found : find_registration request.tenant_id key db'.receipts ≡ some receipt
    same : is_same receipt ≡ true
    answered : property "evidence" receipt.response ≡ r.evidence

  abbrev Recorded : String → EvidenceDb → EvidenceDb × Registered → Type 0
  Recorded digest db p =
      (p.0.receipts ≡ db.receipts ++ registration_receipt v request key digest ∷ [])
      × (p.1.evidence ≡ evidence_value request (new_evidence v request digest))

  register_new-Recorded :
      (content : List ℕ) (digest : String) (db : EvidenceDb)
      → Yields (Recorded digest db) (register_new v request key content digest db)
  unfolding register_new
  register_new-Recorded content digest db = search (Yields-require, Yields-bind_with) depth 12

  Recorded-IsRegistered :
      (digest : String) (db db' : EvidenceDb) (r : Registered)
      → find_registration request.tenant_id key db.receipts ≡ none
      → Recorded digest db (db', r)
      → IsRegistered db' r
  unfolding registration_receipt property
  Recorded-IsRegistered digest db db' r new recorded = record {
    receipt = registration_receipt v request key digest;
    found =
        ap (find_registration request.tenant_id key) recorded.0
        ∙ find_registration-new _ _ db.receipts _ new keyed;
    same = (eq_iff _ _).1 refl;
    answered = sym recorded.1;
  }
    where
      keyed : (request.tenant_id == request.tenant_id && key == key) ≡ true
      keyed = ground (arith, eq_iff request.tenant_id request.tenant_id, eq_iff key key)

  abbrev IsAnswered : EvidenceDb × Registered → Type 0
  IsAnswered p =
      IsRegistered p.0 p.1
      × ((key == "") ≡ false)
      × ((c : List ℕ × String) × (check_content v request ≡ ok c))

  register-IsRegistered : (db : EvidenceDb) → Yields IsAnswered (register v request key db)
  unfolding register
  register-IsRegistered db = Yields-forbid _ (key == "") _ _ (λ named.
      Yields-bind_with _ (check_content v request) _ (λ c content.
        Yields-weaken (λ p. IsRegistered p.0 p.1) _ _ (λ p i. (i, named, (c, content)))
          (answered c (find_registration request.tenant_id key db.receipts) refl)))
    where
      stored :
          (prior : RegistrationReceipt) (b : Bool)
          → find_registration request.tenant_id key db.receipts ≡ some prior
          → is_same prior ≡ b
          → Yields
              (λ (p : EvidenceDb × Registered). IsRegistered p.0 p.1)
              (if b
                then ok
                    (db, record { created = false; evidence = property "evidence" prior.response })
                else err (case_error "evidence.idempotency_conflict" 409))
      stored prior true found same = record {
        receipt = prior;
        found = found;
        same = same;
        answered = refl;
      }
      stored prior false found same = tt

      answered :
          (c : List ℕ × String) (o : Option RegistrationReceipt)
          → find_registration request.tenant_id key db.receipts ≡ o
          → Yields
              (λ (p : EvidenceDb × Registered). IsRegistered p.0 p.1)
              (elim o [
                | none ↦ register_new v request key c.0 c.1 db
                | some prior ↦
                    if is_same prior
                    then ok (
                      db,
                      record { created = false; evidence = property "evidence" prior.response },
                    )
                    else err (case_error "evidence.idempotency_conflict" 409)
              ])
      answered c none new =
          Yields-weaken (Recorded c.1 db) _ _
            (λ p recorded. Recorded-IsRegistered c.1 db p.0 p.1 new recorded)
            (register_new-Recorded c.0 c.1 db)
      answered c (some prior) found = stored prior (is_same prior) found refl

  abbrev Keeps : EvidenceDb → EvidenceDb × Registered → Type 0
  Keeps db p =
      (p.0.receipts ≡ db.receipts)
      ⊎ ((x : RegistrationReceipt) × (p.0.receipts ≡ db.receipts ++ x ∷ []))

  register-Keeps : (db : EvidenceDb) → Yields (Keeps db) (register v request key db)
  unfolding register
  register-Keeps db = Yields-forbid _ (key == "") _ _ (λ named.
      Yields-bind_with _ (check_content v request) _
        (λ c content. answered c (find_registration request.tenant_id key db.receipts)))
    where
      stored :
          (prior : RegistrationReceipt) (b : Bool)
          → Yields (Keeps db) (
              if b
              then ok
                  (db, record { created = false; evidence = property "evidence" prior.response })
              else err (case_error "evidence.idempotency_conflict" 409))
      stored prior true = inl refl
      stored prior false = tt

      answered :
          (c : List ℕ × String) (o : Option RegistrationReceipt)
          → Yields (Keeps db) (elim o [
            | none ↦ register_new v request key c.0 c.1 db
            | some prior ↦
                if is_same prior
                then ok
                    (db, record { created = false; evidence = property "evidence" prior.response })
                else err (case_error "evidence.idempotency_conflict" 409)
          ])
      answered c none =
          Yields-weaken (Recorded c.1 db) _ _ (λ p recorded. inr (_, recorded.0))
            (register_new-Recorded c.0 c.1 db)
      answered c (some prior) = stored prior (is_same prior)

  register_evidence-receipt :
      (t k : String) (db : EvidenceDb) (x : RegistrationReceipt)
      → find_registration t k db.receipts ≡ some x
      → find_registration t k (register_evidence v request key db).0.receipts ≡ some x
  unfolding register_evidence
  register_evidence-receipt t k db x h = whatever (register v request key db) (register-Keeps db)
    where
      whatever :
          (o : Result Failure (EvidenceDb × Registered))
          → Yields (Keeps db) o
          → find_registration t k
              (elim o as (λ _. EvidenceDb × Result Failure Registered) [
                | ok (d, y) ↦ (d, ok y)
                | err e ↦ (db, err e)
              ]).0.receipts
            ≡ some x
      whatever (ok (d, y)) (inl same) = ap (find_registration t k) same ∙ h
      whatever (ok (d, y)) (inr (z, more)) =
          ap (find_registration t k) more ∙ find_registration-more t k db.receipts z x h
      whatever (err e) u = h

-- Registrations, and anything that others do to cases, one after another.
pub data Registering (db : EvidenceDb) : EvidenceDb → Type 0 where
  here : Registering db db
  registration :
      {now : EvidenceDb}
      → Registering db now
      → (v : Vault) (request : RegisterEvidenceRequest) (key : String)
      → Registering db (register_evidence v request key now).0
  on_cases :
      {now : EvidenceDb}
      → Registering db now
      → (cases : CaseDb) → Registering db (record now { case_db = cases })

Registering-receipt :
    (t k : String) {db now : EvidenceDb} (x : RegistrationReceipt)
    → Registering db now
    → find_registration t k db.receipts ≡ some x
    → find_registration t k now.receipts ≡ some x
Registering-receipt t k x here h = h
Registering-receipt t k x (registration {now} before v request key) h =
    register_evidence-receipt v request key t k now x (Registering-receipt t k x before h)
Registering-receipt t k x (on_cases before cases) h = Registering-receipt t k x before h

module _ (v : Vault) (request : RegisterEvidenceRequest) (key : String) where
  module _ (now evidence_uuid outbox_uuid : String) where
    abbrev later : Vault
    later = record v { now = now; evidence_uuid = evidence_uuid; outbox_uuid = outbox_uuid }

    -- A request that passes its checks and has a receipt is answered from it.
    register-again :
        (checked : List ℕ × String) (db : EvidenceDb) (r : Registered)
        → (key == "") ≡ false
        → check_content later request ≡ ok checked
        → IsRegistered v request key db r
        → register later request key db ≡ ok (db, record { created = false; evidence = r.evidence })
    unfolding register
    register-again checked db r named content i =
        rw (named, content, i.found, i.same, i.answered, register) refl

    registered-ok :
        (db db' : EvidenceDb) (r : Registered) (o : Result Failure (EvidenceDb × Registered))
        → ◌≡◌ {A = EvidenceDb × Result Failure Registered}
            (elim o as (λ _. EvidenceDb × Result Failure Registered) [
              | ok (d, x) ↦ (d, ok x)
              | err e ↦ (db, err e)
            ])
            (db', ok r)
        → o ≡ ok (db', r)
    registered-ok db db' r (ok (d, x)) h = cc h
    registered-ok db db' r (err e) h = absurd (cc h)

    -- A registration that was answered and comes again under its key, whatever evidence was registered and
    -- whatever became of the cases since, and at whatever time and whatever identifiers are drawn, changes
    -- nothing and is answered with the same evidence, as not created.
    pub registration_replays :
        (db db' after : EvidenceDb) (r : Registered)
        → register_evidence v request key db ≡ (db', ok r)
        → Registering db' after
        → register_evidence later request key after
          ≡ (after, ok (record { created = false; evidence = r.evidence }))
    unfolding register_evidence check_content
    registration_replays db db' after r h since =
        let (i, named, (c, content)) =
          Yields-ok (IsAnswered v request key) _ (db', r) (register-IsRegistered v request key db)
            (registered-ok db db' r _ h) in
        let still : IsRegistered v request key after r = record {
          receipt = i.receipt;
          found = Registering-receipt request.tenant_id key i.receipt since i.found;
          same = i.same;
          answered = i.answered;
        } in
        let done : register later request key after
            ≡ ok (after, record { created = false; evidence = r.evidence }) =
          register-again c after r named content still in
        rw (done, register_evidence) refl
