-- ===== src/Cases/Lawful.antt =====
-- packages/case-store/src/index.ts, `applyMutation`: the status that a command may give its case.
use ehfconcept.Prelude.{
  ◌≡◌, refl, sym, ap, ◌∙◌, Bool, inl, inr, true, false, ◌&&◌, ◌||◌, String, List, [], ◌∷◌, some,
  Result, ok, err, ◌==◌, compare_texts, eq_iff, All, arith, Bool-cases, Option-cases, find,
  includes, is_some, or_else, subst, Yields, Yields-ok, Yields-bind, Yields-bind_with,
  Yields-require, Yields-forbid, Yields-weaken,
}
use ehfconcept.Contracts.Value.{Value, undefined, null, boolean, number, string, array, object}
use ehfconcept.Cases.Payload.{Failure, schema_error, required_string}
use ehfconcept.Cases.Tables.{
  Row, CaseStatus, approved, declined, human_review, ActorType, human, Tables, GateResult,
  Contradiction, find_row,
}
use ehfconcept.Cases.Status.{may_go}
use ehfconcept.Cases.Command.Base
use ehfconcept.Cases.Command.Base.{
  BusinessCommand, CommandType, CaseRow, MutationResult, Call, given,
}
use ehfconcept.Cases.Command.Progress.{
  request_human_review, is_disposition, transition_case_status, is_human, has_authority,
  is_under_review, gate_authorizes, is_open_material, parse_outcome, finalize_disposition,
}
use ehfconcept.Cases.Command.Steady
use ehfconcept.Cases.Command.Steady.{KeepsStatus}
use ehfconcept.Cases.Command.Apply.{mutate, apply_mutation}

-- What stands behind a disposition: a person with a role that may decide, a case under human review, a
-- gate result of the case that authorizes the recommendation which the command names, and no open
-- contradiction of the case that matters.
pub record IsDecided (command : BusinessCommand) (current : CaseRow) (t : Tables) : Type 0 where
  pub decided_by : command.actor.actor_type ≡ human
  pub entitled :
      (includes command.actor.roles "KYC.Analyst"
        || includes command.actor.roles "KYC.SeniorReviewer")
      ≡ true
  pub reviewed : current.status ≡ human_review
  pub gate : Row GateResult
  pub gate_ref : String
  pub named_gate : required_string (given command "gateResultRef") ≡ ok gate_ref
  pub found : find_row command.tenant_id command.case_id gate_ref t.gate_results ≡ some gate
  pub authorized : gate.columns.decision ≡ "AUTHORIZED"
  pub named_recommendation :
      required_string (given command "recommendationRef") ≡ ok gate.columns.recommendation_ref
  pub settled : All (λ r. is_open_material command r ≡ false) t.contradictions

-- A status that a command gives is a successor of the case's, and a disposition is decided.
abbrev pub IsLawful : BusinessCommand → CaseRow → Tables → Tables × MutationResult → Type 0
IsLawful command current t r =
    (s : CaseStatus)
    → r.1.next_status ≡ some s
    → (may_go current.status s ≡ true) × (is_disposition s ≡ true → IsDecided command current t)

KeepsStatus-IsLawful :
    (command : BusinessCommand) (current : CaseRow) (t : Tables) (r : Tables × MutationResult)
    → KeepsStatus r
    → IsLawful command current t r
KeepsStatus-IsLawful command current t r k s e = absurd (cc (k, e))

given_status : (a b : CaseStatus) → some a ≡ some b → a ≡ b
given_status a b e = ap (λ o. or_else o a) e

is_human-human : (a : ActorType) → is_human a ≡ true → a ≡ human
is_human-human a h = ground (arith)

is_under_review-human_review : (s : CaseStatus) → is_under_review s ≡ true → s ≡ human_review
is_under_review-human_review s h = ground (arith)

both : (a b : Bool) → (a && b) ≡ true → (a ≡ true) × (b ≡ true)
both a b h = ground arith

none_found :
    (command : BusinessCommand) (xs : List (Row Contradiction))
    → is_some (find (is_open_material command) xs) ≡ false
    → All (λ r. is_open_material command r ≡ false) xs
none_found command [] h = tt
none_found command (x ∷ xs) h = elim (Bool-cases (is_open_material command x)) [
  | inl y ↦ let no : true ≡ false = rw y at h in absurd (cc no)
  | inr n ↦ (n, none_found command xs (rw n at h))
]

authorizing_gate :
    (command : BusinessCommand) (t : Tables) (gate_ref recommendation_ref : String)
    → gate_authorizes command gate_ref recommendation_ref t ≡ true
    → (g : Row GateResult) × (find_row command.tenant_id command.case_id gate_ref t.gate_results
        ≡ some g)
      × (g.columns.decision ≡ "AUTHORIZED")
      × (g.columns.recommendation_ref ≡ recommendation_ref)
unfolding gate_authorizes
authorizing_gate command t gate_ref recommendation_ref h =
    elim (Option-cases (find_row command.tenant_id command.case_id gate_ref t.gate_results)) [
      | inl n ↦ let no : false ≡ true = rw (n, gate_authorizes) at h in absurd (cc no)
      | inr (g, e) ↦
          let (d, r) = both _ _ (rw (e, gate_authorizes) at h) in
          (g, e, (eq_iff _ _).0 d, (eq_iff _ _).0 r)
    ]

approved-may_go : may_go human_review approved ≡ true
unfolding may_go
approved-may_go = refl

declined-may_go : may_go human_review declined ≡ true
unfolding may_go
declined-may_go = refl

result_status : CaseStatus → Result Failure CaseStatus → CaseStatus
result_status d (ok s) = s
result_status d (err e) = d

-- An outcome is a successor of the human review.
outcome-may_go :
    (v : Value) (s : CaseStatus) → parse_outcome v ≡ ok s → may_go human_review s ≡ true
unfolding parse_outcome result_status
outcome-may_go (string x) s e = elim (Bool-cases (x == "APPROVED")) [
  | inl a ↦
      let e1 : ok approved ≡ ok s = rw (a, parse_outcome) at e in
      subst (λ o. may_go human_review o ≡ true) (ap (result_status s) e1) approved-may_go
  | inr a ↦ elim (Bool-cases (x == "DECLINED")) [
    | inl d ↦
        let e2 : ok declined ≡ ok s = rw (a, d, parse_outcome) at e in
        subst (λ o. may_go human_review o ≡ true) (ap (result_status s) e2) declined-may_go
    | inr d ↦ let no : err schema_error ≡ ok s = rw (a, d, parse_outcome) at e in absurd (cc no)
  ]
]
outcome-may_go undefined s e = absurd (cc e)
outcome-may_go null s e = absurd (cc e)
outcome-may_go (boolean b) s e = absurd (cc e)
outcome-may_go (number n) s e = absurd (cc e)
outcome-may_go (array xs) s e = absurd (cc e)
outcome-may_go (object fs) s e = absurd (cc e)

module _ {command : BusinessCommand} {current : CaseRow} {t : Tables} where
  moved :
      (to : CaseStatus) (r : Tables × MutationResult)
      → may_go current.status to ≡ true
      → (is_disposition to ≡ true → IsDecided command current t)
      → r.1.next_status ≡ some to
      → IsLawful command current t r
  moved to r go decided e s e' =
      subst
        (λ x.
          (may_go current.status x ≡ true)
          × (is_disposition x ≡ true → IsDecided command current t))
        (given_status _ _ (sym e ∙ e')) (go, decided)

  moved_plainly :
      (to : CaseStatus) (r : Tables × MutationResult)
      → may_go current.status to ≡ true
      → is_disposition to ≡ false
      → r.1.next_status ≡ some to
      → IsLawful command current t r
  moved_plainly to r go plain e = moved to r go (λ d. absurd (cc (d, plain))) e

  decided :
      (recommendation_ref gate_ref : String) (outcome : CaseStatus) (r : Tables × MutationResult)
      → has_authority command ≡ true
      → is_under_review current.status ≡ true
      → required_string (given command "recommendationRef") ≡ ok recommendation_ref
      → required_string (given command "gateResultRef") ≡ ok gate_ref
      → parse_outcome (given command "outcome") ≡ ok outcome
      → gate_authorizes command gate_ref recommendation_ref t ≡ true
      → is_some (find (is_open_material command) t.contradictions) ≡ false
      → r.1.next_status ≡ some outcome
      → IsLawful command current t r
  decided recommendation_ref gate_ref outcome r may under names_r names_g parsed gated closed e =
      let (person, entitled) = both _ _ may in
      let (g, found, authorized, recommended) =
        authorizing_gate command t gate_ref recommendation_ref gated in
      let reviewed = is_under_review-human_review _ under in
      moved outcome r
        (subst (λ x. may_go x outcome ≡ true) (sym reviewed) (outcome-may_go _ _ parsed))
        (λ _. record {
          decided_by = is_human-human _ person;
          entitled = entitled;
          reviewed = reviewed;
          gate = g;
          gate_ref = gate_ref;
          named_gate = names_g;
          found = found;
          authorized = authorized;
          named_recommendation = names_r ∙ ap ok (sym recommended);
          settled = none_found command _ closed;
        })
        e

module _ (call : Call) (command : BusinessCommand) (current : CaseRow) (t : Tables) where
  request_human_review-IsLawful :
      Yields (IsLawful command current t) (request_human_review call command current t)
  unfolding request_human_review
  request_human_review-IsLawful = search (Yields-bind, Yields-require, moved_plainly) depth 15

  transition_case_status-IsLawful :
      Yields (IsLawful command current t) (transition_case_status call command current t)
  unfolding transition_case_status
  transition_case_status-IsLawful =
      search (Yields-bind, Yields-require, Yields-forbid, moved_plainly) depth 15

  finalize_disposition-IsLawful :
      Yields (IsLawful command current t) (finalize_disposition call command current t)
  unfolding finalize_disposition
  finalize_disposition-IsLawful =
      search (Yields-bind_with, Yields-require, Yields-forbid, decided) depth 20 fits 30000

  steady :
      (r : Result Failure (Tables × MutationResult))
      → Yields KeepsStatus r
      → Yields (IsLawful command current t) r
  steady r y = Yields-weaken _ _ _ (KeepsStatus-IsLawful command current t) y

  mutate-IsLawful :
      (type : CommandType) (c : String)
      → Yields (IsLawful command current t) (mutate type call command c current t)
  unfolding mutate
  mutate-IsLawful Base.add_subject c =
      steady _ (Steady.add_subject-KeepsStatus call command c current t)
  mutate-IsLawful Base.link_evidence c =
      steady _ (Steady.link_evidence-KeepsStatus call command c current t)
  mutate-IsLawful Base.propose_claim c =
      steady _ (Steady.propose_claim-KeepsStatus call command c current t)
  mutate-IsLawful Base.accept_claim_as_fact c =
      steady _ (Steady.accept_claim_as_fact-KeepsStatus call command c current t)
  mutate-IsLawful Base.record_screening_finding c =
      steady _ (Steady.record_screening_finding-KeepsStatus call command c current t)
  mutate-IsLawful Base.record_assumption c =
      steady _ (Steady.record_assumption-KeepsStatus call command c current t)
  mutate-IsLawful Base.raise_contradiction c =
      steady _ (Steady.raise_contradiction-KeepsStatus call command c current t)
  mutate-IsLawful Base.resolve_contradiction c =
      steady _ (Steady.resolve_contradiction-KeepsStatus call command c current t)
  mutate-IsLawful Base.propose_work_item c =
      steady _ (Steady.propose_work_item-KeepsStatus call command c current t)
  mutate-IsLawful Base.complete_work_item c =
      steady _ (Steady.complete_work_item-KeepsStatus call command c current t)
  mutate-IsLawful Base.link_execution c =
      steady _ (Steady.link_execution-KeepsStatus call command c current t)
  mutate-IsLawful Base.submit_decision_recommendation c =
      steady _ (Steady.submit_decision_recommendation-KeepsStatus call command c current t)
  mutate-IsLawful Base.record_gate_result c =
      steady _ (Steady.record_gate_result-KeepsStatus call command c current t)
  mutate-IsLawful Base.record_qa_result c =
      steady _ (Steady.record_qa_result-KeepsStatus call command c current t)
  mutate-IsLawful Base.record_review c =
      steady _ (Steady.record_review-KeepsStatus call command c current t)
  mutate-IsLawful Base.request_human_review c = request_human_review-IsLawful
  mutate-IsLawful Base.transition_case_status c = transition_case_status-IsLawful
  mutate-IsLawful Base.finalize_disposition c = finalize_disposition-IsLawful

  -- Whatever a command that succeeds makes of the status of its case is one of the successors of the status
  -- that the case has, and APPROVED or DECLINED only when it was decided: by a person with one of the two
  -- roles, on a case under human review, under a gate result of the case that authorizes the
  -- recommendation which the command names, and with no contradiction of the case open that matters.
  pub apply_mutation-IsLawful :
      (t' : Tables) (mutation : MutationResult)
      → apply_mutation call command current t ≡ ok (t', mutation)
      → IsLawful command current t (t', mutation)
  unfolding apply_mutation
  apply_mutation-IsLawful t' mutation e =
      let y : Yields (IsLawful command current t) (apply_mutation call command current t) =
        search (Yields-bind, mutate-IsLawful) in
      Yields-ok (IsLawful command current t) _ (t', mutation) y e
