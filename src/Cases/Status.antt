-- ===== src/Cases/Status.antt =====
-- packages/case-store/src/index.ts: the statuses of a case and `allowedTransitions`.
use ehfconcept.Prelude.{
  Bool, String, List, [], ◌∷◌, Option, none, some, ◌==◌, compare_texts, if◌then◌else◌, includes,
  map,
}
use ehfconcept.Cases.Tables.{
  CaseStatus, intake, validating, screening, investigating, ready_for_decision, qa_review,
  human_review, needs_information, suspended, approved, declined, closed,
}

abbrev pub status_name : CaseStatus → String
status_name intake = "INTAKE"
status_name validating = "VALIDATING"
status_name screening = "SCREENING"
status_name investigating = "INVESTIGATING"
status_name ready_for_decision = "READY_FOR_DECISION"
status_name qa_review = "QA_REVIEW"
status_name human_review = "HUMAN_REVIEW"
status_name needs_information = "NEEDS_INFORMATION"
status_name suspended = "SUSPENDED"
status_name approved = "APPROVED"
status_name declined = "DECLINED"
status_name closed = "CLOSED"

abbrev pub all_statuses : List CaseStatus
all_statuses =
    intake ∷ validating ∷ screening ∷ investigating ∷ ready_for_decision ∷ qa_review ∷ human_review
    ∷ needs_information ∷ suspended ∷ approved ∷ declined ∷ closed ∷ []

unfoldable pub status_from : List CaseStatus → String → Option CaseStatus
status_from [] name = none
status_from (s ∷ ss) name =
    let rest = status_from ss name in if status_name s == name then some s else rest

-- The status that a text names: `kycCaseStatusSchema` parses exactly those.
unfoldable pub status_named : String → Option CaseStatus
unfolding status_from
status_named name = status_from all_statuses name

unfoldable pub allowed_transitions : CaseStatus → List CaseStatus
allowed_transitions intake = validating ∷ needs_information ∷ suspended ∷ []
allowed_transitions validating = screening ∷ needs_information ∷ suspended ∷ []
allowed_transitions screening =
    investigating ∷ ready_for_decision ∷ needs_information ∷ suspended ∷ []
allowed_transitions investigating =
    screening ∷ ready_for_decision ∷ needs_information ∷ human_review ∷ suspended ∷ []
allowed_transitions ready_for_decision = qa_review ∷ human_review ∷ investigating ∷ suspended ∷ []
allowed_transitions qa_review = human_review ∷ ready_for_decision ∷ investigating ∷ suspended ∷ []
allowed_transitions human_review =
    approved ∷ declined ∷ investigating ∷ needs_information ∷ suspended ∷ []
allowed_transitions needs_information = validating ∷ screening ∷ investigating ∷ suspended ∷ []
allowed_transitions suspended = validating ∷ screening ∷ investigating ∷ human_review ∷ closed ∷ []
allowed_transitions approved = closed ∷ []
allowed_transitions declined = closed ∷ []
allowed_transitions closed = []

-- `allowedTransitions[from].includes(to)`
unfoldable pub may_go : CaseStatus → CaseStatus → Bool
unfolding allowed_transitions
may_go from to = includes (map status_name (allowed_transitions from)) (status_name to)
