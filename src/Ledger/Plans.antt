-- ===== src/Ledger/Plans.antt =====
-- Admitted plans: `admitPlan` and `getPlan` of packages/persistence/src/index.ts, and
-- `verifyPlanDigest` of packages/contracts/src/index.ts.
use ehfconcept.Prelude.{
  ◌≡◌, refl, sym, ap, ◌∙◌, inl, inr, Bool, true, false, ◌&&◌, String, List, [], ◌∷◌, ◌++◌, Option,
  none, some, ◌==◌, compare_texts, if◌then◌else◌, find, Result, ok, err, is_some, or_else,
  Bool-cases, Option-cases, All, All-append, All-find, arith, eq_iff,
}
use ehfconcept.Contracts.Value.{Value}
use ehfconcept.Contracts.Canonical.{Hashing, stable_digest}

-- A plan document: its two identifying fields, and the rest of it.
pub record Plan : Type 0 where
  pub plan_digest : String
  pub plan_id : String
  pub content : Value

-- harness_control.plans, keyed by tenant and digest.
pub record PlanRow : Type 0 where
  pub tenant_id : String
  pub plan_digest : String
  pub plan : Plan

unfoldable pub verify_plan_digest : Hashing → Plan → Bool
verify_plan_digest h plan = stable_digest h plan.content == plan.plan_digest

unfoldable pub is_admitted : String → String → List PlanRow → Bool
is_admitted tenant_id digest plans =
    is_some (find (λ (p : PlanRow). p.tenant_id == tenant_id && p.plan_digest == digest) plans)

-- The answer is the `created` flag.
unfoldable pub admit_plan :
    Hashing → Plan → String → List PlanRow → List PlanRow × Result String Bool
unfolding verify_plan_digest is_admitted
admit_plan h plan tenant_id plans =
    if verify_plan_digest h plan
    then if is_admitted tenant_id plan.plan_digest plans then (plans, ok false) else (
      plans ++ record { tenant_id = tenant_id; plan_digest = plan.plan_digest; plan = plan } ∷ [],
      ok true,
    )
    else (plans, err "plan.digest_invalid")

unfoldable pub get_plan : String → Option String → List PlanRow → Option Plan
get_plan digest none plans = elim (find (λ (p : PlanRow). p.plan_digest == digest) plans) [
  | none ↦ none
  | some row ↦ some row.plan
]
get_plan digest (some tenant_id) plans =
    elim (find (λ (p : PlanRow). p.plan_digest == digest && p.tenant_id == tenant_id) plans) [
      | none ↦ none
      | some row ↦ some row.plan
    ]

-- A row that holds a plan under the digest of its content.
pub record IsAuthentic (h : Hashing) (row : PlanRow) : Type 0 where
  pub keyed : row.plan.plan_digest ≡ row.plan_digest
  pub hashed : stable_digest h row.plan.content ≡ row.plan_digest

authentic :
    (h : Hashing) (digest : String) (row : PlanRow) (plan : Plan)
    → IsAuthentic h row
    → row.plan_digest ≡ digest
    → row.plan ≡ plan
    → (plan.plan_digest ≡ digest) × (stable_digest h plan.content ≡ digest)
authentic h digest row plan a d same = (
  sym (ap (λ (p : Plan). p.plan_digest) same) ∙ a.keyed ∙ d,
  sym (ap (λ (p : Plan). stable_digest h p.content) same) ∙ a.hashed ∙ d,
)

digest_of_row :
    (digest tenant : String) (row : PlanRow)
    → (row.plan_digest == digest && row.tenant_id == tenant) ≡ true
    → row.plan_digest ≡ digest
digest_of_row digest tenant row t = ground (arith, eq_iff row.plan_digest digest)

pub admit_plan-IsAuthentic :
    (h : Hashing) (plan : Plan) (tenant : String) (plans : List PlanRow)
    → All (IsAuthentic h) plans
    → All (IsAuthentic h) (admit_plan h plan tenant plans).0
unfolding admit_plan verify_plan_digest
admit_plan-IsAuthentic h plan tenant plans all =
    elim (Bool-cases (stable_digest h plan.content == plan.plan_digest)) [
      | inr t ↦ rw t all
      | inl t ↦ elim (Bool-cases (is_admitted tenant plan.plan_digest plans)) [
        | inl u ↦ rw (t, u) all
        | inr u ↦
            rw (t, u)
              (All-append (IsAuthentic h) plans _ all
                (record { keyed = refl; hashed = (eq_iff _ _).0 t }, tt))
      ]
    ]

-- Whoever reads a plan by a digest gets content that hashes to it.
pub get_plan-IsAuthentic :
    (h : Hashing) (digest : String) (tenant : Option String) (plans : List PlanRow) (plan : Plan)
    → All (IsAuthentic h) plans
    → get_plan digest tenant plans ≡ some plan
    → (plan.plan_digest ≡ digest) × (stable_digest h plan.content ≡ digest)
unfolding get_plan
get_plan-IsAuthentic h digest none plans plan all e =
    elim (Option-cases (find (λ (p : PlanRow). p.plan_digest == digest) plans)) [
      | inl f ↦ (let no : none ≡ some plan = rw (f, get_plan) at e in absurd cc)
      | inr (row, f) ↦
          let (a, t) = All-find (IsAuthentic h) _ plans row all f in
          let same : row.plan ≡ plan = ap (λ o. or_else o plan) (rw (f, get_plan) at e) in
          authentic h digest row plan a ((eq_iff _ _).0 t) same
    ]
get_plan-IsAuthentic h digest (some tenant) plans plan all e =
    elim (Option-cases
      (find (λ (p : PlanRow). p.plan_digest == digest && p.tenant_id == tenant) plans)) [
        | inl f ↦ (let no : none ≡ some plan = rw (f, get_plan) at e in absurd cc)
        | inr (row, f) ↦
            let (a, t) = All-find (IsAuthentic h) _ plans row all f in
            let same : row.plan ≡ plan = ap (λ o. or_else o plan) (rw (f, get_plan) at e) in
            authentic h digest row plan a (digest_of_row digest tenant row t) same
      ]
