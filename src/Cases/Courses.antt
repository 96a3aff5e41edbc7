-- ===== src/Cases/Courses.antt =====
-- packages/case-store/src/index.ts: the course that the status of a case takes.
use ehfconcept.Prelude.{
  ◌≡◌, ◌⊎◌, inl, inr, refl, sym, ap, ◌∙◌, subst, Bool, true, false, ◌&&◌, ◌||◌, String, some,
  or_else, ◌==◌, compare_texts, eq_iff, Bool-cases, arith,
}
use ehfconcept.Cases.Tables.{
  CaseStatus, intake, validating, screening, investigating, ready_for_decision, qa_review,
  human_review, needs_information, suspended, approved, declined, closed,
}
use ehfconcept.Cases.Status.{status_name, status_named, may_go, status_from, allowed_transitions}
use ehfconcept.Cases.Events.{Platform}
use ehfconcept.Cases.Command.Base.{CaseRow}
use ehfconcept.Cases.Db.{CaseDb, find_case}
use ehfconcept.Cases.Growth.{Grows, Step-Grows}
use ehfconcept.Cases.History.{Served, here, next}

-- Moves along `allowedTransitions`, one after another.
pub data Leads (from : CaseStatus) : CaseStatus → Type 0 where
  stays : Leads from from
  goes : {via to : CaseStatus} → Leads from via → may_go via to ≡ true → Leads from to

name_of_status_is_read : (s : CaseStatus) → status_named (status_name s) ≡ some s
unfolding status_named status_from
name_of_status_is_read intake = refl
name_of_status_is_read validating = refl
name_of_status_is_read screening = refl
name_of_status_is_read investigating = refl
name_of_status_is_read ready_for_decision = refl
name_of_status_is_read qa_review = refl
name_of_status_is_read human_review = refl
name_of_status_is_read needs_information = refl
name_of_status_is_read suspended = refl
name_of_status_is_read approved = refl
name_of_status_is_read declined = refl
name_of_status_is_read closed = refl

module _ {p : Platform} {Allowed : String → Type 0} {db : CaseDb} where
  -- Whatever is created and submitted, a case stays, and its status moves along `allowedTransitions` only.
  pub Served-Leads :
      {db' : CaseDb} (t c : String) (r : CaseRow)
      → Served p Allowed db db'
      → find_case t c db.cases ≡ some r
      → (r' : CaseRow) × (find_case t c db'.cases ≡ some r') × Leads r.status r'.status
  Served-Leads t c r here found = (r, found, stays)
  Served-Leads t c r (next {db₁} {db₂} served step) found =
      let (r₁, found₁, led) = Served-Leads t c r served found in
      elim (Step-Grows step) [
        | inl same ↦ (r₁, subst (λ d. find_case t c d.cases ≡ some r₁) (sym same) found₁, led)
        | inr g ↦ elim (Bool-cases (g.input.tenant_id == t && g.input.case_id == c)) [
          | inr apart ↦ (r₁, g.others t c apart ∙ found₁, led)
          | inl own ↦ here_moved g own r₁ found₁ led
        ]
      ]
    where
      ids :
          {db₁ db₂ : CaseDb} (g : Grows p Allowed db₁ db₂)
          → (g.input.tenant_id == t && g.input.case_id == c) ≡ true
          → (g.input.tenant_id ≡ t) × (g.input.case_id ≡ c)
      ids g own = ground (arith, eq_iff g.input.tenant_id t, eq_iff g.input.case_id c)

      here_moved :
          {db₁ db₂ : CaseDb} (g : Grows p Allowed db₁ db₂)
          → (g.input.tenant_id == t && g.input.case_id == c) ≡ true
          → (r₁ : CaseRow) → find_case t c db₁.cases ≡ some r₁
          → Leads r.status r₁.status
          → (r' : CaseRow) × (find_case t c db₂.cases ≡ some r') × Leads r.status r'.status
      here_moved {db₁} {db₂} g own r₁ found₁ led =
          let (st, sc) = ids g own in
          let at = λ (d : CaseDb).
            ap (λ x. find_case x g.input.case_id d.cases) st ∙ ap (λ y. find_case t y d.cases) sc in
          let (r₂, found₂, move) = g.statuses r₁ (at db₁ ∙ found₁) in
          (
            r₂,
            sym (at db₂) ∙ found₂,
            elim move [
              | inl kept ↦ subst (λ s. Leads r.status s) (sym kept) led
              | inr go ↦ goes led go
            ],
          )

same_name : (a b : CaseStatus) → status_name a ≡ status_name b → a ≡ b
same_name a b e =
    ap (λ o. or_else o a)
      (sym (name_of_status_is_read a) ∙ ap status_named e ∙ name_of_status_is_read b)

after_disposition :
    (via to : CaseStatus) → (via ≡ approved) ⊎ (via ≡ declined) → may_go via to ≡ true → to ≡ closed
unfolding may_go allowed_transitions
after_disposition via to o g = elim o [
  | inl a ↦ only (subst (λ s. may_go s to ≡ true) a g)
  | inr d ↦ only (subst (λ s. may_go s to ≡ true) d g)
]
  where
    only : (status_name closed == status_name to || false) ≡ true → to ≡ closed
    only h =
        sym (same_name closed to ((eq_iff (status_name closed) (status_name to)).0 (alone _ h)))
      where
        alone : (b : Bool) → (b || false) ≡ true → b ≡ true
        alone b h = ground arith

Leads-closed : (s : CaseStatus) → Leads closed s → s ≡ closed
unfolding may_go allowed_transitions
Leads-closed s stays = refl
Leads-closed s (goes {via} led go) =
    let nowhere : may_go closed s ≡ true =
      subst (λ x. may_go x s ≡ true) (Leads-closed via led) go in
    absurd (cc nowhere)

Leads-disposition :
    (from s : CaseStatus)
    → (from ≡ approved) ⊎ (from ≡ declined)
    → Leads from s
    → (s ≡ from) ⊎ (s ≡ closed)
Leads-disposition from s d stays = inl refl
Leads-disposition from s d (goes {via} led go) = elim (Leads-disposition from via d led) [
  | inl same ↦
      inr (after_disposition via s (subst (λ x. (x ≡ approved) ⊎ (x ≡ declined)) (sym same) d) go)
  | inr over ↦ inr (Leads-closed s (goes stays (subst (λ x. may_go x s ≡ true) over go)))
]

-- A case that has been approved or declined never gets another status but CLOSED.
pub disposition_is_final :
    {p : Platform} {Allowed : String → Type 0} {db db' : CaseDb} (t c : String) (r : CaseRow)
    → Served p Allowed db db'
    → find_case t c db.cases ≡ some r
    → (r.status ≡ approved) ⊎ (r.status ≡ declined)
    → (r' : CaseRow) × (find_case t c db'.cases ≡ some r')
      × ((r'.status ≡ r.status) ⊎ (r'.status ≡ closed))
disposition_is_final t c r served found d =
    let (r', found', led) = Served-Leads t c r served found in
    (r', found', Leads-disposition r.status r'.status d led)
