-- ===== src/Cases/Later.antt =====
-- packages/case-store/src/index.ts: what later transactions leave of a case and of a receipt.
use ehfconcept.Prelude.{
  ◌≡◌, ◌≤◌, inl, inr, sym, ap, ◌∙◌, subst, true, ◌&&◌, suc, String, List, [], ◌∷◌, ◌++◌, some, ok,
  unless-ok, ◌==◌, compare_texts, eq_iff, Bool-cases, arith,
}
use ehfconcept.Cases.Events.{Platform}
use ehfconcept.Cases.Command.Base.{CaseRow}
use ehfconcept.Cases.Db.{Receipt, CaseDb, find_case, find_receipt, write_receipt}
use ehfconcept.Cases.Accepted.{submit_business_command-outcome}
use ehfconcept.Cases.Opened.{create_kyc_case-outcome}
use ehfconcept.Cases.Growth.{number_of, Grows, Step, created, submitted, Step-Grows}
use ehfconcept.Cases.History.{Served, here, next}

find_receipt-more :
    (t c k : String) (rs : List Receipt) (x r : Receipt)
    → find_receipt t c k rs ≡ some r
    → find_receipt t c k (rs ++ x ∷ []) ≡ some r
unfolding find_receipt
find_receipt-more t c k [] x r h = absurd (cc h)
find_receipt-more t c k (y ∷ rs) x r h = ground (arith, find_receipt-more t c k rs x r)

written :
    (t c k : String) (x r : Receipt) (rs rs' : List Receipt)
    → write_receipt x rs ≡ ok rs'
    → find_receipt t c k rs ≡ some r
    → find_receipt t c k rs' ≡ some r
unfolding write_receipt
written t c k x r rs rs' w h =
    ap (find_receipt t c k) (unless-ok _ _ _ _ w).1 ∙ find_receipt-more t c k rs x r h

module _ {p : Platform} {Allowed : String → Type 0} (t c k : String) where
  Step-receipt :
      {db db' : CaseDb} (r : Receipt)
      → Step p Allowed db db'
      → find_receipt t c k db.receipts ≡ some r
      → find_receipt t c k db'.receipts ≡ some r
  Step-receipt {db} {db'} r (created o request key answer _ _ done) h =
      elim (create_kyc_case-outcome o request key db db' answer done) [
        | inl (made, _, inl repeated) ↦
            subst (λ (d : CaseDb). find_receipt t c k d.receipts ≡ some r) (sym repeated.unchanged)
              h
        | inl (made, _, inr opened) ↦ written t c k _ r _ _ opened.receipted h
        | inr (f, _, same) ↦
            subst (λ (d : CaseDb). find_receipt t c k d.receipts ≡ some r) (sym same) h
      ]
  Step-receipt {db} {db'} r (submitted e command answer _ _ _ done) h =
      elim (submit_business_command-outcome e command db db' answer done) [
        | inl (v, _, inl replayed) ↦
            subst (λ (d : CaseDb). find_receipt t c k d.receipts ≡ some r) (sym replayed.unchanged)
              h
        | inl (v, _, inr accepted) ↦ written t c k _ r _ _ accepted.receipted h
        | inr (f, _, same) ↦
            subst (λ (d : CaseDb). find_receipt t c k d.receipts ≡ some r) (sym same) h
      ]

  -- A receipt is found again after any further transactions.
  pub Served-receipt :
      {db db' : CaseDb} (r : Receipt)
      → Served p Allowed db db'
      → find_receipt t c k db.receipts ≡ some r
      → find_receipt t c k db'.receipts ≡ some r
  Served-receipt r here h = h
  Served-receipt r (next served step) h = Step-receipt r step (Served-receipt r served h)

module _ {p : Platform} {Allowed : String → Type 0} (t c : String) where
  own_number :
      {db db' : CaseDb} (g : Grows p Allowed db db') (r : CaseRow)
      → (g.input.tenant_id ≡ t) × (g.input.case_id ≡ c)
      → find_case t c db.cases ≡ some r
      → (r' : CaseRow) × (find_case t c db'.cases ≡ some r')
        × (r'.case_sequence ≡ suc r.case_sequence)
  own_number {db} {db'} g r (st, sc) found =
      let at = λ (d : CaseDb).
        ap (λ x. find_case x g.input.case_id d.cases) st ∙ ap (λ y. find_case t y d.cases) sc in
      let before = at db ∙ found in
      let (r', after, _) = g.statuses r before in
      (
        r',
        sym (at db') ∙ after,
        sym (ap number_of after) ∙ g.own ∙ g.numbered ∙ ap (λ o. suc (number_of o)) before,
      )

  Step-number :
      {db db' : CaseDb} (r : CaseRow)
      → Step p Allowed db db'
      → find_case t c db.cases ≡ some r
      → (r' : CaseRow) × (find_case t c db'.cases ≡ some r') × (r.case_sequence ≤ r'.case_sequence)
  Step-number {db} {db'} r step found = elim (Step-Grows step) [
    | inl same ↦
        (r, subst (λ (d : CaseDb). find_case t c d.cases ≡ some r) (sym same) found, omega arith)
    | inr g ↦ elim (Bool-cases (g.input.tenant_id == t && g.input.case_id == c)) [
      | inr apart ↦ (r, g.others t c apart ∙ found, omega arith)
      | inl own ↦
          let (r', found', n) = own_number g r (ids g own) found in
          (r', found', subst (λ m. r.case_sequence ≤ m) (sym n) (omega arith))
    ]
  ]
    where
      ids :
          {d d' : CaseDb} (g : Grows p Allowed d d')
          → (g.input.tenant_id == t && g.input.case_id == c) ≡ true
          → (g.input.tenant_id ≡ t) × (g.input.case_id ≡ c)
      ids g own = ground (arith, eq_iff g.input.tenant_id t, eq_iff g.input.case_id c)

  -- A case is found again after any further transactions, under a number that has not gone back.
  pub Served-number :
      {db db' : CaseDb} (r : CaseRow)
      → Served p Allowed db db'
      → find_case t c db.cases ≡ some r
      → (r' : CaseRow) × (find_case t c db'.cases ≡ some r') × (r.case_sequence ≤ r'.case_sequence)
  Served-number r here found = (r, found, omega arith)
  Served-number r (next served step) found =
      let (r₁, found₁, n) = Served-number r served found in
      let (r₂, found₂, m) = Step-number r₁ step found₁ in (r₂, found₂, omega (arith, n, m))
