-- ===== src/Gateway/Reservations.antt =====
-- What a reservation of packages/persistence/src/index.ts answers and changes.
use ehfconcept.Prelude.{
  ℕ, ◌≡◌, inl, inr, refl, sym, ap, subst, Bool, true, false, ◌&&◌, String, [], ◌∷◌, ◌++◌, Option,
  none, some, ◌==◌, compare_texts, compare_numbers, find, Result, ok, err, arith, eq_iff,
  Option-cases, Bool-cases, if◌then◌else◌,
}
use ehfconcept.Ledger.Row.{Run, reserve_row}
use ehfconcept.Ledger.Store.{get_run, update_run}
use ehfconcept.Gateway.Receipts.{
  Receipt, CapabilityResult, GatewayReceiptInput, GatewayDb, Reservation, receipt_of, find_receipt,
  inserts_receipt, prior_reservation, reserve_gateway_receipt,
}

-- What a reservation that was created has done.
pub record IsSpent (now : ℕ) (input : GatewayReceiptInput) (g g' : GatewayDb) : Type 0 where
  pub run : Run
  pub was_new : find_receipt input.invocation_id g.receipts ≡ none
  pub found : get_run input.run_id none g.ledger ≡ some run
  pub inserted : g'.receipts ≡ g.receipts ++ receipt_of input run ∷ []
  pub spent :
      update_run input.run_id (reserve_row now input.model_call input.budget) g.ledger
      ≡ (g'.ledger, true)

-- The receipt that an answer without a new reservation comes from.
pub record IsReplay (input : GatewayReceiptInput) (g : GatewayDb) (result : Option CapabilityResult)
    : Type 0 where
  pub receipt : Receipt
  pub found :
      find
        (λ (r : Receipt). r.invocation_id == input.invocation_id && r.run_id == input.run_id)
        g.receipts
      ≡ some receipt
  pub same_request : receipt.request_digest ≡ input.request_digest
  pub same_result : receipt.result ≡ result

abbrev pub Outcome :
    ℕ → GatewayReceiptInput → GatewayDb → GatewayDb → Result String Reservation → Type 0
Outcome now input g g' (err code) = g' ≡ g
Outcome now input g g' (ok answer) =
    if answer.created then IsSpent now input g g' else (g' ≡ g) × IsReplay input g answer.result

inserts_receipt-found :
    (input : GatewayReceiptInput) (g : GatewayDb) (run : Run)
    → inserts_receipt input g ≡ some run
    → (find_receipt input.invocation_id g.receipts ≡ none)
      × (get_run input.run_id none g.ledger ≡ some run)
unfolding inserts_receipt
inserts_receipt-found input g run e = ground arith

abbrev is_same_call : GatewayReceiptInput → Receipt → Bool
is_same_call input r = r.invocation_id == input.invocation_id && r.run_id == input.run_id

abbrev answer_of : Result String Reservation → Reservation → Reservation
answer_of (ok a) b = a
answer_of (err e) b = b

prior_reservation-IsReplay :
    (input : GatewayReceiptInput) (g : GatewayDb) (answer : Reservation)
    → prior_reservation input g.receipts ≡ ok answer
    → (receipt : Receipt) × (answer.created ≡ false)
      × (find
            (λ (r : Receipt). r.invocation_id == input.invocation_id && r.run_id == input.run_id)
            g.receipts
          ≡ some receipt)
      × ((receipt.request_digest == input.request_digest) ≡ true)
      × (receipt.result ≡ answer.result)
unfolding prior_reservation
prior_reservation-IsReplay input g answer e =
    elim (Option-cases (find (is_same_call input) g.receipts)) [
      | inl n ↦
          let no : err "gateway.idempotency_conflict" ≡ ok answer =
            rw (n, prior_reservation) at e in
          absurd cc
      | inr (x, f) ↦ elim (Bool-cases (x.request_digest == input.request_digest)) [
        | inr t ↦
            let no : err "gateway.idempotency_conflict" ≡ ok answer =
              rw (f, t, prior_reservation) at e in
            absurd cc
        | inl t ↦
            let yes : ok (record { created = false; result = x.result }) ≡ ok answer =
              rw (f, t, prior_reservation) at e in
            let same = ap (λ r. answer_of r answer) yes in
            (
              x,
              ap (λ (a : Reservation). a.created) (sym same),
              f,
              t,
              ap (λ (a : Reservation). a.result) same,
            )
      ]
    ]

replayed :
    (now : ℕ) (input : GatewayReceiptInput) (g : GatewayDb) (res : Result String Reservation)
    → prior_reservation input g.receipts ≡ res
    → Outcome now input g g res
replayed now input g (err code) e = refl
replayed now input g (ok answer) e =
    let (receipt, old, f, d, r) = prior_reservation-IsReplay input g answer e in
    rw old (
      refl,
      record { receipt = receipt; found = f; same_request = (eq_iff _ _).0 d; same_result = r },
    )

reserve-prior :
    (now : ℕ) (input : GatewayReceiptInput) (g : GatewayDb)
    → inserts_receipt input g ≡ none
    → reserve_gateway_receipt now input g ≡ (g, prior_reservation input g.receipts)
unfolding reserve_gateway_receipt
reserve-prior now input g e = rw (e, reserve_gateway_receipt) refl

reserve-denied :
    (now : ℕ) (input : GatewayReceiptInput) (g : GatewayDb) (run : Run)
    → inserts_receipt input g ≡ some run
    → (update_run input.run_id (reserve_row now input.model_call input.budget) g.ledger).1 ≡ false
    → reserve_gateway_receipt now input g ≡ (g, err "gateway.budget_denied")
unfolding reserve_gateway_receipt
reserve-denied now input g run e t = rw (e, t, reserve_gateway_receipt) refl

reserve-created :
    (now : ℕ) (input : GatewayReceiptInput) (g : GatewayDb) (run : Run)
    → inserts_receipt input g ≡ some run
    → (update_run input.run_id (reserve_row now input.model_call input.budget) g.ledger).1 ≡ true
    → reserve_gateway_receipt now input g ≡ (
      record {
        ledger =
            (update_run input.run_id (reserve_row now input.model_call input.budget) g.ledger).0;
        receipts = g.receipts ++ receipt_of input run ∷ [];
      },
      ok (record { created = true; result = none }),
    )
unfolding reserve_gateway_receipt
reserve-created now input g run e t = rw (e, t, reserve_gateway_receipt) refl

-- A reservation that throws changes nothing. One that answers `created` has inserted a receipt for an
-- invocation that had none, for a run of the ledger, and has spent one call on that run within the
-- budget. One that answers otherwise has changed nothing, and its result is that of the receipt of the
-- same invocation, run and request.
pub reserve_gateway_receipt-Outcome :
    (now : ℕ) (input : GatewayReceiptInput) (g : GatewayDb)
    → Outcome now input g
        (reserve_gateway_receipt now input g).0
        (reserve_gateway_receipt now input g).1
reserve_gateway_receipt-Outcome now input g = elim (Option-cases (inserts_receipt input g)) [
  | inl n ↦
      subst P (sym (reserve-prior now input g n))
        (replayed now input g (prior_reservation input g.receipts) refl)
  | inr (run, f) ↦
      let (fresh, found) = inserts_receipt-found input g run f in
      elim (Bool-cases
        (update_run input.run_id (reserve_row now input.model_call input.budget) g.ledger).1) [
          | inr t ↦ subst P (sym (reserve-denied now input g run f t)) refl
          | inl t ↦ subst P (sym (reserve-created now input g run f t)) (record {
            run = run;
            was_new = fresh;
            found = found;
            inserted = refl;
            spent =
                ap
                  (λ b. (
                    (update_run input.run_id (reserve_row now input.model_call input.budget)
                        g.ledger).0,
                    b,
                  ))
                  t;
          })
        ]
]
  where
    P : GatewayDb × Result String Reservation → Type 0
    P p = Outcome now input g p.0 p.1
