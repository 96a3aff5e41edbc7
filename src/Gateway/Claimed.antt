-- ===== src/Gateway/Claimed.antt =====
-- apps/capability-gateway/src/app.ts: while the receipt of an invocation stands, the handler does not call
-- a provider for it again.
use ehfconcept.Prelude.{
  ℕ, ◌≡◌, ◌≢◌, inl, inr, refl, sym, ap, subst, ◌∙◌, true, false, String, List, [], ◌∷◌, ◌++◌,
  Option, ◌==◌, compare_texts, compare_numbers, arith, eq_iff, Bool-cases, is_some, Bool, not, ◌&&◌,
  or_else, update_rows, delete_rows,
}
use ehfconcept.Ledger.Store.{Db}
use ehfconcept.Gateway.Receipts.{
  CapabilityResult, GatewayDb, Receipt, receipt_of, find_receipt, reserve_gateway_receipt,
  GatewayReceiptInput, complete_gateway_receipt, abandon_gateway_receipt,
}
use ehfconcept.Gateway.Invoke.{
  Request, Gateway, Authorized, calling, receipt_input, begin_invocation, Others, at_reservation,
}
use ehfconcept.Prelude.{Option-cases, inl, inr}
use ehfconcept.Ledger.Row.{reserve_row}
use ehfconcept.Ledger.Store.{update_run}
use ehfconcept.Gateway.Receipts.{inserts_receipt}
use ehfconcept.Gateway.Callable.{begin_invocation-IsPermitted}

find_receipt-last :
    (id : String) (rs : List Receipt) (r : Receipt)
    → r.invocation_id ≡ id
    → is_some (find_receipt id (rs ++ r ∷ [])) ≡ true
unfolding find_receipt
find_receipt-last id [] r e = ground (arith, eq_iff r.invocation_id id)
find_receipt-last id (x ∷ xs) r e = ground (arith, find_receipt-last id xs r e)

abbrev pub IsClaimed : String → GatewayDb → Type 0
IsClaimed id g = is_some (find_receipt id g.receipts) ≡ true

-- A statement of any caller but one that gives the claim of the invocation up: on receipts and budgets, or
-- anything on the ledger.
pub data Statement (id : String) (g : GatewayDb) : GatewayDb → Type 0 where
  reserve :
      (now : ℕ) (input : GatewayReceiptInput)
      → Statement id g (reserve_gateway_receipt now input g).0
  complete :
      (now : ℕ) (run_id : String) (result : CapabilityResult)
      → Statement id g (complete_gateway_receipt now run_id result g)
  abandon_other :
      (run_id other : String) → other ≢ id → Statement id g (abandon_gateway_receipt run_id other g)
  on_ledger : (ledger : Db) → Statement id g (record g { ledger = ledger })

pub data Unabandoned (id : String) (g : GatewayDb) : GatewayDb → Type 0 where
  here : Unabandoned id g g
  next : {g' g'' : GatewayDb} → Unabandoned id g g' → Statement id g' g'' → Unabandoned id g g''

find_receipt-more :
    (id : String) (rs : List Receipt) (r : Receipt)
    → is_some (find_receipt id rs) ≡ true
    → is_some (find_receipt id (rs ++ r ∷ [])) ≡ true
unfolding find_receipt
find_receipt-more id [] r e = absurd (cc e)
find_receipt-more id (x ∷ xs) r e = ground (arith, find_receipt-more id xs r)

find_receipt-update_rows :
    (id : String) (f : Receipt → Option Receipt) (rs : List Receipt)
    → ((r : Receipt) → (or_else (f r) r).invocation_id ≡ r.invocation_id)
    → is_some (find_receipt id (update_rows f rs)) ≡ is_some (find_receipt id rs)
unfolding find_receipt update_rows
find_receipt-update_rows id f [] keep = refl
find_receipt-update_rows id f (r ∷ rs) keep =
    let rest = find_receipt-update_rows id f rs keep in
    elim (Bool-cases (r.invocation_id == id)) [
      | inl y ↦ rw (y, ap (λ x. x == id) (keep r) ∙ y, update_rows, find_receipt) refl
      | inr n ↦ rw (n, ap (λ x. x == id) (keep r) ∙ n, update_rows, find_receipt) rest
    ]

find_receipt-delete_rows :
    (id : String) (p : Receipt → Bool) (rs : List Receipt)
    → ((r : Receipt) → r.invocation_id ≡ id → p r ≡ false)
    → is_some (find_receipt id rs) ≡ true
    → is_some (find_receipt id (delete_rows p rs)) ≡ true
unfolding find_receipt delete_rows
find_receipt-delete_rows id p [] keep e = e
find_receipt-delete_rows id p (r ∷ rs) keep e = elim (Bool-cases (r.invocation_id == id)) [
  | inl y ↦ rw (keep r ((eq_iff _ _).0 y), y, delete_rows, find_receipt) refl
  | inr n ↦
      let rest = find_receipt-delete_rows id p rs keep (rw n at e) in
      elim (Bool-cases (p r)) [
        | inl gone ↦ rw (gone, delete_rows) rest
        | inr stays ↦ rw (stays, n, delete_rows, find_receipt) rest
      ]
]

abbrev is_abandoned : String → String → Receipt → Bool
is_abandoned run_id other r =
    r.invocation_id == other && r.run_id == run_id && not (is_some r.result)

reserved-IsClaimed :
    (id : String) (now : ℕ) (input : GatewayReceiptInput) (g : GatewayDb)
    → IsClaimed id g
    → IsClaimed id (reserve_gateway_receipt now input g).0
unfolding reserve_gateway_receipt
reserved-IsClaimed id now input g c = elim (Option-cases (inserts_receipt input g)) [
  | inl n ↦ rw (n, reserve_gateway_receipt) c
  | inr (run, n) ↦
      elim (Bool-cases
        ((update_run input.run_id (reserve_row now input.model_call input.budget) g.ledger).1)) [
          | inl y ↦
              rw (n, y, reserve_gateway_receipt)
                (find_receipt-more id g.receipts (receipt_of input run) c)
          | inr f ↦ rw (n, f, reserve_gateway_receipt) c
        ]
]

Statement-IsClaimed :
    {id : String} {g g' : GatewayDb} → Statement id g g' → IsClaimed id g → IsClaimed id g'
unfolding complete_gateway_receipt abandon_gateway_receipt
Statement-IsClaimed {id} {g} (reserve now input) c = reserved-IsClaimed id now input g c
Statement-IsClaimed {id} {g} (complete now run_id result) c =
    find_receipt-update_rows id _ g.receipts (λ r. ground arith) ∙ c
Statement-IsClaimed {id} {g} (abandon_other run_id other apart) c =
    find_receipt-delete_rows id (is_abandoned run_id other) g.receipts
      (λ r mine. others_stay r (λ e. apart (sym e ∙ mine))) c
  where
    others_stay : (r : Receipt) → r.invocation_id ≢ other → is_abandoned run_id other r ≡ false
    others_stay r n = ground (arith, eq_iff r.invocation_id other)
Statement-IsClaimed (on_ledger ledger) c = c

Unabandoned-IsClaimed :
    {id : String} {g g' : GatewayDb} → Unabandoned id g g' → IsClaimed id g → IsClaimed id g'
Unabandoned-IsClaimed here c = c
Unabandoned-IsClaimed (next w s) c = Statement-IsClaimed s (Unabandoned-IsClaimed w c)

-- Once the handler calls a provider for an invocation, no call of the handler calls one for the same
-- invocation again, whoever asks, whatever the request says, and whatever other transactions do before that
-- call makes its reservation, provided that none of them abandons the receipt of the invocation.
pub claimed_invocation_is_not_called :
    (now later : ℕ) (gateway : Gateway) (request again : Request) (others others' : Others)
    (g g' h h' : GatewayDb) (a b : Authorized)
    → begin_invocation now gateway request others g ≡ (g', calling a)
    → Unabandoned a.invocation.invocation_id g' (at_reservation others' h)
    → begin_invocation later gateway again others' h ≡ (h', calling b)
    → b.invocation.invocation_id ≢ a.invocation.invocation_id
unfolding receipt_input
claimed_invocation_is_not_called now later gateway request again others others' g g' h h' a b first
      w second same =
    let spent = (begin_invocation-IsPermitted now gateway request others g g' a first).1 in
    let fresh = (begin_invocation-IsPermitted later gateway again others' h h' b second).1 in
    let id = a.invocation.invocation_id in
    let mine : IsClaimed id g' =
      subst (λ rs. is_some (find_receipt id rs) ≡ true) (sym spent.inserted)
        (find_receipt-last id (at_reservation others g).receipts
          (receipt_of (receipt_input gateway request a) spent.run) refl) in
    let still : IsClaimed id (at_reservation others' h) = Unabandoned-IsClaimed w mine in
    let gone : is_some (find_receipt b.invocation.invocation_id (at_reservation others' h).receipts)
        ≡ false =
      ap (λ o. is_some o) fresh.was_new in
    let gone' : is_some (find_receipt id (at_reservation others' h).receipts) ≡ false =
      subst (λ x. is_some (find_receipt x (at_reservation others' h).receipts) ≡ false) same gone in
    absurd (cc (still, gone'))
