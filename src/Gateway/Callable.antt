-- ===== src/Gateway/Callable.antt =====
-- apps/capability-gateway/src/app.ts: when the handler of POST /v1/invoke calls a provider.
use ehfconcept.Prelude.{
  ℕ, ◌≡◌, inl, inr, refl, ap, subst, ◌∙◌, true, String, Option, none, some, ◌==◌, compare_texts,
  compare_numbers, includes, Result, ok, err, eq_iff, nat_beq_iff, Bool-cases, Yields, Yields-ok,
  Yields-bind_with, Yields-require, Result-cases, if◌then◌else◌,
}
use ehfconcept.Contracts.Value.{Value}
use ehfconcept.Contracts.Read.{property, text}
use ehfconcept.Ledger.Row.{Run}
use ehfconcept.Ledger.Plans.{get_plan}
use ehfconcept.Ledger.Store.{Db, get_run, current_fencing_epoch}
use ehfconcept.Access.Broker.{present, find_permission}
use ehfconcept.Gateway.Receipts.{CapabilityResult, GatewayDb, Reservation, reserve_gateway_receipt}
use ehfconcept.Gateway.Reservations.{IsSpent, IsReplay, Outcome, reserve_gateway_receipt-Outcome}
use ehfconcept.Gateway.Invoke.{
  Request, Gateway, Authorized, authorize, find_capability, has_capability, has_effect, Begun,
  calling, replayed, in_progress, refused, receipt_input, reserved_answer, begin_invocation, Others,
  at_plan, at_run, at_reservation,
}

-- What stands behind a call: the caller, the envelope, the run under the fence of the envelope when it was
-- read, and as they were when they were read, the
-- admitted plan, the permission of the node, and the capability of the plan.
pub record IsPermitted (gateway : Gateway) (request : Request) (fence_db plan_db run_db : Db)
    (a : Authorized) : Type 0 where
  pub vouched : request.caller ≡ ok tt
  pub token : String
  pub presented : request.envelope_token ≡ some token
  pub verified : gateway.verify_envelope token gateway.secret ≡ ok a.claims
  pub parsed : request.body ≡ ok a.invocation
  pub same_invocation : a.claims.invocation_id ≡ a.invocation.invocation_id
  pub claimed_capability : includes a.claims.capabilities a.invocation.capability_id ≡ true
  pub claimed_effect : includes a.claims.effects a.invocation.effect ≡ true
  pub fenced : current_fencing_epoch a.claims.run_id fence_db ≡ some a.claims.fencing_epoch
  pub admitted : get_plan a.claims.plan_digest none plan_db.plans ≡ some a.plan
  pub permission : Value
  pub permitted : find_permission a.plan a.claims.node_id ≡ some permission
  pub same_permission : text (property "digest" permission) ≡ a.claims.permission_digest
  pub granted_capability : has_capability permission a.invocation.capability_id ≡ true
  pub granted_effect : has_effect permission a.invocation.effect ≡ true
  pub bound : find_capability a.plan a.invocation.capability_id ≡ some a.capability
  pub same_effect : text (property "effect" a.capability) ≡ a.invocation.effect
  pub run : Run
  pub found : get_run a.claims.run_id none run_db ≡ some run

pub present-some :
    {A : Type 0} (o : Option A) (e : String) (a : A) → present o e ≡ ok a → o ≡ some a
present-some none e a h = absurd (cc h)
present-some (some b) e a h = ap value h
  where
    value : {A : Type 0} → Result String A → Option A
    value (ok x) = some x
    value (err x) = none

module _ (gateway : Gateway) (request : Request) (fence_db plan_db run_db : Db) where
  authorize-IsPermitted :
      Yields
        (IsPermitted gateway request fence_db plan_db run_db)
        (authorize gateway request fence_db plan_db run_db)
  unfolding authorize
  authorize-IsPermitted = Yields-bind_with P request.caller _ (λ u v.
      Yields-bind_with P (present request.envelope_token "gateway.execution_envelope_missing") _
        (λ token t. Yields-bind_with P (gateway.verify_envelope token gateway.secret) _ (λ claims c.
          Yields-bind_with P request.body _ (λ invocation b.
            Yields-require P (claims.invocation_id == invocation.invocation_id)
              "gateway.invocation_mismatch" _
              (λ i.
                Yields-require P (includes claims.capabilities invocation.capability_id)
                  "gateway.capability_denied" _
                  (λ cc1.
                    Yields-require P (includes claims.effects invocation.effect)
                      "gateway.effect_denied" _
                      (λ ce.
                        Yields-bind_with P
                          (present (current_fencing_epoch claims.run_id fence_db)
                            "gateway.stale_fence")
                          _
                          (λ epoch f.
                            Yields-require P (epoch == claims.fencing_epoch) "gateway.stale_fence" _
                              (λ fe.
                                Yields-bind_with P
                                  (present (get_plan claims.plan_digest none plan_db.plans)
                                    "gateway.plan_not_admitted")
                                  _
                                  (λ plan p.
                                    Yields-bind_with P
                                      (present (find_permission plan claims.node_id)
                                        "gateway.permission_mismatch")
                                      _
                                      (λ permission pm.
                                        Yields-require P
                                          (text (property "digest" permission)
                                            == claims.permission_digest)
                                          "gateway.permission_mismatch" _
                                          (λ pd.
                                            Yields-require P
                                              (has_capability permission invocation.capability_id)
                                              "gateway.capability_denied" _
                                              (λ hc.
                                                Yields-require P
                                                  (has_effect permission invocation.effect)
                                                  "gateway.effect_denied" _
                                                  (λ he.
                                                    Yields-bind_with P
                                                      (present
                                                        (find_capability plan
                                                          invocation.capability_id)
                                                        "gateway.capability_contract_mismatch")
                                                      _
                                                      (λ capability fc.
                                                        Yields-require P
                                                          (text (property "effect" capability)
                                                            == invocation.effect)
                                                          "gateway.capability_contract_mismatch" _
                                                          (λ ef.
                                                            Yields-bind_with P
                                                            (present
                                                            (get_run claims.run_id none run_db)
                                                            "gateway.run_not_found")
                                                            _
                                                            (λ run r.
                                                            permitted token
                                                            (record {
                                                            claims = claims;
                                                            invocation = invocation;
                                                            plan = plan;
                                                            capability = capability;
                                                            })
                                                            epoch permission run v t c b i cc1 ce f
                                                            fe p pm pd hc he fc ef
                                                            r)))))))))))))))))
    where
      P : Authorized → Type 0
      P a = IsPermitted gateway request fence_db plan_db run_db a

      permitted :
          (token : String) (a : Authorized) (epoch : ℕ) (permission : Value) (run : Run)
          → request.caller ≡ ok tt
          → present request.envelope_token "gateway.execution_envelope_missing" ≡ ok token
          → gateway.verify_envelope token gateway.secret ≡ ok a.claims
          → request.body ≡ ok a.invocation
          → (a.claims.invocation_id == a.invocation.invocation_id) ≡ true
          → includes a.claims.capabilities a.invocation.capability_id ≡ true
          → includes a.claims.effects a.invocation.effect ≡ true
          → present (current_fencing_epoch a.claims.run_id fence_db) "gateway.stale_fence"
            ≡ ok epoch
          → (epoch == a.claims.fencing_epoch) ≡ true
          → present (get_plan a.claims.plan_digest none plan_db.plans) "gateway.plan_not_admitted"
            ≡ ok a.plan
          → present (find_permission a.plan a.claims.node_id) "gateway.permission_mismatch"
            ≡ ok permission
          → (text (property "digest" permission) == a.claims.permission_digest) ≡ true
          → has_capability permission a.invocation.capability_id ≡ true
          → has_effect permission a.invocation.effect ≡ true
          → present
              (find_capability a.plan a.invocation.capability_id)
              "gateway.capability_contract_mismatch"
            ≡ ok a.capability
          → (text (property "effect" a.capability) == a.invocation.effect) ≡ true
          → present (get_run a.claims.run_id none run_db) "gateway.run_not_found" ≡ ok run
          → IsPermitted gateway request fence_db plan_db run_db a
      permitted token a epoch permission run v t c b i cc1 ce f fe p pm pd hc he fc ef r = record {
        vouched = v;
        token = token;
        presented = present-some _ _ _ t;
        verified = c;
        parsed = b;
        same_invocation = (eq_iff _ _).0 i;
        claimed_capability = cc1;
        claimed_effect = ce;
        fenced = present-some _ _ _ f ∙ ap some ((nat_beq_iff _ _).0 fe);
        admitted = present-some _ _ _ p;
        permission = permission;
        permitted = present-some _ _ _ pm;
        same_permission = (eq_iff _ _).0 pd;
        granted_capability = hc;
        granted_effect = he;
        bound = present-some _ _ _ fc;
        same_effect = (eq_iff _ _).0 ef;
        run = run;
        found = present-some _ _ _ r;
      }

-- The outcome of an answer to a reservation.
calling-created :
    (a b : Authorized) (r : Result String Reservation)
    → reserved_answer a r ≡ calling b
    → (answer : Reservation) × (r ≡ ok answer) × (answer.created ≡ true) × (a ≡ b)
unfolding reserved_answer
calling-created a b (err e) h = absurd (cc h)
calling-created a b (ok answer) h = elim (Bool-cases answer.created) [
  | inl yes' ↦ (answer, refl, yes', ap called (rw (yes', reserved_answer) at h))
  | inr no' ↦ absurd (unclaimed answer.result (rw (no', reserved_answer) at h))
]
  where
    called : Begun → Authorized
    called (calling x) = x
    called (replayed x) = a
    called in_progress = a
    called (refused x) = a

    unclaimed :
        (o : Option CapabilityResult)
        → elim o [ none ↦ in_progress | some result ↦ replayed result ] ≡ calling b
        → ⊥
    unclaimed none g = cc g
    unclaimed (some x) g = cc g

module _ (now : ℕ) (gateway : Gateway) (request : Request) (others : Others) (g g' : GatewayDb)
    (a : Authorized) where
  abbrev IsPermittedAt : Authorized → Type 0
  IsPermittedAt =
      IsPermitted gateway request g.ledger (at_plan others g).ledger (at_run others g).ledger

  -- The handler calls a provider only for a caller that the guard admits, under an envelope that verifies
  -- and is meant for this very invocation, capability and effect, where the run of the envelope was running
  -- at the fence of the envelope when the handler read the fence, and where the admitted plan, as it was
  -- read, has the permission of the envelope for the node and this permission too lists the capability and
  -- the effect, and the effect is the one that the plan gives the capability; and it has then, in the
  -- transaction of the reservation, taken the invocation, which nobody had taken at that time, out of the
  -- budget of the run. Other transactions may do anything in between: nothing is said of the fence after
  -- it was read.
  pub begin_invocation-IsPermitted :
      begin_invocation now gateway request others g ≡ (g', calling a)
      → IsPermitted gateway request g.ledger (at_plan others g).ledger (at_run others g).ledger a
        × IsSpent now (receipt_input gateway request a) (at_reservation others g) g'
  unfolding begin_invocation
  begin_invocation-IsPermitted h =
      let g₁ = at_reservation others g in
      let authorized =
        authorize gateway request g.ledger (at_plan others g).ledger (at_run others g).ledger in
      elim (Result-cases authorized) [
        | inl (e, q) ↦
            let no : (g₁, refused e) ≡ (g', calling a) = rw (q, begin_invocation) at h in
            absurd (cc (ap (λ p. p.1) no))
        | inr (x, q) ↦
            let input = receipt_input gateway request x in
            let done : (
              (reserve_gateway_receipt now input g₁).0,
              reserved_answer x (reserve_gateway_receipt now input g₁).1,
            )
                ≡ (g', calling a) =
              rw (q, begin_invocation) at h in
            let (answer, r, made, same) = calling-created x a _ (ap (λ p. p.1) done) in
            let outcome =
              subst (Outcome now input g₁ (reserve_gateway_receipt now input g₁).0) r
                (reserve_gateway_receipt-Outcome now input g₁) in
            let spent =
              subst
                (λ b.
                  if b
                  then IsSpent now input g₁ (reserve_gateway_receipt now input g₁).0
                  else ((reserve_gateway_receipt now input g₁).0 ≡ g₁)
                    × IsReplay input g₁ answer.result)
                made outcome in
            subst (λ y. IsPermittedAt y × IsSpent now (receipt_input gateway request y) g₁ g') same
              (
                Yields-ok IsPermittedAt _ x
                    (authorize-IsPermitted gateway request g.ledger (at_plan others g).ledger
                      (at_run others g).ledger)
                    q,
                subst (IsSpent now input g₁) (ap (λ p. p.0) done) spent,
              )
      ]
