-- ===== src/Access/Roles.antt =====
-- packages/identity/src/authorization.ts: roles, actions and decisions.
use ehfconcept.Prelude.{
  ℕ, ◌≡◌, ◌↔◌, ◌⊎◌, refl, Bool, true, false, not, ◌&&◌, ◌||◌, String, List, [], ◌∷◌, ◌++◌, Option,
  none, some, ◌==◌, compare_texts, if◌then◌else◌, includes, find, Result, ok, err, arith,
}

-- `PlatformAction` by the names of the source.
abbrev pub PlatformAction : Type 0
PlatformAction = String

abbrev pub read_actions : List PlatformAction
read_actions =
    "plan.read" ∷ "run.read" ∷ "draft.read" ∷ "capability.read" ∷ "case.read" ∷ "evidence.read"
    ∷ "receipt.read" ∷ "event.read" ∷ []

pub record RoleRow : Type 0 where
  pub role : String
  pub actions : List PlatformAction

-- `ROLE_ACTIONS`
abbrev pub role_table : List RoleRow
role_table =
    record { role = "Harness.Reader"; actions = read_actions }
    ∷ record {
      role = "Harness.Author";
      actions =
          read_actions
          ++ "draft.write" ∷ "draft.compile" ∷ "draft.evaluate" ∷ "agent.register"
            ∷ "capability.register" ∷ [];
    }
    ∷ record {
      role = "Harness.Approver";
      actions = read_actions ++ "draft.approve" ∷ "draft.publish" ∷ [];
    }
    ∷ record {
      role = "Harness.Operator";
      actions = read_actions ++ "plan.admit" ∷ "run.start" ∷ "run.cancel" ∷ "run.retry" ∷ [];
    }
    ∷ record {
      role = "Case.Analyst";
      actions = "case.read" ∷ "case.write" ∷ "evidence.read" ∷ "evidence.write" ∷ "run.read" ∷ [];
    }
    ∷ record {
      role = "Case.Reviewer";
      actions = "case.read" ∷ "case.review" ∷ "evidence.read" ∷ "run.read" ∷ [];
    }
    ∷ record { role = "Platform.Auditor"; actions = read_actions }
    ∷ record {
      role = "Control.Api.Access";
      actions = "plan.read" ∷ "run.read" ∷ "run.start" ∷ "event.read" ∷ "receipt.read" ∷ [];
    }
    ∷ record {
      role = "Case.Api.Access";
      actions = "case.read" ∷ "case.write" ∷ "evidence.read" ∷ "evidence.write" ∷ [];
    }
    ∷ record { role = "Capability.Invoke"; actions = "capability.read" ∷ [] }
    ∷ record {
      role = "Runtime.State.Write";
      actions = "runtime.state.write" ∷ "envelope.mint" ∷ "plan.read" ∷ "run.read" ∷ [];
    }
    ∷ []

-- `ROLE_ACTIONS[role] ?? []`
unfoldable pub role_actions : String → List PlatformAction
role_actions role = elim (find (λ (r : RoleRow). r.role == role) role_table) [
  | none ↦ []
  | some row ↦ row.actions
]

pub record Principal : Type 0 where
  pub subject_id : String
  pub tenant_id : String
  pub actor_type : String
  pub roles : List String
  pub source : String

pub record ResourceRef : Type 0 where
  pub kind : String
  pub id : Option String
  pub tenant_id : Option String

pub record AuthorizationDecision : Type 0 where
  pub allowed : Bool
  pub reason_code : String
  pub action : PlatformAction
  pub subject_id : String
  pub actor_type : String
  pub tenant_id : String
  pub resource_kind : String
  pub resource_id : Option String

unfoldable pub actions_for_roles : List String → List PlatformAction
actions_for_roles [] = []
actions_for_roles (role ∷ roles) = role_actions role ++ actions_for_roles roles

-- `resource.tenantId && resource.tenantId !== principal.tenantId`; an empty text counts as absent.
unfoldable pub is_foreign : ResourceRef → Principal → Bool
is_foreign resource principal = elim resource.tenant_id [
  | none ↦ false
  | some tenant ↦ not (tenant == "") && not (tenant == principal.tenant_id)
]

unfoldable pub decision :
    Option Principal → PlatformAction → ResourceRef → Bool → String → AuthorizationDecision
decision none action resource allowed code = record {
  allowed = allowed;
  reason_code = code;
  action = action;
  subject_id = "anonymous";
  actor_type = "unknown";
  tenant_id = "unknown";
  resource_kind = resource.kind;
  resource_id = resource.id;
}
decision (some principal) action resource allowed code = record {
  allowed = allowed;
  reason_code = code;
  action = action;
  subject_id = principal.subject_id;
  actor_type = principal.actor_type;
  tenant_id = principal.tenant_id;
  resource_kind = resource.kind;
  resource_id = resource.id;
}

unfoldable pub evaluate : Option Principal → PlatformAction → ResourceRef → AuthorizationDecision
unfolding is_foreign decision
evaluate none action resource =
    decision none action resource false "authorization.principal_unauthenticated"
evaluate (some principal) action resource =
    let decide = decision (some principal) action resource in
    if not (includes (actions_for_roles principal.roles) action)
    then decide false "authorization.role_missing"
    else if is_foreign resource principal
    then decide false "authorization.tenant_mismatch"
    else decide true "authorization.role_granted"

-- `createAuthorizer(...).require`: what it throws, or the decision.
unfoldable pub require_action :
    Option Principal
    → PlatformAction
    → ResourceRef
    → Result AuthorizationDecision AuthorizationDecision
unfolding evaluate
require_action principal action resource =
    let decided = evaluate principal action resource in
    if decided.allowed then ok decided else err decided

-- `AuthorizationError.httpStatus`
unfoldable pub http_status : AuthorizationDecision → ℕ
http_status decided =
    if decided.reason_code == "authorization.principal_unauthenticated" then 401 else 403

-- One of the roles grants the action.
abbrev pub Grants : List String → PlatformAction → Type 0
Grants [] action = ⊥
Grants (role ∷ roles) action = (includes (role_actions role) action ≡ true) ⊎ Grants roles action

includes-append :
    (xs ys : List String) (a : String) → includes (xs ++ ys) a ≡ (includes xs a || includes ys a)
includes-append [] ys a = refl
includes-append (x ∷ xs) ys a = ground (arith, includes-append xs ys a)

pub actions_for_roles-Grants :
    (roles : List String) (action : PlatformAction)
    → (includes (actions_for_roles roles) action ≡ true) ↔ Grants roles action
unfolding actions_for_roles
actions_for_roles-Grants [] action = (λ e. cc e, λ g. absurd g)
actions_for_roles-Grants (role ∷ roles) action = ground (
  arith,
  includes-append (role_actions role) (actions_for_roles roles) action,
  actions_for_roles-Grants roles action,
)
