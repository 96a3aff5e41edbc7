-- ===== src/Access/Decisions.antt =====
-- What a decision of packages/identity/src/authorization.ts means.
use ehfconcept.Prelude.{
  ◌≡◌, ◌≢◌, ◌↔◌, ◌⊎◌, inl, inr, refl, Bool, true, false, not, ◌&&◌, String, List, Option, none,
  some, includes, ok, err, arith, eq_iff, ◌==◌, compare_texts, ap, sym, subst, or_else, find, All,
  All-find, ◌||◌, Bool-cases, Option-cases,
}
use ehfconcept.Access.Roles.{
  decision, PlatformAction, Principal, ResourceRef, AuthorizationDecision, RoleRow, role_table,
  role_actions, actions_for_roles, is_foreign, evaluate, require_action, http_status, Grants,
  actions_for_roles-Grants,
}

-- One of the principal's roles grants the action, and a tenant that the resource names is the principal's.
pub record MayAct (principal : Principal) (action : PlatformAction) (resource : ResourceRef)
    : Type 0 where
  pub granted : Grants principal.roles action
  pub own :
      (tenant : String)
      → resource.tenant_id ≡ some tenant
      → tenant ≢ ""
      → tenant ≡ principal.tenant_id

foreign-own :
    (resource : ResourceRef) (principal : Principal)
    → is_foreign resource principal ≡ false
    → (tenant : String) → resource.tenant_id ≡ some tenant
    → tenant ≢ ""
    → tenant ≡ principal.tenant_id
unfolding is_foreign
foreign-own resource principal f tenant e named =
    let g : (not (tenant == "") && not (tenant == principal.tenant_id)) ≡ false =
      rw (e, is_foreign) at f in
    ground (arith, eq_iff tenant "", eq_iff tenant principal.tenant_id)

own-foreign :
    (resource : ResourceRef) (principal : Principal)
    → ((tenant : String)
        → resource.tenant_id ≡ some tenant
        → tenant ≢ ""
        → tenant ≡ principal.tenant_id)
    → is_foreign resource principal ≡ false
unfolding is_foreign
own-foreign resource principal own = elim (Option-cases resource.tenant_id) [
  | inl n ↦ rw n refl
  | inr (tenant, e) ↦ rw e (names tenant (own tenant e))
]
  where
    names :
        (tenant : String)
        → (tenant ≢ "" → tenant ≡ principal.tenant_id)
        → (not (tenant == "") && not (tenant == principal.tenant_id)) ≡ false
    names tenant own = elim (Bool-cases (tenant == "")) [
      | inl t ↦ rw t refl
      | inr t ↦
          ground
            (arith, eq_iff tenant principal.tenant_id, own (λ e. cc (t, (eq_iff tenant "").1 e)))
    ]

allowed_tests :
    (p : Principal) (action : PlatformAction) (resource : ResourceRef) (d : AuthorizationDecision)
    → require_action (some p) action resource ≡ ok d
    → (includes (actions_for_roles p.roles) action ≡ true) × (is_foreign resource p ≡ false)
unfolding require_action evaluate
allowed_tests p action resource d e = ground arith

tests_allowed :
    (p : Principal) (action : PlatformAction) (resource : ResourceRef)
    → includes (actions_for_roles p.roles) action ≡ true
    → is_foreign resource p ≡ false
    → require_action (some p) action resource ≡ ok (evaluate (some p) action resource)
unfolding require_action evaluate
tests_allowed p action resource g f = ground arith

denied_none :
    (action : PlatformAction) (resource : ResourceRef) (d : AuthorizationDecision)
    → require_action none action resource ≡ ok d
    → ⊥
unfolding require_action evaluate
denied_none action resource d e = cc e

reason_none :
    (action : PlatformAction) (resource : ResourceRef)
    → http_status (evaluate none action resource) ≡ 401
unfolding http_status evaluate decision
reason_none action resource = refl

reason_some :
    (p : Principal) (action : PlatformAction) (resource : ResourceRef)
    → http_status (evaluate (some p) action resource) ≡ 403
unfolding http_status evaluate decision
reason_some p action resource = elim (Bool-cases (includes (actions_for_roles p.roles) action)) [
  | inr t ↦ rw t refl
  | inl t ↦ elim (Bool-cases (is_foreign resource p)) [
    | inl u ↦ rw (t, u) refl
    | inr u ↦ rw (t, u) refl
  ]
]

refused_decision :
    (principal : Option Principal) (action : PlatformAction) (resource : ResourceRef)
    (d : AuthorizationDecision)
    → require_action principal action resource ≡ err d
    → evaluate principal action resource ≡ d
unfolding require_action
refused_decision principal action resource d e = ground arith

-- A request passes exactly when there is a principal, one of its roles grants the action, and the tenant
-- that the resource names, if it names one that is not empty, is the principal's own.
pub require_action-MayAct :
    (principal : Option Principal) (action : PlatformAction) (resource : ResourceRef)
    → ((d : AuthorizationDecision) × (require_action principal action resource ≡ ok d))
      ↔ ((p : Principal) × (principal ≡ some p) × MayAct p action resource)
require_action-MayAct none action resource = (
  λ (d, e). absurd (denied_none action resource d e),
  λ (p, e, m). absurd (let no : none ≡ some p = e in cc),
)
require_action-MayAct (some p) action resource = (passes, allows)
  where
    passes :
        ((d : AuthorizationDecision) × (require_action (some p) action resource ≡ ok d))
        → ((q : Principal) × (some p ≡ some q) × MayAct q action resource)
    passes (d, e) =
        let (granted, own) = allowed_tests p action resource d e in
        (
          p,
          refl,
          record {
            granted = (actions_for_roles-Grants p.roles action).0 granted;
            own = foreign-own resource p own;
          },
        )

    allows :
        ((q : Principal) × (some p ≡ some q) × MayAct q action resource)
        → ((d : AuthorizationDecision) × (require_action (some p) action resource ≡ ok d))
    allows (q, e, m) =
        let same : p ≡ q = ap (λ o. or_else o p) e in
        let m' : MayAct p action resource = subst (λ z. MayAct z action resource) (sym same) m in
        (
          evaluate (some p) action resource,
          tests_allowed p action resource ((actions_for_roles-Grants p.roles action).1 m'.granted)
              (own-foreign resource p m'.own),
        )

-- The answer to a refused request is 401 when there is no principal and 403 otherwise.
pub refusal_status :
    (principal : Option Principal) (action : PlatformAction) (resource : ResourceRef)
    (d : AuthorizationDecision)
    → require_action principal action resource ≡ err d
    → ((principal ≡ none) × (http_status d ≡ 401))
      ⊎ ((p : Principal) × (principal ≡ some p) × (http_status d ≡ 403))
refusal_status none action resource d e = inl (
  refl,
  subst (λ x. http_status x ≡ 401) (refused_decision none action resource d e)
      (reason_none action resource),
)
refusal_status (some p) action resource d e = inr (
  p,
  refl,
  subst (λ x. http_status x ≡ 403) (refused_decision (some p) action resource d e)
      (reason_some p action resource),
)

abbrev pub writes_drafts : List PlatformAction → Bool
writes_drafts actions = includes actions "draft.write" || includes actions "draft.compile"

abbrev pub approves_drafts : List PlatformAction → Bool
approves_drafts actions = includes actions "draft.approve" || includes actions "draft.publish"

abbrev IsSeparate : RoleRow → Type 0
IsSeparate r = (writes_drafts r.actions && approves_drafts r.actions) ≡ false

IsSeparate-rows : All IsSeparate role_table
IsSeparate-rows =
    (refl, (refl, (refl, (refl, (refl, (refl, (refl, (refl, (refl, (refl, (refl, tt)))))))))))

second_false : (a b : Bool) → a ≡ true → (a && b) ≡ false → b ≡ false
second_false a b h k = ground arith

-- No role grants both an action that writes or compiles a draft and one that approves or publishes it.
pub author_roles_cannot_approve :
    (role : String)
    → writes_drafts (role_actions role) ≡ true
    → approves_drafts (role_actions role) ≡ false
unfolding role_actions
author_roles_cannot_approve role h =
    elim (Option-cases (find (λ (r : RoleRow). r.role == role) role_table)) [
      | inl n ↦ rw (n, role_actions) refl
      | inr (row, f) ↦
          let (apart, named) =
            All-find IsSeparate (λ (r : RoleRow). r.role == role) role_table row IsSeparate-rows
              f in
          let w : writes_drafts row.actions ≡ true = rw (f, role_actions) at h in
          rw (f, role_actions) (second_false _ _ w apart)
    ]
