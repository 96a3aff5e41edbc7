-- ===== src/Authoring/Duties.antt =====
-- Separation of duties: who may approve and publish a draft (packages/persistence/src/index.ts), whatever
-- operations run at the same time.
use ehfconcept.Prelude.{
  ℕ, zero, suc, ◌≡◌, inl, inr, subst, Bool, true, false, ◌&&◌, ◌||◌, String, List, [], ◌∷◌, ◌++◌,
  none, ◌==◌, compare_texts, compare_numbers, includes, is_some, is_text, All, All-append,
  All-update_rows, or_else, returned, arith, eq_iff, Option-cases, Bool-cases, advance_nth,
}
use ehfconcept.Authoring.Drafts.{
  releases, Draft, AuthoringEvent, AuthoringDb, Sources, LifecycleInput, Call, creating, updating,
  checking, changing, logging, answered, insert_draft, change_sources, get_authoring_draft,
  create_authoring_draft, authoring_contributors, update_sources_row, update_authoring_sources,
  lifecycle_row, set_authoring_lifecycle, check_separation, change_lifecycle, log_event,
  authoring_step,
}

-- The store and the calls that are under way.
pub record Plane : Type 0 where
  pub db : AuthoringDb
  pub calls : List Call

-- A call comes in, or one of those under way does its next statement. A call that stops just takes no
-- further step.
pub data Step (s : Plane) : Plane → Type 0 where
  create :
      (draft_id tenant : String) (input : Sources)
      → Step s (record s { calls = create_authoring_draft draft_id tenant input ∷ s.calls })
  update :
      (draft_id : String) (revision : ℕ) (input : Sources)
      → Step s (record s { calls = update_authoring_sources draft_id revision input ∷ s.calls })
  transition :
      (draft_id : String) (input : LifecycleInput)
      → Step s (record s { calls = set_authoring_lifecycle draft_id input ∷ s.calls })
  advance :
      (n now : ℕ) (succeeds : Bool)
      → Step s (
          let (db, calls) = advance_nth (authoring_step now succeeds) n s.calls s.db in
          record { db = db; calls = calls })

pub data Reach (s : Plane) : Plane → Type 0 where
  here : Reach s s
  next : {t u : Plane} → Reach s t → Step t u → Reach s u

-- The draft is not released by the actor.
abbrev pub NotReleasedBy : String → String → Draft → Type 0
NotReleasedBy k actor d =
    (d.draft_id == k && (is_text d.approved_by actor || is_text d.published_by actor)) ≡ false

-- The call is not one of the actor, to release the draft, that has already looked at who contributed.
abbrev pub NotCleared : String → String → Call → Type 0
NotCleared k actor (changing draft_id input) =
    (draft_id == k && input.actor == actor && releases input) ≡ false
NotCleared k actor c = Unit

module _ (k actor : String) where
  -- The log has the actor as a contributor of the draft, who has not released it.
  pub record IsBarred (s : Plane) : Type 0 where
    pub contributed : includes (authoring_contributors k s.db.events) actor ≡ true
    pub uncleared : All (NotCleared k actor) s.calls
    pub unreleased : All (NotReleasedBy k actor) s.db.drafts

  record Bars (db : AuthoringDb) (c : Call) : Type 0 where
    contributed : includes (authoring_contributors k db.events) actor ≡ true
    uncleared : NotCleared k actor c
    unreleased : All (NotReleasedBy k actor) db.drafts

  contributors-append :
      (es : List AuthoringEvent) (e : AuthoringEvent)
      → includes (authoring_contributors k es) actor ≡ true
      → includes (authoring_contributors k (es ++ e ∷ [])) actor ≡ true
  unfolding authoring_contributors
  contributors-append [] e h = absurd (cc h)
  contributors-append (x ∷ es) e h = ground (arith, contributors-append es e)

  sources-NotReleasedBy :
      (now : ℕ) (draft_id : String) (revision : ℕ) (input : Sources) (d : Draft)
      → NotReleasedBy k actor d
      → NotReleasedBy k actor (or_else (update_sources_row now draft_id revision input d) d)
  unfolding update_sources_row
  sources-NotReleasedBy now draft_id revision input d h = ground arith

  lifecycle-NotReleasedBy :
      (now : ℕ) (draft_id : String) (input : LifecycleInput) (d : Draft)
      → NotCleared k actor (changing draft_id input)
      → NotReleasedBy k actor d
      → NotReleasedBy k actor (or_else (lifecycle_row now draft_id input d) d)
  unfolding lifecycle_row
  lifecycle-NotReleasedBy now draft_id input d c h =
      ground (arith, eq_iff d.draft_id draft_id, eq_iff d.draft_id k, eq_iff draft_id k)

  insert_draft-Bars :
      (now : ℕ) (draft_id tenant : String) (input : Sources) (db : AuthoringDb)
      → Bars db (creating draft_id tenant input)
      → Bars
          (insert_draft now draft_id tenant input db).0
          (insert_draft now draft_id tenant input db).1
  unfolding insert_draft
  insert_draft-Bars now draft_id tenant input db b =
      elim (Bool-cases (is_some (get_authoring_draft draft_id none db.drafts))) [
        | inl y ↦
            rw (y, insert_draft)
              (record { contributed = b.contributed; uncleared = tt; unreleased = b.unreleased })
        | inr n ↦
            rw (n, insert_draft)
              (record {
                contributed = b.contributed;
                uncleared = tt;
                unreleased =
                    All-append (NotReleasedBy k actor) db.drafts _ b.unreleased
                      (unreleased_yet (draft_id == k), tt);
              })
      ]
    where
      unreleased_yet : (x : Bool) → (x && (is_text none actor || is_text none actor)) ≡ false
      unreleased_yet x = ground arith

  change_sources-Bars :
      (now : ℕ) (draft_id : String) (revision : ℕ) (input : Sources) (db : AuthoringDb)
      → Bars db (updating draft_id revision input)
      → Bars
          (change_sources now draft_id revision input db).0
          (change_sources now draft_id revision input db).1
  unfolding change_sources
  change_sources-Bars now draft_id revision input db b =
      elim (Option-cases (returned (update_sources_row now draft_id revision input) db.drafts)) [
        | inl n ↦
            rw (n, change_sources)
              (record { contributed = b.contributed; uncleared = tt; unreleased = b.unreleased })
        | inr (row, n) ↦
            rw (n, change_sources)
              (record {
                contributed = b.contributed;
                uncleared = tt;
                unreleased =
                    All-update_rows (NotReleasedBy k actor) _ db.drafts
                      (λ d h. sources-NotReleasedBy now draft_id revision input d h) b.unreleased;
              })
      ]

  change_lifecycle-Bars :
      (now : ℕ) (draft_id : String) (input : LifecycleInput) (db : AuthoringDb)
      → Bars db (changing draft_id input)
      → Bars (change_lifecycle now draft_id input db).0 (change_lifecycle now draft_id input db).1
  unfolding change_lifecycle
  change_lifecycle-Bars now draft_id input db b =
      elim (Option-cases (returned (lifecycle_row now draft_id input) db.drafts)) [
        | inl n ↦
            rw (n, change_lifecycle)
              (record { contributed = b.contributed; uncleared = tt; unreleased = b.unreleased })
        | inr (row, n) ↦
            rw (n, change_lifecycle)
              (record {
                contributed = b.contributed;
                uncleared = tt;
                unreleased =
                    All-update_rows (NotReleasedBy k actor) _ db.drafts
                      (λ d h. lifecycle-NotReleasedBy now draft_id input d b.uncleared h)
                      b.unreleased;
              })
      ]

  check_separation-NotCleared :
      (draft_id : String) (input : LifecycleInput) (db : AuthoringDb)
      → includes (authoring_contributors k db.events) actor ≡ true
      → NotCleared k actor (check_separation draft_id input db)
  unfolding check_separation
  check_separation-NotCleared draft_id input db h =
      elim (Bool-cases (includes (authoring_contributors draft_id db.events) input.actor)) [
        | inl y ↦ rw (y, check_separation) tt
        | inr n ↦ rw (n, check_separation) (outsider n)
      ]
    where
      outsider :
          includes (authoring_contributors draft_id db.events) input.actor ≡ false
          → (draft_id == k && input.actor == actor && releases input) ≡ false
      outsider n = elim (Bool-cases (draft_id == k && input.actor == actor)) [
        | inr other ↦ ground arith
        | inl same ↦
            let (id, who) = both (draft_id == k) (input.actor == actor) same in
            let no : includes (authoring_contributors k db.events) actor ≡ false =
              subst (λ x. includes (authoring_contributors x db.events) actor ≡ false)
                ((eq_iff draft_id k).0 id)
                (subst (λ x. includes (authoring_contributors draft_id db.events) x ≡ false)
                  ((eq_iff input.actor actor).0 who) n) in
            absurd (cc (h, no))
      ]
        where
          both : (a b : Bool) → (a && b) ≡ true → (a ≡ true) × (b ≡ true)
          both a b e = (ground arith, ground arith)

  authoring_step-Bars :
      (now : ℕ) (succeeds : Bool) (c : Call) (db : AuthoringDb)
      → Bars db c
      → Bars (authoring_step now succeeds c db).0 (authoring_step now succeeds c db).1
  unfolding authoring_step log_event
  authoring_step-Bars now false c db b = record {
    contributed = b.contributed;
    uncleared = tt;
    unreleased = b.unreleased;
  }
  authoring_step-Bars now true (creating draft_id tenant input) db b =
      insert_draft-Bars now draft_id tenant input db b
  authoring_step-Bars now true (updating draft_id revision input) db b =
      change_sources-Bars now draft_id revision input db b
  authoring_step-Bars now true (checking draft_id input) db b = record {
    contributed = b.contributed;
    uncleared = check_separation-NotCleared draft_id input db b.contributed;
    unreleased = b.unreleased;
  }
  authoring_step-Bars now true (changing draft_id input) db b =
      change_lifecycle-Bars now draft_id input db b
  authoring_step-Bars now true (logging e row) db b = record {
    contributed = contributors-append db.events e b.contributed;
    uncleared = tt;
    unreleased = b.unreleased;
  }
  authoring_step-Bars now true (answered r) db b = b

  advance_nth-IsBarred :
      (now : ℕ) (succeeds : Bool) (n : ℕ) (cs : List Call) (db : AuthoringDb)
      → IsBarred (record { db = db; calls = cs })
      → IsBarred (record {
        db = (advance_nth (authoring_step now succeeds) n cs db).0;
        calls = (advance_nth (authoring_step now succeeds) n cs db).1;
      })
  advance_nth-IsBarred now succeeds n [] db b = b
  advance_nth-IsBarred now succeeds zero (c ∷ cs) db b =
      let stepped = authoring_step-Bars now succeeds c db (record {
        contributed = b.contributed;
        uncleared = b.uncleared.0;
        unreleased = b.unreleased;
      }) in
      record {
        contributed = stepped.contributed;
        uncleared = (stepped.uncleared, b.uncleared.1);
        unreleased = stepped.unreleased;
      }
  advance_nth-IsBarred now succeeds (suc n) (c ∷ cs) db b =
      let rest = advance_nth-IsBarred now succeeds n cs db (record {
        contributed = b.contributed;
        uncleared = b.uncleared.1;
        unreleased = b.unreleased;
      }) in
      record {
        contributed = rest.contributed;
        uncleared = (b.uncleared.0, rest.uncleared);
        unreleased = rest.unreleased;
      }

  set_authoring_lifecycle-NotCleared :
      (draft_id : String) (input : LifecycleInput)
      → NotCleared k actor (set_authoring_lifecycle draft_id input)
  unfolding set_authoring_lifecycle
  set_authoring_lifecycle-NotCleared draft_id input = elim (Bool-cases (releases input)) [
    | inl y ↦ rw (y, set_authoring_lifecycle) tt
    | inr n ↦
        rw (n, set_authoring_lifecycle)
          (harmless (draft_id == k) (input.actor == actor) (releases input) n)
  ]
    where
      harmless : (a b c : Bool) → c ≡ false → (a && b && c) ≡ false
      harmless a b c e = ground arith

  Step-IsBarred : {s t : Plane} → Step s t → IsBarred s → IsBarred t
  unfolding create_authoring_draft update_authoring_sources
  Step-IsBarred (create draft_id tenant input) b = record {
    contributed = b.contributed;
    uncleared = (tt, b.uncleared);
    unreleased = b.unreleased;
  }
  Step-IsBarred (update draft_id revision input) b = record {
    contributed = b.contributed;
    uncleared = (tt, b.uncleared);
    unreleased = b.unreleased;
  }
  Step-IsBarred (transition draft_id input) b = record {
    contributed = b.contributed;
    uncleared = (set_authoring_lifecycle-NotCleared draft_id input, b.uncleared);
    unreleased = b.unreleased;
  }
  Step-IsBarred {s} (advance n now succeeds) b = advance_nth-IsBarred now succeeds n s.calls s.db b

  -- Once the log has an actor as a contributor of a draft, who has not released it and has no call under way
  -- that already looked at the contributors, that actor never comes to stand as its approver or publisher:
  -- whatever is created, edited and moved on by anyone, however the statements of these calls mix, fail or
  -- stop.
  pub contributors_never_release : (s t : Plane) → Reach s t → IsBarred s → IsBarred t
  contributors_never_release s t here b = b
  contributors_never_release s u (next {t} reach step) b =
      Step-IsBarred step (contributors_never_release s t reach b)
