-- ===== src/Authoring/Tests.antt =====
-- A draft that one person writes and another releases, while the first one tries to.
use ehfconcept.Prelude.{
  ◌≡◌, refl, ℕ, true, String, [], ◌∷◌, none, some, update_rows, returned, err, advance_nth,
}
use ehfconcept.Contracts.Value.{undefined}
use ehfconcept.Authoring.Drafts.{
  Sources, LifecycleInput, Draft, answered, authoring_contributors, new_draft, created_event,
  evaluated, approved, set_authoring_lifecycle, authoring_step,
}
use ehfconcept.Authoring.Duties.{Plane, Reach, here, next, IsBarred, contributors_never_release}
use ehfconcept.Authoring.Duties

abbrev sources : Sources
sources = record {
  package_source = "package";
  workflow_source = "workflow";
  parsed_package = undefined;
  parsed_workflow = undefined;
  name = "onboarding";
  domain = "kyc";
  version = "1";
  diagnostics = undefined;
  actor = "alice";
}

-- Alice has written the draft, and it was evaluated.
abbrev evaluated_draft : Draft
evaluated_draft = record (new_draft 1 "draft_1" "T" sources) { status = evaluated }

abbrev start : Plane
start = record {
  db = record { drafts = evaluated_draft ∷ []; events = created_event "draft_1" sources ∷ [] };
  calls = [];
}

abbrev approval_by : String → LifecycleInput
approval_by actor = record {
  expected_status = evaluated;
  status = approved;
  actor = actor;
  compiled_plan = none;
  diagnostics = none;
  evaluation_report = none;
  published_plan_digest = none;
}

-- Alice and Bob ask for the approval at the same time.
abbrev asked : Plane
asked = record start {
  calls =
      set_authoring_lifecycle "draft_1" (approval_by "bob")
      ∷ set_authoring_lifecycle "draft_1" (approval_by "alice")
      ∷ [];
}

abbrev turn : ℕ → ℕ → Plane → Plane
turn n now s =
    let (db, calls) = advance_nth (authoring_step now true) n s.calls s.db in
    record { db = db; calls = calls }

abbrev finished : Plane
finished = turn 0 6 (turn 0 5 (turn 1 4 (turn 0 3 asked)))

bob_has_approved :
    finished.db.drafts
    ≡ record evaluated_draft { status = approved; approved_by = some "bob"; updated_at = 5 } ∷ []
unfolding authoring_step set_authoring_lifecycle update_rows returned
bob_has_approved = refl

alice_was_refused :
    (authoring_step 4 true (set_authoring_lifecycle "draft_1" (approval_by "alice")) asked.db).1
    ≡ answered (err "authoring.separation_of_duties")
unfolding authoring_step set_authoring_lifecycle authoring_contributors
alice_was_refused = refl

contributors_never_release_example : IsBarred "draft_1" "alice" finished
unfolding authoring_contributors
contributors_never_release_example =
    contributors_never_release "draft_1" "alice" start finished
      (next
        (next
          (next
            (next
              (next (next here (Duties.transition "draft_1" (approval_by "alice")))
                (Duties.transition "draft_1" (approval_by "bob")))
              (Duties.advance 0 3 true))
            (Duties.advance 1 4 true))
          (Duties.advance 0 5 true))
        (Duties.advance 0 6 true))
      (record { contributed = refl; uncleared = tt; unreleased = (refl, tt) })
