-- ===== src/Cases/Outbox.antt =====
-- packages/case-store/src/outbox-relay.ts: what the statements of a relay leave of the rows of an outbox.
use ehfconcept.Prelude.{
  ℕ, ◌≡◌, ◌⊎◌, inl, inr, refl, ap, subst, ◌∙◌, Bool, true, false, String, List, [], ◌∷◌, ◌++◌,
  Option, ◌==◌, compare_texts, arith, eq_iff, Bool-cases, Option-cases, is_some, or_else, ℕ,
  includes, find, update_rows, delete_rows, All,
}
use ehfconcept.Cases.Drain.{Post}
use ehfconcept.Cases.Relay.{Pending, claim_pending, mark_row, release_row, is_aged}

abbrev pub WasTaken : List String → Pending → Type 0
WasTaken sent r = is_some r.published_at ≡ true → includes sent r.outbox_id ≡ true

-- What is marked as published was taken by the sink.
abbrev pub IsHonest : Post → Type 0
IsHonest s = All (WasTaken s.sent) s.rows

pub includes-more :
    (xs ys : List String) (id : String) → includes ys id ≡ true → includes (xs ++ ys) id ≡ true
includes-more [] ys id h = h
includes-more (x ∷ xs) ys id h = ground (arith, includes-more xs ys id h)

pub All-weaken :
    {P Q : Pending → Type 0} (rs : List Pending) → ((r : Pending) → P r → Q r) → All P rs → All Q rs
All-weaken [] h a = tt
All-weaken (r ∷ rs) h a = (h r a.0, All-weaken rs h a.1)

pub All-delete_rows :
    (P : Pending → Type 0) (p : Pending → Bool) (rs : List Pending)
    → All P rs
    → All P (delete_rows p rs)
unfolding delete_rows
All-delete_rows P p [] a = tt
All-delete_rows P p (r ∷ rs) a = elim (Bool-cases (p r)) [
  | inl y ↦ rw (y, delete_rows) (All-delete_rows P p rs a.1)
  | inr n ↦ rw (n, delete_rows) (a.0, All-delete_rows P p rs a.1)
]

pub claim-WasTaken :
    (sent : List String) (now : ℕ) (claim_id : String) (ids : List String) (r : Pending)
    → WasTaken sent r
    → WasTaken sent (or_else (claim_pending now claim_id ids r) r)
unfolding claim_pending
claim-WasTaken sent now claim_id ids r h p = ground (arith, h)

pub release-WasTaken :
    (sent : List String) (claim_id : String) (r : Pending)
    → WasTaken sent r
    → WasTaken sent (or_else (release_row claim_id r) r)
unfolding release_row
release-WasTaken sent claim_id r h p = ground (arith, h)

pub mark-WasTaken :
    (sent : List String) (now : ℕ) (claim_id : String) (ids : List String) (r : Pending)
    → ((id : String) → includes ids id ≡ true → includes sent id ≡ true)
    → WasTaken sent r
    → WasTaken sent (or_else (mark_row now claim_id ids r) r)
unfolding mark_row
mark-WasTaken sent now claim_id ids r all h p = ground (arith, h, all r.outbox_id)

abbrev pub holds : String → List Pending → Bool
holds id rows = is_some (find (λ (r : Pending). r.outbox_id == id) rows)

pub holds-update_rows :
    (id : String) (f : Pending → Option Pending) (rs : List Pending)
    → ((r : Pending) → (or_else (f r) r).outbox_id ≡ r.outbox_id)
    → holds id (update_rows f rs) ≡ holds id rs
unfolding update_rows
holds-update_rows id f [] keep = refl
holds-update_rows id f (r ∷ rs) keep =
    let rest = holds-update_rows id f rs keep in
    elim (Bool-cases (r.outbox_id == id)) [
      | inl y ↦ rw (y, ap (λ x. x == id) (keep r) ∙ y, update_rows) refl
      | inr n ↦ rw (n, ap (λ x. x == id) (keep r) ∙ n, update_rows) rest
    ]

pub claim-outbox_id :
    (now : ℕ) (claim_id : String) (ids : List String) (r : Pending)
    → (or_else (claim_pending now claim_id ids r) r).outbox_id ≡ r.outbox_id
unfolding claim_pending
claim-outbox_id now claim_id ids r = ground arith

pub mark-outbox_id :
    (now : ℕ) (claim_id : String) (ids : List String) (r : Pending)
    → (or_else (mark_row now claim_id ids r) r).outbox_id ≡ r.outbox_id
unfolding mark_row
mark-outbox_id now claim_id ids r = ground arith

pub release-outbox_id :
    (claim_id : String) (r : Pending) → (or_else (release_row claim_id r) r).outbox_id ≡ r.outbox_id
unfolding release_row
release-outbox_id claim_id r = ground arith

pub holds-append :
    (id : String) (rs : List Pending) (r : Pending)
    → holds id rs ≡ true
    → holds id (rs ++ r ∷ []) ≡ true
holds-append id [] r h = absurd (cc h)
holds-append id (x ∷ xs) r h = ground (arith, holds-append id xs r)

aged-published :
    (now days : ℕ) (r : Pending) → is_aged now days r ≡ true → is_some r.published_at ≡ true
aged-published now days r h = elim (Option-cases r.published_at) [
  | inl n ↦ let no : false ≡ true = rw n at h in absurd (cc no)
  | inr (at, p) ↦ ap (λ o. is_some o) p
]

pub holds-purge_published :
    (id : String) (sent : List String) (now days : ℕ) (rs : List Pending)
    → All (WasTaken sent) rs
    → holds id rs ≡ true
    → (holds id (delete_rows (is_aged now days) rs) ≡ true) ⊎ (includes sent id ≡ true)
unfolding delete_rows
holds-purge_published id sent now days [] w h = inl h
holds-purge_published id sent now days (r ∷ rs) w h = elim (Bool-cases (r.outbox_id == id)) [
  | inl mine ↦ elim (Bool-cases (is_aged now days r)) [
    | inl old ↦ inr (
        subst (λ x. includes sent x ≡ true) ((eq_iff _ _).0 mine)
          (w.0 (aged-published now days r old)))
    | inr young ↦ inl (rw (young, mine, delete_rows) refl)
  ]
  | inr other ↦
      let below : holds id rs ≡ true = rw other at h in
      elim (holds-purge_published id sent now days rs w.1 below) [
        | inr taken ↦ inr taken
        | inl kept ↦ elim (Bool-cases (is_aged now days r)) [
          | inl old ↦ inl (rw (old, delete_rows) kept)
          | inr young ↦ inl (rw (young, other, delete_rows) kept)
        ]
      ]
]
