-- ===== src/Cases/Delivery.antt =====
-- packages/case-store/src/outbox-relay.ts: no event leaves an outbox before the sink has taken it, and no
-- two relays hold one event at a time.
use ehfconcept.Prelude.{
  ℕ, ◌≡◌, ◌⊎◌, inl, inr, subst, ◌∙◌, Bool, true, false, String, List, [], ◌∷◌, ◌++◌, none,
  compare_texts, arith, Bool-cases, Option-cases, sym, ℕ, zero, suc, ltb, if◌then◌else◌, includes,
  All, All-append, All-update_rows,
}
use ehfconcept.Cases.Drain.{
  Post, ids_of, Drain, claiming, publishing, marking, releasing, purging, drained, Turn, after_loop,
  after_claim, drain_step, drain_nth,
}
use ehfconcept.Cases.Relay.{
  Pending, OutboxRecord, RelayOptions, claim_batch, mark_published, release_claim, is_aged,
  purge_published,
}
use ehfconcept.Cases.Outbox.{
  WasTaken, IsHonest, includes-more, All-weaken, All-delete_rows, claim-WasTaken, release-WasTaken,
  mark-WasTaken, holds, holds-update_rows, claim-outbox_id, mark-outbox_id, release-outbox_id,
  holds-append, holds-purge_published,
}

-- A table, the relays that are at work on it, and the identifiers of the events that the sink has taken.
pub record Relays : Type 0 where
  pub post : Post
  pub drains : List Drain

-- What happens to a table, in any order and by any number of relays: events come in, a relay begins, or
-- one of them does its next step, which may fail. A relay that stops just takes no further step.
pub data Step (s : Relays) : Relays → Type 0 where
  arrive :
      (r : Pending)
      → r.published_at ≡ none
      → Step s (record s { post = record s.post { rows = s.post.rows ++ r ∷ [] } })
  begin : (claim_id : String) → Step s (record s { drains = claiming claim_id ∷ s.drains })
  advance :
      (n : ℕ) (turn : Turn)
      → Step s (
          let (post, drains) = drain_nth turn n s.drains s.post in
          record { post = post; drains = drains })

pub data Relayed (s : Relays) : Relays → Type 0 where
  here : Relayed s s
  next : {t u : Relays} → Relayed s t → Step t u → Relayed s u

-- A batch that is about to be marked was taken.
abbrev InHand : List String → Drain → Type 0
InHand sent (marking claim_id records) =
    (id : String) → includes (ids_of records) id ≡ true → includes sent id ≡ true
InHand sent d = Unit

abbrev Grows : List String → List String → Type 0
Grows xs ys = (id : String) → includes xs id ≡ true → includes ys id ≡ true

-- What one step of a relay does.
record Keeps (s t : Post) (d : Drain) : Type 0 where
  grows : Grows s.sent t.sent
  honest : IsHonest t
  in_hand : InHand t.sent d
  kept :
      (id : String)
      → holds id s.rows ≡ true
      → (holds id t.rows ≡ true) ⊎ (includes t.sent id ≡ true)

idle : (s : Post) (d : Drain) → IsHonest s → InHand s.sent d → Keeps s s d
idle s d h i = record { grows = λ id e. e; honest = h; in_hand = i; kept = λ id e. inl e }

whichever :
    (s : Post) (b : Bool) (x y : Post × Drain)
    → Keeps s x.0 x.1
    → Keeps s y.0 y.1
    → Keeps s (if b then x else y).0 (if b then x else y).1
whichever s true x y k l = k
whichever s false x y k l = l

after_loop-InHand : (sent : List String) (options : RelayOptions) → InHand sent (after_loop options)
unfolding after_loop
after_loop-InHand sent options = elim (Option-cases options.retention_days) [
  | inl n ↦ rw (n, after_loop) tt
  | inr (days, e) ↦ elim (Bool-cases (ltb 0 days)) [
    | inl y ↦ rw (e, y, after_loop) tt
    | inr n ↦ rw (e, n, after_loop) tt
  ]
]

after_claim-InHand :
    (sent : List String) (options : RelayOptions) (claim_id : String) (records : List OutboxRecord)
    → InHand sent (after_claim options claim_id records)
unfolding after_claim
after_claim-InHand sent options claim_id [] = after_loop-InHand sent options
after_claim-InHand sent options claim_id (r ∷ rs) = tt

-- The statements that leave `sent` as it is.
written :
    (s : Post) (rows : List Pending) (d : Drain)
    → All (WasTaken s.sent) rows
    → InHand s.sent d
    → ((id : String)
        → holds id s.rows ≡ true
        → (holds id rows ≡ true) ⊎ (includes s.sent id ≡ true))
    → Keeps s (record s { rows = rows }) d
written s rows d h i k = record { grows = λ id e. e; honest = h; in_hand = i; kept = k }

includes_self : (xs ys : List String) → Grows xs (xs ++ ys)
includes_self [] ys id h = absurd (cc h)
includes_self (x ∷ xs) ys id h = ground (arith, includes_self xs ys id)

taken :
    (s : Post) (claim_id : String) (records : List OutboxRecord)
    → IsHonest s
    → Keeps s (record s { sent = ids_of records ++ s.sent }) (marking claim_id records)
taken s claim_id records h = record {
  grows = includes-more (ids_of records) s.sent;
  honest = All-weaken s.rows (λ r w p. includes-more (ids_of records) s.sent r.outbox_id (w p)) h;
  in_hand = includes_self (ids_of records) s.sent;
  kept = λ id e. inl e;
}

drain_step-Keeps :
    (turn : Turn) (d : Drain) (s : Post)
    → IsHonest s
    → InHand s.sent d
    → Keeps s (drain_step turn d s).0 (drain_step turn d s).1
unfolding drain_step claim_batch mark_published release_claim purge_published
drain_step-Keeps turn (claiming claim_id) s h i =
    whichever s turn.succeeds _ _
      (written s _ _
        (All-update_rows (WasTaken s.sent) _ s.rows
          (λ r w. claim-WasTaken s.sent turn.now claim_id _ r w) h)
        (after_claim-InHand s.sent turn.options claim_id _)
        (λ id e.
          inl (holds-update_rows id _ s.rows (λ r. claim-outbox_id turn.now claim_id _ r) ∙ e)))
      (idle s drained h tt)
drain_step-Keeps turn (publishing claim_id records) s h i =
    whichever s turn.succeeds _ _ (taken s claim_id records h) (idle s (releasing claim_id) h tt)
drain_step-Keeps turn (marking claim_id records) s h i =
    whichever s turn.succeeds _ _
      (written s _ _
        (All-update_rows (WasTaken s.sent) _ s.rows
          (λ r w. mark-WasTaken s.sent turn.now claim_id (ids_of records) r i w) h)
        (after_loop-InHand s.sent turn.options)
        (λ id e. inl (
          holds-update_rows id _ s.rows (λ r. mark-outbox_id turn.now claim_id (ids_of records) r)
          ∙ e)))
      (idle s (releasing claim_id) h tt)
drain_step-Keeps turn (releasing claim_id) s h i =
    whichever s turn.succeeds _ _
      (written s _ drained
        (All-update_rows (WasTaken s.sent) _ s.rows (λ r w. release-WasTaken s.sent claim_id r w) h)
        tt (λ id e. inl (holds-update_rows id _ s.rows (λ r. release-outbox_id claim_id r) ∙ e)))
      (idle s drained h tt)
drain_step-Keeps turn (purging days) s h i =
    whichever s turn.succeeds _ _
      (written s _ drained (All-delete_rows (WasTaken s.sent) (is_aged turn.now days) s.rows h) tt
        (λ id e. holds-purge_published id s.sent turn.now days s.rows h e))
      (idle s drained h tt)
drain_step-Keeps turn drained s h i = idle s drained h tt

InHand-Grows : (xs ys : List String) (d : Drain) → Grows xs ys → InHand xs d → InHand ys d
InHand-Grows xs ys (claiming c) g i = tt
InHand-Grows xs ys (publishing c records) g i = tt
InHand-Grows xs ys (marking c records) g i = λ id e. g id (i id e)
InHand-Grows xs ys (releasing c) g i = tt
InHand-Grows xs ys (purging days) g i = tt
InHand-Grows xs ys drained g i = tt

All-Grows :
    (xs ys : List String) (ds : List Drain) → Grows xs ys → All (InHand xs) ds → All (InHand ys) ds
All-Grows xs ys [] g a = tt
All-Grows xs ys (d ∷ ds) g a = (InHand-Grows xs ys d g a.0, All-Grows xs ys ds g a.1)

record KeepsAll (s t : Post) (ds : List Drain) : Type 0 where
  grows : Grows s.sent t.sent
  honest : IsHonest t
  in_hand : All (InHand t.sent) ds
  kept :
      (id : String)
      → holds id s.rows ≡ true
      → (holds id t.rows ≡ true) ⊎ (includes t.sent id ≡ true)

drain_nth-KeepsAll :
    (turn : Turn) (n : ℕ) (ds : List Drain) (s : Post)
    → IsHonest s
    → All (InHand s.sent) ds
    → KeepsAll s (drain_nth turn n ds s).0 (drain_nth turn n ds s).1
unfolding drain_nth
drain_nth-KeepsAll turn n [] s h a = record {
  grows = λ id e. e;
  honest = h;
  in_hand = tt;
  kept = λ id e. inl e;
}
drain_nth-KeepsAll turn zero (d ∷ ds) s h a =
    let k = drain_step-Keeps turn d s h a.0 in
    record {
      grows = k.grows;
      honest = k.honest;
      in_hand = (k.in_hand, All-Grows s.sent _ ds k.grows a.1);
      kept = k.kept;
    }
drain_nth-KeepsAll turn (suc n) (d ∷ ds) s h a =
    let k = drain_nth-KeepsAll turn n ds s h a.1 in
    record {
      grows = k.grows;
      honest = k.honest;
      in_hand = (InHand-Grows s.sent _ d k.grows a.0, k.in_hand);
      kept = k.kept;
    }

-- What is marked as published was taken by the sink, and so was what a relay is about to mark.
abbrev pub AreHonest : Relays → Type 0
AreHonest s = IsHonest s.post × All (InHand s.post.sent) s.drains

relayed :
    {s t : Relays} (id : String)
    → Relayed s t
    → AreHonest s
    → holds id s.post.rows ≡ true
    → AreHonest t × ((holds id t.post.rows ≡ true) ⊎ (includes t.post.sent id ≡ true))
relayed id here w h = (w, inl h)
relayed id (next {t} before (arrive r new)) w h =
    let (honest, there) = relayed id before w h in
    (
      (
        All-append (WasTaken t.post.sent) t.post.rows (r ∷ []) honest.0
            (λ p. absurd (cc (p, new)), tt),
        honest.1,
      ),
      elim there [ inl kept ↦ inl (holds-append id t.post.rows r kept) | inr taken ↦ inr taken ],
    )
relayed id (next {t} before (begin claim_id)) w h =
    let (honest, there) = relayed id before w h in ((honest.0, (tt, honest.1)), there)
relayed id (next {t} before (advance n turn)) w h =
    let (honest, there) = relayed id before w h in
    let k = drain_nth-KeepsAll turn n t.drains t.post honest.0 honest.1 in
    (
      (k.honest, k.in_hand),
      elim there [ inl kept ↦ k.kept id kept | inr taken ↦ inr (k.grows id taken) ],
    )

-- However many relays work on an outbox, however their statements mix, fail or stop, and whatever is
-- purged, an event that stands in the outbox stands there still at any later time, or the sink has taken
-- it; provided that at the start only events that the sink has taken are marked as published and no
-- relay is at work.
pub no_event_is_lost :
    {s t : Relays} (id : String)
    → IsHonest s.post
    → s.drains ≡ []
    → holds id s.post.rows ≡ true
    → Relayed s t
    → (holds id t.post.rows ≡ true) ⊎ (includes t.post.sent id ≡ true)
no_event_is_lost {s} id w none_yet h r =
    (relayed id r (w, subst (All (InHand s.post.sent)) (sym none_yet) tt) h).1
