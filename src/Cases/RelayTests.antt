-- ===== src/Cases/RelayTests.antt =====
-- One event that is claimed, taken, marked and purged.
use ehfconcept.Prelude.{
  ◌≡◌, ◌⊎◌, refl, ℕ, List, delete_rows, update_rows, Bool, true, false, String, [], ◌∷◌, none, some,
  includes,
}
use ehfconcept.Cases.Relay.{
  Pending, RelayOptions, claim_batch, claim_timeout, batch_limit, by_age, mark_published,
}
use ehfconcept.Cases.Delivery
use ehfconcept.Cases.Delivery.{Relays, Relayed, here, next, no_event_is_lost}
use ehfconcept.Cases.Outbox.{holds}
use ehfconcept.Cases.Drain.{Turn, purging, drained, drain_nth}

abbrev event : Pending
event = record {
  outbox_id = "O1";
  tenant_id = "T";
  case_id = "C";
  event_type = "case.created";
  classification = "CONFIDENTIAL";
  created_at = 5;
  published_at = none;
  publish_attempts = 0;
  publish_claim_id = none;
  publish_claimed_at = none;
}

abbrev defaults : RelayOptions
defaults = record { batch_size = none; claim_timeout_ms = none; retention_days = some 1 }

abbrev nothing_locked : String → Bool
nothing_locked id = false

abbrev start : Relays
start = record { post = record { rows = event ∷ []; sent = [] }; drains = [] }

abbrev turn_at : ℕ → Turn
turn_at now = record {
  now = now;
  source = "case";
  options = defaults;
  locked = nothing_locked;
  succeeds = true;
}

-- A relay claims the event, publishes it, marks it, and purges it two days later.
abbrev finished : Relays
finished = record {
  post =
      (drain_nth (turn_at 172800000000) 0 (purging 1 ∷ []) (record {
        rows =
            mark_published 102 "A"
              (claim_batch 100 "A" "case" defaults nothing_locked (event ∷ [])).records
              (claim_batch 100 "A" "case" defaults nothing_locked (event ∷ [])).rows;
        sent = "O1" ∷ [];
      })).0;
  drains = drained ∷ [];
}

finished_is_purged : finished.post.rows ≡ []
unfolding drain_nth claim_batch claim_timeout batch_limit by_age delete_rows update_rows
finished_is_purged = refl

no_event_is_lost_example :
    (holds "O1" finished.post.rows ≡ true) ⊎ (includes finished.post.sent "O1" ≡ true)
unfolding drain_nth claim_batch claim_timeout batch_limit by_age delete_rows update_rows
no_event_is_lost_example =
    no_event_is_lost {s = start} {t = finished} "O1" (λ p. absurd (cc p), tt) refl refl
      (next
        (next
          (next (next (next here (Delivery.begin "A")) (Delivery.advance 0 (turn_at 100)))
            (Delivery.advance 0 (turn_at 101)))
          (Delivery.advance 0 (turn_at 102)))
        (Delivery.advance 0 (turn_at 172800000000)))

abbrev claimed : List Pending
claimed = (claim_batch 100 "A" "case" defaults nothing_locked start.post.rows).rows
