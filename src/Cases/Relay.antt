-- ===== src/Cases/Relay.antt =====
-- packages/case-store/src/outbox-relay.ts: `drainOutbox` and `purgePublished`, on one table of events
-- that are to leave the store. Times are in microseconds.
use ehfconcept.Prelude.{
  ℕ, zero, suc, ◌+◌, ◌*◌, ◌/◌, min, max, Bool, true, false, not, ◌&&◌, String, List, [], ◌∷◌,
  Option, none, some, ltb, compare_texts, if◌then◌else◌, is_some, is_text, includes, or_else, map,
  filter, update_rows, delete_rows,
}

-- A row of an outbox.
pub record Pending : Type 0 where
  pub outbox_id : String
  pub tenant_id : String
  pub case_id : String
  pub event_type : String
  pub classification : String
  pub created_at : ℕ
  pub published_at : Option ℕ
  pub publish_attempts : ℕ
  pub publish_claim_id : Option String
  pub publish_claimed_at : Option ℕ

pub record OutboxRecord : Type 0 where
  pub outbox_id : String
  pub source : String
  pub tenant_id : String
  pub case_id : String
  pub event_type : String
  pub classification : String
  pub created_at : ℕ

pub record RelayOptions : Type 0 where
  pub batch_size : Option ℕ
  pub claim_timeout_ms : Option ℕ
  pub retention_days : Option ℕ

-- `Math.max(1, Math.min(500, batchSize ?? 100))`
unfoldable pub batch_limit : RelayOptions → ℕ
batch_limit options = max 1 (min 500 (or_else options.batch_size 100))

-- `Math.max(5, Math.ceil((claimTimeoutMs ?? 300_000) / 1000))`
unfoldable pub claim_timeout : RelayOptions → ℕ
claim_timeout options = max 5 ((or_else options.claim_timeout_ms 300000 + 999) / 1000)

-- `publish_claimed_at is null or publish_claimed_at < now() - make_interval(secs => ...)`, where no
-- time is before the interval's length.
abbrev pub is_lapsed : ℕ → ℕ → Option ℕ → Bool
is_lapsed now seconds none = true
is_lapsed now seconds (some at) = ltb (at + seconds * 1000000) now

abbrev pub is_candidate : ℕ → ℕ → (String → Bool) → Pending → Bool
is_candidate now seconds locked r =
    not (is_some r.published_at)
    && is_lapsed now seconds r.publish_claimed_at
    && not (locked r.outbox_id)

-- `order by created_at limit ...`: the first candidate of the oldest, then the rest.
unfoldable pub insert_by_age : Pending → List Pending → List Pending
insert_by_age r [] = r ∷ []
insert_by_age r (x ∷ xs) =
    let rest = insert_by_age r xs in if ltb x.created_at r.created_at then x ∷ rest else r ∷ x ∷ xs

unfoldable pub by_age : List Pending → List Pending
unfolding insert_by_age
by_age [] = []
by_age (r ∷ rs) = insert_by_age r (by_age rs)

unfoldable pub first_ids : ℕ → List Pending → List String
first_ids zero rs = []
first_ids (suc n) [] = []
first_ids (suc n) (r ∷ rs) = r.outbox_id ∷ first_ids n rs

unfoldable pub claim_pending : ℕ → String → List String → Pending → Option Pending
claim_pending now claim_id ids r =
    if includes ids r.outbox_id
    then some (record r {
      publish_claim_id = some claim_id;
      publish_claimed_at = some now;
      publish_attempts = suc r.publish_attempts;
    })
    else none

unfoldable pub record_of : String → Pending → OutboxRecord
record_of source r = record {
  outbox_id = r.outbox_id;
  source = source;
  tenant_id = r.tenant_id;
  case_id = r.case_id;
  event_type = r.event_type;
  classification = r.classification;
  created_at = r.created_at;
}

pub record Claimed : Type 0 where
  pub rows : List Pending
  pub records : List OutboxRecord

-- The transaction that claims. Rows that other transactions hold are skipped.
unfoldable pub claim_batch :
    ℕ → String → String → RelayOptions → (String → Bool) → List Pending → Claimed
unfolding batch_limit claim_timeout by_age first_ids claim_pending record_of
claim_batch now claim_id source options locked rows =
    let ids =
      first_ids (batch_limit options)
        (by_age (filter (is_candidate now (claim_timeout options) locked) rows)) in
    record {
      rows = update_rows (claim_pending now claim_id ids) rows;
      records = map (record_of source) (filter (λ (r : Pending). includes ids r.outbox_id) rows);
    }

unfoldable pub mark_row : ℕ → String → List String → Pending → Option Pending
mark_row now claim_id ids r =
    if is_text r.publish_claim_id claim_id && includes ids r.outbox_id
    then some
        (record r { published_at = some now; publish_claim_id = none; publish_claimed_at = none })
    else none

-- What follows a batch that the sink has taken.
unfoldable pub mark_published : ℕ → String → List OutboxRecord → List Pending → List Pending
unfolding mark_row
mark_published now claim_id records rows =
    update_rows (mark_row now claim_id (map (λ (r : OutboxRecord). r.outbox_id) records)) rows

unfoldable pub release_row : String → Pending → Option Pending
release_row claim_id r =
    if is_text r.publish_claim_id claim_id
    then some (record r { publish_claim_id = none; publish_claimed_at = none })
    else none

-- What follows a batch that the sink has not taken.
unfoldable pub release_claim : String → List Pending → List Pending
unfolding release_row
release_claim claim_id rows = update_rows (release_row claim_id) rows

abbrev pub is_aged : ℕ → ℕ → Pending → Bool
is_aged now days r = elim r.published_at [
  | none ↦ false
  | some at ↦ ltb (at + days * 86400000000) now
]

unfoldable pub purge_published : ℕ → ℕ → List Pending → List Pending
purge_published now days rows = delete_rows (is_aged now days) rows
