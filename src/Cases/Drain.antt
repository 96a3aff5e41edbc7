-- ===== src/Cases/Drain.antt =====
-- packages/case-store/src/outbox-relay.ts: `drainOutbox` on one of its two tables, cut where other relays
-- may work: it claims in one transaction, publishes, marks in one statement, releases in one where the
-- publication or the marking failed, and purges in one. Its statements on the other table do not touch
-- this one; an error there is a relay that stops here.
use ehfconcept.Prelude.{
  ℕ, Bool, String, List, [], ◌∷◌, ◌++◌, none, some, map, if◌then◌else◌, ltb, advance_nth,
}
use ehfconcept.Cases.Relay.{
  Pending, OutboxRecord, RelayOptions, claim_batch, mark_published, release_claim, purge_published,
}

-- A table, and the identifiers of the events that the sink has taken.
pub record Post : Type 0 where
  pub rows : List Pending
  pub sent : List String

abbrev pub ids_of : List OutboxRecord → List String
ids_of records = map (λ (r : OutboxRecord). r.outbox_id) records

-- What a relay does next.
pub data Drain : Type 0 where
  claiming : String → Drain
  publishing marking : String → List OutboxRecord → Drain
  releasing : String → Drain
  purging : ℕ → Drain
  drained : Drain

-- What a step meets: its time, the rows that others hold, and whether it succeeds.
pub record Turn : Type 0 where
  pub now : ℕ
  pub source : String
  pub options : RelayOptions
  pub locked : String → Bool
  pub succeeds : Bool

-- `options.retentionDays && options.retentionDays > 0`
unfoldable pub after_loop : RelayOptions → Drain
after_loop options = elim options.retention_days [
  | none ↦ drained
  | some days ↦ if ltb 0 days then purging days else drained
]

-- `if (!claimed.rows.length)`: nothing is to be published.
unfoldable pub after_claim : RelayOptions → String → List OutboxRecord → Drain
unfolding after_loop
after_claim options claim_id [] = after_loop options
after_claim options claim_id (r ∷ rs) = publishing claim_id (r ∷ rs)

unfoldable pub drain_step : Turn → Drain → Post → Post × Drain
unfolding claim_batch mark_published release_claim purge_published after_claim after_loop
drain_step turn (claiming claim_id) s =
    let claimed = claim_batch turn.now claim_id turn.source turn.options turn.locked s.rows in
    if turn.succeeds
    then (record s { rows = claimed.rows }, after_claim turn.options claim_id claimed.records)
    else (s, drained)
drain_step turn (publishing claim_id records) s =
    if turn.succeeds
    then (record s { sent = ids_of records ++ s.sent }, marking claim_id records)
    else (s, releasing claim_id)
drain_step turn (marking claim_id records) s =
    if turn.succeeds
    then (
      record s { rows = mark_published turn.now claim_id records s.rows },
      after_loop turn.options,
    )
    else (s, releasing claim_id)
drain_step turn (releasing claim_id) s =
    if turn.succeeds
    then (record s { rows = release_claim claim_id s.rows }, drained)
    else (s, drained)
drain_step turn (purging days) s =
    if turn.succeeds
    then (record s { rows = purge_published turn.now days s.rows }, drained)
    else (s, drained)
drain_step turn drained s = (s, drained)

-- One of several relays does its next step.
unfoldable pub drain_nth : Turn → ℕ → List Drain → Post → Post × List Drain
unfolding drain_step
drain_nth turn n ds s = advance_nth (drain_step turn) n ds s
