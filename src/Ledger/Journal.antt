-- ===== src/Ledger/Journal.antt =====
-- The journal of a run: `appendEvent`, `listEvents`, `bindRunTrace`, the node attempts, and the
-- store of packages/persistence/src/runtime-state.ts that writes it for a runtime.
use ehfconcept.Prelude.{
  ℕ, Bool, ◌&&◌, String, List, [], ◌∷◌, ◌++◌, Option, none, some, ltb, ◌==◌, compare_numbers,
  compare_texts, if◌then◌else◌, find, filter, take, update_rows, returned, Result, ok, err,
}
use ehfconcept.Contracts.Value.{Value}
use ehfconcept.Ledger.Row.{bind_trace_row, next_sequence_row}
use ehfconcept.Ledger.Store.{
  EventStatus, Event, NodeAttempt, TraceLink, Db, on_run, update_run, get_run, update_run_node,
}

-- What a caller of `appendEvent` hands over.
pub record EventInput : Type 0 where
  pub run_id : String
  pub event_key : String
  pub code : String
  pub node_id : Option String
  pub status : EventStatus
  pub values : Value

-- The key columns of an event.
unfoldable pub find_event : String → String → Db → Option Event
find_event run_id event_key db =
    find (λ (e : Event). e.run_id == run_id && e.event_key == event_key) db.events

abbrev pub event_of : ℕ → ℕ → EventInput → Event
event_of now sequence input = record {
  run_id = input.run_id;
  sequence = sequence;
  event_key = input.event_key;
  code = input.code;
  node_id = input.node_id;
  status = input.status;
  values = input.values;
  occurred_at = now;
}

unfoldable pub append_event : ℕ → EventInput → Db → Db × Result String Event
unfolding find_event next_sequence_row
append_event now input db =
    let bump = on_run input.run_id (next_sequence_row now) in
    elim (find_event input.run_id input.event_key db) [
      | some row ↦ (db, ok row)
      | none ↦ elim (returned bump db.runs) [
        | none ↦ (db, err "event.run_missing")
        | some run ↦
            let event = event_of now run.event_sequence input in
            (
              record db { runs = update_rows bump db.runs; events = db.events ++ event ∷ [] },
              ok event,
            )
      ]
    ]

-- `listEvents`. The rows stand in the order in which they were inserted, which is that of `sequence`.
unfoldable pub list_events : String → String → ℕ → Db → List Event
unfolding get_run
list_events run_id tenant_id after db = elim (get_run run_id (some tenant_id) db) [
  | none ↦ []
  | some _ ↦
      take 1000 (filter (λ (e : Event). e.run_id == run_id && ltb after e.sequence) db.events)
]

-- `insert into trace_link ... on conflict (run_id, attempt, service_name) do update`.
is_link : TraceLink → TraceLink → Bool
is_link a b = a.run_id == b.run_id && a.attempt == b.attempt && a.service_name == b.service_name

put_link : TraceLink → List TraceLink → List TraceLink
unfolding is_link
put_link l [] = l ∷ []
put_link l (k ∷ ks) = let rest = put_link l ks in if is_link l k then l ∷ ks else k ∷ rest

unfoldable pub bind_run_trace : ℕ → String → ℕ → TraceLink → Db → Db × Result String (Unit {0})
unfolding update_run put_link
bind_run_trace now worker_id epoch link db =
    let bind =
      bind_trace_row now worker_id epoch link.attempt link.trace_id link.root_span_id
        link.trace_flags in
    let (db', held) = update_run link.run_id bind db in
    if held
    then (record db' { trace_links = put_link link db'.trace_links }, ok tt)
    else (db, err "runtime.stale_fence")

-- `on conflict (run_id, node_id, attempt) do nothing`
is_attempt : String → String → ℕ → NodeAttempt → Bool
is_attempt run_id node_id attempt a =
    a.run_id == run_id && a.node_id == node_id && a.attempt == attempt

unfoldable pub insert_attempt : NodeAttempt → Db → Db
unfolding is_attempt
insert_attempt a db = elim (find (is_attempt a.run_id a.node_id a.attempt) db.node_attempts) [
  | some _ ↦ db
  | none ↦ record db { node_attempts = db.node_attempts ++ a ∷ [] }
]

-- The run, attempt and fence a runtime is acting under (packages/runtime-state/src/index.ts).
pub record FencedRun : Type 0 where
  pub run_id : String
  pub attempt : ℕ
  pub worker_id : String
  pub fencing_epoch : ℕ

abbrev pub started_attempt :
    ℕ → FencedRun → String → String → Option String → Option String → NodeAttempt
started_attempt now run node_id input_digest trace_id span_id = record {
  run_id = run.run_id;
  node_id = node_id;
  attempt = run.attempt;
  fencing_epoch = run.fencing_epoch;
  status = "running";
  input_digest = some input_digest;
  output_digest = none;
  checkpoint_id = none;
  started_at = now;
  completed_at = none;
  error_code = none;
  trace_id = trace_id;
  span_id = span_id;
}

-- What a runtime reports (packages/runtime-state/src/index.ts).
pub data StateWrite : Type 0 where
  node_started : String → String → Option String → Option String → StateWrite
  node_finished : String → String → Option String → Option String → StateWrite
  events : String → String → Option String → EventStatus → Value → StateWrite
  checkpoint : Option String → Option String → StateWrite

unfoldable pub finish_attempt :
    ℕ → FencedRun → String → String → Option String → Option String → Db → Db
unfolding is_attempt
finish_attempt now run node_id status output_digest error_code db = record db {
  node_attempts =
      update_rows
        (λ a.
          if is_attempt run.run_id node_id run.attempt a
          then some (record a {
            status = status;
            output_digest = output_digest;
            error_code = error_code;
            completed_at = some now;
          })
          else none)
        db.node_attempts;
}

-- `applyStateWrite` of apps/control-api/src/runtime-state-routes.ts over the store of
-- packages/persistence/src/runtime-state.ts.
unfoldable pub apply_state_write : ℕ → FencedRun → StateWrite → Db → Db × Result String (Unit {0})
unfolding update_run_node insert_attempt finish_attempt append_event
apply_state_write now run (node_started node_id input_digest trace_id span_id) db =
    let (db', written) =
      update_run_node now run.run_id run.worker_id run.fencing_epoch (some node_id) none db in
    elim written [
      | err e ↦ (db', err e)
      | ok _ ↦ (
        insert_attempt (started_attempt now run node_id input_digest trace_id span_id) db',
        ok tt,
      )
    ]
apply_state_write now run (node_finished node_id status output_digest error_code) db =
    (finish_attempt now run node_id status output_digest error_code db, ok tt)
apply_state_write now run (events event_key code node_id status values) db =
    let (db', appended) =
      append_event now
        (record {
          run_id = run.run_id;
          event_key = event_key;
          code = code;
          node_id = node_id;
          status = status;
          values = values;
        })
        db in
    elim appended [ err e ↦ (db', err e) | ok _ ↦ (db', ok tt) ]
apply_state_write now run (checkpoint checkpoint_id node_id) db =
    update_run_node now run.run_id run.worker_id run.fencing_epoch node_id checkpoint_id db
