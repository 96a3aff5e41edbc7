-- ===== src/Cases/Command/Work.antt =====
-- packages/case-store/src/index.ts, `applyMutation`: ProposeWorkItem, CompleteWorkItem and LinkExecution.
use ehfconcept.Prelude.{
  ◌&&◌, String, List, [], ◌∷◌, Option, none, some, ◌==◌, compare_texts, compare_numbers,
  if◌then◌else◌, or_else, update_rows, row_count, Result, ok, ◌>>=◌, ◌>>◌, require,
}
use ehfconcept.Contracts.Value.{null, string, object}
use ehfconcept.Contracts.Read.{property}
use ehfconcept.Cases.Payload.{
  Failure, case_error, required_string, optional_string, coalesce_value, string_array_or_empty,
  given_or_fresh, normalize_digest,
}
use ehfconcept.Cases.Tables.{
  Row, WorkItem, ExecutionRef, Tables, insert_row, insert_row_or_keep, is_row,
}
use ehfconcept.Cases.Command.Base.{
  BusinessCommand, MutationResult, Call, ◌⇒◌, fields_of, strings, given, row_of,
}

unfoldable pub propose_work_item :
    Call → BusinessCommand → String → Tables → Result Failure (Tables × MutationResult)
unfolding optional_string required_string given_or_fresh coalesce_value insert_row property
propose_work_item call command classification t = do
  own_id ← optional_string (given command "workItemId")
  let work_item_id = given_or_fresh own_id "work" (call.uuid 0)
  work_type ← required_string (given command "workType")
  priority ← optional_string (given command "priority")
  required_capability ← optional_string (given command "requiredCapability")
  due_at ← optional_string (given command "dueAt")
  let work_item : Row WorkItem = row_of command work_item_id (record {
    work_type = work_type;
    status = "OPEN";
    priority = or_else priority "NORMAL";
    assigned_to = coalesce_value (given command "assignedTo") null;
    required_capability = required_capability;
    due_at = due_at;
    result_refs = [];
    classification = classification;
    created_by = command.actor;
    created_at = call.now;
    updated_at = call.now;
  })
  work_items ← insert_row work_item t.work_items
  ok (
    record t { work_items = work_items },
    record {
      event_type = "work_item.created";
      event_schema = "harness.work_item.created.v1";
      payload = object (
          fields_of (
            "workItemId" ⇒ string work_item_id
            ∷ "workType" ⇒ given command "workType"
            ∷ "status" ⇒ string "OPEN"
            ∷ []));
      evidence_refs = [];
      identifiers = fields_of ("workItemId" ⇒ string work_item_id ∷ []);
      next_status = none;
      lineage = [];
    },
  )

abbrev pub complete_row :
    Call → BusinessCommand → String → List String → Row WorkItem → Option (Row WorkItem)
complete_row call command id result_refs r =
    if is_row command.tenant_id command.case_id id r && r.columns.status == "OPEN"
    then some (record r {
      columns = record r.columns {
        status = "COMPLETED";
        result_refs = result_refs;
        updated_at = call.now;
      };
    })
    else none

unfoldable pub complete_work_item :
    Call → BusinessCommand → Tables → Result Failure (Tables × MutationResult)
unfolding required_string string_array_or_empty update_rows row_count property
complete_work_item call command t = do
  work_item_id ← required_string (given command "workItemId")
  result_refs ← string_array_or_empty 0 (given command "resultRefs")
  let change = complete_row call command work_item_id result_refs
  require (row_count change t.work_items == 1) (case_error "work_item.not_open" 409)
  ok (
    record t { work_items = update_rows change t.work_items },
    record {
      event_type = "work_item.completed";
      event_schema = "harness.work_item.completed.v1";
      payload = object (
          fields_of ("workItemId" ⇒ string work_item_id ∷ "resultRefs" ⇒ strings result_refs ∷ []));
      evidence_refs = [];
      identifiers = fields_of ("workItemId" ⇒ string work_item_id ∷ []);
      next_status = none;
      lineage = [];
    },
  )

unfoldable pub link_execution :
    Call → BusinessCommand → Tables → Result Failure (Tables × MutationResult)
unfolding required_string optional_string normalize_digest insert_row_or_keep coalesce_value
    property
link_execution call command t = do
  run_id ← required_string (given command "runId")
  plan_digest ← required_string (given command "planDigest")
  trace_id ← optional_string (given command "traceId")
  purpose ← required_string (given command "purpose")
  let link : Row ExecutionRef = row_of command run_id (record {
    plan_digest = normalize_digest plan_digest;
    trace_id = trace_id;
    purpose = purpose;
    linked_by = command.actor;
    linked_at = call.now;
  })
  ok (
    record t { execution_refs = insert_row_or_keep link t.execution_refs },
    record {
      event_type = "execution.linked";
      event_schema = "harness.execution.linked.v1";
      payload = object (
          fields_of (
            "runId" ⇒ string run_id
            ∷ "traceId" ⇒ coalesce_value (given command "traceId") null
            ∷ "purpose" ⇒ given command "purpose"
            ∷ []));
      evidence_refs = [];
      identifiers = fields_of ("runId" ⇒ string run_id ∷ []);
      next_status = none;
      lineage = [];
    },
  )
