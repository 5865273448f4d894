-- ===== src/IssueFetcher/Existing.antt =====
-- `_get_existing_issue_keys`: the keys that stand in the queues. The reading of JSON is a parameter.
use ai_workflows.Common.{
  String, Bool, true, false, ◌||◌, Option, none, some, List, [], ◌∷◌, contains, ◌==◌, if◌then◌else◌,
  upper,
}
use ai_workflows.Effects.{Result, ok, raised, Exn, ExnKind}
use ai_workflows.Constants.{RedisQueue, queue_value, all_queues, input_queues}
use ai_workflows.Versions.{get}

abbrev pub Metadata : Type 0
Metadata = List (String × String)

-- pydantic's reading of each form of item: the metadata of a task, the issue of a triage input,
-- and the `jira_issue` of the other forms. What cannot be read is a ValueError.
pub record Schemas : Type 0 where
  pub task : String → Result Metadata
  pub triage_input : Metadata → Result String
  pub rebase_output : String → Result (Unit {0})
  pub backport_output : String → Result (Unit {0})
  pub open_ended_analysis : String → Result String
  pub error_list_entry : String → Result String
  pub error_data : String → Result String

abbrev pub is_value_error : Exn → Bool
is_value_error e = elim e.kind [ ExnKind.value_error ↦ true | _ ↦ false ]

-- The key that a reading gives, in upper case.
abbrev pub upper_key : Result String → Result (Option String)
upper_key (ok key) = ok (some (upper key))
upper_key (raised e) = raised e

abbrev pub no_key : Result (Unit {0}) → Result (Option String)
no_key (ok u) = ok none
no_key (raised e) = raised e

abbrev pub field_or_empty : Option String → String
field_or_empty none = ""
field_or_empty (some s) = s

-- Another reading is tried when the first one fails with a ValueError.
abbrev pub or_value_error : Result (Option String) → Result (Option String) → Result (Option String)
or_value_error (ok key) other = ok key
or_value_error (raised e) other = if is_value_error e then other else raised e

module _ (schemas : Schemas) where
  abbrev pub triage_key : Metadata → Result (Option String)
  triage_key metadata = upper_key (schemas.triage_input metadata)

  abbrev pub of_metadata : String → Result Metadata → Result (Option String)
  of_metadata queue (raised e) = raised e
  of_metadata queue (ok []) = ok none
  of_metadata queue (ok (m ∷ ms)) =
      if queue == queue_value RedisQueue.triage_queue
        || queue == queue_value RedisQueue.triage_queue_todo
      then triage_key (m ∷ ms)
      else ok (some (upper (field_or_empty (get "jira_issue" (m ∷ ms)))))

  abbrev pub upper_issue : Option String → Option String
  upper_issue none = none
  upper_issue (some issue) = some (upper issue)

  abbrev pub fallback : Result Metadata → Result (Option String)
  fallback (raised e) = raised e
  fallback (ok metadata) = ok (upper_issue (get "issue" metadata))

  unfoldable pub key_of_data : String → String → Result (Option String)
  key_of_data queue item =
      if queue == queue_value RedisQueue.completed_rebase_list
      then no_key (schemas.rebase_output item)
      else if queue == queue_value RedisQueue.completed_backport_list
      then no_key (schemas.backport_output item)
      else if queue == queue_value RedisQueue.open_ended_analysis_list
      then upper_key (schemas.open_ended_analysis item)
      else if queue == queue_value RedisQueue.error_list
      then or_value_error (upper_key (schemas.error_list_entry item))
          (upper_key (schemas.error_data item))
      else ok none

  unfoldable pub key_of_item : String → String → Result (Option String)
  key_of_item queue item =
      if contains input_queues queue
      then of_metadata queue (schemas.task item)
      else or_value_error (key_of_data queue item) (fallback (schemas.task item))

  abbrev pub add_key : Option String → List String → List String
  add_key none keys = keys
  add_key (some key) keys = if key == "" then keys else key ∷ keys

  -- An item that is no JSON is passed over; any other error ends the queue.
  abbrev pub next_keys :
      Result (Option String) → List String → (List String → List String) → List String
  next_keys (ok key) keys rest = rest (add_key key keys)
  next_keys (raised e) keys rest = if is_value_error e then rest keys else keys

  unfoldable pub item_keys : String → List String → List String → List String
  item_keys queue [] keys = keys
  item_keys queue (item ∷ items) keys =
      next_keys (key_of_item queue item) keys (item_keys queue items)

  abbrev pub queue_keys : String → Result (List String) → List String → List String
  queue_keys queue (raised e) keys = keys
  queue_keys queue (ok items) keys = item_keys queue items keys

  unfoldable pub keys_of_queues :
      (String → Result (List String)) → List String → List String → List String
  keys_of_queues lrange [] keys = keys
  keys_of_queues lrange (queue ∷ queues) keys =
      keys_of_queues lrange queues (queue_keys queue (lrange queue) keys)

  unfoldable pub get_existing_issue_keys : (String → Result (List String)) → List String
  get_existing_issue_keys lrange = keys_of_queues lrange all_queues []
