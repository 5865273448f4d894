-- ===== src/Examples/FetcherSteps.antt =====
-- A sweep of the fetcher over three issues: one that a maintainer asks for, a new one, and one that
-- has been worked on.
use ai_workflows.Common.{String, Bool, true, false, none, some, List, [], ◌∷◌, ◌≡◌, ◌⊎◌, refl}
use ai_workflows.Effects.{Result, ok, raised, exn, ExnKind}
use ai_workflows.MergeQueue.Job.{Json, consolidation_field_key}
use ai_workflows.IssueFetcher.Types.{
  FoundIssue, Settings, edit_labels, enqueue, Events, History, Services, request, edit_jira_labels,
  post_jira_comment, try_edit,
}
use ai_workflows.IssueFetcher.Author.{
  label_added_by_rh_employee, of_changelog, of_author, judge, latest_add, adds_label,
}
use ai_workflows.IssueFetcher.Existing.{Schemas, get_existing_issue_keys, keys_of_queues, item_keys}
use ai_workflows.IssueFetcher.Mark.{
  mark_issues, mark_issue, mark_todo, mark_in_flight, mark_labels, find_stale_in_flight_label,
}
use ai_workflows.IssueFetcher.Consolidate.{
  sort_issues, sort_issue, base_checked, then_next, after_base, only_base,
  resolve_branch_from_fix_versions,
}
use ai_workflows.Versions.{parse_rhel_version, construct_internal_branch_name}
use ai_workflows.MergeQueue.Scripts.{submit_job}
use ai_workflows.MergeQueue.Queue.{submit_merge_job, submit_result}
use ai_workflows.IssueFetcher.Push.{
  push_issues, push_issue, consume, file_task, push_issues_to_queue, is_modular_component,
}
use ai_workflows.IssueFetcher.Push.Justified.{Justified}
use ai_workflows.IssueFetcher.Push.Safety.{push_issues_to_queue-Justified}
use ai_workflows.IssueFetcher.Consolidate.Pairs.{
  submit_pairs, submit_pair, report, try_comment, process_consolidation_labels,
}
use ai_workflows.IssueFetcher.Consolidate.Sorted.{IsPair}
use ai_workflows.IssueFetcher.Consolidate.Verified.{process_consolidation_labels-IsPair}
use ai_workflows.IssueFetcher.Run.{run}
use ai_workflows.IssueFetcher.Run.Depth.{IsBounded, run-IsBounded}
use ai_workflows.Examples.Lists.{Store, store, store-Documented}
use ai_workflows.Examples.Hash.{fields, fields-Documented}

abbrev issue_with : String → List String → FoundIssue
issue_with key labels = record {
  key = key;
  labels = labels;
  components = some "bash" ∷ [];
  downstream_component = some "bash";
  fix_versions = "rhel-9.8" ∷ [];
  updated = some 5;
}

abbrev wanted : FoundIssue
wanted = issue_with "RHEL-1" ("ymir_todo" ∷ [])

abbrev three_issues : List FoundIssue
three_issues = wanted ∷ issue_with "RHEL-2" [] ∷ issue_with "RHEL-3" ("ymir_backported" ∷ []) ∷ []

abbrev pair : List FoundIssue
pair =
    issue_with "RHEL-4" ("ymir_consolidate_base" ∷ [])
    ∷ issue_with "RHEL-5" ("ymir_consolidate_next" ∷ [])
    ∷ []

abbrev change : String → History
change label = record {
  created = "2026-01-02T00:00:00.000+0000";
  items = ("labels", ("", label)) ∷ [];
  author = some "a1";
}

-- Every label was added by an employee, and every request is granted.
abbrev jira : Services
jira = record {
  now = λ log. 10;
  respond = λ log event. ok tt;
  changelog = λ log key. ok (change "ymir_todo ymir_consolidate_base ymir_consolidate_next" ∷ []);
  user_groups = λ log author. ok (some "Red Hat Employee" ∷ []);
  status_code = λ e. none;
}

abbrev settings : Settings
settings = record {
  max_issues = none;
  queue_depth_threshold = some 4;
  stale_label_threshold = 100;
  dry_run = false;
  skip_modular = true;
}

abbrev schemas : Schemas
schemas = record {
  task = λ item. ok (("issue", item) ∷ []);
  triage_input = λ metadata. ok "RHEL-9";
  rebase_output = λ item. raised (exn ExnKind.value_error item);
  backport_output = λ item. raised (exn ExnKind.value_error item);
  open_ended_analysis = λ item. ok item;
  error_list_entry = λ item. raised (exn ExnKind.value_error item);
  error_data = λ item. ok item;
}

abbrev task_text : Events → String → Bool → String
task_text log key user_triggered = key

abbrev job_json : Json
job_json = record {
  model_dump_json = λ job. job.package_name;
  model_validate_json = λ s. raised (exn ExnKind.value_error s);
}

abbrev no_lists : Store
no_lists = λ key. []

abbrev no_items : String → Result (List String)
no_items queue = ok []

-- The wanted issue goes to the priority queue after its label has been exchanged, the new one to
-- the other queue, and the third one stays.
push_test :
    (push_issues_to_queue store jira settings task_text schemas no_items [] three_issues none
      (no_lists, [])).1.1
    ≡ enqueue "triage_queue" "RHEL-2" false
      ∷ enqueue "triage_queue_todo" "RHEL-1" true
      ∷ edit_labels "RHEL-1" ("ymir_triage_in_progress" ∷ []) ("ymir_todo" ∷ [])
      ∷ []
unfolding push_issues_to_queue mark_issues mark_issue mark_todo mark_in_flight mark_labels
    label_added_by_rh_employee of_changelog of_author judge latest_add adds_label
    find_stale_in_flight_label push_issues push_issue consume file_task try_edit edit_jira_labels
    request get_existing_issue_keys keys_of_queues item_keys
push_test = refl

-- An issue that the search gives twice is filed twice, when a label asks for its run.
twice_test :
    (push_issues_to_queue store jira settings task_text schemas no_items []
      (wanted ∷ wanted ∷ [])
      none
      (no_lists, [])).0
    ≡ ok 2
unfolding push_issues_to_queue mark_issues mark_issue mark_todo mark_in_flight mark_labels
    label_added_by_rh_employee of_changelog of_author judge latest_add adds_label
    find_stale_in_flight_label push_issues push_issue consume file_task try_edit edit_jira_labels
    request get_existing_issue_keys keys_of_queues item_keys
twice_test = refl

is_modular_component_test : is_modular_component "postgresql:16/postgis" ≡ true
is_modular_component_test = refl

consolidate_test :
    (process_consolidation_labels fields job_json jira settings (λ log. ok tt) pair ((0, []), [])).0
    ≡ ok 1
unfolding process_consolidation_labels sort_issues sort_issue base_checked then_next after_base
    only_base label_added_by_rh_employee of_changelog of_author judge latest_add adds_label
    submit_pairs submit_pair report try_comment try_edit edit_jira_labels post_jira_comment request
    submit_merge_job submit_job submit_result resolve_branch_from_fix_versions parse_rhel_version
    construct_internal_branch_name consolidation_field_key
consolidate_test = refl

push_issues_to_queue-Justified_example :
    Justified jira settings []
      (get_existing_issue_keys schemas no_items)
      three_issues
      (push_issues_to_queue store jira settings task_text schemas no_items [] three_issues none
        (no_lists, [])).1.1
push_issues_to_queue-Justified_example =
    push_issues_to_queue-Justified store jira settings task_text schemas no_items [] three_issues
      none no_lists

process_consolidation_labels-IsPair_example :
    (fields.hget
        (process_consolidation_labels fields job_json jira settings
          (λ log. ok tt)
          pair
          ((0, []), [])).1.0
        "bash:rhel-9.8.0:pending"
      ≡ none)
    ⊎ ((fields.hget (0, []) "bash:rhel-9.8.0:pending" ≡ none)
        × ((value : String) × (fields.hget
                (process_consolidation_labels fields job_json jira settings
                  (λ log. ok tt)
                  pair
                  ((0, []), [])).1.0
                "bash:rhel-9.8.0:pending"
              ≡ some value)
            × IsPair jira job_json pair "bash:rhel-9.8.0:pending" value))
process_consolidation_labels-IsPair_example =
    process_consolidation_labels-IsPair fields fields-Documented job_json jira settings pair
      "bash:rhel-9.8.0:pending" (λ log. ok tt) (0, []) []

run-IsBounded_example :
    IsBounded store 4 no_lists
      (run store fields job_json jira settings task_text schemas
        (λ lists. [])
        (λ log. ok tt)
        (λ log. ok three_issues)
        (no_lists, ((0, []), []))).1.0
run-IsBounded_example =
    run-IsBounded store store-Documented fields job_json jira settings task_text schemas
      (λ lists. []) (λ log. ok tt) 4 (λ log. ok three_issues) no_lists (0, []) [] refl
