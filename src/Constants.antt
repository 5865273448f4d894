-- ===== src/Constants.antt =====
-- ymir/common/constants.py: the queues of Redis and the labels of Jira.
use ai_workflows.Common.{
  String, ◌<>◌, Bool, true, false, ◌||◌, Option, none, some, List, [], ◌∷◌, map, lower, ◌==◌,
  if◌then◌else◌, contains_text,
}

pub data RedisQueue : Type 0 where
  triage_queue triage_queue_todo rebase_queue_c9s rebase_queue_c10s backport_queue_c9s
        backport_queue_c10s rebase_queue_c9s_todo rebase_queue_c10s_todo backport_queue_c9s_todo
        backport_queue_c10s_todo clarification_needed_queue error_list open_ended_analysis_list
        completed_rebase_list completed_backport_list rebuild_queue_c9s rebuild_queue_c10s
        rebuild_queue_c9s_todo rebuild_queue_c10s_todo completed_rebuild_list rebase_queue
        backport_queue postponed_list merge_consolidation_queue reproducer_queue
        reproducer_queue_todo completed_reproducer_list reproducer_delayed_queue error_id_counter :
      RedisQueue

abbrev pub queue_value : RedisQueue → String
queue_value RedisQueue.triage_queue = "triage_queue"
queue_value RedisQueue.triage_queue_todo = "triage_queue_todo"
queue_value RedisQueue.rebase_queue_c9s = "rebase_queue_c9s"
queue_value RedisQueue.rebase_queue_c10s = "rebase_queue_c10s"
queue_value RedisQueue.backport_queue_c9s = "backport_queue_c9s"
queue_value RedisQueue.backport_queue_c10s = "backport_queue_c10s"
queue_value RedisQueue.rebase_queue_c9s_todo = "rebase_queue_c9s_todo"
queue_value RedisQueue.rebase_queue_c10s_todo = "rebase_queue_c10s_todo"
queue_value RedisQueue.backport_queue_c9s_todo = "backport_queue_c9s_todo"
queue_value RedisQueue.backport_queue_c10s_todo = "backport_queue_c10s_todo"
queue_value RedisQueue.clarification_needed_queue = "clarification_needed_queue"
queue_value RedisQueue.error_list = "error_list"
queue_value RedisQueue.open_ended_analysis_list = "open_ended_analysis_list"
queue_value RedisQueue.completed_rebase_list = "completed_rebase_list"
queue_value RedisQueue.completed_backport_list = "completed_backport_list"
queue_value RedisQueue.rebuild_queue_c9s = "rebuild_queue_c9s"
queue_value RedisQueue.rebuild_queue_c10s = "rebuild_queue_c10s"
queue_value RedisQueue.rebuild_queue_c9s_todo = "rebuild_queue_c9s_todo"
queue_value RedisQueue.rebuild_queue_c10s_todo = "rebuild_queue_c10s_todo"
queue_value RedisQueue.completed_rebuild_list = "completed_rebuild_list"
queue_value RedisQueue.rebase_queue = "rebase_queue"
queue_value RedisQueue.backport_queue = "backport_queue"
queue_value RedisQueue.postponed_list = "postponed_list"
queue_value RedisQueue.merge_consolidation_queue = "merge_consolidation_queue"
queue_value RedisQueue.reproducer_queue = "reproducer_queue"
queue_value RedisQueue.reproducer_queue_todo = "reproducer_queue_todo"
queue_value RedisQueue.completed_reproducer_list = "completed_reproducer_list"
queue_value RedisQueue.reproducer_delayed_queue = "reproducer_queue_delayed"
queue_value RedisQueue.error_id_counter = "error_list_id_counter"

abbrev every_queue : List RedisQueue
every_queue =
    RedisQueue.triage_queue ∷ RedisQueue.triage_queue_todo ∷ RedisQueue.rebase_queue_c9s
    ∷ RedisQueue.rebase_queue_c10s ∷ RedisQueue.backport_queue_c9s ∷ RedisQueue.backport_queue_c10s
    ∷ RedisQueue.rebase_queue_c9s_todo ∷ RedisQueue.rebase_queue_c10s_todo
    ∷ RedisQueue.backport_queue_c9s_todo ∷ RedisQueue.backport_queue_c10s_todo
    ∷ RedisQueue.clarification_needed_queue ∷ RedisQueue.error_list
    ∷ RedisQueue.open_ended_analysis_list ∷ RedisQueue.completed_rebase_list
    ∷ RedisQueue.completed_backport_list ∷ RedisQueue.rebuild_queue_c9s
    ∷ RedisQueue.rebuild_queue_c10s ∷ RedisQueue.rebuild_queue_c9s_todo
    ∷ RedisQueue.rebuild_queue_c10s_todo ∷ RedisQueue.completed_rebuild_list
    ∷ RedisQueue.rebase_queue ∷ RedisQueue.backport_queue ∷ RedisQueue.postponed_list
    ∷ RedisQueue.merge_consolidation_queue ∷ RedisQueue.reproducer_queue
    ∷ RedisQueue.reproducer_queue_todo ∷ RedisQueue.completed_reproducer_list
    ∷ RedisQueue.reproducer_delayed_queue ∷ RedisQueue.error_id_counter ∷ []

-- The hash, the sorted set and the counter are not lists.
abbrev is_list : RedisQueue → Bool
is_list RedisQueue.merge_consolidation_queue = false
is_list RedisQueue.reproducer_delayed_queue = false
is_list RedisQueue.error_id_counter = false
is_list _ = true

abbrev lists_of : List RedisQueue → List String
lists_of [] = []
lists_of (q ∷ qs) = let rest = lists_of qs in if is_list q then queue_value q ∷ rest else rest

abbrev pub all_queues : List String
all_queues = lists_of every_queue

abbrev pub input_queues : List String
input_queues = map queue_value (
    RedisQueue.triage_queue ∷ RedisQueue.triage_queue_todo ∷ RedisQueue.rebase_queue_c9s
    ∷ RedisQueue.rebase_queue_c10s ∷ RedisQueue.backport_queue_c9s ∷ RedisQueue.backport_queue_c10s
    ∷ RedisQueue.rebuild_queue_c9s ∷ RedisQueue.rebuild_queue_c10s
    ∷ RedisQueue.rebase_queue_c9s_todo ∷ RedisQueue.rebase_queue_c10s_todo
    ∷ RedisQueue.backport_queue_c9s_todo ∷ RedisQueue.backport_queue_c10s_todo
    ∷ RedisQueue.rebuild_queue_c9s_todo ∷ RedisQueue.rebuild_queue_c10s_todo
    ∷ RedisQueue.clarification_needed_queue ∷ RedisQueue.rebase_queue ∷ RedisQueue.backport_queue
    ∷ RedisQueue.reproducer_queue ∷ RedisQueue.reproducer_queue_todo ∷ [])

abbrev pub data_queues : List String
data_queues = map queue_value (
    RedisQueue.error_list ∷ RedisQueue.open_ended_analysis_list ∷ RedisQueue.completed_rebase_list
    ∷ RedisQueue.completed_backport_list ∷ RedisQueue.completed_rebuild_list
    ∷ RedisQueue.completed_reproducer_list ∷ RedisQueue.postponed_list ∷ [])

unfoldable pub priority_twin : String → String
priority_twin queue = queue <> "_todo"

-- `pattern in branch.lower()` for one of the patterns
abbrev pub use_c9s_branch : String → Bool
use_c9s_branch branch =
    contains_text (lower branch) "rhel-9"
    || contains_text (lower branch) "c9s"
    || contains_text (lower branch) "rhel-8"
    || contains_text (lower branch) "c8s"

abbrev pub on_c9s : Option String → Bool
on_c9s none = false
on_c9s (some branch) = if branch == "" then false else use_c9s_branch branch

abbrev pub twin_if : Bool → String → String
twin_if user_triggered base = if user_triggered then priority_twin base else base

unfoldable pub get_rebase_queue_for_branch : Option String → Bool → String
get_rebase_queue_for_branch target_branch user_triggered = twin_if user_triggered (
    queue_value
      (if on_c9s target_branch then RedisQueue.rebase_queue_c9s else RedisQueue.rebase_queue_c10s))

unfoldable pub get_backport_queue_for_branch : Option String → Bool → String
get_backport_queue_for_branch target_branch user_triggered = twin_if user_triggered (
    queue_value (
      if on_c9s target_branch
      then RedisQueue.backport_queue_c9s
      else RedisQueue.backport_queue_c10s))

unfoldable pub get_rebuild_queue_for_branch : Option String → Bool → String
get_rebuild_queue_for_branch target_branch user_triggered = twin_if user_triggered (
    queue_value (
      if on_c9s target_branch then RedisQueue.rebuild_queue_c9s else RedisQueue.rebuild_queue_c10s))

unfoldable pub get_reproducer_queue : Bool → String
get_reproducer_queue user_triggered =
    queue_value
      (if user_triggered then RedisQueue.reproducer_queue_todo else RedisQueue.reproducer_queue)

pub data JiraLabel : Type 0 where
  needs_attention triaged triage_in_progress triaged_backport triaged_rebase triaged_rebuild
        applicability_confidence_low applicability_confidence_medium applicability_confidence_high
        manual_branch_needed rebased backported rebuilt merged rebase_errored backport_errored
        rebuild_errored triage_errored rebase_failed backport_failed rebuild_failed
        reproducer_in_progress reproducer_created reproducer_failed reproducer_errored
        reproducer_not_reproducible reproducer_already_exists triaged_postponed
        ymir_postponed_dependency ymir_postponed_y_stream ymir_postponed_no_patch
        ymir_postponed_pr_pending triaged_not_affected retry_needed mr_closed mr_consolidated
        consolidate_base consolidate_next cli_triage rebase_sibling waiting_for_siblings todo
        abandoned :
      JiraLabel

-- `value`
abbrev pub label : JiraLabel → String
label JiraLabel.needs_attention = "ymir_needs_attention"
label JiraLabel.triaged = "ymir_triaged"
label JiraLabel.triage_in_progress = "ymir_triage_in_progress"
label JiraLabel.triaged_backport = "ymir_triaged_backport"
label JiraLabel.triaged_rebase = "ymir_triaged_rebase"
label JiraLabel.triaged_rebuild = "ymir_triaged_rebuild"
label JiraLabel.applicability_confidence_low = "ymir_applicability_confidence_low"
label JiraLabel.applicability_confidence_medium = "ymir_applicability_confidence_medium"
label JiraLabel.applicability_confidence_high = "ymir_applicability_confidence_high"
label JiraLabel.manual_branch_needed = "ymir_manual_branch_needed"
label JiraLabel.rebased = "ymir_rebased"
label JiraLabel.backported = "ymir_backported"
label JiraLabel.rebuilt = "ymir_rebuilt"
label JiraLabel.merged = "ymir_merged"
label JiraLabel.rebase_errored = "ymir_rebase_errored"
label JiraLabel.backport_errored = "ymir_backport_errored"
label JiraLabel.rebuild_errored = "ymir_rebuild_errored"
label JiraLabel.triage_errored = "ymir_triage_errored"
label JiraLabel.rebase_failed = "ymir_rebase_failed"
label JiraLabel.backport_failed = "ymir_backport_failed"
label JiraLabel.rebuild_failed = "ymir_rebuild_failed"
label JiraLabel.reproducer_in_progress = "ymir_reproducer_in_progress"
label JiraLabel.reproducer_created = "ymir_reproducer_created"
label JiraLabel.reproducer_failed = "ymir_reproducer_failed"
label JiraLabel.reproducer_errored = "ymir_reproducer_errored"
label JiraLabel.reproducer_not_reproducible = "ymir_reproducer_not_reproducible"
label JiraLabel.reproducer_already_exists = "ymir_reproducer_already_exists"
label JiraLabel.triaged_postponed = "ymir_triaged_postponed"
label JiraLabel.ymir_postponed_dependency = "ymir_postponed_dependency"
label JiraLabel.ymir_postponed_y_stream = "ymir_postponed_y_stream"
label JiraLabel.ymir_postponed_no_patch = "ymir_postponed_no_patch"
label JiraLabel.ymir_postponed_pr_pending = "ymir_postponed_pr_pending"
label JiraLabel.triaged_not_affected = "ymir_triaged_not_affected"
label JiraLabel.retry_needed = "ymir_retry_needed"
label JiraLabel.mr_closed = "ymir_mr_closed"
label JiraLabel.mr_consolidated = "ymir_consolidated"
label JiraLabel.consolidate_base = "ymir_consolidate_base"
label JiraLabel.consolidate_next = "ymir_consolidate_next"
label JiraLabel.cli_triage = "ymir_cli_triage"
label JiraLabel.rebase_sibling = "ymir_rebase_sibling"
label JiraLabel.waiting_for_siblings = "ymir_rebase_waiting_for_siblings"
label JiraLabel.todo = "ymir_todo"
label JiraLabel.abandoned = "ymir_abandoned"

abbrev pub postponement_labels : List String
postponement_labels = map label (
    JiraLabel.ymir_postponed_dependency ∷ JiraLabel.ymir_postponed_y_stream
    ∷ JiraLabel.ymir_postponed_no_patch ∷ JiraLabel.ymir_postponed_pr_pending ∷ [])
