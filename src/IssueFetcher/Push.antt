-- ===== src/IssueFetcher/Push.antt =====
-- The second loop of `push_issues_to_queue`: the tasks that are filed. The queues are lists of
-- Redis; `task_json` is the text of a task, with the identifier it is given.
pub mod Justified
pub mod Filed
pub mod Safety
use Prim.Native.String.{[] as nil, ◌∷◌ as ◌∷ᶜ◌}
use Prim.Native.Char.{Char, code}
use ai_workflows.Common.{
  eqb, after_prefix, ℕ, ◌+◌, String, Bool, true, false, ◌&&◌, ◌||◌, not, Option, none, some, List,
  [], ◌∷◌, contains, leb, ◌==◌, if◌then◌else◌, length, is_newline,
}
use ai_workflows.Effects.{Result, ok, raised, Exn, Act, after}
use ai_workflows.Constants.{RedisQueue, queue_value, JiraLabel, label}
use ai_workflows.Redis.Lists.{RedisLists}
use ai_workflows.IssueFetcher.Types.{
  FoundIssue, Settings, Event, enqueue, Events, Services, request, edit_jira_labels, try_edit,
}
use ai_workflows.IssueFetcher.Existing.{Schemas, get_existing_issue_keys}
use ai_workflows.IssueFetcher.Mark.{Marks, mark_issues}

abbrev pub or_empty : Option String → String
or_empty none = ""
or_empty (some s) = s

-- `effective_max_issues`
abbrev pub first_limit : Option ℕ → Option ℕ → Option ℕ
first_limit none other = other
first_limit (some n) other = some n

abbrev pub is_reached : Option ℕ → ℕ → Bool
is_reached none pushed = false
is_reached (some most) pushed = leb most pushed

abbrev pub target_queue : Bool → String
target_queue user_triggered =
    queue_value (if user_triggered then RedisQueue.triage_queue_todo else RedisQueue.triage_queue)

-- `.+:.+/.+` at the front of a text: a text without a newline before a slash, with a part that is
-- not empty before the colon, between the two, and after the slash.
abbrev pub some_char : Option String → Bool
some_char none = false
some_char (some nil) = false
some_char (some (c ∷ᶜ s)) = not (is_newline c)

abbrev pub slash_within : String → Bool
slash_within nil = false
slash_within (c ∷ᶜ s) =
    let later = slash_within s in
    if is_newline c then false else some_char (after_prefix "/" s) || later

abbrev pub after_colon : Option String → Bool
after_colon none = false
after_colon (some s) = slash_within s

abbrev pub is_modular_component : String → Bool
is_modular_component nil = false
is_modular_component (c ∷ᶜ s) =
    let later = is_modular_component s in
    if is_newline c then false else after_colon (after_prefix ":" s) || later

module _ (r : RedisLists) where
  -- What the loop changes.
  pub record PushState : Type 0 where
    pub existing : List String
    pub pushed : ℕ
    pub lists : r.Lists
    pub log : Events

module _ (r : RedisLists) (services : Services) (settings : Settings)
    (task_json : Events → String → Bool → String) where
  -- The label that a trigger consumes.
  abbrev pub label_to_consume : Marks → String → Option String
  label_to_consume marks key =
      if contains marks.user_triggered key
      then some (label JiraLabel.todo)
      else if contains marks.retry_needed key
      then some (label JiraLabel.retry_needed)
      else none

  -- The swap of the trigger for `ymir_triage_in_progress`: whether the issue may be filed.
  unfoldable pub consume : String → Option String → Events → Bool × Events
  consume key none log = (true, log)
  consume key (some consumed) log =
      try_edit services settings key (label JiraLabel.triage_in_progress ∷ []) (consumed ∷ []) log

  abbrev pub filed : String → Bool → PushState r → Result (Unit {0}) → PushState r
  filed key user_triggered s (raised e) = s
  filed key user_triggered s (ok u) = record {
    existing = key ∷ s.existing;
    pushed = s.pushed + 1;
    lists = r.lpush (target_queue user_triggered) (task_json s.log key user_triggered) s.lists;
    log = enqueue (target_queue user_triggered) key user_triggered ∷ s.log;
  }

  -- The push itself; an error of Redis is logged, and the issue passed over.
  unfoldable pub file_task : String → Bool → PushState r → PushState r
  file_task key user_triggered s =
      filed key user_triggered s
        (services.respond s.log (enqueue (target_queue user_triggered) key user_triggered))

  abbrev pub file_unlocked : Bool → String → Bool → Bool × Events → PushState r → PushState r
  file_unlocked locked key user_triggered (false, log) s = record s { log = log }
  file_unlocked locked key user_triggered (true, log) s =
      if locked
      then record s { log = log }
      else file_task key user_triggered (record s { log = log })

  -- Whether an issue is passed over: a modular component, or a key that is already there.
  abbrev pub is_skipped : Marks → FoundIssue → List String → Bool
  is_skipped marks issue existing =
      (settings.skip_modular
        && is_modular_component (or_empty issue.downstream_component)
        && not (contains marks.user_triggered issue.key))
      || (contains existing issue.key && not (contains marks.retry issue.key))

  unfoldable pub push_issue : Marks → List String → FoundIssue → PushState r → PushState r
  push_issue marks locked issue s =
      if is_skipped marks issue s.existing
      then s
      else file_unlocked (contains locked issue.key) issue.key
          (contains marks.user_triggered issue.key)
          (consume issue.key (label_to_consume marks issue.key) s.log) s

  unfoldable pub push_issues :
      Option ℕ → Marks → List String → List FoundIssue → PushState r → PushState r
  push_issues limit marks locked [] s = s
  push_issues limit marks locked (issue ∷ issues) s =
      let rest = push_issues limit marks locked issues (push_issue marks locked issue s) in
      if is_reached limit s.pushed then s else rest

  abbrev pub start_push : Marks → r.Lists → Events → PushState r
  start_push marks lists log = record {
    existing = marks.existing;
    pushed = 0;
    lists = lists;
    log = log;
  }

  abbrev pub state_of : PushState r → r.Lists × Events
  state_of s = (s.lists, s.log)

  abbrev pub push_marked :
      Option ℕ
      → List String
      → List FoundIssue
      → r.Lists
      → Result Marks
      → Events
      → Result ℕ × (r.Lists × Events)
  push_marked limit locked issues lists (raised e) log = (raised e, (lists, log))
  push_marked limit locked issues lists (ok marks) log =
      let s = push_issues limit marks locked issues (start_push marks lists log) in
      (ok s.pushed, state_of s)

  abbrev pub no_marks : List String → Marks
  no_marks existing = record {
    existing = existing;
    retry = [];
    user_triggered = [];
    retry_needed = [];
  }

  -- `lrange` and `locked` are what Redis answers at the start: the items of each queue, and the
  -- keys with a lock.
  unfoldable pub push_issues_to_queue :
      Schemas
      → (String → Result (List String))
      → List String
      → List FoundIssue
      → Option ℕ
      → Act (r.Lists × Events) ℕ
  push_issues_to_queue schemas lrange locked [] max_issues_override (lists, log) =
      (ok 0, (lists, log))
  push_issues_to_queue schemas lrange locked (issue ∷ issues) max_issues_override (lists, log) =
      let (marks, log') =
        mark_issues services settings (issue ∷ issues)
          (no_marks (get_existing_issue_keys schemas lrange)) log in
      push_marked (first_limit max_issues_override settings.max_issues) locked (issue ∷ issues)
        lists marks log'
