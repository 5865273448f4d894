-- ===== src/Supervisor/Jira/Traffic.antt =====
-- Which requests the writing functions of jira_utils.py make: they keep an invariant of the log if
-- each request of the kinds below does, and each change of status where there may be one.
use ai_workflows.Common.{String, Bool, Option, none, some, List, [], ◌∷◌}
use ai_workflows.Effects.Preserves.{Preserves, keeping}
use ai_workflows.Supervisor.Types.{IssueStatus}
use ai_workflows.Supervisor.Requests.{
  LabelUpdate, CommentBody, Request, put_issue, post_comment, put_comment, post_transition, upload,
  post_reproduction, Log,
}
use ai_workflows.Supervisor.Services.{Services, Transition}
use ai_workflows.Supervisor.Jira
use ai_workflows.Supervisor.Jira.{send, CommentSpec}

-- The requests that concern the issue `key` and leave its status alone, and those that repeat a
-- test run.
pub data Plain (key : String) : Request → Type 0 where
  labels : (u : LabelUpdate) (c : Option CommentBody) → Plain key (put_issue key u c)
  new_comment : (c : CommentBody) → Plain key (post_comment key c)
  edited_comment : (id : String) (c : CommentBody) → Plain key (put_comment key id c)
  attached : (files : List (String × String)) → Plain key (upload key files)
  repeated : (id body : String) → Plain key (post_reproduction id body)

module _ (services : Services) (dry_run : Bool) {P : Log → Type 0} (key : String)
    (plain : (r : Request) → Plain key r → Preserves P (send services dry_run r)) where
  pub keeps-add_issue_label :
      (label : String) (c : CommentSpec)
      → Preserves P (Jira.add_issue_label services dry_run key label c)
  unfolding Jira.add_issue_label
  keeps-add_issue_label label c = plain _ (labels _ _)

  pub keeps-remove_issue_label :
      (label : String) (c : CommentSpec)
      → Preserves P (Jira.remove_issue_label services dry_run key label c)
  unfolding Jira.remove_issue_label
  keeps-remove_issue_label label c = plain _ (labels _ _)

  keeps-add_issue_comment :
      (c : CommentSpec) → Preserves P (Jira.add_issue_comment services dry_run key c)
  unfolding Jira.add_issue_comment
  keeps-add_issue_comment CommentSpec.absent = search keeping
  keeps-add_issue_comment (CommentSpec.text t) = plain _ (new_comment _)
  keeps-add_issue_comment (CommentSpec.restricted t Jira.public) = plain _ (new_comment _)
  keeps-add_issue_comment (CommentSpec.restricted t Jira.red_hat_employee) = plain _ (new_comment _)

  pub keeps-update_issue_comment :
      (id : String) (c : CommentSpec)
      → Preserves P (Jira.update_issue_comment services dry_run key id c)
  unfolding Jira.update_issue_comment
  keeps-update_issue_comment id CommentSpec.absent = search keeping
  keeps-update_issue_comment id (CommentSpec.text t) = plain _ (edited_comment _ _)
  keeps-update_issue_comment id (CommentSpec.restricted t Jira.public) =
      plain _ (edited_comment _ _)
  keeps-update_issue_comment id (CommentSpec.restricted t Jira.red_hat_employee) =
      plain _ (edited_comment _ _)

  pub keeps-add_issue_attachments :
      (files : List (String × String))
      → Preserves P (Jira.add_issue_attachments services dry_run key files)
  unfolding Jira.add_issue_attachments
  keeps-add_issue_attachments [] = search keeping
  keeps-add_issue_attachments (f ∷ fs) = plain _ (attached _)

  module _
      (moves : (id : String) (c : Option CommentBody)
        → Preserves P (send services dry_run (post_transition key id c))) where
    keeps-follow_transition :
        (status : String) (c : CommentSpec) (t : Option Transition)
        → Preserves P (Jira.follow_transition services dry_run key status c t)
    unfolding Jira.follow_transition
    keeps-follow_transition status c none = search keeping
    keeps-follow_transition status c (some t) = search (keeping, moves, keeps-add_issue_comment)

    pub keeps-change_issue_status :
        (status : IssueStatus) (c : CommentSpec)
        → Preserves P (Jira.change_issue_status services dry_run key status c)
    unfolding Jira.change_issue_status
    keeps-change_issue_status status c = search (keeping, keeps-follow_transition)
