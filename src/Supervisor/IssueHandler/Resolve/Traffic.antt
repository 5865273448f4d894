-- ===== src/Supervisor/IssueHandler/Resolve/Traffic.antt =====
-- Which requests the `resolve_…` methods make.
use ai_workflows.Common.{String, Bool, Option, none, some, List}
use ai_workflows.Effects.{Result, ok, raised}
use ai_workflows.Effects.Preserves.{Preserves, keeping}
use ai_workflows.Supervisor.Types.{IssueStatus, Erratum, FullIssue}
use ai_workflows.Supervisor.Requests.{CommentBody, Request, post_transition, Log}
use ai_workflows.Supervisor.Services.{Services, BaselineTests}
use ai_workflows.Supervisor.Jira.{send}
use ai_workflows.Supervisor.Jira.Traffic.{
  Plain, keeps-add_issue_label, keeps-remove_issue_label, keeps-update_issue_comment,
  keeps-change_issue_status,
}
use ai_workflows.Supervisor.Baseline.Traffic.{
  settled-reads, format_issue_comment-reads, keeps-create_attachments, keeps-create_baseline,
}
use ai_workflows.Supervisor.IssueHandler.Resolve

module _ (services : Services) (dry_run : Bool) {P : Log → Type 0} (issue : FullIssue)
    (plain : (r : Request) → Plain issue.key r → Preserves P (send services dry_run r)) where
  pub keeps-resolve_flag_attention :
      (why : String) (details : Option String)
      → Preserves P (Resolve.resolve_flag_attention services dry_run issue why details)
  unfolding Resolve.resolve_flag_attention
  keeps-resolve_flag_attention why details =
      search (keeping, keeps-add_issue_label services dry_run issue.key plain)

  keeps-started :
      (comment : String) (outcome : Result BaselineTests)
      → Preserves P (Resolve.started services dry_run issue comment outcome)
  unfolding Resolve.started
  keeps-started comment (raised e) = keeps-resolve_flag_attention _ _
  keeps-started comment (ok tests) =
      search
        (
          keeping,
          format_issue_comment-reads services,
          keeps-add_issue_label services dry_run issue.key plain,
        )
        depth 12

  keeps-start_with :
      (comment : String) (ids : List String) (nvr : Option String)
      → Preserves P (Resolve.start_with services dry_run issue comment ids nvr)
  unfolding Resolve.start_with
  keeps-start_with comment ids none = keeps-resolve_flag_attention _ _
  keeps-start_with comment ids (some nvr) =
      search (keeping, keeps-started, keeps-create_baseline services dry_run issue.key plain) depth
        12

  keeps-start_unless_linked :
      (erratum : Erratum) (comment : String) (ids : List String) (link : Option String)
      → Preserves P (Resolve.start_unless_linked services dry_run issue erratum comment ids link)
  unfolding Resolve.start_unless_linked
  keeps-start_unless_linked erratum comment ids none = search keeping
  keeps-start_unless_linked erratum comment ids (some link) =
      search (keeping, keeps-start_with) depth 12

  pub keeps-resolve_start_reproduction :
      (erratum : Erratum) (comment : String) (ids : List String)
      → Preserves P (Resolve.resolve_start_reproduction services dry_run issue erratum comment ids)
  unfolding Resolve.resolve_start_reproduction
  keeps-resolve_start_reproduction erratum comment ids =
      keeps-start_unless_linked erratum comment ids issue.errata_link

  keeps-write_back :
      (comment : String) (id : Option String)
      → Preserves P (Resolve.write_back services dry_run issue comment id)
  unfolding Resolve.write_back
  keeps-write_back comment none = search keeping
  keeps-write_back comment (some id) =
      search (keeping, keeps-update_issue_comment services dry_run issue.key plain)

  keeps-check_loaded :
      (tests : Option BaselineTests)
      → Preserves P (Resolve.check_loaded services dry_run issue tests)
  unfolding Resolve.check_loaded
  keeps-check_loaded none = keeps-resolve_flag_attention _ _
  keeps-check_loaded (some tests) =
      search
        (
          keeping,
          settled-reads services,
          format_issue_comment-reads services,
          keeps-create_attachments services dry_run issue.key plain,
          keeps-remove_issue_label services dry_run issue.key plain,
          keeps-write_back,
        )
        depth 14

  pub keeps-resolve_check_reproduction :
      Preserves P (Resolve.resolve_check_reproduction services dry_run issue)
  unfolding Resolve.resolve_check_reproduction
  keeps-resolve_check_reproduction = keeps-check_loaded (services.load_baseline issue)

  pub keeps-resolve_set_status :
      ((id : String) (c : Option CommentBody)
        → Preserves P (send services dry_run (post_transition issue.key id c)))
      → (status : IssueStatus) (why : String)
      → Preserves P (Resolve.resolve_set_status services dry_run issue status why)
  unfolding Resolve.resolve_set_status
  keeps-resolve_set_status moves status why =
      search (keeping, keeps-change_issue_status services dry_run issue.key plain moves)
