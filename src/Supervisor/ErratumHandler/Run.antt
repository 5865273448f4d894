-- ===== src/Supervisor/ErratumHandler/Run.antt =====
-- `ErratumHandler.run` of ymir/supervisor/erratum_handler.py.
pub mod Permission
pub mod FileLists
pub mod Reads
pub mod Parts
pub mod Traffic
pub mod Safety
use ai_workflows.Common.{
  String, ◌<>◌, Bool, true, false, List, [], not, ◌==◌, ◌&&◌, to_str, if◌then◌else◌,
}
use ai_workflows.Effects.{pure, ◌>>=◌, ◌>>◌}
use ai_workflows.Supervisor.Types.{
  ErrataStatus, errata_status_value, Erratum, Issue, pos, WorkflowResult, errata_jotnar_bot_email,
}
use ai_workflows.Supervisor.Requests.{Call}
use ai_workflows.Supervisor.Services.{Services}
use ai_workflows.Supervisor.Errata.{erratum_change_ownership}
use ai_workflows.Supervisor.IssueHandler.Resolve.{resolve_remove_work_item}
use ai_workflows.Supervisor.ErratumHandler.Lists.{
  all_issues_are_release_pending, jotnar_owns_all_issues, erratum_needs_attention,
  erratum_get_issues,
}
use ai_workflows.Supervisor.ErratumHandler.Resolve.{resolve_flag_attention}
use ai_workflows.Supervisor.ErratumHandler.Advance.{try_to_advance_erratum}

abbrev pub owned_by_bot : Erratum → Bool
owned_by_bot erratum =
    erratum.assigned_to_email == errata_jotnar_bot_email
    && erratum.package_owner_email == errata_jotnar_bot_email

module _ (services : Services) (dry_run : Bool) (erratum : Erratum) where
  unfoldable pub by_status : List Issue → ErrataStatus → Call WorkflowResult
  by_status related ErrataStatus.new_files =
      try_to_advance_erratum services dry_run erratum ErrataStatus.qe
  by_status related ErrataStatus.qe =
      if not (all_issues_are_release_pending related)
      then pure (resolve_remove_work_item "Not all issues are release pending")
      else try_to_advance_erratum services dry_run erratum ErrataStatus.rel_prep
  by_status related other =
      pure (resolve_remove_work_item ("status is " <> errata_status_value other))

  -- The call of `erratum_change_ownership` does not pass `dry_run` on.
  unfoldable pub take_over : List Issue → Call WorkflowResult
  take_over related =
      if jotnar_owns_all_issues related
      then erratum_change_ownership services false erratum.id errata_jotnar_bot_email
        >> pure (record {
          status =
              "Changed ownership of erratum "
              <> (to_str erratum.id <> " to Ymir bot, re-processing");
          reschedule_in = pos 0;
        })
      else resolve_flag_attention services dry_run erratum
          "Erratum has issues not owned by Project Ymir. Please coordinate with QA Contact for these issues to move those issues to Release Pending or change the Assigned Team for the issue to rhel-jotnar. No further action will be taken on the erratum until ymir_needs_attention is cleared on this issue."

  unfoldable pub process : Call WorkflowResult
  process = do
    related ← erratum_get_issues services [] erratum
    if not (owned_by_bot erratum) then take_over related else by_status related erratum.status

module _ (services : Services) (dry_run ignore_needs_attention : Bool) (erratum : Erratum) where
  unfoldable pub run : Call WorkflowResult
  run = do
    flagged ←
        if not ignore_needs_attention
        then erratum_needs_attention services erratum.id
        else pure false
    if flagged
        then pure (resolve_remove_work_item "Erratum already flagged for human attention")
        else process services dry_run erratum
