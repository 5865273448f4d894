-- ===== src/Supervisor/IssueHandler/Resolve/Outcome.antt =====
-- What the `resolve_…` methods say about the next visit.
use ai_workflows.Common.{◌≤◌, ◌≡◌, refl, String, Bool, Option, none, some, List, arith, not}
use ai_workflows.Effects.{Result, ok, raised}
use ai_workflows.Effects.Preserves.{Returns, Returns-pure, Returns-raise, Returns-bind, Returns-if}
use ai_workflows.Supervisor.Types.{IssueStatus, Erratum, FullIssue, ℤ, pos, negsuc, WorkflowResult}
use ai_workflows.Supervisor.Services.{Services, BaselineTests}
use ai_workflows.Supervisor.IssueHandler.Resolve

abbrev IsShort : ℤ → Type 0
IsShort (pos n) = n ≤ 10800
IsShort (negsuc n) = n ≡ 0

-- The item is dropped with -1, or visited again within three hours.
abbrev pub InThreeHours : WorkflowResult → Type 0
InThreeHours r = IsShort r.reschedule_in

status_delay-IsShort : (s : IssueStatus) → IsShort (Resolve.status_delay s)
unfolding Resolve.status_delay
status_delay-IsShort IssueStatus.release_pending = refl
status_delay-IsShort IssueStatus.closed = refl
status_delay-IsShort _ = omega arith

module _ (services : Services) (dry_run : Bool) (issue : FullIssue) where
  pub resolve_flag_attention-InThreeHours :
      (why : String) (details : Option String)
      → Returns InThreeHours (Resolve.resolve_flag_attention services dry_run issue why details)
  unfolding Resolve.resolve_flag_attention
  resolve_flag_attention-InThreeHours why details = Returns-bind _ _ (λ _. Returns-pure _ refl)

  pub resolve_set_status-InThreeHours :
      (status : IssueStatus) (why : String)
      → Returns InThreeHours (Resolve.resolve_set_status services dry_run issue status why)
  unfolding Resolve.resolve_set_status
  resolve_set_status-InThreeHours status why =
      Returns-bind _ _ (λ _. Returns-pure _ (status_delay-IsShort status))

  started-InThreeHours :
      (comment : String) (outcome : Result BaselineTests)
      → Returns InThreeHours (Resolve.started services dry_run issue comment outcome)
  unfolding Resolve.started
  started-InThreeHours comment (raised e) = resolve_flag_attention-InThreeHours _ _
  started-InThreeHours comment (ok tests) =
      Returns-bind _ _ (λ _. Returns-bind _ _ (λ _. Returns-pure _ (omega arith)))

  start_with-InThreeHours :
      (comment : String) (ids : List String) (nvr : Option String)
      → Returns InThreeHours (Resolve.start_with services dry_run issue comment ids nvr)
  unfolding Resolve.start_with
  start_with-InThreeHours comment ids none = resolve_flag_attention-InThreeHours _ _
  start_with-InThreeHours comment ids (some nvr) =
      Returns-bind _ _ (λ outcome. started-InThreeHours comment outcome)

  start_unless_linked-InThreeHours :
      (erratum : Erratum) (comment : String) (ids : List String) (link : Option String)
      → Returns InThreeHours
          (Resolve.start_unless_linked services dry_run issue erratum comment ids link)
  unfolding Resolve.start_unless_linked
  start_unless_linked-InThreeHours erratum comment ids none = Returns-raise _
  start_unless_linked-InThreeHours erratum comment ids (some link) =
      Returns-bind _ _ (λ _. Returns-bind _ _ (λ nvr. start_with-InThreeHours comment ids nvr))

  pub resolve_start_reproduction-InThreeHours :
      (erratum : Erratum) (comment : String) (ids : List String)
      → Returns InThreeHours
          (Resolve.resolve_start_reproduction services dry_run issue erratum comment ids)
  unfolding Resolve.resolve_start_reproduction
  resolve_start_reproduction-InThreeHours erratum comment ids =
      start_unless_linked-InThreeHours erratum comment ids issue.errata_link

  write_back-InThreeHours :
      (comment : String) (id : Option String)
      → Returns InThreeHours (Resolve.write_back services dry_run issue comment id)
  unfolding Resolve.write_back
  write_back-InThreeHours comment none = Returns-raise _
  write_back-InThreeHours comment (some id) = Returns-bind _ _ (λ _. Returns-pure _ (omega arith))

  check_loaded-InThreeHours :
      (tests : Option BaselineTests)
      → Returns InThreeHours (Resolve.check_loaded services dry_run issue tests)
  unfolding Resolve.check_loaded
  check_loaded-InThreeHours none = resolve_flag_attention-InThreeHours _ _
  check_loaded-InThreeHours (some tests) = Returns-bind _ _ (λ all_settled.
      Returns-if (not all_settled) _ _ (Returns-pure _ (omega arith)) (
        Returns-bind _ _
          (λ tests'. Returns-bind _ _ (λ _. Returns-bind _ _ (λ _. write_back-InThreeHours _ _)))))

  pub resolve_check_reproduction-InThreeHours :
      Returns InThreeHours (Resolve.resolve_check_reproduction services dry_run issue)
  unfolding Resolve.resolve_check_reproduction
  resolve_check_reproduction-InThreeHours = check_loaded-InThreeHours (services.load_baseline issue)
