-- ===== src/Supervisor/ErratumHandler/Run/Parts.antt =====
-- Which requests the parts of a step of an erratum make.
use ai_workflows.Common.{ℕ, zero, suc, String, refl, Bool, Option, none, some, List, [], ◌∷◌}
use ai_workflows.Effects.Preserves.{Preserves, Preserves-bind, keeping}
use ai_workflows.Supervisor.Types.{ErrataStatus, Erratum, Issue}
use ai_workflows.Supervisor.Requests.{Request, Log}
use ai_workflows.Supervisor.Services.{Services, ErratumBuild, TransitionRule, ErratumPushStatus}
use ai_workflows.Supervisor.Jira
use ai_workflows.Supervisor.Jira.{send}
use ai_workflows.Supervisor.Errata
use ai_workflows.Supervisor.Errata.{all_ok}
use ai_workflows.Supervisor.ErratumHandler.Resolve
use ai_workflows.Supervisor.ErratumHandler.Advance
use ai_workflows.Supervisor.ErratumHandler.Run.Permission.{
  Harmless, push, refresh, comment, flagged, filed,
}
use ai_workflows.Supervisor.ErratumHandler.Run.Reads.{
  keeps-get_issue_by_jotnar_tag, keeps-has_magic_string,
}

module _ (services : Services) (dry_run : Bool) (erratum : Erratum) {P : Log → Type 0}
    (harmless : (r : Request) → Harmless erratum r → Preserves P (send services dry_run r)) where
  pub keeps-add_comment :
      (body : String) → Preserves P (Errata.erratum_add_comment services dry_run erratum.id body)
  unfolding Errata.erratum_add_comment
  keeps-add_comment body = harmless _ (comment body)

  pub keeps-push_to_stage : Preserves P (Errata.erratum_push_to_stage services dry_run erratum.id)
  unfolding Errata.erratum_push_to_stage
  keeps-push_to_stage = harmless _ push

  pub keeps-refresh :
      Preserves P (Errata.erratum_refresh_security_alerts services dry_run erratum.id)
  unfolding Errata.erratum_refresh_security_alerts
  keeps-refresh = harmless _ refresh

  pub keeps-flag_issue :
      (why : String) (i : Option Issue)
      → Preserves P (Resolve.flag_issue services dry_run erratum why i)
  unfolding Resolve.flag_issue Jira.add_issue_label Jira.create_issue
  keeps-flag_issue why (some i) = harmless _ (flagged _ _)
  keeps-flag_issue why none =
      Preserves-bind _ _ (search keeping depth 8)
        (λ a. Preserves-bind _ _ (search keeping depth 8) (λ r. harmless _ (filed _ refl refl)))

  pub keeps-resolve_flag_attention :
      (why : String) → Preserves P (Resolve.resolve_flag_attention services dry_run erratum why)
  unfolding Resolve.resolve_flag_attention
  keeps-resolve_flag_attention why =
      search (keeping, keeps-get_issue_by_jotnar_tag services, keeps-flag_issue) depth 10

  pub keeps-after_push :
      (new : ErrataStatus) (t : Option ℕ)
      → Preserves P (Resolve.after_push services dry_run erratum new t)
  unfolding Resolve.after_push
  keeps-after_push new none = keeps-resolve_flag_attention _
  keeps-after_push new (some t) = search (keeping, keeps-resolve_flag_attention) depth 10

  pub keeps-resolve_wait_for_cat_tests :
      (new : ErrataStatus)
      → Preserves P (Resolve.resolve_wait_for_cat_tests services dry_run erratum new)
  unfolding Resolve.resolve_wait_for_cat_tests
  keeps-resolve_wait_for_cat_tests new = search (keeping, keeps-after_push) depth 10

  pub keeps-already_checked :
      (nvr : String) → Preserves P (Advance.already_checked services dry_run erratum nvr)
  unfolding Advance.already_checked
  keeps-already_checked nvr = search (keeping, keeps-has_magic_string services) depth 10

  pub keeps-compare_with :
      (pkg : String) (build : ErratumBuild) (prev : ℕ) (others : Advance.Mismatches)
      → Preserves P others
      → Preserves P (Advance.compare_with services dry_run erratum pkg build prev others)
  unfolding Advance.compare_with
  keeps-compare_with pkg build prev others k = search (keeping, keeps-add_comment) depth 14

  pub keeps-check_against :
      (pkg : String) (build : ErratumBuild) (prev : Option ℕ) (others : Advance.Mismatches)
      → Preserves P others
      → Preserves P (Advance.check_against services dry_run erratum pkg build prev others)
  unfolding Advance.check_against Advance.no_previous
  keeps-check_against pkg build none others k = Preserves-bind _ _ (keeps-add_comment _) (λ _. k)
  keeps-check_against pkg build (some zero) others k =
      Preserves-bind _ _ (keeps-add_comment _) (λ _. k)
  keeps-check_against pkg build (some (suc n)) others k =
      keeps-compare_with pkg build (suc n) others k

  pub keeps-check_package :
      (pkg : String) (build : ErratumBuild) (others : Advance.Mismatches)
      → Preserves P others
      → Preserves P (Advance.check_package services dry_run erratum pkg build others)
  unfolding Advance.check_package
  keeps-check_package pkg build others k =
      search (keeping, keeps-already_checked, keeps-check_against) depth 10

  pub keeps-mismatch_packages :
      (builds : List (String × ErratumBuild))
      → Preserves P (Advance.mismatch_packages services dry_run erratum builds)
  unfolding Advance.mismatch_packages
  keeps-mismatch_packages [] = search keeping
  keeps-mismatch_packages (b ∷ bs) = keeps-check_package b.0 b.1 _ (keeps-mismatch_packages bs)

  pub keeps-stage_push :
      (new : ErrataStatus) (s : Option ErratumPushStatus)
      → Preserves P (Advance.stage_push services dry_run erratum new s)
  unfolding Advance.stage_push Advance.push_again
  keeps-stage_push new none = search (keeping, keeps-push_to_stage)
  keeps-stage_push new (some ErratumPushStatus.complete) = search (keeping, keeps-push_to_stage)
  keeps-stage_push new (some ErratumPushStatus.failed) = keeps-resolve_flag_attention _
  keeps-stage_push new (some ErratumPushStatus.queued) = search keeping
  keeps-stage_push new (some ErratumPushStatus.ready) = search keeping
  keeps-stage_push new (some ErratumPushStatus.running) = search keeping
  keeps-stage_push new (some ErratumPushStatus.waiting_on_pub) = search keeping
  keeps-stage_push new (some ErratumPushStatus.post_push_processing) = search keeping

  pub keeps-blocked :
      (new : ErrataStatus) (rules : List TransitionRule)
      → Preserves P (Advance.blocked services dry_run erratum new rules)
  unfolding Advance.blocked Advance.push_first Advance.refresh_alerts Advance.flag_blocked
  keeps-blocked new rules =
      search
        (
          keeping, keeps-stage_push, keeps-resolve_wait_for_cat_tests, keeps-refresh,
          keeps-resolve_flag_attention,
        )
        depth 12
