-- ===== src/Supervisor/ErratumHandler/Advance.antt =====
-- `ErratumHandler.try_to_advance_erratum` of ymir/supervisor/erratum_handler.py.
use ai_workflows.Common.{
  ℕ, zero, suc, String, ◌<>◌, Bool, true, false, Option, none, some, List, [], ◌∷◌, not, contains,
  ◌==◌, to_str, join, list_text, if◌then◌else◌,
}
use ai_workflows.Effects.{Result, ok, raised, exn, key_error, pure, lift, ask, ◌>>=◌, ◌>>◌}
use ai_workflows.Supervisor.Types.{ErrataStatus, errata_status_value, Erratum, WorkflowResult}
use ai_workflows.Supervisor.Requests.{Call}
use ai_workflows.Supervisor.Services.{Services, ErratumBuild, TransitionRule, ErratumPushStatus}
use ai_workflows.Supervisor.Errata.{
  erratum_push_to_stage, erratum_refresh_security_alerts, erratum_add_comment,
  erratum_has_magic_string_in_comments, outcome_ok, outcome_block, all_ok,
}
use ai_workflows.Supervisor.IssueHandler.Resolve.{resolve_wait}
use ai_workflows.Supervisor.ErratumHandler.Lists.{lookup, compare_file_lists}
use ai_workflows.Supervisor.ErratumHandler.Resolve.{
  push_status_value, resolve_flag_attention, resolve_set_status, resolve_wait_for_cat_tests,
}

abbrev pub is_rel_prep : ErrataStatus → Bool
is_rel_prep ErrataStatus.rel_prep = true
is_rel_prep _ = false

-- The names of the rules that are not OK.
unfoldable pub blocking_outcomes : List TransitionRule → List String
blocking_outcomes [] = []
blocking_outcomes (r ∷ rs) =
    let rest = blocking_outcomes rs in if outcome_ok r then rest else r.name ∷ rest

unfoldable pub blocked_details : List TransitionRule → List String
blocked_details [] = []
blocked_details (r ∷ rs) =
    let rest = blocked_details rs in
    if outcome_block r then (r.name <> (": " <> r.details)) ∷ rest else rest

-- `d[key]`
unfoldable pub build_of : String → List (String × ErratumBuild) → Result ErratumBuild
build_of pkg builds = elim (lookup pkg builds) [ none ↦ raised (exn key_error pkg) | some b ↦ ok b ]

abbrev pub Mismatches : Type 0
Mismatches = Call (List String)

abbrev pub checked_mark : String → String → String
checked_mark prefix nvr = prefix <> ("-product-listings-checked(" <> (nvr <> ")"))

module _ (services : Services) (dry_run : Bool) (erratum : Erratum) where
  unfoldable pub already_checked : String → Call Bool
  already_checked nvr = do
    ymir ← erratum_has_magic_string_in_comments services erratum.id (checked_mark "ymir" nvr)
    if ymir
        then pure true
        else erratum_has_magic_string_in_comments services erratum.id (checked_mark "jotnar" nvr)

  -- The comparison with an earlier erratum, before the other packages; the packages that do not
  -- match are collected.
  unfoldable pub compare_with : String → ErratumBuild → ℕ → Mismatches → Mismatches
  compare_with pkg cur_build prev_erratum_id others = do
    other_build_map ← ask (λ log. services.erratum_build_map log prev_erratum_id)
    prev_build ← lift (build_of pkg other_build_map)
    let compared = compare_file_lists services cur_build prev_build prev_erratum_id
    erratum_add_comment services dry_run erratum.id compared.1
    rest ← others
    pure (if compared.0 then rest else pkg ∷ rest)

  unfoldable pub no_previous : String → Mismatches → Mismatches
  no_previous nvr others =
      erratum_add_comment services dry_run erratum.id (
        checked_mark "ymir" nvr
        <> "\n\nNo previous erratum for this package - no need to check package file list change.")
      >> others

  -- `if prev_erratum_id:` is false for `None` and for 0.
  unfoldable pub check_against : String → ErratumBuild → Option ℕ → Mismatches → Mismatches
  check_against pkg cur_build none others = no_previous cur_build.nvr others
  check_against pkg cur_build (some zero) others = no_previous cur_build.nvr others
  check_against pkg cur_build (some (suc n)) others = compare_with pkg cur_build (suc n) others

  unfoldable pub check_package : String → ErratumBuild → Mismatches → Mismatches
  check_package pkg cur_build others = do
    checked ← already_checked cur_build.nvr
    if checked then others else do
      prev ← ask (λ log. services.previous_erratum log erratum.id pkg)
      check_against pkg cur_build prev others

  unfoldable pub mismatch_packages : List (String × ErratumBuild) → Mismatches
  mismatch_packages [] = pure []
  mismatch_packages ((pkg, build) ∷ builds) = check_package pkg build (mismatch_packages builds)

  unfoldable pub move_to : ErrataStatus → Call WorkflowResult
  move_to new_status =
      resolve_set_status services dry_run erratum new_status
        ("Moving to " <> (errata_status_value new_status <> ", since all rules are OK"))

  -- The end of the file list check of a move to REL_PREP.
  unfoldable pub unless_mismatched : ErrataStatus → List String → Call WorkflowResult
  unless_mismatched new_status [] = move_to new_status
  unless_mismatched new_status (p ∷ ps) = resolve_flag_attention services dry_run erratum (
      "The package file lists of this build don't match all of their previous builds - mismatch packages: "
      <> (list_text (p ∷ ps) <> ".\nSee erratum comments for details."))

  unfoldable pub check_file_lists : ErrataStatus → Call WorkflowResult
  check_file_lists new_status = do
    builds ← ask (λ log. services.erratum_build_map log erratum.id)
    mismatched ← mismatch_packages builds
    unless_mismatched new_status mismatched

  unfoldable pub all_rules_ok : ErrataStatus → Call WorkflowResult
  all_rules_ok new_status =
      if is_rel_prep new_status then check_file_lists new_status else move_to new_status

  unfoldable pub push_again : ErrataStatus → Call WorkflowResult
  push_again new_status =
      erratum_push_to_stage services dry_run erratum.id
      >> pure (
          resolve_wait (
            "Stage-pushing erratum "
            <> (to_str erratum.id <> (" before moving to " <> errata_status_value new_status))))

  unfoldable pub stage_push : ErrataStatus → Option ErratumPushStatus → Call WorkflowResult
  stage_push new_status none = push_again new_status
  stage_push new_status (some ErratumPushStatus.complete) = push_again new_status
  stage_push new_status (some ErratumPushStatus.failed) =
      resolve_flag_attention services dry_run erratum (
        "Stage-push previously FAILED for erratum "
        <> (to_str erratum.id
            <> (", needs manual intervention before moving to " <> errata_status_value new_status)))
  stage_push new_status (some existing) = pure (
      resolve_wait (
        "Stage-push already in progress ("
        <> (push_status_value existing
            <> (") for erratum "
                <> (to_str erratum.id
                    <> (", waiting for completion before moving to "
                        <> errata_status_value new_status))))))

  -- The blocking rules in order of priority.
  unfoldable pub refresh_alerts : ErrataStatus → Call WorkflowResult
  refresh_alerts new_status =
      erratum_refresh_security_alerts services dry_run erratum.id
      >> pure (
          resolve_wait (
            "Refreshing security alerts for erratum "
            <> (to_str erratum.id <> (" before moving to " <> errata_status_value new_status))))

  unfoldable pub flag_blocked : ErrataStatus → List TransitionRule → Call WorkflowResult
  flag_blocked new_status rules = resolve_flag_attention services dry_run erratum (
      "Transition to "
      <> (errata_status_value new_status
          <> (" is blocked by:\n" <> join "\n" (blocked_details rules))))

  unfoldable pub push_first : ErrataStatus → Call WorkflowResult
  push_first new_status = do
    push ← ask (λ log. services.stage_push_details log erratum.id)
    stage_push new_status push.status

  -- The blocking rules in order of priority.
  unfoldable pub blocked : ErrataStatus → List TransitionRule → Call WorkflowResult
  blocked new_status rules =
      let names = blocking_outcomes rules in
      if contains names "Stagepush"
      then push_first new_status
      else (if contains names "Cat"
          then resolve_wait_for_cat_tests services dry_run erratum new_status
          else (if contains names "Securityalert"
              then refresh_alerts new_status
              else flag_blocked new_status rules))

  unfoldable pub try_to_advance_erratum : ErrataStatus → Call WorkflowResult
  try_to_advance_erratum new_status = do
    rule_set ← ask (λ log. services.transition_rules log erratum.id)
    if not (errata_status_value rule_set.to_status == errata_status_value new_status)
        then resolve_flag_attention services dry_run erratum (
            "Next state is "
            <> (errata_status_value rule_set.to_status
                <> (" instead of " <> errata_status_value new_status)))
        else (if all_ok rule_set
            then all_rules_ok new_status
            else blocked new_status rule_set.rules)
