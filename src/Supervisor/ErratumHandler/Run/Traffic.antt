-- ===== src/Supervisor/ErratumHandler/Run/Traffic.antt =====
-- Which requests a step of an erratum makes.
use ai_workflows.Common.{
  String, ◌≡◌, ◌⊎◌, inl, inr, refl, Bool, true, false, List, [], ◌∷◌, not, ◌==◌, eq_iff,
  of_not-false, of_not-true,
}
use ai_workflows.Effects.{ok}
use ai_workflows.Effects.Preserves.{
  Preserves, Preserves-bind, Preserves-bind_value, Preserves-if, keeping, Returns-ask,
}
use ai_workflows.Supervisor.Types.{
  ErrataStatus, errata_status_value, Erratum, Issue, errata_jotnar_bot_email,
}
use ai_workflows.Supervisor.Requests.{Request, post_change_state, put_owner, Log}
use ai_workflows.Supervisor.Services.{Services, TransitionRuleSet}
use ai_workflows.Supervisor.Jira.{send}
use ai_workflows.Supervisor.Errata
use ai_workflows.Supervisor.Errata.{all_ok}
use ai_workflows.Supervisor.ErratumHandler.Lists.{
  jotnar_owns_all_issues, all_issues_are_release_pending,
}
use ai_workflows.Supervisor.ErratumHandler.Resolve
use ai_workflows.Supervisor.ErratumHandler.Advance
use ai_workflows.Supervisor.ErratumHandler.Run
use ai_workflows.Supervisor.ErratumHandler.Run.{owned_by_bot}
use ai_workflows.Supervisor.ErratumHandler.Run.FileLists.{mismatch_packages-Clean}
use ai_workflows.Supervisor.ErratumHandler.Run.Permission.{
  AllChecked, AsRead, Next, to_qe, to_rel_prep, MayAdvance, MayTakeOver, Harmless,
}
use ai_workflows.Supervisor.ErratumHandler.Run.Reads.{
  keeps-erratum_needs_attention, keeps-erratum_get_issues, erratum_get_issues-AsRead,
}
use ai_workflows.Supervisor.ErratumHandler.Run.Parts.{
  keeps-resolve_flag_attention, keeps-mismatch_packages, keeps-blocked,
}

module _ (services : Services) (dry_run : Bool) (erratum : Erratum) {P : Log → Type 0}
    (harmless : (r : Request) → Harmless erratum r → Preserves P (send services dry_run r)) where
  module _ (new : ErrataStatus) where
    keeps-move_to :
        Preserves P (send services dry_run (post_change_state erratum.id new))
        → Preserves P (Advance.move_to services dry_run erratum new)
    unfolding Advance.move_to Resolve.resolve_set_status Errata.erratum_change_state
    keeps-move_to moves = Preserves-bind _ _ moves (λ _. search keeping)

    keeps-unless_mismatched :
        (ms : List String)
        → (ms ≡ [] → Preserves P (send services dry_run (post_change_state erratum.id new)))
        → Preserves P (Advance.unless_mismatched services dry_run erratum new ms)
    unfolding Advance.unless_mismatched
    keeps-unless_mismatched [] moves = keeps-move_to (moves refl)
    keeps-unless_mismatched (m ∷ ms) moves =
        keeps-resolve_flag_attention services dry_run erratum harmless _

    keeps-all_rules_ok :
        ((Advance.is_rel_prep new ≡ false) ⊎ AllChecked services erratum
          → Preserves P (send services dry_run (post_change_state erratum.id new)))
        → Preserves P (Advance.all_rules_ok services dry_run erratum new)
    unfolding Advance.all_rules_ok Advance.check_file_lists
    keeps-all_rules_ok moves =
        Preserves-if (Advance.is_rel_prep new) _ _
          (λ _. Preserves-bind_value _ _ (search keeping) (Returns-ask _) (λ builds answer.
            Preserves-bind_value _ _
              (keeps-mismatch_packages services dry_run erratum harmless builds)
              (mismatch_packages-Clean services dry_run erratum builds)
              (λ ms clean. keeps-unless_mismatched ms (λ empty. moves (
                inr (record {
                  log = answer.0;
                  builds = builds;
                  read = answer.1;
                  each = clean empty;
                }))))))
          (λ other. keeps-move_to (moves (inl other)))

  keeps-try_to_advance_erratum :
      (new : ErrataStatus)
      → ((log : Log) (rule_set : TransitionRuleSet)
          → services.transition_rules log erratum.id ≡ ok rule_set
          → errata_status_value rule_set.to_status ≡ errata_status_value new
          → all_ok rule_set ≡ true
          → (Advance.is_rel_prep new ≡ false) ⊎ AllChecked services erratum
          → Preserves P (send services dry_run (post_change_state erratum.id new)))
      → Preserves P (Advance.try_to_advance_erratum services dry_run erratum new)
  unfolding Advance.try_to_advance_erratum
  keeps-try_to_advance_erratum new moves =
      Preserves-bind_value _ _ (search keeping) (Returns-ask _) (λ rule_set answer.
        Preserves-if (not (errata_status_value rule_set.to_status == errata_status_value new)) _ _
          (λ _. keeps-resolve_flag_attention services dry_run erratum harmless _)
          (λ same.
            Preserves-if (all_ok rule_set) _ _
              (λ rules_ok.
                keeps-all_rules_ok new (
                  moves answer.0 rule_set answer.1 ((eq_iff _ _).0 (of_not-false _ same)) rules_ok))
              (λ _. keeps-blocked services dry_run erratum harmless new rule_set.rules)))

  module _
      (moves : (new : ErrataStatus)
        → MayAdvance services erratum new
        → Preserves P (send services dry_run (post_change_state erratum.id new))) where
    keeps-by_status :
        (related : List Issue) (status : ErrataStatus)
        → ((new : ErrataStatus) → Next status new related → Next erratum.status new related)
        → AsRead services erratum.jira_issues related
        → owned_by_bot erratum ≡ true
        → Preserves P (Run.by_status services dry_run erratum related status)
    unfolding Run.by_status
    keeps-by_status related ErrataStatus.new_files next as_read owned =
        keeps-try_to_advance_erratum _ (λ log rule_set answered same rules_ok files.
          moves _ (record {
            owned = owned;
            related = related;
            as_read = as_read;
            next = next _ to_qe;
            log = log;
            rule_set = rule_set;
            answered = answered;
            same_state = same;
            rules_ok = rules_ok;
            files = files;
          }))
    keeps-by_status related ErrataStatus.qe next as_read owned =
        Preserves-if (not (all_issues_are_release_pending related)) _ _ (λ _. search keeping)
          (λ pending. keeps-try_to_advance_erratum _ (λ log rule_set answered same rules_ok files.
            moves _ (record {
              owned = owned;
              related = related;
              as_read = as_read;
              next = next _ (to_rel_prep (of_not-false _ pending));
              log = log;
              rule_set = rule_set;
              answered = answered;
              same_state = same;
              rules_ok = rules_ok;
              files = files;
            })))
    keeps-by_status related ErrataStatus.rel_prep next as_read owned = search keeping
    keeps-by_status related ErrataStatus.push_ready next as_read owned = search keeping
    keeps-by_status related ErrataStatus.in_push next as_read owned = search keeping
    keeps-by_status related ErrataStatus.dropped_no_ship next as_read owned = search keeping
    keeps-by_status related ErrataStatus.shipped_live next as_read owned = search keeping

    module _
        (takes : MayTakeOver services erratum
          → Preserves P (send services false (put_owner erratum.id errata_jotnar_bot_email))) where
      keeps-take_over :
          (related : List Issue)
          → AsRead services erratum.jira_issues related
          → owned_by_bot erratum ≡ false
          → Preserves P (Run.take_over services dry_run erratum related)
      unfolding Run.take_over Errata.erratum_change_ownership
      keeps-take_over related as_read not_owned =
          Preserves-if (jotnar_owns_all_issues related) _ _
            (λ ours.
              Preserves-bind _ _
                (takes (record {
                  not_owned = not_owned;
                  related = related;
                  as_read = as_read;
                  ours = ours;
                }))
                (λ _. search keeping))
            (λ _. keeps-resolve_flag_attention services dry_run erratum harmless _)

      keeps-process : Preserves P (Run.process services dry_run erratum)
      unfolding Run.process
      keeps-process =
          Preserves-bind_value _ _ (keeps-erratum_get_issues services _ _)
            (erratum_get_issues-AsRead services erratum)
            (λ related as_read.
              Preserves-if (not (owned_by_bot erratum)) _ _
                (λ no. keeps-take_over related as_read (of_not-true _ no))
                (λ yes.
                  keeps-by_status related erratum.status (λ _ n. n) as_read (of_not-false _ yes)))

      -- A step keeps what its harmless requests keep, and a change of state or of owner where it
      -- may make one.
      pub keeps-run : (ignore : Bool) → Preserves P (Run.run services dry_run ignore erratum)
      unfolding Run.run
      keeps-run ignore =
          search (keeping, keeps-erratum_needs_attention services, keeps-process) depth 10
