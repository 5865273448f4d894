-- ===== src/Supervisor/IssueHandler/Run/Traffic.antt =====
-- Which requests a step of an issue makes.
use ai_workflows.Common.{
  String, ◌≡◌, refl, ◌⊎◌, inl, inr, Bool, true, false, Option, none, some, is_some, contains, any,
  not, ap, ◌&&◌, eqb, length, of_not-false,
}
use ai_workflows.Effects.Preserves.{
  Preserves, Preserves-bind, Preserves-bind_value, Preserves-if, keeping, Returns-ask, Returns-if,
  Returns-pure,
}
use ai_workflows.Supervisor.Types.{IssueStatus, Erratum, FullIssue, TestingState}
use ai_workflows.Supervisor.Requests.{CommentBody, Request, post_transition, Log}
use ai_workflows.Supervisor.Services.{Services, BaselineTests, TestingAnalysis}
use ai_workflows.Supervisor.Jira.{send}
use ai_workflows.Supervisor.Jira.Traffic.{Plain}
use ai_workflows.Supervisor.IssueHandler.Resolve.Traffic.{
  keeps-resolve_flag_attention, keeps-resolve_start_reproduction, keeps-resolve_check_reproduction,
  keeps-resolve_set_status,
}
use ai_workflows.Supervisor.IssueHandler.Merged.{append_label}
use ai_workflows.Supervisor.IssueHandler.Merged.Traffic.{
  Labelled, keeps-label_merge_if_needed, label_merge_if_needed-Labelled,
  get_latest_merged_timestamp-reads,
}
use ai_workflows.Supervisor.IssueHandler.Resolve.{resolve_flag_attention}
use ai_workflows.Supervisor.IssueHandler.Run
use ai_workflows.Supervisor.IssueHandler.Run.Permission.{TestsAccepted, IsEarly, MayMove}
use ai_workflows.Supervisor.IssueHandler.Run.{target_label}

module _ (services : Services) (dry_run ignore : Bool) {P : Log → Type 0} (issue : FullIssue)
    (plain : (r : Request) → Plain issue.key r → Preserves P (send services dry_run r)) where
  keeps-after_analysis :
      (erratum : Erratum) (baseline : Option BaselineTests) (analysis : TestingAnalysis)
      (state : TestingState)
      → ((state ≡ TestingState.passed) ⊎ (state ≡ TestingState.waived)
          → (id : String) (c : Option CommentBody)
          → Preserves P (send services dry_run (post_transition issue.key id c)))
      → Preserves P
          (Run.after_analysis services dry_run ignore issue erratum baseline analysis state)
  unfolding Run.after_analysis
  keeps-after_analysis erratum baseline analysis TestingState.passed moves =
      keeps-resolve_set_status services dry_run issue plain (moves (inl refl)) _ _
  keeps-after_analysis erratum baseline analysis TestingState.waived moves =
      keeps-resolve_set_status services dry_run issue plain (moves (inr refl)) _ _
  keeps-after_analysis erratum baseline analysis TestingState.failed moves = search (
    keeping,
    keeps-resolve_start_reproduction services dry_run issue plain,
    keeps-resolve_flag_attention services dry_run issue plain,
  )
  keeps-after_analysis erratum baseline analysis TestingState.not_running moves =
      keeps-resolve_flag_attention services dry_run issue plain _ _
  keeps-after_analysis erratum baseline analysis TestingState.error moves =
      keeps-resolve_flag_attention services dry_run issue plain _ _
  keeps-after_analysis erratum baseline analysis TestingState.pending moves = search keeping
  keeps-after_analysis erratum baseline analysis TestingState.running moves = search keeping

  module _
      (moves : TestsAccepted services
        → (id : String) (c : Option CommentBody)
        → Preserves P (send services dry_run (post_transition issue.key id c))) where
    keeps-analyse :
        (erratum : Erratum)
        → Run.is_new_files erratum.status ≡ false
        → Preserves P (Run.analyse services dry_run ignore issue erratum)
    unfolding Run.analyse
    keeps-analyse erratum left =
        Preserves-bind_value _ _ (search keeping) (Returns-ask _) (λ analysis answer.
          keeps-after_analysis erratum _ analysis analysis.state (λ accepted. moves (record {
            log = answer.0;
            issue = issue;
            erratum = erratum;
            after_baseline = is_some (services.load_baseline issue);
            analysis = analysis;
            answered = answer.1;
            accepted = accepted;
            out_of_new_files = left;
          })))

    keeps-in_integration :
        (link : String) → Preserves P (Run.in_integration services dry_run ignore issue link)
    unfolding Run.in_integration
    keeps-in_integration link =
        Preserves-if (contains issue.labels "ymir_reproducing_tests") _ _
          (λ _. keeps-resolve_check_reproduction services dry_run issue plain)
          (λ _. Preserves-bind _ _ (search keeping) (λ erratum.
            Preserves-if (Run.is_new_files erratum.status) _ _ (λ _. search keeping)
              (keeps-analyse erratum)))

  keeps-to_integration :
      ((id : String) (c : Option CommentBody)
        → Preserves P (send services dry_run (post_transition issue.key id c)))
      → Preserves P (Run.to_integration services dry_run ignore issue)
  unfolding Run.to_integration
  keeps-to_integration moves = keeps-resolve_set_status services dry_run issue plain moves _ _

  keeps-by_status :
      (link : String) (status : IssueStatus)
      → (IsEarly status ⊎ ((status ≡ IssueStatus.integration) × TestsAccepted services)
          → (id : String) (c : Option CommentBody)
          → Preserves P (send services dry_run (post_transition issue.key id c)))
      → Preserves P (Run.by_status services dry_run ignore issue link status)
  unfolding Run.by_status
  keeps-by_status link IssueStatus.integration moves =
      keeps-in_integration (λ accepted. moves (inr (refl, accepted))) link
  keeps-by_status link IssueStatus.new moves = keeps-to_integration (moves (inl (inl refl)))
  keeps-by_status link IssueStatus.planning moves =
      keeps-to_integration (moves (inl (inr (inl refl))))
  keeps-by_status link IssueStatus.in_progress moves =
      keeps-to_integration (moves (inl (inr (inr refl))))
  keeps-by_status link IssueStatus.release_pending moves = search keeping
  keeps-by_status link IssueStatus.closed moves = search keeping
  keeps-by_status link IssueStatus.refinement moves = search keeping
  keeps-by_status link IssueStatus.done moves = search keeping

  keeps-await_erratum : Preserves P (Run.await_erratum services dry_run ignore issue)
  unfolding Run.await_erratum
  keeps-await_erratum =
      search
        (
          keeping,
          get_latest_merged_timestamp-reads services dry_run issue,
          keeps-resolve_flag_attention services dry_run issue plain,
        )
        depth 10

-- The label that `label_merge_if_needed` may add changes nothing else of the issue.
module _ (services : Services) (dry_run ignore : Bool) {P : Log → Type 0} (issue : FullIssue)
    (plain : (r : Request) → Plain issue.key r → Preserves P (send services dry_run r)) where
  keeps-before_label :
      (r : Bool × FullIssue)
      → Labelled issue r
      → Preserves P (Run.await_erratum services dry_run ignore r.1)
  unfolding append_label
  keeps-before_label r (inl e) = rw e (keeps-await_erratum services dry_run ignore issue plain)
  keeps-before_label r (inr e) =
      rw e (keeps-await_erratum services dry_run ignore (append_label issue "ymir_merged") plain)

  keeps-after_label :
      (link : String) (r : Bool × FullIssue)
      → Labelled issue r
      → (IsEarly issue.status ⊎ ((issue.status ≡ IssueStatus.integration) × TestsAccepted services)
          → (id : String) (c : Option CommentBody)
          → Preserves P (send services dry_run (post_transition issue.key id c)))
      → Preserves P (Run.by_status services dry_run ignore r.1 link r.1.status)
  unfolding append_label
  keeps-after_label link r (inl e) moves =
      rw e (keeps-by_status services dry_run ignore issue plain link issue.status moves)
  keeps-after_label link r (inr e) moves = rw e (
      keeps-by_status services dry_run ignore (append_label issue "ymir_merged") plain link
        issue.status moves)

  keeps-run_before_errata_created :
      Preserves P (Run.run_before_errata_created services dry_run ignore issue)
  unfolding Run.run_before_errata_created
  keeps-run_before_errata_created =
      Preserves-if (not (any target_label issue.labels)) _ _ (λ _. search keeping)
        (λ _.
          Preserves-bind_value _ _
            (Preserves-if (contains issue.labels "ymir_merged") _ _ (λ _. search keeping)
              (λ _. keeps-label_merge_if_needed services dry_run issue plain))
            (Returns-if (contains issue.labels "ymir_merged") _ _ (Returns-pure _ (inl refl))
              (label_merge_if_needed-Labelled services dry_run issue))
            (λ r labelled.
              Preserves-if (contains r.1.labels "ymir_merged") _ _
                (λ _. keeps-before_label r labelled) (λ _. search keeping)))

  keeps-run_after_errata_created :
      (link : String)
      → is_some issue.errata_link ≡ true
      → (MayMove services issue
          → (id : String) (c : Option CommentBody)
          → Preserves P (send services dry_run (post_transition issue.key id c)))
      → Preserves P (Run.run_after_errata_created services dry_run ignore issue link)
  unfolding Run.run_after_errata_created
  keeps-run_after_errata_created link linked moves =
      Preserves-if (not (is_some issue.fixed_in_build)) _ _ (λ _. flag _)
        (λ built.
          Preserves-if (not (Run.passed_preliminary issue.preliminary_testing)) _ _ (λ _. flag _)
            (λ tested.
              Preserves-if (not (Run.has_coverage issue.test_coverage)) _ _ (λ _. flag _)
                (λ covered.
                  Preserves-bind_value _ _
                    (keeps-label_merge_if_needed services dry_run issue plain)
                    (label_merge_if_needed-Labelled services dry_run issue)
                    (λ r labelled. keeps-after_label link r labelled (λ due. moves (record {
                      linked = linked;
                      built = of_not-false _ built;
                      tested = of_not-false _ tested;
                      covered = of_not-false _ covered;
                      due = due;
                    }))))))
    where
      flag : (why : String) → Preserves P (resolve_flag_attention services dry_run issue why none)
      flag why = keeps-resolve_flag_attention services dry_run issue plain why none

  keeps-by_link :
      (link : Option String)
      → issue.errata_link ≡ link
      → (MayMove services issue
          → (id : String) (c : Option CommentBody)
          → Preserves P (send services dry_run (post_transition issue.key id c)))
      → Preserves P (Run.by_link services dry_run ignore issue link)
  unfolding Run.by_link
  keeps-by_link none e moves = keeps-run_before_errata_created
  keeps-by_link (some link) e moves = keeps-run_after_errata_created link (ap is_some e) moves

  -- A step keeps what its plain requests keep, and a change of status where it may make one.
  pub keeps-run :
      (MayMove services issue
        → (id : String) (c : Option CommentBody)
        → Preserves P (send services dry_run (post_transition issue.key id c)))
      → Preserves P (Run.run services dry_run ignore issue)
  unfolding Run.run
  keeps-run moves =
      Preserves-if (contains issue.labels "ymir_needs_attention" && not ignore) _ _
        (λ _. search keeping)
        (λ _.
          Preserves-if (not (eqb (length issue.components) 1)) _ _
            (λ _. keeps-resolve_flag_attention services dry_run issue plain _ _)
            (λ _. keeps-by_link issue.errata_link refl moves))
