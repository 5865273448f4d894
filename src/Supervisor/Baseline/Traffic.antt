-- ===== src/Supervisor/Baseline/Traffic.antt =====
-- Which requests the baseline tests make: attachments to the issue, and repeated test runs.
use ai_workflows.Common.{String, Bool, Option, none, some, List, [], ◌∷◌}
use ai_workflows.Effects.Preserves.{Preserves, Preserves-bind, keeping}
use ai_workflows.Supervisor.Requests.{Request, Log, Call}
use ai_workflows.Supervisor.Services.{
  Services, TestingFarmRequest, RequestWrapper, BaselineComparison, BaselineTests,
}
use ai_workflows.Supervisor.Jira.{send}
use ai_workflows.Supervisor.Jira.Traffic.{Plain, repeated, keeps-add_issue_attachments}
use ai_workflows.Supervisor.Baseline

-- Reading leaves the log alone, whatever holds of it.
module _ (services : Services) {P : Log → Type 0} where
  request_of-reads :
      (id : String) (r : Option TestingFarmRequest)
      → Preserves P (Baseline.request_of services id r)
  unfolding Baseline.request_of
  request_of-reads id none = search keeping
  request_of-reads id (some r) = search keeping

  wrapped_request-reads : (w : RequestWrapper) → Preserves P (Baseline.wrapped_request services w)
  unfolding Baseline.wrapped_request
  wrapped_request-reads w = request_of-reads w.id w.fetched

  fetch-reads : (w : RequestWrapper) → Preserves P (Baseline.fetch services w)
  unfolding Baseline.fetch
  fetch-reads w = search (keeping, request_of-reads)

  all_baselines-reads :
      (test : TestingFarmRequest → Bool) (cs : List BaselineComparison)
      → Preserves P (Baseline.all_baselines services test cs)
  unfolding Baseline.all_baselines
  all_baselines-reads test [] = search keeping
  all_baselines-reads test (c ∷ cs) =
      Preserves-bind _ _ (wrapped_request-reads c.baseline)
        (λ r. search (keeping, all_baselines-reads test cs))

  pub settled-reads : (tests : BaselineTests) → Preserves P (Baseline.settled services tests)
  unfolding Baseline.settled
  settled-reads tests = all_baselines-reads Baseline.is_settled tests.comparisons

  complete-reads : (tests : BaselineTests) → Preserves P (Baseline.complete services tests)
  unfolding Baseline.complete
  complete-reads tests = all_baselines-reads Baseline.is_complete tests.comparisons

  comparison_rows-reads :
      (include : Bool) (cs : List BaselineComparison)
      → Preserves P (Baseline.comparison_rows services include cs)
  unfolding Baseline.comparison_rows
  comparison_rows-reads include [] = search keeping
  comparison_rows-reads include (c ∷ cs) =
      Preserves-bind _ _ (search (keeping, request_of-reads) depth 8)
        (λ row. search (keeping, comparison_rows-reads include cs))

  comment_words-reads :
      (tests : BaselineTests) → Preserves P (Baseline.comment_words services tests)
  unfolding Baseline.comment_words
  comment_words-reads tests = search (keeping, all_baselines-reads) depth 8

  pub format_issue_comment-reads :
      (include : Bool) (tests : BaselineTests)
      → Preserves P (Baseline.format_issue_comment services include tests)
  unfolding Baseline.format_issue_comment
  format_issue_comment-reads include tests =
      search (keeping, comparison_rows-reads, comment_words-reads)

  attach-reads :
      (c : BaselineComparison) (others : Call (List BaselineComparison × List (String × String)))
      → Preserves P others
      → Preserves P (Baseline.attach services c others)
  unfolding Baseline.attach
  attach-reads c others k = search (keeping, fetch-reads) depth 12

  attachments-reads :
      (cs : List BaselineComparison) → Preserves P (Baseline.attachments services cs)
  unfolding Baseline.attachments
  attachments-reads [] = search keeping
  attachments-reads (c ∷ cs) = attach-reads c _ (attachments-reads cs)

module _ (services : Services) (dry_run : Bool) {P : Log → Type 0} (key : String)
    (plain : (r : Request) → Plain key r → Preserves P (send services dry_run r)) where
  pub keeps-create_attachments :
      (tests : BaselineTests) → Preserves P (Baseline.create_attachments services dry_run key tests)
  unfolding Baseline.create_attachments
  keeps-create_attachments tests = search (
    keeping,
    attachments-reads services tests.comparisons,
    keeps-add_issue_attachments services dry_run key plain,
  )

  keeps-reproduce :
      (r : TestingFarmRequest) (nvr : String)
      → Preserves P (Baseline.testing_farm_reproduce_request_with_build services dry_run r nvr)
  unfolding Baseline.testing_farm_reproduce_request_with_build
  keeps-reproduce r nvr = search (keeping, plain, repeated)

  keeps-reproduce_one :
      (nvr id : String) (others : Call (List BaselineComparison))
      → Preserves P others
      → Preserves P (Baseline.reproduce_one services dry_run nvr id others)
  unfolding Baseline.reproduce_one
  keeps-reproduce_one nvr id others k = search (keeping, keeps-reproduce) depth 12

  keeps-reproduce_all :
      (nvr : String) (ids : List String)
      → Preserves P (Baseline.reproduce_all services dry_run nvr ids)
  unfolding Baseline.reproduce_all
  keeps-reproduce_all nvr [] = search keeping
  keeps-reproduce_all nvr (id ∷ ids) = keeps-reproduce_one nvr id _ (keeps-reproduce_all nvr ids)

  pub keeps-create_baseline :
      (comment : String) (ids : List String) (nvr : String)
      → Preserves P (Baseline.create_baseline services dry_run comment ids nvr)
  unfolding Baseline.create_baseline
  keeps-create_baseline comment ids nvr = search (keeping, keeps-reproduce_all)
