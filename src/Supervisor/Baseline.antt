-- ===== src/Supervisor/Baseline.antt =====
-- ymir/supervisor/baseline_tests.py, and the request that ymir/supervisor/testing_farm_utils.py
-- makes for it. The comparison of two result files and its TOML text are an answer of `Services`.
pub mod Traffic
use ai_workflows.Common.{
  String, ◌<>◌, Bool, true, false, Option, none, some, List, [], ◌∷◌, join, if◌then◌else◌,
}
use ai_workflows.Effects.{
  Result, ok, raised, exn, runtime_error, pure, lift, ask, attempt, ◌>>=◌, ◌>>◌,
}
use ai_workflows.Supervisor.Types.{TestingFarmRequestState}
use ai_workflows.Supervisor.Requests.{post_reproduction, Call}
use ai_workflows.Supervisor.Services.{
  Services, TestingFarmRequest, RequestWrapper, BaselineComparison, BaselineTests,
}
use ai_workflows.Supervisor.Jira.{send, add_issue_attachments}

abbrev testing_farm_url : String
testing_farm_url = "https://api.testing-farm.io/v0.1"

abbrev request_link : RequestWrapper → String
request_link w = "[" <> (w.id <> ("|" <> (testing_farm_url <> ("/requests/" <> (w.id <> "]")))))

abbrev attachment_name : BaselineComparison → String
attachment_name c = "comparison-" <> (c.baseline.id <> ("--" <> (c.failed.id <> ".toml")))

abbrev attachment_link : BaselineComparison → String
attachment_link c = "[compare|^" <> (attachment_name c <> "]")

state_value : TestingFarmRequestState → String
state_value TestingFarmRequestState.new = "new"
state_value TestingFarmRequestState.queued = "queued"
state_value TestingFarmRequestState.running = "running"
state_value TestingFarmRequestState.error = "error"
state_value TestingFarmRequestState.canceled = "canceled"
state_value TestingFarmRequestState.cancel_requested = "cancel-requested"
state_value TestingFarmRequestState.complete = "complete"

unfoldable pub is_complete : TestingFarmRequest → Bool
is_complete r = elim r.state [ TestingFarmRequestState.complete ↦ true | _ ↦ false ]

unfoldable pub is_settled : TestingFarmRequest → Bool
is_settled r = elim r.state [
  | TestingFarmRequestState.complete ↦ true
  | TestingFarmRequestState.error ↦ true
  | TestingFarmRequestState.canceled ↦ true
  | _ ↦ false
]

unfoldable pub request_outcome : TestingFarmRequest → String
unfolding state_value is_complete
request_outcome r = if is_complete r then r.result else state_value r.state

module _ (services : Services) where
  open services use {testing_farm_request, reproduction_body, reproduction, show_request}

  request_of : String → Option TestingFarmRequest → Call TestingFarmRequest
  request_of id (some r) = pure r
  request_of id none = ask (λ log. testing_farm_request log id)

  -- The cached property `RequestWrapper.request`.
  unfoldable pub wrapped_request : RequestWrapper → Call TestingFarmRequest
  unfolding request_of
  wrapped_request w = request_of w.id w.fetched

  -- A wrapper that has been asked for its request keeps it.
  unfoldable pub fetch : RequestWrapper → Call RequestWrapper
  unfolding wrapped_request
  fetch w = do r ← wrapped_request w; pure (record w { fetched = some r })

  unfoldable pub all_baselines : (TestingFarmRequest → Bool) → List BaselineComparison → Call Bool
  unfolding wrapped_request
  all_baselines test [] = pure true
  all_baselines test (c ∷ cs) = do
    r ← wrapped_request c.baseline
    if test r then all_baselines test cs else pure false

  unfoldable pub settled : BaselineTests → Call Bool
  unfolding all_baselines is_settled
  settled tests = all_baselines is_settled tests.comparisons

  unfoldable pub complete : BaselineTests → Call Bool
  unfolding all_baselines is_complete
  complete tests = all_baselines is_complete tests.comparisons

  -- One row of the comment's table.
  comparison_row : Bool → BaselineComparison → Call String
  unfolding wrapped_request request_outcome
  comparison_row include_attachments c = do
    failed ← wrapped_request c.failed
    baseline ← wrapped_request c.baseline
    pure (
        "|"
        <> (join ", " failed.arches
            <> ("|"
                <> (request_link c.failed
                    <> ("|"
                        <> (request_link c.baseline
                            <> ("|"
                                <> (request_outcome baseline
                                    <> ((if include_attachments
                                          then "|" <> attachment_link c
                                          else "")
                                        <> "|")))))))))

  comparison_rows : Bool → List BaselineComparison → Call (List String)
  unfolding comparison_row
  comparison_rows include_attachments [] = pure []
  comparison_rows include_attachments (c ∷ cs) = do
    row ← comparison_row include_attachments c
    rows ← comparison_rows include_attachments cs
    pure (row ∷ rows)

  -- The message and the header of the last column.
  comment_words : BaselineTests → Call (String × String)
  unfolding settled complete
  comment_words tests = do
    all_complete ← complete tests
    if all_complete then pure ("Reproduced", "Result") else do
      all_settled ← settled tests
      if all_settled then pure ("Failed to reproduce", "Result") else pure ("Reproducing", "State")

  unfoldable pub format_issue_comment : Bool → BaselineTests → Call String
  unfolding comment_words comparison_rows
  format_issue_comment include_attachments tests = do
    words ← comment_words tests
    rows ← comparison_rows include_attachments tests.comparisons
    pure (
        tests.failure_comment
        <> ("\n\n"
            <> (words.0
                <> (" failed tests with previous build "
                    <> (tests.previous_build_nvr
                        <> (":\n||Architecture||Original Request||Request With Old Build||"
                            <> (words.1
                                <> ((if include_attachments then "||Comparison" else "")
                                    <> ("||\n" <> join "\n" rows)))))))))

  -- The attachment of one comparison, before those of the others.
  attach :
      BaselineComparison
      → Call (List BaselineComparison × List (String × String))
      → Call (List BaselineComparison × List (String × String))
  unfolding fetch
  attach c others = do
    failed ← fetch c.failed
    baseline ← fetch c.baseline
    let c' = record c { failed = failed; baseline = baseline }
    toml ← ask (λ log. services.comparison_toml log c')
    rest ← others
    pure (c' ∷ rest.0, (attachment_name c', toml) ∷ rest.1)

  attachments : List BaselineComparison → Call (List BaselineComparison × List (String × String))
  unfolding attach
  attachments [] = pure ([], [])
  attachments (c ∷ cs) = attach c (attachments cs)

  -- The tests come back with the requests that were fetched on the way.
  unfoldable pub create_attachments : Bool → String → BaselineTests → Call BaselineTests
  unfolding attachments
  create_attachments dry_run issue_key tests = do
    made ← attachments tests.comparisons
    add_issue_attachments services dry_run issue_key made.1
    pure (record tests { comparisons = made.0 })

  unfoldable pub testing_farm_reproduce_request_with_build :
      Bool → TestingFarmRequest → String → Call TestingFarmRequest
  testing_farm_reproduce_request_with_build dry_run request build_nvr = do
    body ← lift (reproduction_body request build_nvr)
    send services dry_run (post_reproduction request.id body)
    ask (λ log. reproduction log request build_nvr)

  reproduction_failed :
      TestingFarmRequest → String → Result TestingFarmRequest → Result TestingFarmRequest
  reproduction_failed request build_nvr (ok r) = ok r
  reproduction_failed request build_nvr (raised e) = raised (
      exn runtime_error (
        "Failed to start reproduction of test run "
        <> (show_request request
            <> (" with previous build " <> (build_nvr <> (": " <> e.message))))))

  -- One failed run is repeated, before the others.
  reproduce_one :
      Bool → String → String → Call (List BaselineComparison) → Call (List BaselineComparison)
  unfolding reproduction_failed
  reproduce_one dry_run nvr id others = do
    failed ← ask (λ log. testing_farm_request log id)
    outcome ← attempt (testing_farm_reproduce_request_with_build dry_run failed nvr)
    baseline ← lift (reproduction_failed failed nvr outcome)
    rest ← others
    pure (
        record {
          failed = record { id = failed.id; fetched = some failed };
          baseline = record { id = baseline.id; fetched = some baseline };
        }
        ∷ rest)

  reproduce_all : Bool → String → List String → Call (List BaselineComparison)
  unfolding reproduce_one
  reproduce_all dry_run nvr [] = pure []
  reproduce_all dry_run nvr (id ∷ ids) =
      reproduce_one dry_run nvr id (reproduce_all dry_run nvr ids)

  -- `BaselineTests.create`
  unfoldable pub create_baseline : Bool → String → List String → String → Call BaselineTests
  unfolding reproduce_all
  create_baseline dry_run failure_comment failed_request_ids previous_build_nvr = do
    comparisons ← reproduce_all dry_run previous_build_nvr failed_request_ids
    pure (record {
      failure_comment = failure_comment;
      comparisons = comparisons;
      previous_build_nvr = previous_build_nvr;
      comment_id = none;
    })
