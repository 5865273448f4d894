-- ===== src/IssueFetcher/Consolidate/Pairs.antt =====
-- The jobs of the pairs, and what is written on their issues.
use ai_workflows.Common.{ℕ, ◌+◌, String, ◌<>◌, Option, none, some, List, [], ◌∷◌, if◌then◌else◌}
use ai_workflows.Effects.{Result, ok, raised, Act}
use ai_workflows.Constants.{JiraLabel, label}
use ai_workflows.Redis.Hash.{RedisHash}
use ai_workflows.MergeQueue.Job.{Json, SubmitResult}
use ai_workflows.MergeQueue.Queue.{submit_merge_job}
use ai_workflows.IssueFetcher.Types.{
  FoundIssue, Settings, Events, Services, try_edit, post_jira_comment,
}
use ai_workflows.IssueFetcher.Consolidate.{Entry, Bucket, pop, Buckets, sort_issues}

abbrev pub comment_for : SubmitResult → Entry → Entry → Option String
comment_for SubmitResult.submitted base next = some (
    "MR consolidation job submitted for "
    <> (base.component
        <> ("/"
            <> (base.branch
                <> (". The backport MRs for "
                    <> (base.key
                        <> (" and "
                            <> (next.key <> " will be consolidated into a single MR."))))))))
comment_for SubmitResult.conflict base next = some (
    "A consolidation job is already pending or running for "
    <> (base.component
        <> ("/"
            <> (base.branch
                <> (". Consolidation labels have been removed from "
                    <> (base.key
                        <> (" and "
                            <> (next.key
                                <> ". Please re-apply them after the current job finishes."))))))))
comment_for SubmitResult.already_queued base next = none

abbrev pub one_more : SubmitResult → ℕ → ℕ
one_more SubmitResult.submitted n = n + 1
one_more _ n = n

module _ (r : RedisHash) (json : Json) (services : Services) (settings : Settings) where
  -- A comment whose failure is only logged.
  unfoldable pub try_comment : String → Option String → Events → Events
  try_comment key none log = log
  try_comment key (some comment) log =
      if settings.dry_run then log else (post_jira_comment services key comment log).1

  -- What is written after a submission.
  unfoldable pub report : SubmitResult → Entry → Entry → Events → Events
  report result base next log =
      let (removed, log1) =
        try_edit services settings base.key [] (label JiraLabel.consolidate_base ∷ []) log in
      let (removed', log2) =
        try_edit services settings next.key [] (label JiraLabel.consolidate_next ∷ []) log1 in
      try_comment next.key (comment_for result base next)
        (try_comment base.key (comment_for result base next) log2)

  -- `answer` says whether Redis can be reached; when it cannot, the pair is passed over.
  unfoldable pub submit_pair :
      Result (Unit {0}) → Entry → Entry → r.Hash × Events → ℕ → ℕ × (r.Hash × Events)
  submit_pair (raised e) base next s n = (n, s)
  submit_pair (ok u) base next (hash, log) n =
      let (result, hash') =
        submit_merge_job r json (services.now log) base.component base.branch
          (some (base.key ∷ next.key ∷ [])) none hash in
      (one_more result n, (hash', report result base next log))

  abbrev pub submit_found :
      (Events → Result (Unit {0}))
      → Entry
      → Option Entry
      → r.Hash × Events
      → ℕ
      → ℕ × (r.Hash × Events)
  submit_found answer base none s n = (n, s)
  submit_found answer base (some next) s n = submit_pair (answer s.1) base next s n

  unfoldable pub submit_pairs :
      (Events → Result (Unit {0})) → Bucket → Bucket → r.Hash × Events → ℕ → ℕ × (r.Hash × Events)
  submit_pairs answer [] next s n = (n, s)
  submit_pairs answer ((k, base) ∷ bases) next s n =
      let (n', s') = submit_found answer base (pop k next) s n in
      submit_pairs answer bases next s' n'

  abbrev pub submit_sorted :
      (Events → Result (Unit {0})) → r.Hash → Result Buckets × Events → Result ℕ × (r.Hash × Events)
  submit_sorted answer hash (raised e, log) = (raised e, (hash, log))
  submit_sorted answer hash (ok buckets, log) =
      let (n, s) = submit_pairs answer buckets.base buckets.next (hash, log) 0 in (ok n, s)

  unfoldable pub process_consolidation_labels :
      (Events → Result (Unit {0})) → List FoundIssue → Act (r.Hash × Events) ℕ
  process_consolidation_labels answer issues (hash, log) =
      submit_sorted answer hash
        (sort_issues services settings issues (record { base = []; next = [] }) log)
