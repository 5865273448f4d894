-- ===== src/Supervisor/Collect.antt =====
-- ymir/supervisor/collect.py: finding new work.
pub mod Schedules
pub mod Queued
use ai_workflows.Common.{
  ℕ, String, Bool, true, false, Option, none, some, List, [], ◌∷◌, ◌++◌, map, contains, not, to_str,
  if◌then◌else◌,
}
use ai_workflows.Effects.{Result, ok, raised, Act, pure, ask, lift, ◌>>=◌, ◌>>◌}
use ai_workflows.Supervisor.Types.{ErrataStatus, IssueStatus, Erratum, Issue}
use ai_workflows.Supervisor.Requests.{Log, Call}
use ai_workflows.Supervisor.Services.{Services}
use ai_workflows.Supervisor.ErratumHandler.Lists.{
  is_release_pending, all_issues_are_release_pending, erratum_get_issues, erratum_needs_attention,
}
use ai_workflows.Supervisor.WorkQueue.Item.{WorkItemType, WorkItem, work_item_str}
use ai_workflows.Redis.SortedSet.{SortedSet}
use ai_workflows.Supervisor.WorkQueue.Queue.{schedule_work_items, get_all_work_items}

-- `{i.errata_link for i in issues if i.errata_link is not None}`, in the order of the issues
abbrev pub erratum_links : List Issue → List String
erratum_links [] = []
erratum_links (i ∷ is) = add_link i.errata_link (erratum_links is)
  where
    add_link : Option String → List String → List String
    add_link none links = links
    add_link (some link) links = if contains links link then links else link ∷ links

abbrev pub issue_items : List Issue → List WorkItem
issue_items [] = []
issue_items (i ∷ is) =
    let rest = issue_items is in
    if not (is_release_pending i.status)
    then record { item_type = WorkItemType.process_issue; item_data = i.key } ∷ rest
    else rest

-- The set difference `items - set(queued)`; the text of an item determines it.
abbrev pub without_queued : List WorkItem → List WorkItem → List WorkItem
without_queued [] queued = []
without_queued (i ∷ is) queued =
    let rest = without_queued is queued in
    if contains (map work_item_str queued) (work_item_str i) then rest else i ∷ rest

module _ (services : Services) (issues : List Issue) where
  abbrev pub issue_cache : List (String × Issue)
  issue_cache = map (λ i. (i.key, i)) issues

  unfoldable pub in_right_state : Erratum → ErrataStatus → Call Bool
  in_right_state e ErrataStatus.new_files = pure true
  in_right_state e ErrataStatus.qe = do
    related ← erratum_get_issues services issue_cache e
    pure (all_issues_are_release_pending related)
  in_right_state e other = pure false

  unfoldable pub unflagged : Erratum → Call Bool
  unflagged e = do flagged ← erratum_needs_attention services e.id; pure (not flagged)

  unfoldable pub is_relevant : Erratum → Call Bool
  is_relevant e = do right ← in_right_state e e.status; if right then unflagged e else pure false

  unfoldable pub get_errata : List String → Call (List Erratum)
  get_errata [] = pure []
  get_errata (link ∷ links) = do
    e ← ask (λ log. services.erratum_for_link log link)
    es ← get_errata links
    pure (e ∷ es)

  unfoldable pub errata_items : List Erratum → Call (List WorkItem)
  errata_items [] = pure []
  errata_items (e ∷ es) = do
    relevant ← is_relevant e
    rest ← errata_items es
    pure (
        if relevant
        then record { item_type = WorkItemType.process_erratum; item_data = to_str e.id } ∷ rest
        else rest)

  unfoldable pub find_work_items : Call (List WorkItem)
  find_work_items = do
    errata ← get_errata (erratum_links issues)
    items ← errata_items errata
    pure (issue_items issues ++ items)

module _ (z : SortedSet) (services : Services) (init_kerberos_ticket : Log → Result (Unit {0}))
    (current_issues : Log → Result (List Issue)) where
  -- What is found, before the queue is looked at.
  unfoldable pub collect_work_items : Call (List WorkItem)
  collect_work_items = do
    ask init_kerberos_ticket
    issues ← ask current_issues
    find_work_items services issues

  unfoldable pub schedule_new :
      ℕ → List WorkItem → Result (List WorkItem) → z.Set → Result (Unit {0}) × z.Set
  schedule_new current_time found (raised e) q = (raised e, q)
  schedule_new current_time found (ok queued) q =
      (ok tt, schedule_work_items z current_time (without_queued found queued) 0 q)

  unfoldable pub with_found :
      ℕ → Result (List WorkItem) × Log → z.Set → Result (Unit {0}) × (z.Set × Log)
  with_found current_time (raised e, log) q = (raised e, (q, log))
  with_found current_time (ok found, log) q =
      let (r, q') = schedule_new current_time found (get_all_work_items z q) q in (r, (q', log))

  unfoldable pub collect_and_schedule_work_items : z.Set × Log → Result (Unit {0}) × (z.Set × Log)
  collect_and_schedule_work_items (q, log) =
      with_found (services.now log) (collect_work_items log) q
