-- ===== src/Sweep/PrPending/Merged.antt =====
-- What each outcome of the check says of the forge, and what it has written.
use ai_workflows.Common.{
  String, true, false, Option, none, some, ◌∷◌, ◌≡◌, ◌≢◌, ◌⊎◌, inl, inr, refl, sym, ap, subst, ◌==◌,
  eq_iff, Bool-cases, String-cases, differ, truthy, ◌<>◌,
}
use ai_workflows.Effects.{Result, ok, raised, ◌>>=◌, pure, after}
use ai_workflows.Constants.{JiraLabel, label}
use ai_workflows.Supervisor.Types.{FullIssue}
use ai_workflows.Supervisor.Requests.{Log}
use ai_workflows.Supervisor.Services.{Services}
use ai_workflows.Supervisor.Jira.{CommentSpec, text}
use ai_workflows.Supervisor.Requests.{remove, put_issue}
use ai_workflows.Sweep.{SweepAction, SweepResult, CommentData, on_transition}
use ai_workflows.Sweep.Unblock.{new_label_added, on_transition-adds_first}
use ai_workflows.Sweep.Dependency.{result_of, first_reference}
use ai_workflows.Sweep.PrPending.{
  Groups, State, PullData, Forges, match_gitlab, match_github, gitlab_path, github_path,
  gitlab_state, github_state, act_on_state, act_on_answer, ask_github, ask_forge, is_unblocked,
}

-- The state of a pull request of GitHub, in the words of GitLab.
abbrev pub PullState : PullData → String → Type 0
PullState d state =
    ((d.state ≡ "open") × (state ≡ "opened"))
    ⊎ (((d.state ≡ "closed") × (truthy d.merged_at ≡ true) × (state ≡ "merged"))
        ⊎ (((d.state ≡ "closed") × (truthy d.merged_at ≡ false) × (state ≡ "closed"))
            ⊎ ((d.state ≢ "open") × (d.state ≢ "closed") × (state ≡ d.state))))

module _ (forges : Forges) (log : Log) (pr_url : String) where
  -- The forge that the URL names answers with a state.
  abbrev pub Reports : String → Type 0
  Reports state =
      ((host : String) × (groups : Groups) × (match_gitlab pr_url ≡ some (host, groups))
        × (forges.gitlab_api_get log (gitlab_path groups) ("https://" <> host) ≡ ok state))
      ⊎ ((groups : Groups) × (match_gitlab pr_url ≡ none)
          × (match_github pr_url ≡ some groups)
          × ((d : PullData) × (forges.github_api_get log (github_path groups) ≡ ok d)
              × PullState d state))

gitlab_state-ok :
    (pr_url state : String) (r : Result String)
    → gitlab_state pr_url r ≡ (state, none)
    → r ≡ ok state
gitlab_state-ok pr_url state (raised e) h = cc
gitlab_state-ok pr_url state (ok s) h = ap ok (ap (λ p. p.0) h)

github_state-PullState :
    (pr_url : String) (r : Result PullData) (state : String)
    → github_state pr_url r ≡ (state, none)
    → (d : PullData) × (r ≡ ok d) × PullState d state
github_state-PullState pr_url (raised e) state = λ h. cc
github_state-PullState pr_url (ok d) state = elim (String-cases d.state "open") [
  | inl open_ ↦
      rw ((eq_iff d.state "open").1 open_) (λ h. (d, refl, inl (open_, sym (ap (λ p. p.0) h))))
  | inr not_open ↦ rw (differ d.state "open" not_open) (elim (String-cases d.state "closed") [
    | inl closed ↦ rw ((eq_iff d.state "closed").1 closed) (elim (Bool-cases (truthy d.merged_at)) [
      | inl merged ↦ rw merged (λ h. (d, refl, inr (inl (closed, merged, sym (ap (λ p. p.0) h)))))
      | inr abandoned ↦
          rw abandoned (λ h. (d, refl, inr (inr (inl (closed, abandoned, sym (ap (λ p. p.0) h))))))
    ])
    | inr not_closed ↦
        rw (differ d.state "closed" not_closed)
          (λ h. (d, refl, inr (inr (inr (not_open, not_closed, sym (ap (λ p. p.0) h))))))
  ])
]

module _ (services : Services) (own_label : String) (forges : Forges) (issue : FullIssue)
    (log : Log) where
  abbrev pub closed_comment : String → CommentSpec
  closed_comment pr_url = text (
      "Upstream PR/MR "
      <> (pr_url
          <> (" was closed without merging. "
              <> "Transitioning to no-patch state for re-evaluation.")))

  abbrev pub half_way : String → Log
  half_way pr_url =
      new_label_added services own_label issue.key (label JiraLabel.ymir_postponed_no_patch)
        (closed_comment pr_url) log

  abbrev pub all_the_way : String → Log
  all_the_way pr_url = put_issue issue.key (remove own_label) none ∷ half_way pr_url

  -- What an action says, where `P` holds of the state that the forge reports.
  abbrev pub ByAction : (String → Type 0) → String → SweepAction → Log → Type 0
  ByAction P pr_url SweepAction.unblocked log' = P "merged" × (log' ≡ log)
  ByAction P pr_url SweepAction.transitioned log' = P "closed" × (log' ≡ all_the_way pr_url)
  ByAction P pr_url SweepAction.still_blocked log' = log' ≡ log
  ByAction P pr_url SweepAction.error log' = log' ≡ log

  abbrev pub Told : (String → Type 0) → String → Result SweepResult → Log → Type 0
  Told P pr_url (ok result) log' = ByAction P pr_url result.action log'
  Told P pr_url (raised e) log' =
      P "closed" × ((log' ≡ half_way pr_url) ⊎ (log' ≡ all_the_way pr_url))

  answered-Told :
      (P : String → Type 0) (pr_url : String) (r : Result (Unit {0}))
      → P "closed"
      → let done =
          after
            (λ (u : Unit {0}) (s : Log). (
              ok (
                  result_of issue SweepAction.transitioned
                    ("PR/MR " <> (pr_url <> " closed — transitioned to no_patch"))),
              s,
            ))
            r
            (all_the_way pr_url) in
        Told P pr_url done.0 done.1
  answered-Told P pr_url (ok u) closed = (closed, refl)
  answered-Told P pr_url (raised e) closed = (closed, inr refl)

  -- The transition, and what follows it.
  transitioned-Told :
      (P : String → Type 0) (pr_url : String)
      → P "closed"
      → let done =
          (on_transition services own_label issue.key
                (label JiraLabel.ymir_postponed_no_patch)
                (closed_comment pr_url)
              >>= (λ _. pure (
                  result_of issue SweepAction.transitioned
                    ("PR/MR " <> (pr_url <> " closed — transitioned to no_patch")))))
            log in
        Told P pr_url done.0 done.1
  unfolding ◌>>=◌ pure
  transitioned-Told P pr_url closed =
      elim (on_transition-adds_first services own_label issue.key
        (label JiraLabel.ymir_postponed_no_patch) (closed_comment pr_url) log) [
          | inl (e, failed, made) ↦ rw made (closed, inl refl)
          | inr made ↦ rw made (answered-Told P pr_url _ closed)
        ]

  act_on_state-Told :
      (P : String → Type 0) (pr_url state : String)
      → P state
      → let done = act_on_state services own_label forges issue pr_url state log in
        Told P pr_url done.0 done.1
  unfolding pure
  act_on_state-Told P pr_url state reported = elim (Bool-cases (state == "merged")) [
    | inl merged ↦ rw merged (subst P ((eq_iff state "merged").0 merged) reported, refl)
    | inr other ↦ rw other (elim (Bool-cases (state == "closed")) [
      | inl closed ↦
          rw closed
            (transitioned-Told P pr_url (subst P ((eq_iff state "closed").0 closed) reported))
      | inr open_ ↦ rw open_ refl
    ])
  ]

  act_on_answer-Told :
      (P : String → Type 0) (pr_url : String) (answer : State)
      → ((state : String) → answer ≡ (state, none) → P state)
      → let done = act_on_answer services own_label forges issue pr_url answer log in
        Told P pr_url done.0 done.1
  act_on_answer-Told P pr_url (state, some error) reported = refl
  act_on_answer-Told P pr_url (state, none) reported =
      act_on_state-Told P pr_url state (reported state refl)

  ask_github-Told :
      (pr_url : String) (github : Option Groups)
      → match_gitlab pr_url ≡ none
      → match_github pr_url ≡ github
      → let done = ask_github services own_label forges issue pr_url github log in
        Told (Reports forges log pr_url) pr_url done.0 done.1
  ask_github-Told pr_url none h k = refl
  ask_github-Told pr_url (some groups) h k =
      act_on_answer-Told (Reports forges log pr_url) pr_url _
        (λ state e. inr (groups, h, k, github_state-PullState pr_url _ state e))

  ask_forge-Told :
      (pr_url : String) (gitlab : Option (String × Groups))
      → match_gitlab pr_url ≡ gitlab
      → let done =
          ask_forge services own_label forges issue pr_url gitlab (match_github pr_url) log in
        Told (Reports forges log pr_url) pr_url done.0 done.1
  ask_forge-Told pr_url none h = ask_github-Told pr_url (match_github pr_url) h refl
  ask_forge-Told pr_url (some (host, groups)) h =
      act_on_answer-Told (Reports forges log pr_url) pr_url _
        (λ state e. inl (host, groups, h, gitlab_state-ok pr_url state _ e))

  -- An issue is found unblocked only when the forge that the URL of its comment names reports the
  -- request as merged, and nothing is written then. It is transitioned, or the check raises, only
  -- when the request is reported as closed; the label for a missing patch is then asked for with
  -- the reason first, and its own label taken away next, unless the check raises in between.
  -- A check that ends otherwise writes nothing.
  pub is_unblocked-Told :
      (comment_data : CommentData)
      → let pr_url = first_reference comment_data.blocker_references in
        let done = is_unblocked services own_label forges issue comment_data log in
        Told (Reports forges log pr_url) pr_url done.0 done.1
  unfolding is_unblocked
  is_unblocked-Told comment_data =
      elim (Bool-cases (first_reference comment_data.blocker_references == "")) [
        | inl missing ↦ rw missing refl
        | inr given ↦ rw given (
            ask_forge-Told (first_reference comment_data.blocker_references)
              (match_gitlab (first_reference comment_data.blocker_references)) refl)
      ]
