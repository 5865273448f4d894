-- ===== src/Sweep/Dependency/InBuildroot.antt =====
-- When the strategy finds an issue unblocked.
use ai_workflows.Common.{
  String, Bool, true, false, Option, none, some, List, [], ◌∷◌, ◌≡◌, refl, ap, ◌∙◌, ◌==◌, inl, inr,
  Bool-cases, text_or, Some, Some-map,
}
use ai_workflows.Effects.{Result, ok, raised}
use ai_workflows.Versions.{RhelConfig, normalize_fix_version}
use ai_workflows.Supervisor.Types.{Issue, FullIssue}
use ai_workflows.Supervisor.Requests.{Log}
use ai_workflows.Supervisor.Services.{Services}
use ai_workflows.Buildroot.{Koji, resolve_buildroot_checks}
use ai_workflows.Buildroot.Checks.{InAll, check_build_in_buildroot-InAll}
use ai_workflows.Sweep.{SweepAction, SweepResult, SweepState, CommentData, run_sweep}
use ai_workflows.Sweep.Deserved.{Grown, run_sweep-FoundUnblocked, Grown-weaker}
use ai_workflows.Sweep.Dependency.{
  is_jira_key, blocker_key_of, resolve_target_branch, still_or_unblocked, in_stream, on_branch,
  of_components, is_http_error, of_blocker, is_unblocked,
}

abbrev action_of : Result SweepResult → Option SweepAction
action_of (ok result) = some result.action
action_of (raised e) = none

still_or_unblocked-true :
    (issue : FullIssue) (key dep_component build target_branch : String) (r : Result Bool)
    → action_of (ok (still_or_unblocked issue key dep_component build target_branch r))
      ≡ some SweepAction.unblocked
    → r ≡ ok true
still_or_unblocked-true issue key dep_component build target_branch (raised e) h = cc
still_or_unblocked-true issue key dep_component build target_branch (ok true) h = refl
still_or_unblocked-true issue key dep_component build target_branch (ok false) h = cc

abbrev pub IsFirst : String → List String → Type 0
IsFirst s l = (rest : List String) × (l ≡ s ∷ rest)

module _ (koji : Koji) (rhel_config : RhelConfig) (get_issue : Log → String → Result Issue) where
  -- A blocker whose build is in every tag for the branch and the first fix version of the issue.
  abbrev pub Ready : FullIssue → CommentData → Issue → Type 0
  Ready issue comment_data blocker =
      (build dep_component target_branch raw : String) × (blocker.fixed_in_build ≡ some build)
      × IsFirst dep_component blocker.components
      × (resolve_target_branch comment_data issue.fix_versions ≡ some target_branch)
      × IsFirst raw issue.fix_versions
      × InAll koji dep_component build (
          resolve_buildroot_checks target_branch (normalize_fix_version raw rhel_config)
            rhel_config)

  abbrev Unblocks : Result SweepResult × Log → Type 0
  Unblocks outcome = action_of outcome.0 ≡ some SweepAction.unblocked

  in_stream-InAll :
      (issue : FullIssue) (key dep_component build target_branch : String)
      (fix_versions : List String) (log : Log)
      → Unblocks (
          in_stream koji
            (ok rhel_config)
            get_issue
            issue
            key
            dep_component
            build
            target_branch
            fix_versions
            (ok rhel_config)
            log)
      → (raw : String) × IsFirst raw fix_versions
        × InAll koji dep_component build (
            resolve_buildroot_checks target_branch
              (normalize_fix_version raw rhel_config)
              rhel_config)
  in_stream-InAll issue key dep_component build target_branch [] log h = cc
  in_stream-InAll issue key dep_component build target_branch (raw ∷ rest) log h = (
    raw,
    (rest, refl),
    (check_build_in_buildroot-InAll koji rhel_config target_branch dep_component build
          (normalize_fix_version raw rhel_config)).0
        (still_or_unblocked-true issue key dep_component build target_branch _ h),
  )

  on_branch-Ready :
      (issue : FullIssue) (comment_data : CommentData) (blocker : Issue)
      (key dep_component build : String) (branch : Option String) (log : Log)
      → resolve_target_branch comment_data issue.fix_versions ≡ branch
      → blocker.fixed_in_build ≡ some build
      → IsFirst dep_component blocker.components
      → Unblocks
          (on_branch koji (ok rhel_config) get_issue issue key dep_component build branch log)
      → Ready issue comment_data blocker
  on_branch-Ready issue comment_data blocker key dep_component build none log e f g h = cc
  on_branch-Ready issue comment_data blocker key dep_component build (some target) log e f g h =
      let (raw, first, there) =
        in_stream-InAll issue key dep_component build target issue.fix_versions log h in
      (build, dep_component, target, raw, f, g, e, first, there)

  of_components-Ready :
      (issue : FullIssue) (comment_data : CommentData) (blocker : Issue) (key build : String)
      (components : List String) (log : Log)
      → blocker.components ≡ components
      → blocker.fixed_in_build ≡ some build
      → Unblocks (
          of_components koji (ok rhel_config) get_issue issue comment_data key build components log)
      → Ready issue comment_data blocker
  of_components-Ready issue comment_data blocker key build [] log e f h = cc
  of_components-Ready issue comment_data blocker key build (dep_component ∷ rest) log e f h =
      on_branch-Ready issue comment_data blocker key dep_component build
        (resolve_target_branch comment_data issue.fix_versions) log refl f (rest, e) h

  text_or-some : (o : Option String) → text_or o "" == "" ≡ false → o ≡ some (text_or o "")
  text_or-some none = λ h. cc
  text_or-some (some s) = elim (Bool-cases (s == "")) [
    | inl empty ↦ rw empty (λ h. cc)
    | inr other ↦ rw other (λ h. refl)
  ]

  of_blocker-Ready :
      (issue : FullIssue) (comment_data : CommentData) (key : String) (found : Result Issue)
      (log : Log)
      → Unblocks (of_blocker koji (ok rhel_config) get_issue issue comment_data key found log)
      → (blocker : Issue) × (found ≡ ok blocker) × Ready issue comment_data blocker
  of_blocker-Ready issue comment_data key (raised e) log =
      elim (Bool-cases (is_http_error e.kind)) [
        | inl http ↦ rw http (λ h. cc)
        | inr other ↦ rw other (λ h. cc)
      ]
  of_blocker-Ready issue comment_data key (ok blocker) log =
      elim (Bool-cases (text_or blocker.fixed_in_build "" == "")) [
        | inl none_yet ↦ rw none_yet (λ h. cc)
        | inr fixed ↦ rw fixed (λ h. (
          blocker,
          refl,
          of_components-Ready issue comment_data blocker key (text_or blocker.fixed_in_build "")
              blocker.components log refl (text_or-some blocker.fixed_in_build fixed) h,
        ))
      ]

  is_unblocked-Ready :
      (issue : FullIssue) (comment_data : CommentData) (log : Log)
      → Unblocks (is_unblocked koji (ok rhel_config) get_issue issue comment_data log)
      → (blocker : Issue) × (get_issue log (blocker_key_of comment_data) ≡ ok blocker)
        × Ready issue comment_data blocker
  unfolding is_unblocked
  is_unblocked-Ready issue comment_data log =
      elim (Bool-cases (is_jira_key (blocker_key_of comment_data))) [
        | inl key ↦ rw key (of_blocker-Ready issue comment_data (blocker_key_of comment_data) _ log)
        | inr other ↦ rw other (λ h. cc)
      ]

  module _ (parse_ymir_comment : FullIssue → Result (Option CommentData))
      (to_json : String → String) where
    -- The task is of the issue, and the blocker that its comment names is ready.
    abbrev pub Deserved : String → FullIssue → Type 0
    Deserved entry issue =
        (entry ≡ to_json issue.key)
        × ((comment_data : CommentData) × (parse_ymir_comment issue ≡ ok (some comment_data))
            × ((log : Log) × (blocker : Issue) × (get_issue log (blocker_key_of comment_data)
                  ≡ ok blocker)
                × Ready issue comment_data blocker))

    -- Every task that a sweep with the strategy for dependencies pushes is of an issue that it has
    -- read, whose comment names a blocker with a fixed build; and that build, or a newer one of the first
    -- component of the blocker, is in every buildroot for the branch and the first fix version of
    -- the issue. So it is when the sweep raises. The issues and the configuration could be read.
    pub dependency_sweep-Deserved :
        (services : Services) (label : String) (lpush : SweepState → Result (Unit {0}))
        (issues : List FullIssue) (q : List String) (log : Log)
        → Grown
            (λ entry. Some (Deserved entry) issues)
            q
            (run_sweep services label lpush to_json parse_ymir_comment
              (is_unblocked koji (ok rhel_config) get_issue)
              (λ _. ok issues)
              (q, log)).1.0
    dependency_sweep-Deserved services label lpush issues q log =
        Grown-weaker _ (λ entry. Some (Deserved entry) issues) q _
          (λ entry.
            Some-map _ (Deserved entry) issues
              (λ issue (e, (comment_data, parsed, (log', result, judged, unblocked))).
                let (blocker, found, ready) =
                  is_unblocked-Ready issue comment_data log'
                    (ap action_of judged ∙ ap some unblocked) in
                (e, (comment_data, parsed, (log', blocker, found, ready)))))
          (run_sweep-FoundUnblocked services label lpush to_json parse_ymir_comment
            (is_unblocked koji (ok rhel_config) get_issue) issues q log)
