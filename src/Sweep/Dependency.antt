-- ===== src/Sweep/Dependency.antt =====
-- ymir/sweep/dependency.py: an issue that waits for a build of a dependency. Koji and the
-- configuration answer alike throughout a sweep; texts of exceptions are their messages.
pub mod InBuildroot
use Prim.Native.String.{[] as nil, ◌∷◌ as ◌∷ᶜ◌}
use ai_workflows.Common.{
  String, ◌<>◌, Bool, true, false, Option, none, some, List, [], ◌∷◌, ◌==◌, not, truthy, text_or,
  non_empty, list_text, if◌then◌else◌, between, after_prefix, is_space,
}
use ai_workflows.Effects.{Result, ok, raised, Exn, ExnKind}
use ai_workflows.Versions.{
  RhelConfig, digits, is_end, longer, or_else as either, parse_rhel_version, normalize_fix_version,
}
use ai_workflows.Supervisor.Types.{Issue, FullIssue}
use ai_workflows.Supervisor.Requests.{Log, Call}
use ai_workflows.Buildroot.{Koji, check_build_in_buildroot}
use ai_workflows.Sweep.{SweepAction, SweepResult, CommentData}

abbrev pub result_of : FullIssue → SweepAction → String → SweepResult
result_of issue action detail = record { issue_key = issue.key; action = action; detail = detail }

-- `^[A-Z]+-\d+$`
abbrev pub key_number : Option (String × String) → Bool
key_number none = false
key_number (some (number, rest)) = is_end "" rest

abbrev pub digits_of_key : Option String → Bool
digits_of_key none = false
digits_of_key (some s) = key_number (digits s)

abbrev pub upper_dash : String → Bool
upper_dash nil = false
upper_dash (c ∷ᶜ s) =
    let later = upper_dash s in
    if between 65 90 c then later else digits_of_key (after_prefix "-" (c ∷ᶜ s))

abbrev pub is_jira_key : String → Bool
is_jira_key nil = false
is_jira_key (c ∷ᶜ s) = if between 65 90 c then upper_dash s else false

-- `to land in (\S+) buildroot`, wherever it stands first in a text
abbrev pub span_word : String → String × String
span_word nil = ("", "")
span_word (c ∷ᶜ s) = let rest = span_word s in if is_space c then ("", c ∷ᶜ s) else longer c rest

abbrev pub before_buildroot : String → Option String → Option String
before_buildroot word none = none
before_buildroot word (some rest) = if word == "" then none else some word

abbrev pub landing : Option String → Option String
landing none = none
landing (some s) =
    let (word, rest) = span_word s in before_buildroot word (after_prefix " buildroot" rest)

abbrev pub first_of : Option String → Option String → Option String
first_of none other = other
first_of (some s) other = some s

abbrev pub branch_from_summary : String → Option String
branch_from_summary nil = none
branch_from_summary (c ∷ᶜ s) =
    first_of (landing (after_prefix "to land in " (c ∷ᶜ s))) (branch_from_summary s)

abbrev pub cs_branch : Option (String × (String × Bool)) → Option String
cs_branch none = none
cs_branch (some (major, rest)) = some ("c" <> (major <> "s"))

abbrev pub branch_from_fix_versions : List String → Option String
branch_from_fix_versions [] = none
branch_from_fix_versions (fv ∷ fix_versions) =
    first_of (cs_branch (parse_rhel_version fv)) (branch_from_fix_versions fix_versions)

abbrev pub branch_of_summary : Option String → Option String
branch_of_summary none = none
branch_of_summary (some summary) = branch_from_summary summary

abbrev pub resolve_target_branch : CommentData → List String → Option String
resolve_target_branch comment_data fix_versions =
    first_of (branch_of_summary comment_data.summary) (branch_from_fix_versions fix_versions)

-- The key of the blocker; an empty one counts as none.
abbrev pub first_or_empty : List String → String
first_or_empty [] = ""
first_or_empty (s ∷ rest) = s

abbrev pub first_reference : Option (List String) → String
first_reference none = ""
first_reference (some references) = first_or_empty references

abbrev pub blocker_key_of : CommentData → String
blocker_key_of comment_data =
    let reference = first_reference comment_data.blocker_references in
    if reference == "" then first_or_empty comment_data.pending_issues else reference

abbrev pub still_or_unblocked :
    FullIssue → String → String → String → String → Result Bool → SweepResult
still_or_unblocked issue key dep_component build target_branch (raised e) =
    result_of issue SweepAction.error (
      "Buildroot check failed for " <> (dep_component <> (" (" <> (build <> ("): " <> e.message)))))
still_or_unblocked issue key dep_component build target_branch (ok true) =
    result_of issue SweepAction.unblocked (
      "Dependency "
      <> (key
          <> (" now has Fixed in Build ("
              <> (build
                  <> ("), confirmed present in "
                      <> (target_branch <> " buildroot. Re-triaging."))))))
still_or_unblocked issue key dep_component build target_branch (ok false) =
    result_of issue SweepAction.still_blocked
      (build <> (" not yet in " <> (target_branch <> " buildroot")))

abbrev pub is_http_error : ExnKind → Bool
is_http_error ExnKind.http_error = true
is_http_error _ = false

module _ (koji : Koji) (load_rhel_config : Result RhelConfig)
    (get_issue : Log → String → Result Issue) where
  -- From the first fix version on, with the configuration.
  abbrev pub in_stream :
      FullIssue
      → String
      → String
      → String
      → String
      → List String
      → Result RhelConfig
      → Call SweepResult
  in_stream issue key dep_component build target_branch [] rhel_config log = (
    ok (
        result_of issue SweepAction.error (
          "Cannot determine stream for "
          <> (issue.key
              <> ": Fix Version is missing (required to select the Z-stream buildroot)"))),
    log,
  )
  in_stream issue key dep_component build target_branch (raw ∷ rest) (raised e) log =
      (raised e, log)
  in_stream issue key dep_component build target_branch (raw ∷ rest) (ok rhel_config) log = (
    ok (
        still_or_unblocked issue key dep_component build target_branch (
          check_build_in_buildroot koji load_rhel_config target_branch dep_component build
            (normalize_fix_version raw rhel_config))),
    log,
  )

  abbrev pub on_branch : FullIssue → String → String → String → Option String → Call SweepResult
  on_branch issue key dep_component build none log = (
    ok (
        result_of issue SweepAction.error (
          "Cannot determine target branch for "
          <> (issue.key <> (" (fix_versions=" <> (list_text issue.fix_versions <> ")"))))),
    log,
  )
  on_branch issue key dep_component build (some target_branch) log =
      in_stream issue key dep_component build target_branch issue.fix_versions load_rhel_config log

  abbrev pub of_components :
      FullIssue → CommentData → String → String → List String → Call SweepResult
  of_components issue comment_data key build [] log = (
    ok (
        result_of issue SweepAction.error
          ("Blocker " <> (key <> " has no components — cannot determine dep_component"))),
    log,
  )
  of_components issue comment_data key build (dep_component ∷ rest) log =
      on_branch issue key dep_component build
        (resolve_target_branch comment_data issue.fix_versions) log

  abbrev pub of_blocker : FullIssue → CommentData → String → Result Issue → Call SweepResult
  of_blocker issue comment_data key (raised e) log =
      if is_http_error e.kind
      then (
        ok (
            result_of issue SweepAction.error
              ("Failed to fetch blocker " <> (key <> (": " <> e.message)))),
        log,
      )
      else (raised e, log)
  of_blocker issue comment_data key (ok blocker) log =
      let build = text_or blocker.fixed_in_build "" in
      if build == ""
      then (
        ok (result_of issue SweepAction.still_blocked (key <> " has no Fixed in Build yet")),
        log,
      )
      else of_components issue comment_data key build blocker.components log

  unfoldable pub is_unblocked : FullIssue → CommentData → Call SweepResult
  is_unblocked issue comment_data log =
      let key = blocker_key_of comment_data in
      if is_jira_key key then of_blocker issue comment_data key (get_issue log key) log else (
        ok (
            result_of issue SweepAction.error
              ("No valid Jira blocker key found in comment for " <> issue.key)),
        log,
      )
