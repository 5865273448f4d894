-- ===== src/Sweep/PrPending.antt =====
-- ymir/sweep/pr_pending.py: an issue that waits for a pull or merge request of its upstream. The
-- two forges are parameters; texts are those of ASCII.
pub mod Merged
use Prim.Native.String.{[] as nil, ◌∷◌ as ◌∷ᶜ◌, char_at}
use Prim.Native.Char.{Char, code}
use ai_workflows.Common.{
  ℕ, ◌+◌, ◌/◌, ◌%◌, String, ◌<>◌, Bool, true, false, ◌||◌, Option, none, some, List, [], ◌∷◌, eqb,
  ◌==◌, truthy, text_or, list_text, if◌then◌else◌, between, is_digit, after_prefix, is_newline,
}
use ai_workflows.Effects.{Result, ok, raised, Exn, ◌>>=◌, pure}
use ai_workflows.Constants.{JiraLabel, label}
use ai_workflows.Versions.{digits}
use ai_workflows.Supervisor.Types.{FullIssue}
use ai_workflows.Supervisor.Requests.{Log, Call}
use ai_workflows.Supervisor.Services.{Services}
use ai_workflows.Supervisor.Jira.{text}
use ai_workflows.Sweep.{SweepAction, SweepResult, CommentData, on_transition}
use ai_workflows.Sweep.Dependency.{result_of, first_reference}

-- `_GITLAB_HOSTS_ALT`, the longest host first
abbrev pub gitlab_hosts : List String
gitlab_hosts =
    "gitlab.freedesktop.org" ∷ "gitlab.cee.redhat.com" ∷ "gitlab.gnome.org" ∷ "gitlab.com" ∷ []

-- The groups of a match: a host with a project and a number, or a repository with a number.
abbrev pub Groups : Type 0
Groups = String × String

abbrev pub number_of : Option (String × String) → Option String
number_of none = none
number_of (some (number, rest)) = some number

abbrev pub number_after : Option String → Option String
number_after none = none
number_after (some s) = number_of (digits s)

abbrev pub or_later : Char → Option String → Option Groups → Option Groups
or_later c (some number) later = some (c ∷ᶜ "", number)
or_later c none none = none
or_later c none (some (project, number)) = some (c ∷ᶜ project, number)

-- `(.+?)/-/merge_requests/(\d+)`: the shortest project that the rest goes with
abbrev pub project_from : String → Option Groups
project_from nil = none
project_from (c ∷ᶜ s) =
    let later = project_from s in
    if is_newline c
    then none
    else or_later c (number_after (after_prefix "/-/merge_requests/" s)) later

abbrev pub project_after : Option String → Option Groups
project_after none = none
project_after (some s) = project_from s

abbrev pub with_host : String → Option Groups → Option (String × Groups) → Option (String × Groups)
with_host host none other = other
with_host host (some groups) other = some (host, groups)

abbrev pub match_hosts : String → List String → Option (String × Groups)
match_hosts rest [] = none
match_hosts rest (host ∷ hosts) =
    with_host host (project_after (after_prefix (host <> "/") rest)) (match_hosts rest hosts)

abbrev pub match_gitlab_rest : Option String → Option (String × Groups)
match_gitlab_rest none = none
match_gitlab_rest (some rest) = match_hosts rest gitlab_hosts

abbrev pub match_gitlab : String → Option (String × Groups)
match_gitlab url = match_gitlab_rest (after_prefix "https://" url)

-- `[^/]+`
abbrev pub within_slash : String → String × String
within_slash nil = ("", "")
within_slash (c ∷ᶜ s) =
    let rest = within_slash s in if eqb (code c) 47 then ("", c ∷ᶜ s) else (c ∷ᶜ rest.0, rest.1)

abbrev pub pull_of : String → String → Option String → Option Groups
pull_of owner repo none = none
pull_of owner repo (some number) =
    if owner == "" || repo == "" then none else some (owner <> ("/" <> repo), number)

abbrev pub repo_of : String → Option String → Option Groups
repo_of owner none = none
repo_of owner (some s) =
    let (repo, rest) = within_slash s in
    pull_of owner repo (number_after (after_prefix "/pull/" rest))

abbrev pub owner_of : Option String → Option Groups
owner_of none = none
owner_of (some s) = let (owner, rest) = within_slash s in repo_of owner (after_prefix "/" rest)

-- `https://github\.com/([^/]+/[^/]+)/pull/(\d+)`
abbrev pub match_github : String → Option Groups
match_github url = owner_of (after_prefix "https://github.com/" url)

-- `urlquote(s, safe='')`
abbrev pub is_unreserved : Char → Bool
is_unreserved c =
    is_digit c
    || between 65 90 c
    || between 97 122 c
    || eqb (code c) 95
    || between 45 46 c
    || eqb (code c) 126

abbrev pub hex : ℕ → String → String
hex n s = char_at "0123456789ABCDEF" n ∷ᶜ s

abbrev pub urlquote : String → String
urlquote nil = nil
urlquote (c ∷ᶜ s) =
    let rest = urlquote s in
    if is_unreserved c then c ∷ᶜ rest else "%" <> hex (code c / 16) (hex (code c % 16) rest)

abbrev pub gitlab_path : Groups → String
gitlab_path (project_path, mr_iid) =
    "projects/" <> (urlquote project_path <> ("/merge_requests/" <> mr_iid))

abbrev pub github_path : Groups → String
github_path (owner_repo, pr_number) = "repos/" <> (owner_repo <> ("/pulls/" <> pr_number))

-- The answer of GitHub, as far as it is read.
pub record PullData : Type 0 where
  pub state : String
  pub merged_at : Option String

-- A state with the detail of an error.
abbrev pub State : Type 0
State = String × Option String

abbrev pub gitlab_state : String → Result String → State
gitlab_state mr_url (raised e) =
    ("", some ("GitLab API call failed for " <> (mr_url <> (": " <> e.message))))
gitlab_state mr_url (ok state) = (state, none)

abbrev pub github_state : String → Result PullData → State
github_state pr_url (raised e) =
    ("", some ("GitHub API call failed for " <> (pr_url <> (": " <> e.message))))
github_state pr_url (ok data_) =
    if data_.state == "open"
    then ("opened", none)
    else if data_.state == "closed"
    then ((if truthy data_.merged_at then "merged" else "closed"), none)
    else (data_.state, none)

-- The forges: GET of a path at a URL of GitLab, with the state of the answer, and at GitHub. What
-- they answer may depend on what has been requested of Jira before.
pub record Forges : Type 0 where
  pub gitlab_api_get : Log → String → String → Result String
  pub github_api_get : Log → String → Result PullData

module _ (services : Services) (own_label : String) (forges : Forges) where
  abbrev pub act_on_state : FullIssue → String → String → Call SweepResult
  act_on_state issue pr_url state log =
      if state == "merged"
      then pure
          (result_of issue SweepAction.unblocked
            ("Upstream PR/MR " <> (pr_url <> " has been merged. Re-triaging.")))
          log
      else if state == "closed"
      then (on_transition services own_label issue.key (label JiraLabel.ymir_postponed_no_patch) (
              text (
                "Upstream PR/MR "
                <> (pr_url
                    <> (" was closed without merging. "
                        <> "Transitioning to no-patch state for re-evaluation."))))
            >>= (λ _. pure (
                result_of issue SweepAction.transitioned
                  ("PR/MR " <> (pr_url <> " closed — transitioned to no_patch")))))
          log
      else pure
          (result_of issue SweepAction.still_blocked
            ("PR/MR " <> (pr_url <> (" is still '" <> (state <> "'")))))
          log

  abbrev pub act_on_answer : FullIssue → String → State → Call SweepResult
  act_on_answer issue pr_url (state, some error) log =
      (ok (result_of issue SweepAction.error error), log)
  act_on_answer issue pr_url (state, none) log = act_on_state issue pr_url state log

  abbrev pub ask_github : FullIssue → String → Option Groups → Call SweepResult
  ask_github issue pr_url none log = (
    ok (
        result_of issue SweepAction.error (
          "Blocker reference is not a recognisable GitLab MR or GitHub PR URL for "
          <> (issue.key <> (": '" <> (pr_url <> "'"))))),
    log,
  )
  ask_github issue pr_url (some groups) log =
      act_on_answer issue pr_url
        (github_state pr_url (forges.github_api_get log (github_path groups))) log

  abbrev pub ask_forge :
      FullIssue → String → Option (String × Groups) → Option Groups → Call SweepResult
  ask_forge issue pr_url none github log = ask_github issue pr_url github log
  ask_forge issue pr_url (some (host, groups)) github log =
      act_on_answer issue pr_url
        (gitlab_state pr_url (forges.gitlab_api_get log (gitlab_path groups) ("https://" <> host)))
        log

  unfoldable pub is_unblocked : FullIssue → CommentData → Call SweepResult
  is_unblocked issue comment_data log =
      let pr_url = first_reference comment_data.blocker_references in
      if pr_url == ""
      then (
        ok (
            result_of issue SweepAction.error
              ("No *Blockers*: PR/MR URL found in comment for " <> issue.key)),
        log,
      )
      else ask_forge issue pr_url (match_gitlab pr_url) (match_github pr_url) log
