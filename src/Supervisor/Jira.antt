-- ===== src/Supervisor/Jira.antt =====
-- The writing half of ymir/supervisor/jira_utils.py. Log messages are left out.
pub mod Traffic
pub mod DryRun
use ai_workflows.Common.{
  String, ◌<>◌, Bool, Option, none, some, List, [], ◌∷◌, any, ◌==◌, if◌then◌else◌,
}
use ai_workflows.Effects.{Result, ok, raised, exn, value_error, pure, raise, lift, ask, ◌>>=◌, ◌>>◌}
use ai_workflows.Supervisor.Types.{IssueStatus, issue_status_value, Issue, JotnarTag, tag_text}
use ai_workflows.Supervisor.Requests.{
  add, remove, CommentBody, Request, put_issue, post_comment, put_comment, post_transition, upload,
  post_issue, Call,
}
use ai_workflows.Supervisor.Services.{Services, Transition}

pub data CommentVisibility : Type 0 where
  public red_hat_employee : CommentVisibility

-- `CommentSpec`: `None`, a text, or a text with its visibility
pub data CommentSpec : Type 0 where
  absent : CommentSpec
  text : String → CommentSpec
  restricted : String → CommentVisibility → CommentSpec

unfoldable pub comment_to_dict : CommentSpec → Option CommentBody
comment_to_dict absent = none
comment_to_dict (text t) = some (record { body = t; visibility = none })
comment_to_dict (restricted t public) = some (record { body = t; visibility = none })
comment_to_dict (restricted t red_hat_employee) =
    some (record { body = t; visibility = some "Red Hat Employee" })

-- The first transition to a status, or `None`.
unfoldable pub find_transition : String → List Transition → Option Transition
find_transition name [] = none
find_transition name (t ∷ ts) = if t.to_name == name then some t else find_transition name ts

abbrev pub has_field : String → Transition → Bool
has_field name t = any (λ f. f.0 == name) t.fields

unfoldable pub format_attention_message : String → String
format_attention_message why =
    "{panel:title=Project Ymir: ATTENTION NEEDED|"
    <> ("borderStyle=solid|borderColor=#CC0000|titleBGColor=#FFF5F5|bgColor=#FFFEF0}\n"
        <> (why
            <> ("\n\nPlease resolve this and remove the {{ymir_needs_attention}} flag.\n"
                <> "{panel}")))

module _ (services : Services) where
  open services use {respond, jira_transitions, user_account_id, tagged_issues}

  -- A write: the request is made, unless this is a dry run.
  unfoldable pub send : Bool → Request → Call (Unit {0})
  send dry_run r log = if dry_run then (ok tt, log) else (respond log r, r ∷ log)

  post_body : Bool → String → Option CommentBody → Call (Unit {0})
  unfolding send
  post_body dry_run key none = pure tt
  post_body dry_run key (some body) = send dry_run (post_comment key body)

  unfoldable pub add_issue_comment : Bool → String → CommentSpec → Call (Unit {0})
  unfolding post_body comment_to_dict
  add_issue_comment dry_run key comment = post_body dry_run key (comment_to_dict comment)

  put_body : Bool → String → String → Option CommentBody → Call (Unit {0})
  unfolding send
  put_body dry_run key comment_id none = pure tt
  put_body dry_run key comment_id (some body) = send dry_run (put_comment key comment_id body)

  unfoldable pub update_issue_comment : Bool → String → String → CommentSpec → Call (Unit {0})
  unfolding put_body comment_to_dict
  update_issue_comment dry_run key comment_id comment =
      put_body dry_run key comment_id (comment_to_dict comment)

  -- What `change_issue_status` does once it has found the transition.
  unfoldable pub follow_transition :
      Bool → String → String → CommentSpec → Option Transition → Call (Unit {0})
  unfolding send comment_to_dict add_issue_comment
  follow_transition dry_run key status comment none =
      raise (exn value_error ("Cannot transition issue " <> (key <> (" to status " <> status))))
  follow_transition dry_run key status comment (some t) =
      if any (λ f. f.1) t.fields
      then raise (
          exn value_error (
            "Cannot transition issue "
            <> (key <> (" to status " <> (status <> ": transition has required fields")))))
      else if has_field "comment" t
      then send dry_run (post_transition key t.id (comment_to_dict comment))
      else send dry_run (post_transition key t.id none) >> add_issue_comment dry_run key comment

  unfoldable pub add_issue_label : Bool → String → String → CommentSpec → Call (Unit {0})
  unfolding send comment_to_dict
  add_issue_label dry_run key label comment =
      send dry_run (put_issue key (add label) (comment_to_dict comment))

  unfoldable pub remove_issue_label : Bool → String → String → CommentSpec → Call (Unit {0})
  unfolding send comment_to_dict
  remove_issue_label dry_run key label comment =
      send dry_run (put_issue key (remove label) (comment_to_dict comment))

  -- The handlers attach files without a comment.
  unfoldable pub add_issue_attachments : Bool → String → List (String × String) → Call (Unit {0})
  unfolding send
  add_issue_attachments dry_run key [] = pure tt
  add_issue_attachments dry_run key (a ∷ as') = send dry_run (upload key (a ∷ as'))

  unfoldable pub change_issue_status : Bool → String → IssueStatus → CommentSpec → Call (Unit {0})
  unfolding follow_transition find_transition issue_status_value
  change_issue_status dry_run key new_status comment = do
    let status = issue_status_value new_status
    transitions ← ask (λ log. jira_transitions log key)
    follow_transition dry_run key status comment (find_transition status transitions)

  -- `fields |= …` for an email that is given
  account : Option String → Call (Option String)
  account none = pure none
  account (some email) =
      if email == ""
      then pure none
      else do id ← ask (λ log. user_account_id log email); pure (some id)

  -- The key that Jira gives the new issue is not used by the supervisor.
  unfoldable pub create_issue :
      Bool
      → (project summary description : String) → Option JotnarTag
      → (assignee reporter : Option String) → (components fix_versions labels : List String)
      → Call (Unit {0})
  unfolding account send tag_text
  create_issue dry_run project summary description tag assignee reporter components versions
        labels =
      do
        assignee_id ← account assignee
        reporter_id ← account reporter
        send dry_run (
            post_issue (record {
              project = project;
              summary = summary;
              description = elim tag [
                | none ↦ description
                | some t ↦ tag_text t <> ("\n\n" <> description)
              ];
              assignee = assignee_id;
              reporter = reporter_id;
              components = components;
              fix_versions = versions;
              labels = labels;
            }))

  -- One open issue at most may carry the tag.
  the_only : JotnarTag → List Issue → Result (Option Issue)
  the_only tag [] = ok none
  the_only tag (i ∷ []) = ok (some i)
  the_only tag (i ∷ j ∷ more) =
      raised (exn value_error ("Multiple open issues found with JOTNAR tag " <> tag_text tag))

  unfoldable pub get_issue_by_jotnar_tag : String → JotnarTag → Option String → Call (Option Issue)
  unfolding the_only
  get_issue_by_jotnar_tag project tag with_label = do
    found ← ask (λ log. tagged_issues log project tag with_label)
    lift (the_only tag found)
