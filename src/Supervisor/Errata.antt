-- ===== src/Supervisor/Errata.antt =====
-- The writing half of ymir/supervisor/errata_utils.py, and the search of an erratum's comments.
use ai_workflows.Common.{
  ℕ, String, ◌<>◌, Bool, true, false, Option, none, some, List, any, to_str, is_some, all,
}
use ai_workflows.Effects.{pure, ask, ◌>>=◌}
use ai_workflows.Supervisor.Types.{ErrataStatus}
use ai_workflows.Supervisor.Requests.{
  post_push, post_refresh, post_change_state, post_erratum_comment, put_owner, Call,
}
use ai_workflows.Supervisor.Services.{
  Services, TransitionRule, TransitionRuleSet, TransitionRuleOutcome,
}
use ai_workflows.Supervisor.Jira.{send}
use text.Mathlib.Text.{find?}

unfoldable pub get_erratum_advisory_url : ℕ → String
get_erratum_advisory_url id = "https://errata.engineering.redhat.com/advisory/" <> to_str id

abbrev pub in_comments : String → Option (List String) → Bool
in_comments magic none = false
in_comments magic (some bodies) = any (λ body. is_some (find? body magic)) bodies

abbrev pub outcome_ok : TransitionRule → Bool
outcome_ok rule = elim rule.outcome [ TransitionRuleOutcome.ok ↦ true | _ ↦ false ]

abbrev pub outcome_block : TransitionRule → Bool
outcome_block rule = elim rule.outcome [ TransitionRuleOutcome.block ↦ true | _ ↦ false ]

abbrev pub all_ok : TransitionRuleSet → Bool
all_ok rule_set = all outcome_ok rule_set.rules

module _ (services : Services) where
  unfoldable pub erratum_has_magic_string_in_comments : ℕ → String → Call Bool
  erratum_has_magic_string_in_comments id magic = do
    comments ← ask (λ log. services.erratum_comments log id)
    pure (in_comments magic comments)

  unfoldable pub erratum_push_to_stage : Bool → ℕ → Call (Unit {0})
  unfolding send
  erratum_push_to_stage dry_run id = send services dry_run (post_push id)

  unfoldable pub erratum_refresh_security_alerts : Bool → ℕ → Call (Unit {0})
  unfolding send
  erratum_refresh_security_alerts dry_run id = send services dry_run (post_refresh id)

  unfoldable pub erratum_change_state : Bool → ℕ → ErrataStatus → Call (Unit {0})
  unfolding send
  erratum_change_state dry_run id new_state = send services dry_run (post_change_state id new_state)

  unfoldable pub erratum_change_ownership : Bool → ℕ → String → Call (Unit {0})
  unfolding send
  erratum_change_ownership dry_run id email = send services dry_run (put_owner id email)

  unfoldable pub erratum_add_comment : Bool → ℕ → String → Call (Unit {0})
  unfolding send
  erratum_add_comment dry_run id content = send services dry_run (post_erratum_comment id content)
