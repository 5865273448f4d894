-- ===== src/Supervisor/ErratumHandler/Run/Safety.antt =====
-- A step of an erratum: the requests that it may make, and the dry run.
use ai_workflows.Common.{Bool, true, false, List, ◌∷◌, ◌≡◌, ◌⊎◌, inl, inr, refl, []}
use ai_workflows.Effects.{Result, ok, raised, after, pure, ◌>>=◌}
use ai_workflows.Effects.Preserves.{Preserves}
use ai_workflows.Supervisor.Types.{ErrataStatus, Erratum, Issue, errata_jotnar_bot_email}
use ai_workflows.Supervisor.Requests.{Request, post_change_state, put_owner, Log}
use ai_workflows.Supervisor.Services.{Services}
use ai_workflows.Supervisor.Jira.{send}
use ai_workflows.Supervisor.Jira.DryRun.{
  Extends, Extends-refl, Preserves-send_dry, Preserves-send-Extends,
}
use ai_workflows.Supervisor.Errata.{erratum_change_ownership}
use ai_workflows.Supervisor.ErratumHandler.Lists.{
  erratum_needs_attention, erratum_get_issues, jotnar_owns_all_issues,
}
use ai_workflows.Supervisor.ErratumHandler.Run.{owned_by_bot, take_over, process, run}
use ai_workflows.Supervisor.ErratumHandler.Run.Permission.{Harmless, MayAdvance, MayTakeOver}
use ai_workflows.Supervisor.ErratumHandler.Run.Traffic.{keeps-run}

-- What a step of an erratum may ask for.
pub data ErratumRequest (services : Services) (erratum : Erratum) : Request → Type 0 where
  harmless : {r : Request} → Harmless erratum r → ErratumRequest services erratum r
  moved :
      (new : ErrataStatus)
      → MayAdvance services erratum new
      → ErratumRequest services erratum (post_change_state erratum.id new)
  taken :
      MayTakeOver services erratum
      → ErratumRequest services erratum (put_owner erratum.id errata_jotnar_bot_email)

-- Whatever the services answer, a step of an erratum only adds requests to the log. Each is a
-- push, a refresh or a comment of its own erratum, a label or a new RHELMISC issue that asks for
-- human attention, or one of these two: a change of state, only for an erratum that the bot owns,
-- only from NEW_FILES to QE, or from QE to REL_PREP with every related issue read as Release
-- Pending and the file list of every build found checked, and only after the Errata Tool named
-- that state as the next one with every rule OK; or
-- the bot taking over an erratum that it does not own, all of whose issues are the team's.
pub run-ErratumRequest :
    (services : Services) (dry_run ignore : Bool) (erratum : Erratum) (log : Log)
    → Extends (ErratumRequest services erratum) log (run services dry_run ignore erratum log).1
run-ErratumRequest services dry_run ignore erratum log =
    (keeps-run services dry_run erratum
        (λ r h. Preserves-send-Extends services _ log dry_run r (harmless h))
        (λ new may. Preserves-send-Extends services _ log dry_run _ (moved new may))
        (λ may. Preserves-send-Extends services _ log false _ (taken may)) ignore).run_keeps
      log (Extends-refl _ log)

absurd_owner :
    {P : Log → Type 0} (services : Services) (erratum : Erratum)
    → owned_by_bot erratum ≡ true
    → MayTakeOver services erratum
    → Preserves P (send services false (put_owner erratum.id errata_jotnar_bot_email))
absurd_owner services erratum owned may = let no = may.not_owned in cc

-- In a dry run a step of an erratum that the bot owns makes no request that changes anything.
pub run-dry_run_owned :
    (services : Services) (ignore : Bool) (erratum : Erratum) (log : Log)
    → owned_by_bot erratum ≡ true
    → (run services true ignore erratum log).1 ≡ log
run-dry_run_owned services ignore erratum log owned =
    (keeps-run services true erratum {P = λ l. l ≡ log} (λ r h. Preserves-send_dry services r)
        (λ new may. Preserves-send_dry services _) (λ may. absurd_owner services erratum owned may)
        ignore).run_keeps
      log refl

-- A value put after an outcome leaves the log alone.
after-pure_log :
    {A B : Type 0} (r : Result A) (b : B) (log : Log) → (after (λ _. pure b) r log).1 ≡ log
unfolding pure
after-pure_log (ok a) b log = refl
after-pure_log (raised e) b log = refl

take_over-logs :
    (services : Services) (dry_run : Bool) (erratum : Erratum) (related : List Issue) (log : Log)
    → jotnar_owns_all_issues related ≡ true
    → (take_over services dry_run erratum related log).1
      ≡ put_owner erratum.id errata_jotnar_bot_email ∷ log
unfolding take_over erratum_change_ownership send ◌>>=◌
take_over-logs services dry_run erratum related log ours = rw ours (
    after-pure_log (services.respond log (put_owner erratum.id errata_jotnar_bot_email)) _
      (put_owner erratum.id errata_jotnar_bot_email ∷ log))

-- A step of an erratum that the bot does not own changes its owner even in a dry run, when it is
-- not held back for human attention (the flag is ignored, or Jira has no issue that flags it),
-- and its related issues can be read and are all the team's: the request is on top of the log.
pub run-dry_run_takes_over :
    (services : Services) (ignore : Bool) (erratum : Erratum) (related : List Issue) (log : Log)
    → (ignore ≡ true) ⊎ (erratum_needs_attention services erratum.id log ≡ (ok false, log))
    → owned_by_bot erratum ≡ false
    → erratum_get_issues services [] erratum log ≡ (ok related, log)
    → jotnar_owns_all_issues related ≡ true
    → (run services true ignore erratum log).1 ≡ put_owner erratum.id errata_jotnar_bot_email ∷ log
unfolding run process ◌>>=◌ pure
run-dry_run_takes_over services true erratum related log unflagged owner read ours =
    rw (read, owner) (take_over-logs services true erratum related log ours)
run-dry_run_takes_over services false erratum related log (inl ignoring) owner read ours = cc
run-dry_run_takes_over services false erratum related log (inr unflagged) owner read ours =
    rw (unflagged, read, owner) (take_over-logs services true erratum related log ours)
