-- ===== src/Supervisor/Jira/DryRun.antt =====
-- What one request does to the log: nothing in a dry run, and otherwise it goes on top.
use ai_workflows.Common.{Bool, true, false, ◌≡◌, refl, List, [], ◌∷◌, ◌++◌, All, ap}
use ai_workflows.Effects.Preserves.{Preserves}
use ai_workflows.Supervisor.Requests.{Request, Log}
use ai_workflows.Supervisor.Services.{Services}
use ai_workflows.Supervisor.Jira.{send}

-- `log` is `old` and, on top of it, requests with the property `Q`.
pub record Extends (Q : Request → Type 0) (old log : Log) : Type 0 where
  pub fresh : List Request
  pub on_top : log ≡ fresh ++ old
  pub each : All Q fresh

pub Extends-refl : (Q : Request → Type 0) (log : Log) → Extends Q log log
Extends-refl Q log = record { fresh = []; on_top = refl; each = tt }

module _ (services : Services) where
  pub Preserves-send_dry : {P : Log → Type 0} (r : Request) → Preserves P (send services true r)
  unfolding send
  Preserves-send_dry r = record { run_keeps = λ log p. p }

  pub Preserves-send-Extends :
      (Q : Request → Type 0) (old : Log) (dry_run : Bool) (r : Request)
      → Q r
      → Preserves (Extends Q old) (send services dry_run r)
  unfolding send
  Preserves-send-Extends Q old true r q = record { run_keeps = λ log p. p }
  Preserves-send-Extends Q old false r q = record {
    run_keeps = λ log p. record {
      fresh = r ∷ p.fresh;
      on_top = ap (λ l. r ∷ l) p.on_top;
      each = (q, p.each);
    };
  }
