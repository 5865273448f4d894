-- ===== src/Sweep/Unblock.antt =====
-- The order of the writes: a label is taken away only after the issue has its next place.
use ai_workflows.Common.{String, none, List, ◌∷◌, ◌≡◌, ◌⊎◌, inl, inr, refl}
use ai_workflows.Effects.{Result, ok, raised, Exn, ◌>>=◌}
use ai_workflows.Supervisor.Requests.{Log, add, remove, Request, put_issue}
use ai_workflows.Supervisor.Services.{Services}
use ai_workflows.Supervisor.Jira.{
  send, CommentSpec, comment_to_dict, add_issue_label, remove_issue_label,
}
use ai_workflows.Sweep.{SweepState, triage_in_progress, push_task, on_unblock, on_transition}

Result-cases : {A : Type 0} (r : Result A) → ((e : Exn) × (r ≡ raised e)) ⊎ ((a : A) × (r ≡ ok a))
Result-cases (ok a) = inr (a, refl)
Result-cases (raised e) = inl (e, refl)

module _ (services : Services) (label issue_key : String) (comment : CommentSpec) where
  abbrev pub removal : Request
  removal = put_issue issue_key (remove label) (comment_to_dict comment)

  abbrev pub triage_label : Request
  triage_label = put_issue issue_key (add triage_in_progress) none

  module _ (lpush : SweepState → Result (Unit {0})) (to_json : String → String) (q : List String)
      (log : Log) where
    -- Nothing at all, the task with one request, or the task with both, in this order.
    abbrev pub Unblocked : Result (Unit {0}) × SweepState → Type 0
    Unblocked outcome =
        (((e : Exn) × (outcome.0 ≡ raised e)) × (outcome.1 ≡ (q, log)))
        ⊎ ((((e : Exn) × (outcome.0 ≡ raised e))
              × (outcome.1 ≡ (to_json issue_key ∷ q, triage_label ∷ log)))
            ⊎ (outcome.1 ≡ (to_json issue_key ∷ q, removal ∷ (triage_label ∷ log))))

    -- Unblocking an issue ends in one of three ways: it raises and nothing has changed; it raises
    -- with the task pushed and only the triage label's request made; or the task is pushed and
    -- both requests are made, the removal of the label last. So the label is taken away only
    -- from an issue that is in the triage queue.
    pub on_unblock-Unblocked :
        Unblocked (on_unblock services label lpush to_json issue_key comment (q, log))
    unfolding on_unblock push_task add_issue_label remove_issue_label send comment_to_dict ◌>>=◌
    on_unblock-Unblocked = elim (Result-cases (lpush (q, log))) [
      | inl (e, failed) ↦ rw failed (inl ((e, refl), refl))
      | inr (u, pushed) ↦ elim (Result-cases (services.respond log triage_label)) [
        | inl (e, failed) ↦ rw (pushed, failed) (inr (inl ((e, refl), refl)))
        | inr (v, done) ↦ rw (pushed, done) (inr (inr refl))
      ]
    ]

module _ (services : Services) (label issue_key new_label : String) (comment : CommentSpec)
    (log : Log) where
  abbrev pub new_label_added : Log
  new_label_added = put_issue issue_key (add new_label) (comment_to_dict comment) ∷ log

  -- A transition to another label asks for the new label first. It raises with only that request
  -- made, which is then the one that was refused, or goes on to ask for the removal of the label,
  -- and ends as the answer to that second request does.
  pub on_transition-adds_first :
      (((e : Exn) × (services.respond log
            (put_issue issue_key (add new_label) (comment_to_dict comment))
          ≡ raised e)
        × (on_transition services label issue_key new_label comment log
            ≡ (raised e, new_label_added))))
      ⊎ (on_transition services label issue_key new_label comment log ≡ (
        services.respond new_label_added (put_issue issue_key (remove label) none),
        put_issue issue_key (remove label) none ∷ new_label_added,
      ))
  unfolding on_transition add_issue_label remove_issue_label send comment_to_dict ◌>>=◌
  on_transition-adds_first =
      elim (Result-cases
        (services.respond log (put_issue issue_key (add new_label) (comment_to_dict comment)))) [
          | inl (e, failed) ↦ rw failed (inl (e, refl, refl))
          | inr (v, done) ↦ rw done (inr refl)
        ]
