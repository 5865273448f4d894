-- ===== src/MergeQueue/Requeue.antt =====
-- An interrupted job goes back to the queue.
use ai_workflows.Common.{String, ◌<>◌, ◌≡◌, ◌⊎◌}

-- The part of the fields of a branch that they have in common.
abbrev base : String → String → String
base pkg branch = pkg <> (":" <> branch)

-- What a recovery field has behind its name: nothing, or a colon and the counter.
abbrev pub Numbered : String → Type 0
Numbered s = (s ≡ "") ⊎ ((n : String) × (s ≡ ":" <> n))
