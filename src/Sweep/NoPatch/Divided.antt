-- ===== src/Sweep/NoPatch/Divided.antt =====
-- The issues of a run, divided into those in triage and the others, and the entries that it pushes.
use ai_workflows.Common.{
  ℕ, ◌+◌, ◌≤◌, String, Bool, true, false, List, [], ◌∷◌, ◌++◌, ◌≡◌, refl, sym, ap, ◌∙◌, inl, inr,
  length, contains, Some, All, All-weaker, length-append, append_append, All-append, arith,
}
use ai_workflows.Supervisor.Types.{FullIssue}
use ai_workflows.Sweep.{triage_in_progress}
use ai_workflows.Sweep.NoPatch.{keep_eligible, divide}

-- At most `n` entries with a property are put at the head of a queue.
abbrev pub Batch : (String → Type 0) → ℕ → List String → List String → Type 0
Batch P n q q' = (pushed : List String) × (q' ≡ pushed ++ q) × All P pushed × (length pushed ≤ n)

pub Batch-more :
    (P : String → Type 0) (m n k : ℕ) (q r s : List String)
    → m + n ≤ k
    → Batch P m q r
    → Batch P n r s
    → Batch P k q s
Batch-more P m n k q r s within (xs, e, hx, few) (ys, f, hy, fewer) = (
  ys ++ xs,
  f ∙ (ap (λ l. ys ++ l) e ∙ sym (append_append ys xs q)),
  All-append P ys xs hy hx,
  omega (arith, length-append ys xs),
)

-- An issue of a list that is not in triage.
abbrev pub Eligible : List FullIssue → FullIssue → Type 0
Eligible issues issue =
    Some (λ i. (i ≡ issue) × (contains i.labels triage_in_progress ≡ false)) issues

-- Each issue is in triage or eligible.
abbrev pub Divided : List FullIssue → ℕ × List FullIssue → Type 0
Divided issues parts = (parts.0 + length parts.1 ≡ length issues) × All (Eligible issues) parts.1

keep_eligible-Divided :
    (b : Bool) (issue : FullIssue) (issues : List FullIssue) (parts : ℕ × List FullIssue)
    → contains issue.labels triage_in_progress ≡ b
    → Divided issues parts
    → Divided (issue ∷ issues) (keep_eligible b issue parts)
keep_eligible-Divided true issue issues (n, eligible) h (count, all_of) = (
  omega arith,
  All-weaker (Eligible issues) (Eligible (issue ∷ issues)) eligible (λ i k. inr k) all_of,
)
keep_eligible-Divided false issue issues (n, eligible) h (count, all_of) = (
  omega arith,
  (
    inl (refl, h),
    All-weaker (Eligible issues) (Eligible (issue ∷ issues)) eligible (λ i k. inr k) all_of,
  ),
)

pub divide-Divided : (issues : List FullIssue) → Divided issues (divide issues)
unfolding divide
divide-Divided [] = (refl, tt)
divide-Divided (issue ∷ issues) =
    keep_eligible-Divided _ issue issues (divide issues) refl (divide-Divided issues)
