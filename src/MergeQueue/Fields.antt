-- ===== src/MergeQueue/Fields.antt =====
-- The names of the hash's fields: which prefix a field that may be picked has.
use Prim.Native.Nat.{compare}
use Prim.Native.String.{slice, len, find}
use text.Mathlib.Text.{find?, is_le, when}
use text.Mathlib.TextFind.{find_cases}
use text.Mathlib.TextLemmas.{append_assoc, append_cancel_left}
use text.Mathlib.TextPositions.{len-append, slice-append_left, slice-append_right}
use ai_workflows.Common.{
  ℕ, suc, ◌+◌, ◌-◌, String, ◌<>◌, Bool, true, false, some, ◌≡◌, ◌≢◌, ◌⊎◌, inl, inr, refl, sym, ap,
  ◌∙◌, subst, ◌==◌, Bool-cases, Option-cases, eq_iff, eq_refl, arith,
}
use mathlib.Core.Option.{some-injective}
use ai_workflows.MergeQueue.Scripts.{
  ends_with, before, cut_at, suffix_prefix, recovery_prefix, pending_prefix,
}

from_left : (m n : ℕ) → (m + n) - n ≡ m
from_left m n = omega arith

pub ends_with-append : (p s : String) → ends_with (p <> s) s ≡ true
ends_with-append p s =
    let at_end = from_left (len p) (len s) in
    rw (len-append p s, at_end, slice-append_right p s) (eq_refl s)

pub before-append : (p s : String) → before (p <> s) s ≡ p
before-append p s =
    let at_end = from_left (len p) (len s) in rw (len-append p s, at_end) (slice-append_left p s)

-- Of two endings of one length, a text has at most one.
other_ending : (p s t : String) → len s ≡ len t → ends_with (p <> s) t ≡ true → s ≡ t
other_ending p s t same h = (eq_iff s t).0 (
    ap (λ x. x == t) (sym (slice-append_right p s))
    ∙ ap (λ n. slice (p <> s) n (len p + len s) == t) (sym (from_left (len p) (len s)))
    ∙ ap (λ n. slice (p <> s) ((len p + len s) - n) (len p + len s) == t) same
    ∙ ap (λ n. slice (p <> s) (n - len t) n == t) (sym (len-append p s))
    ∙ h)

-- A recovery field differs from the other fields of its branch.
pub recovery-is-no-heartbeat : (p s : String) → p <> (":recovery" <> s) ≢ p <> ":heartbeat"
recovery-is-no-heartbeat p s e =
    let begin =
      sym (slice-append_left ":recovery" s)
      ∙ ap (λ x. slice x 0 9) (append_cancel_left p (":recovery" <> s) ":heartbeat" e) in
    let same = (eq_iff ":recovery" (slice ":heartbeat" 0 9)).1 begin in cc

-- The field is one of a prefix: its name begins with the prefix and `:recovery:`, or it ends in
-- `:recovery` or in `:pending`, with nothing but the prefix before that.
abbrev pub FieldOf : String → String → Type 0
FieldOf prefix field =
    ((rest : String) × (field ≡ prefix <> (":recovery:" <> rest)))
    ⊎ (((ends_with field ":recovery" ≡ true)
          × ((p : String) → field ≡ p <> ":recovery" → p ≡ prefix))
        ⊎ ((ends_with field ":pending" ≡ true)
            × ((p : String) → field ≡ p <> ":pending" → p ≡ prefix)))

suffix_prefix-some :
    (field suffix prefix : String)
    → suffix_prefix field suffix ≡ some prefix
    → (ends_with field suffix ≡ true) × ((p : String) → field ≡ p <> suffix → p ≡ prefix)
suffix_prefix-some field suffix prefix = elim (Bool-cases (ends_with field suffix)) [
  | inl ends ↦ rw ends (λ h. (
    refl,
    λ p e. sym (before-append p suffix) ∙ ap (λ f. before f suffix) (sym e) ∙ some-injective _ _ h,
  ))
  | inr other ↦ rw other (λ h. cc)
]

cut_place :
    (field prefix : String) (k : ℕ) (b : Bool)
    → cut_at field (when b k) ≡ some prefix
    → slice field 0 k ≡ prefix
cut_place field prefix k true h = some-injective _ _ h
cut_place field prefix k false h = cc

not_le : (n : ℕ) → is_le (compare (suc n) n) ≡ false
not_le n = ground arith

pub pending_prefix-FieldOf :
    (field prefix : String) → pending_prefix field ≡ some prefix → FieldOf prefix field
unfolding pending_prefix
pending_prefix-FieldOf field prefix h = inr (inr (suffix_prefix-some field ":pending" prefix h))

cut_at-FieldOf :
    (field prefix : String)
    → cut_at field (find? field ":recovery:") ≡ some prefix
    → FieldOf prefix field
cut_at-FieldOf field prefix h = elim (find_cases field ":recovery:") [
  | inl (u, v, parts, place) ↦
      let at_cut =
        sym (slice-append_left u (":recovery:" <> v))
        ∙ ap (λ f. slice f 0 (len u)) (sym parts)
        ∙ ap (λ k. slice field 0 k) (sym place)
        ∙ cut_place field prefix (find field ":recovery:") _ h in
      inl (v, parts ∙ ap (λ p. p <> (":recovery:" <> v)) at_cut)
  | inr miss ↦ let none_cut = rw (miss, not_le (len field)) at h in cc
]

pub recovery_prefix-FieldOf :
    (field prefix : String) → recovery_prefix field ≡ some prefix → FieldOf prefix field
unfolding recovery_prefix
recovery_prefix-FieldOf field prefix =
    elim (Option-cases (cut_at field (find? field ":recovery:"))) [
      | inl uncut ↦ rw uncut (λ h. inr (inl (suffix_prefix-some field ":recovery" prefix h)))
      | inr (p, cut) ↦ rw cut (λ h. cut_at-FieldOf field prefix (cut ∙ h))
    ]

no_heartbeat :
    (prefix suffix tail front : String)
    → front <> tail ≡ ":heartbeat"
    → len tail ≡ len suffix
    → tail == suffix ≡ false
    → ends_with (prefix <> ":heartbeat") suffix ≡ true
    → ⊥
no_heartbeat prefix suffix tail front whole size differs h =
    let ends =
      subst (λ f. ends_with f suffix ≡ true)
        (ap (λ t. prefix <> t) (sym whole) ∙ sym (append_assoc prefix front tail)) h in
    let same = (eq_iff tail suffix).1 (other_ending (prefix <> front) tail suffix size ends) in cc

-- A field of a prefix is not the heartbeat of it.
pub FieldOf-no_heartbeat :
    (prefix field : String) → FieldOf prefix field → field ≢ prefix <> ":heartbeat"
FieldOf-no_heartbeat prefix field (inl (rest, e)) h =
    recovery-is-no-heartbeat prefix (":" <> rest)
      (ap (λ t. prefix <> t) (sym (append_assoc ":recovery" ":" rest)) ∙ sym e ∙ h)
FieldOf-no_heartbeat prefix field (inr (inl (ends, own))) h =
    no_heartbeat prefix ":recovery" "heartbeat" ":" refl refl refl
      (subst (λ f. ends_with f ":recovery" ≡ true) h ends)
FieldOf-no_heartbeat prefix field (inr (inr (ends, own))) h =
    no_heartbeat prefix ":pending" "eartbeat" ":h" refl refl refl
      (subst (λ f. ends_with f ":pending" ≡ true) h ends)
