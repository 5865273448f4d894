-- ===== src/Versions/RoundTrip.antt =====
-- The names of branches can be parsed back.
use Prim.Native.String.{[] as nil, ◌∷◌ as ◌∷ᶜ◌}
use Prim.Native.Char.{Char, code}
use text.Mathlib.TextLemmas.{cons-append, nil-append, append_assoc, append-nil}
use ai_workflows.Common.{
  ℕ, String, ◌<>◌, Bool, true, false, ◌&&◌, some, ◌≡◌, refl, sym, ap, ◌∙◌, ◌==◌, inl, inr,
  Bool-cases, lower, lower_char, after_prefix, is_digit, int, ltb, arith, eqb, between,
}
use ai_workflows.Versions.{
  span_digits, digits, dotted, dotted_of, version_of, branch_of, parse_rhel_version,
  parse_zstream_branch_name, construct_internal_branch_name,
}

abbrev pub all_digits : String → Bool
all_digits nil = true
all_digits (c ∷ᶜ s) = is_digit c && all_digits s

-- A text of digits that is not empty, as a group `(\d+)` gives it.
abbrev pub IsNumber : String → Type 0
IsNumber s = (all_digits s ≡ true) × (s == "" ≡ false)

both : (a b : Bool) → a && b ≡ true → (a ≡ true) × (b ≡ true)
both true b h = (refl, h)
both false b h = cc

lower_char-digit : (c : Char) → is_digit c ≡ true → between 65 90 c ≡ false
lower_char-digit c h = ground arith

lower-digits : (s : String) → all_digits s ≡ true → lower s ≡ s
lower-digits nil h = refl
lower-digits (c ∷ᶜ s) h =
    let (d, ds) = both (is_digit c) (all_digits s) h in
    rw (lower_char-digit c d) (ap (λ t. c ∷ᶜ t) (lower-digits s ds))

lower-append : (s t : String) → lower (s <> t) ≡ lower s <> lower t
lower-append nil t = rw (nil-append, nil-append) refl
lower-append (c ∷ᶜ s) t =
    rw (cons-append, cons-append) (ap (λ u. lower_char c ∷ᶜ u) (lower-append s t))

eqb_refl : (n : ℕ) → eqb n n ≡ true
eqb_refl n = ground arith

after_prefix-append : (p s : String) → after_prefix p (p <> s) ≡ some s
after_prefix-append nil s = rw nil-append refl
after_prefix-append (c ∷ᶜ p) s = rw cons-append (rw (eqb_refl (code c)) (after_prefix-append p s))

span_digits-append :
    (d t : String) → all_digits d ≡ true → span_digits t ≡ ("", t) → span_digits (d <> t) ≡ (d, t)
span_digits-append nil t h e = rw nil-append e
span_digits-append (c ∷ᶜ d) t h e =
    let (first, rest) = both (is_digit c) (all_digits d) h in
    rw cons-append (rw (first, span_digits-append d t rest e) refl)

digits-append :
    (d t : String) → IsNumber d → span_digits t ≡ ("", t) → digits (d <> t) ≡ some (d, t)
digits-append d t (h, k) e = rw (span_digits-append d t h e) (rw k refl)

dot-span : (s : String) → span_digits ("." <> s) ≡ ("", "." <> s)
dot-span s = rw (cons-append, nil-append) refl

dotted-append :
    (major minor tail : String)
    → IsNumber major
    → IsNumber minor
    → span_digits tail ≡ ("", tail)
    → dotted (major <> ("." <> (minor <> tail))) ≡ some (major, (minor, tail))
dotted-append major minor tail h k e =
    rw (digits-append major ("." <> (minor <> tail)) h (dot-span _))
      (rw (after_prefix-append "." (minor <> tail)) (rw (digits-append minor tail k e) refl))

-- A name in lower case is `rhel-`, a number, a point, a number and a tail.
lower_name :
    (major minor tail : String)
    → IsNumber major
    → IsNumber minor
    → lower ("rhel-" <> (major <> ("." <> (minor <> tail))))
      ≡ "rhel-" <> (major <> ("." <> (minor <> lower tail)))
lower_name major minor tail (h, _) (k, _) =
    lower-append "rhel-" _
    ∙ ap (λ s. "rhel-" <> s)
        (lower-append major _
          ∙ (ap (λ s. s <> lower ("." <> (minor <> tail))) (lower-digits major h)
              ∙ ap (λ s. major <> s)
                  (lower-append "." _
                    ∙ ap (λ s. "." <> s)
                        (lower-append minor tail
                          ∙ ap (λ s. s <> lower tail) (lower-digits minor k)))))

name_parts :
    (major minor tail : String)
    → IsNumber major
    → IsNumber minor
    → lower tail ≡ tail
    → span_digits tail ≡ ("", tail)
    → dotted_of (after_prefix "rhel-" (lower ("rhel-" <> (major <> ("." <> (minor <> tail))))))
      ≡ some (major, (minor, tail))
name_parts major minor tail h k low e =
    ap (λ s. dotted_of (after_prefix "rhel-" s))
      (lower_name major minor tail h k ∙ ap (λ s. "rhel-" <> (major <> ("." <> (minor <> s)))) low)
    ∙ (ap dotted_of (after_prefix-append "rhel-" (major <> ("." <> (minor <> tail))))
        ∙ dotted-append major minor tail h k e)

with_tail :
    (major minor tail : String)
    → ("rhel-" <> (major <> ("." <> minor))) <> tail
      ≡ "rhel-" <> (major <> ("." <> (minor <> tail)))
with_tail major minor tail =
    append_assoc "rhel-" _ tail
    ∙ ap (λ s. "rhel-" <> s)
        (append_assoc major _ tail ∙ ap (λ s. major <> s) (append_assoc "." minor tail))

-- The name that is constructed for the branch of a major and a minor version, whether the major
-- version is below ten or not, parses back to the two versions.
pub parse_zstream_branch_name-construct :
    (major minor : String)
    → IsNumber major
    → IsNumber minor
    → parse_zstream_branch_name (construct_internal_branch_name major minor) ≡ some (major, minor)
unfolding parse_zstream_branch_name construct_internal_branch_name
parse_zstream_branch_name-construct major minor h k = elim (Bool-cases (ltb (int major) 10)) [
  | inl early ↦ rw early (
      ap (λ s. branch_of (dotted_of (after_prefix "rhel-" (lower s)))) (with_tail major minor ".0")
      ∙ ap branch_of (name_parts major minor ".0" h k refl refl))
  | inr late ↦ rw late (
      ap (λ s. branch_of (dotted_of (after_prefix "rhel-" (lower s))))
        (ap (λ s. "rhel-" <> (major <> ("." <> s))) (sym (append-nil minor)))
      ∙ ap branch_of (name_parts major minor "" h k refl refl))
]

pub parse_rhel_version-z :
    (major minor : String)
    → IsNumber major
    → IsNumber minor
    → parse_rhel_version ("rhel-" <> (major <> ("." <> (minor <> ".z"))))
      ≡ some (major, (minor, true))
unfolding parse_rhel_version
parse_rhel_version-z major minor h k = ap version_of (name_parts major minor ".z" h k refl refl)
