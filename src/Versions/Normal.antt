-- ===== src/Versions/Normal.antt =====
-- Normalizing a version.
use Prim.Native.String.{[] as nil, ◌∷◌ as ◌∷ᶜ◌}
use ai_workflows.Common.{
  String, ◌<>◌, Bool, true, false, ◌||◌, Option, none, some, ◌≡◌, refl, ap, ◌∙◌, ◌==◌, inl, inr,
  Bool-cases, lower, after_prefix, is_digit,
}
use ai_workflows.Versions.{
  RhelConfig, get, span_digits, if_digits, digits, minor_of, dot_minor, dotted_from, dotted_of,
  is_end, version_of, parse_rhel_version, normalized, normalize_fix_version, y_stream_or_empty,
}
use ai_workflows.Versions.RoundTrip.{all_digits, IsNumber, parse_rhel_version-z}

span_digits-all_digits : (s : String) → all_digits (span_digits s).0 ≡ true
span_digits-all_digits nil = refl
span_digits-all_digits (c ∷ᶜ s) = elim (Bool-cases (is_digit c)) [
  | inl digit ↦ rw digit (rw digit (span_digits-all_digits s))
  | inr other ↦ rw other refl
]

abbrev First : Option (String × String) → Type 0
First none = Unit
First (some (d, rest)) = IsNumber d

if_digits-First : (p : String × String) → all_digits p.0 ≡ true → First (if_digits p)
if_digits-First (d, rest) h = elim (Bool-cases (d == "")) [
  | inl empty ↦ rw empty tt
  | inr some_digit ↦ rw some_digit (h, some_digit)
]

digits-First : (s : String) → First (digits s)
digits-First s = if_digits-First (span_digits s) (span_digits-all_digits s)

abbrev Both : Option (String × (String × String)) → Type 0
Both none = Unit
Both (some (major, (minor, tail))) = IsNumber major × IsNumber minor

minor_of-Both :
    (major : String)
    → IsNumber major
    → (o : Option (String × String)) → First o
    → Both (minor_of major o)
minor_of-Both major h none k = tt
minor_of-Both major h (some (minor, tail)) k = (h, k)

dot_minor-Both : (major : String) → IsNumber major → (o : Option String) → Both (dot_minor major o)
dot_minor-Both major h none = tt
dot_minor-Both major h (some s) = minor_of-Both major h (digits s) (digits-First s)

dotted_from-Both : (o : Option (String × String)) → First o → Both (dotted_from o)
dotted_from-Both none h = tt
dotted_from-Both (some (major, s)) h = dot_minor-Both major h (after_prefix "." s)

dotted_of-Both : (o : Option String) → Both (dotted_of o)
dotted_of-Both none = tt
dotted_of-Both (some s) = dotted_from-Both (digits s) (digits-First s)

abbrev Numbers : Option (String × (String × Bool)) → Type 0
Numbers none = Unit
Numbers (some (major, (minor, z))) = IsNumber major × IsNumber minor

version_of-Numbers : (o : Option (String × (String × String))) → Both o → Numbers (version_of o)
version_of-Numbers none h = tt
version_of-Numbers (some (major, (minor, tail))) h =
    elim (Bool-cases (is_end ".z" tail || is_end ".0.z" tail)) [
      | inl z ↦ rw z h
      | inr other ↦ elim (Bool-cases (is_end "" tail || is_end ".0" tail)) [
        | inl y ↦ rw (other, y) h
        | inr neither ↦ rw (other, neither) tt
      ]
    ]

-- The major and the minor version that a parse gives are numbers.
parse_rhel_version-Numbers : (s : String) → Numbers (parse_rhel_version s)
unfolding parse_rhel_version
parse_rhel_version-Numbers s =
    version_of-Numbers _ (dotted_of-Both (after_prefix "rhel-" (lower s)))

again :
    (config : RhelConfig) (s : String) (o : Option (String × (String × Bool)))
    → parse_rhel_version s ≡ o
    → Numbers o
    → normalize_fix_version (normalized config s o) config ≡ normalized config s o
unfolding normalize_fix_version normalized
again config s none e h = ap (normalized config s) e
again config s (some (major, (minor, true))) e h = ap (normalized config s) e
again config s (some (major, (minor, false))) e (h, k) =
    elim (Bool-cases (lower (y_stream_or_empty (get major config.current_y_streams)) == lower s)) [
      | inl current ↦ rw current (ap (normalized config s) e ∙ rw current refl)
      | inr stale ↦ rw stale (
          ap (normalized config ("rhel-" <> (major <> ("." <> (minor <> ".z")))))
            (parse_rhel_version-z major minor h k))
    ]

-- Normalizing a version a second time changes nothing: what comes out is the current Y-stream, a
-- Z-stream, or no version of RHEL.
pub normalize_fix_version_idem :
    (fix_version : String) (config : RhelConfig)
    → normalize_fix_version (normalize_fix_version fix_version config) config
      ≡ normalize_fix_version fix_version config
unfolding normalize_fix_version
normalize_fix_version_idem fix_version config =
    again config fix_version (parse_rhel_version fix_version) refl
      (parse_rhel_version-Numbers fix_version)
