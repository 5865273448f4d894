-- ===== src/Versions.antt =====
-- ymir/common/version_utils.py: the versions of RHEL and the names of its branches. Texts are those
-- of ASCII, whose digits are what `\d` matches; the calls of rpmdev-vercmp and the tests for
-- modular issues are left out. `rhel_config` is the configuration of the streams.
pub mod RoundTrip
pub mod Normal
use Prim.Native.String.{[] as nil, ◌∷◌ as ◌∷ᶜ◌}
use Prim.Native.Char.{Char}
use ai_workflows.Common.{
  ℕ, String, ◌<>◌, Bool, true, false, ◌&&◌, ◌||◌, not, Option, none, some, List, [], ◌∷◌, map,
  contains, ltb, ◌==◌, if◌then◌else◌, lower, after_prefix, is_digit, int, has_suffix,
}

-- The two parts of `rhel-config.json` that are read here, from major versions to streams.
pub record RhelConfig : Type 0 where
  pub current_y_streams : List (String × String)
  pub current_z_streams : List (String × String)

abbrev pub get : String → List (String × String) → Option String
get key [] = none
get key ((k, v) ∷ entries) = let rest = get key entries in if k == key then some v else rest

abbrev pub longer : Char → String × String → String × String
longer c (digits, rest) = (c ∷ᶜ digits, rest)

-- The digits at the front of a text, and what follows them.
abbrev pub span_digits : String → String × String
span_digits nil = ("", "")
span_digits (c ∷ᶜ s) =
    let rest = span_digits s in if is_digit c then longer c rest else ("", c ∷ᶜ s)

abbrev pub if_digits : String × String → Option (String × String)
if_digits (digits, rest) = if digits == "" then none else some (digits, rest)

-- `\d+`
abbrev pub digits : String → Option (String × String)
digits s = if_digits (span_digits s)

abbrev pub minor_of : String → Option (String × String) → Option (String × (String × String))
minor_of major none = none
minor_of major (some (minor, rest)) = some (major, (minor, rest))

abbrev pub dot_minor : String → Option String → Option (String × (String × String))
dot_minor major none = none
dot_minor major (some s) = minor_of major (digits s)

abbrev pub dotted_from : Option (String × String) → Option (String × (String × String))
dotted_from none = none
dotted_from (some (major, s)) = dot_minor major (after_prefix "." s)

-- `(\d+)\.(\d+)` and what follows it
abbrev pub dotted : String → Option (String × (String × String))
dotted s = dotted_from (digits s)

abbrev pub dotted_of : Option String → Option (String × (String × String))
dotted_of none = none
dotted_of (some s) = dotted s

-- `$` is the end of a text, or the newline that ends it.
abbrev pub is_end : String → String → Bool
is_end tail s = s == tail || s == (tail <> "\n")

abbrev pub version_of : Option (String × (String × String)) → Option (String × (String × Bool))
version_of none = none
version_of (some (major, (minor, tail))) =
    if is_end ".z" tail || is_end ".0.z" tail
    then some (major, (minor, true))
    else if is_end "" tail || is_end ".0" tail
    then some (major, (minor, false))
    else none

-- `^rhel-(\d+)\.(\d+)(?:\.0)?(\.z)?$`
unfoldable pub parse_rhel_version : String → Option (String × (String × Bool))
parse_rhel_version version = version_of (dotted_of (after_prefix "rhel-" (lower version)))

abbrev pub branch_of : Option (String × (String × String)) → Option (String × String)
branch_of none = none
branch_of (some (major, (minor, tail))) =
    if is_end "" tail || is_end ".0" tail then some (major, minor) else none

-- `^rhel-(\d+)\.(\d+)(?:\.0)?$`
unfoldable pub parse_zstream_branch_name : String → Option (String × String)
parse_zstream_branch_name branch = branch_of (dotted_of (after_prefix "rhel-" (lower branch)))

abbrev pub or_else : Option (String × String) → Option (String × String) → Option (String × String)
or_else none other = other
or_else (some p) other = some p

-- `.+-rhel-(\d+)\.(\d+)(?:\.0)?$`: `.` matches no newline, and only the last place can match.
abbrev pub module_tail : String → Option (String × String)
module_tail nil = none
module_tail (c ∷ᶜ s) =
    let later = module_tail s in
    if (c ∷ᶜ "") == "\n"
    then none
    else or_else (branch_of (dotted_of (after_prefix "-rhel-" s))) later

abbrev pub module_branch : Option String → Option (String × String)
module_branch none = none
module_branch (some s) = module_tail s

abbrev pub major_before : String → Option (String × String) → Option String
major_before tail none = none
major_before tail (some (major, rest)) = if is_end tail rest then some major else none

abbrev pub major_after : String → String → String → Option String
major_after front tail s = elim (after_prefix front s) [
  | none ↦ none
  | some rest ↦ major_before tail (digits rest)
]

abbrev pub without_minor : Option String → Option String → Option (String × Option String)
without_minor none none = none
without_minor none (some major) = some (major, none)
without_minor (some major) other = some (major, none)

abbrev pub with_minor :
    Option (String × String) → Option (String × Option String) → Option (String × Option String)
with_minor none other = other
with_minor (some (major, minor)) other = some (major, some minor)

unfoldable pub parse_branch_name : String → Option (String × Option String)
parse_branch_name branch = with_minor (parse_zstream_branch_name branch) (
    with_minor (module_branch (after_prefix "stream-" (lower branch))) (
      without_minor (major_after "c" "s" (lower branch))
        (major_after "rhel-" "-main" (lower branch))))

unfoldable pub construct_internal_branch_name : String → String → String
construct_internal_branch_name major_version minor_version =
    let branch = "rhel-" <> (major_version <> ("." <> minor_version)) in
    if ltb (int major_version) 10 then branch <> ".0" else branch

abbrev pub y_stream_or_empty : Option String → String
y_stream_or_empty none = ""
y_stream_or_empty (some s) = s

unfoldable pub normalized : RhelConfig → String → Option (String × (String × Bool)) → String
normalized config fix_version none = fix_version
normalized config fix_version (some (major, (minor, true))) = fix_version
normalized config fix_version (some (major, (minor, false))) =
    if lower (y_stream_or_empty (get major config.current_y_streams)) == lower fix_version
    then fix_version
    else "rhel-" <> (major <> ("." <> (minor <> ".z")))

unfoldable pub normalize_fix_version : String → RhelConfig → String
normalize_fix_version fix_version config =
    normalized config fix_version (parse_rhel_version fix_version)

-- Whether a major version has a Z-stream and no Y-stream.
abbrev pub in_maintenance : RhelConfig → String → Bool
in_maintenance config major =
    contains (map (λ e. e.0) config.current_z_streams) major
    && not (contains (map (λ e. e.0) config.current_y_streams) major)

abbrev pub variants_of : String → Option (String × (String × Bool)) → List String
variants_of fix_version none = fix_version ∷ []
variants_of fix_version (some (major, (minor, z))) =
    ("rhel-" <> (major <> ("." <> minor))) ∷ ("rhel-" <> (major <> ("." <> (minor <> ".z")))) ∷ []

unfoldable pub get_fix_version_variants : String → List String
get_fix_version_variants fix_version = variants_of fix_version (parse_rhel_version fix_version)

-- The major and minor version that `is_older_zstream` compares; none for a Y-stream.
abbrev pub zstream_target :
    Option (String × (String × Bool)) → Option (String × String) → Option (String × String)
zstream_target none branch = branch
zstream_target (some (major, (minor, true))) branch = some (major, minor)
zstream_target (some (major, (minor, false))) branch = branch

abbrev pub is_less : String → Option (String × (String × Bool)) → Bool
is_less minor none = false
is_less minor (some (current_major, (current_minor, z))) = ltb (int minor) (int current_minor)

abbrev pub is_older : List (String × String) → Option (String × String) → Bool
is_older streams none = false
is_older streams (some (major, minor)) = elim (get major streams) [
  | none ↦ false
  | some current ↦ if current == "" then false else is_less minor (parse_rhel_version current)
]

unfoldable pub is_older_zstream : String → List (String × String) → Bool
is_older_zstream version_or_branch current_z_streams = is_older current_z_streams (
    zstream_target (parse_rhel_version version_or_branch)
      (parse_zstream_branch_name version_or_branch))
