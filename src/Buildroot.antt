-- ===== src/Buildroot.antt =====
-- ymir/common/utils.py: whether a fixed build, or a newer one, is in the buildroots that matter for
-- a branch. Koji and the order of epochs, versions and releases are parameters. Queries that run
-- side by side are answered in their order.
pub mod Checks
use ai_workflows.Common.{
  ℕ, String, ◌<>◌, Bool, true, false, Option, none, some, List, [], ◌∷◌, map, if◌then◌else◌, lower,
  after_prefix, has_suffix,
}
use ai_workflows.Effects.{Result, ok, raised}
use ai_workflows.Versions.{
  RhelConfig, digits, is_end, parse_rhel_version, construct_internal_branch_name, in_maintenance,
}

abbrev pub brewhub_url : String
brewhub_url = "https://brewhub.engineering.redhat.com/brewhub"

abbrev pub centos_stream_kojihub_url : String
centos_stream_kojihub_url = "https://kojihub.stream.centos.org/kojihub"

-- A hub of Koji with a tag of it.
abbrev pub Tag : Type 0
Tag = String × String

abbrev pub cs_tag : String → Tag
cs_tag target_branch = (centos_stream_kojihub_url, target_branch <> "-build")

abbrev pub z_tag : String → Tag
z_tag branch = (brewhub_url, branch <> "-z-build")

-- The tags for a branch of CentOS Stream and a fix version of a Z-stream.
abbrev pub z_stream_checks : String → RhelConfig → Option (String × (String × Bool)) → List Tag
z_stream_checks target_branch rhel_config none = cs_tag target_branch ∷ []
z_stream_checks target_branch rhel_config (some (major, (minor, is_z))) =
    let rhel_branch = construct_internal_branch_name major minor in
    if in_maintenance rhel_config major
    then z_tag rhel_branch ∷ []
    else cs_tag target_branch ∷ z_tag rhel_branch ∷ []

abbrev pub is_some_end : Option (String × String) → Bool
is_some_end none = false
is_some_end (some (major, rest)) = is_end "s" rest

-- `^c\d+s$`
abbrev pub digits_after : Option String → Bool
digits_after none = false
digits_after (some s) = is_some_end (digits s)

abbrev pub is_cs_branch : String → Bool
is_cs_branch dist_git_branch = digits_after (after_prefix "c" dist_git_branch)

unfoldable pub resolve_buildroot_checks : String → String → RhelConfig → List Tag
resolve_buildroot_checks target_branch fix_version rhel_config =
    let is_zstream = has_suffix (lower fix_version) ".z" in
    if is_cs_branch target_branch
    then (if is_zstream
        then z_stream_checks target_branch rhel_config (parse_rhel_version fix_version)
        else cs_tag target_branch ∷ [])
    else (if is_zstream then z_tag target_branch else (brewhub_url, target_branch <> "-build")) ∷ []

-- A build as Koji describes it, and what is compared of it.
pub record Build : Type 0 where
  pub epoch : Option ℕ
  pub version : String
  pub release : String

pub record Evr : Type 0 where
  pub epoch : ℕ
  pub version : String
  pub release : String

abbrev pub or_zero : Option ℕ → ℕ
or_zero none = 0
or_zero (some n) = n

abbrev pub evr_from_build : Build → Evr
evr_from_build build = record {
  epoch = or_zero build.epoch;
  version = build.version;
  release = build.release;
}

abbrev pub first_build : Result (List Build) → Result (Option Build)
first_build (raised e) = raised e
first_build (ok []) = ok none
first_build (ok (build ∷ builds)) = ok (some build)

-- What Koji answers: getBuild of a hub for a name, listTagged of a hub with the latest builds of a
-- package in a tag; and `>=` of the order that RPM has.
pub record Koji : Type 0 where
  pub get_build : String → String → Result (Option Build)
  pub list_tagged : String → String → String → Result (List Build)
  pub at_least : Evr → Evr → Bool

module _ (koji : Koji) where
  abbrev pub get_latest_koji_build : Tag → String → Result (Option Build)
  get_latest_koji_build (koji_url, build_tag) dep_component =
      first_build (koji.list_tagged koji_url build_tag dep_component)

  -- `asyncio.gather` over the tags
  abbrev pub and_then :
      Result (Option Build) → Result (List (Option Build)) → Result (List (Option Build))
  and_then (raised e) rest = raised e
  and_then (ok latest) (raised e) = raised e
  and_then (ok latest) (ok rest) = ok (latest ∷ rest)

  abbrev pub gather : String → List Tag → Result (List (Option Build))
  gather dep_component [] = ok []
  gather dep_component (tag ∷ tags) =
      and_then (get_latest_koji_build tag dep_component) (gather dep_component tags)

  -- The loop over the answers
  abbrev pub all_have : Evr → List (Option Build) → Bool
  all_have fixed [] = true
  all_have fixed (none ∷ rest) = false
  all_have fixed (some latest ∷ rest) =
      let later = all_have fixed rest in
      if koji.at_least (evr_from_build latest) fixed then later else false

  abbrev pub compared : Result (Option Build) → Result (List (Option Build)) → Result Bool
  compared (raised e) results = raised e
  compared (ok fixed) (raised e) = raised e
  compared (ok none) (ok results) = ok false
  compared (ok (some fixed)) (ok results) = ok (all_have (evr_from_build fixed) results)

  abbrev pub checked : String → String → List Tag → Result Bool
  checked dep_component fixed_in_build_nvr tags =
      compared (koji.get_build brewhub_url fixed_in_build_nvr) (gather dep_component tags)

  unfoldable pub check_build_in_buildroot :
      Result RhelConfig → String → String → String → String → Result Bool
  check_build_in_buildroot (raised e) target_branch dep_component fixed_in_build_nvr fix_version =
      raised e
  check_build_in_buildroot (ok rhel_config) target_branch dep_component fixed_in_build_nvr
        fix_version =
      checked dep_component fixed_in_build_nvr
        (resolve_buildroot_checks target_branch fix_version rhel_config)
