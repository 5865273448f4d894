-- ===== src/Examples/VersionSteps.antt =====
-- Versions of RHEL and names of branches.
use ai_workflows.Common.{true, false, some, none, [], ◌∷◌, ◌≡◌, refl, contains}
use ai_workflows.Versions.{
  RhelConfig, parse_rhel_version, parse_zstream_branch_name, parse_branch_name, normalized,
  construct_internal_branch_name, normalize_fix_version, is_older_zstream,
}
use ai_workflows.Versions.RoundTrip.{parse_zstream_branch_name-construct}
use ai_workflows.Constants.{all_queues, get_rebase_queue_for_branch, priority_twin}

abbrev config : RhelConfig
config = record {
  current_y_streams = ("9", "rhel-9.9") ∷ [];
  current_z_streams = ("9", "rhel-9.8.z") ∷ ("8", "rhel-8.10.z") ∷ [];
}

parse_short_test : parse_rhel_version "RHEL-9.7.Z" ≡ some ("9", ("7", true))
unfolding parse_rhel_version
parse_short_test = refl

parse_long_test : parse_rhel_version "rhel-9.0.0.z" ≡ some ("9", ("0", true))
unfolding parse_rhel_version
parse_long_test = refl

parse_none_test : parse_rhel_version "rhel-9.8.1" ≡ none
unfolding parse_rhel_version
parse_none_test = refl

modular_test : parse_branch_name "stream-nginx-1.26-rhel-9.9.0" ≡ some ("9", some "9")
unfolding parse_branch_name parse_zstream_branch_name
modular_test = refl

stream_test : parse_branch_name "c10s" ≡ some ("10", none)
unfolding parse_branch_name parse_zstream_branch_name
stream_test = refl

stale_test : normalize_fix_version "rhel-9.8" config ≡ "rhel-9.8.z"
unfolding normalize_fix_version normalized parse_rhel_version
stale_test = refl

older_test : is_older_zstream "rhel-9.6.0" config.current_z_streams ≡ true
unfolding is_older_zstream parse_rhel_version parse_zstream_branch_name
older_test = refl

twin_test : get_rebase_queue_for_branch (some "c9s") true ≡ "rebase_queue_c9s_todo"
unfolding get_rebase_queue_for_branch priority_twin
twin_test = refl

hash_test : contains all_queues "merge_consolidation_queue" ≡ false
hash_test = refl

parse_zstream_branch_name-construct_example :
    parse_zstream_branch_name (construct_internal_branch_name "9" "8") ≡ some ("9", "8")
parse_zstream_branch_name-construct_example =
    parse_zstream_branch_name-construct "9" "8" (refl, refl) (refl, refl)
