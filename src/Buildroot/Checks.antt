-- ===== src/Buildroot/Checks.antt =====
-- What a positive check means.
use ai_workflows.Common.{
  String, true, Option, none, some, List, [], ◌∷◌, ◌≡◌, ◌↔◌, refl, inl, inr, All, Bool-cases,
}
use ai_workflows.Effects.{Result, ok, raised}
use ai_workflows.Versions.{RhelConfig}
use ai_workflows.Buildroot.{
  Build, evr_from_build, get_latest_koji_build, Koji, Tag, brewhub_url, and_then, gather, all_have,
  compared, resolve_buildroot_checks, check_build_in_buildroot,
}

module _ (koji : Koji) where
  -- The latest build of a component in a tag is at least a fixed build.
  abbrev pub Has : String → Build → Tag → Type 0
  Has dep_component fixed tag =
      (latest : Build) × (get_latest_koji_build koji tag dep_component ≡ ok (some latest))
      × (koji.at_least (evr_from_build latest) (evr_from_build fixed) ≡ true)

  -- The fixed build exists, and every tag has it or a newer one.
  abbrev pub InAll : String → String → List Tag → Type 0
  InAll dep_component nvr tags =
      (fixed : Build) × (koji.get_build brewhub_url nvr ≡ ok (some fixed))
      × All (Has dep_component fixed) tags

  abbrev Gathered : String → Build → List Tag → Result (List (Option Build)) → Type 0
  Gathered dep_component fixed tags (raised e) = Unit
  Gathered dep_component fixed tags (ok results) =
      all_have koji (evr_from_build fixed) results ≡ true → All (Has dep_component fixed) tags

  next-Gathered :
      (dep_component : String) (fixed : Build) (tag : Tag) (tags : List Tag)
      → (first : Result (Option Build)) (rest : Result (List (Option Build)))
      → get_latest_koji_build koji tag dep_component ≡ first
      → Gathered dep_component fixed tags rest
      → Gathered dep_component fixed (tag ∷ tags) (and_then koji first rest)
  next-Gathered dep_component fixed tag tags (raised e) rest h g = tt
  next-Gathered dep_component fixed tag tags (ok latest) (raised e) h g = tt
  next-Gathered dep_component fixed tag tags (ok none) (ok rest) h g = λ e. cc
  next-Gathered dep_component fixed tag tags (ok (some latest)) (ok rest) h g =
      elim (Bool-cases (koji.at_least (evr_from_build latest) (evr_from_build fixed))) [
        | inl enough ↦ rw enough (λ e. ((latest, h, enough), g e))
        | inr older ↦ rw older (λ e. cc)
      ]

  gather-Gathered :
      (dep_component : String) (fixed : Build) (tags : List Tag)
      → Gathered dep_component fixed tags (gather koji dep_component tags)
  gather-Gathered dep_component fixed [] = λ e. tt
  gather-Gathered dep_component fixed (tag ∷ tags) =
      next-Gathered dep_component fixed tag tags _ _ refl (gather-Gathered dep_component fixed tags)

  gather-all_have :
      (dep_component : String) (fixed : Build) (tags : List Tag)
      → All (Has dep_component fixed) tags
      → (results : List (Option Build)) × (gather koji dep_component tags ≡ ok results)
        × (all_have koji (evr_from_build fixed) results ≡ true)
  gather-all_have dep_component fixed [] h = ([], refl, refl)
  gather-all_have dep_component fixed (tag ∷ tags) ((latest, found, enough), h) =
      let (results, gathered, all_of) = gather-all_have dep_component fixed tags h in
      (some latest ∷ results, rw (found, gathered) refl, rw enough all_of)

  compared-InAll :
      (dep_component nvr : String) (tags : List Tag)
      → (build : Result (Option Build)) (results : Result (List (Option Build)))
      → koji.get_build brewhub_url nvr ≡ build
      → ((fixed : Build) → Gathered dep_component fixed tags results)
      → compared koji build results ≡ ok true
      → InAll dep_component nvr tags
  compared-InAll dep_component nvr tags (raised e) results h g p = cc
  compared-InAll dep_component nvr tags (ok fixed) (raised e) h g p = cc
  compared-InAll dep_component nvr tags (ok none) (ok results) h g p = cc
  compared-InAll dep_component nvr tags (ok (some fixed)) (ok results) h g p =
      (fixed, h, g fixed cc)

  -- The check answers that a build is there exactly when the fixed build exists in Brew and, in
  -- every tag that the branch and the fix version ask for, the latest build of the component is at
  -- least as new.
  pub check_build_in_buildroot-InAll :
      (rhel_config : RhelConfig) (target_branch dep_component nvr fix_version : String)
      → (check_build_in_buildroot koji (ok rhel_config) target_branch dep_component nvr fix_version
          ≡ ok true)
        ↔ InAll dep_component nvr (resolve_buildroot_checks target_branch fix_version rhel_config)
  unfolding check_build_in_buildroot
  check_build_in_buildroot-InAll rhel_config target_branch dep_component nvr fix_version = (
    compared-InAll dep_component nvr _ _ _ refl (λ fixed.
        gather-Gathered dep_component fixed
          (resolve_buildroot_checks target_branch fix_version rhel_config)),
    λ (fixed, found, h).
        let (results, gathered, all_of) = gather-all_have dep_component fixed _ h in
        rw (found, gathered, all_of) refl,
  )
