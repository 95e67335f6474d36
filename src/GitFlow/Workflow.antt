-- ===== src/GitFlow/Workflow.antt =====
-- projects/07-tui-gitflow-manager/gitflow/workflow.go.
pub mod Finish
mod Tests
use golang_journey.Prelude.{
  Bool, true, false, ◌||◌, List, [], ◌∷◌, ◌++◌, Option, none, some, if◌then◌else◌, ◌⊎◌, inl, inr,
}
use golang_journey.Prelude.Text.{same_text, Text, bytes, starts_with, trim_prefix}
use golang_journey.GitFlow.Repo
use golang_journey.GitFlow.Repo.{
  Branch, GitError, base_not_found, at_base, at_main, at_tag, at_develop, Git, and_then,
}

abbrev pub prefix_feature : Text
prefix_feature = bytes "feature/"

abbrev pub prefix_release : Text
prefix_release = bytes "release/"

abbrev pub prefix_hotfix : Text
prefix_hotfix = bytes "hotfix/"

abbrev pub prefix_bugfix : Text
prefix_bugfix = bytes "bugfix/"

abbrev pub branch_main : Text
branch_main = bytes "main"

abbrev pub branch_develop : Text
branch_develop = bytes "develop"

pub data BranchKind : Type 0 where
  feature release hotfix bugfix main develop other : BranchKind

unfoldable pub classify : Text → BranchKind
classify name =
    if starts_with prefix_feature name
    then feature
    else if starts_with prefix_release name
    then release
    else if starts_with prefix_hotfix name
    then hotfix
    else if starts_with prefix_bugfix name
    then bugfix
    else if same_text name branch_main || same_text name (bytes "master")
    then main
    else if same_text name branch_develop
    then develop
    else other

-- The search for the base among the branches.
unfoldable pub has_branch : Text → List Branch → Bool
has_branch base [] = false
has_branch base (b ∷ bs) =
    let rest = has_branch base bs in if same_text b.name base then true else rest

module _ {W E : Type 0} (git_command : Git W E) (root : Text) where
  -- `CreateBranch` for a kind with a base.
  pub branch_from : W → Text → Text → W × Option (GitError E)
  branch_from w base name =
      let (w', listed) = Repo.branches git_command root w in
      elim listed [
        | inl e ↦ (w', some e)
        | inr bs ↦
            if has_branch base bs
            then and_then (Repo.checkout git_command root w' base) (at_base base)
                (λ w''. Repo.create_branch git_command root w'' name)
            else (w', some (base_not_found base))
      ]

  pub create_branch : W → Text → W × Option (GitError E)
  create_branch w name = elim (classify name) [
    | feature ↦ branch_from w branch_develop name
    | release ↦ branch_from w branch_develop name
    | bugfix ↦ branch_from w branch_develop name
    | hotfix ↦ branch_from w branch_main name
    | kind ↦ Repo.create_branch git_command root w name
  ]

  -- The merges into main and develop, with the tag between them.
  pub merge_both : W → Text → Text → Text → W × Option (GitError E)
  merge_both w src tag_name message =
      and_then (Repo.merge git_command root w src branch_main) at_main (λ w₁.
        and_then (Repo.tag git_command root w₁ tag_name message) at_tag (λ w₂.
          and_then (Repo.merge git_command root w₂ src branch_develop) at_develop
            (λ w₃. (w₃, none))))

  pub merge : W → Text → Text → W × Option (GitError E)
  merge w src dst = elim (classify src) [
    | feature ↦ Repo.merge git_command root w src branch_develop
    | bugfix ↦ Repo.merge git_command root w src branch_develop
    | release ↦
        let version = trim_prefix prefix_release src in
        merge_both w src (bytes "v" ++ version) (bytes "Release " ++ version)
    | hotfix ↦
        let version = trim_prefix prefix_hotfix src in
        merge_both w src (bytes "v" ++ version ++ bytes "-hotfix") (bytes "Hotfix " ++ version)
    | kind ↦ Repo.merge git_command root w src dst
  ]

  pub finish_release : W → Text → W × Option (GitError E)
  finish_release w version =
      let branch = prefix_release ++ version in
      and_then (merge w branch []) (λ e. e)
        (λ w'. Repo.delete_branch git_command root w' branch false)

  pub finish_hotfix : W → Text → W × Option (GitError E)
  finish_hotfix w version =
      let branch = prefix_hotfix ++ version in
      and_then (merge w branch []) (λ e. e)
        (λ w'. Repo.delete_branch git_command root w' branch false)

  pub finish_feature : W → Text → W × Option (GitError E)
  finish_feature w name =
      let branch = prefix_feature ++ name in
      and_then (Repo.merge git_command root w branch branch_develop) (λ e. e)
        (λ w'. Repo.delete_branch git_command root w' branch false)
