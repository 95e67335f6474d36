-- ===== src/GitFlow/Workflow/Finish.antt =====
-- The scripts of git commands that the `Finish` methods are.
use golang_journey.Prelude.{◌≡◌, refl, List, [], ◌∷◌, ◌++◌}
use golang_journey.Prelude.Text.{Text, bytes, starts_with, trim_prefix}
use golang_journey.GitFlow.Repo.{Git}
use golang_journey.GitFlow.Repo.Scripts.{
  Follows, and_then-Follows, done-Follows, merge-Follows, tag-Follows, delete_branch-Follows,
  merge_script, tag_args, delete_args,
}
use golang_journey.GitFlow.Workflow.{
  prefix_feature, prefix_release, prefix_hotfix, branch_main, branch_develop, classify, merge_both,
  merge, finish_release, finish_hotfix, finish_feature,
}

-- The branch into main, a tag there, and the branch into develop.
abbrev pub both_script : Text → Text → Text → List (List Text)
both_script src name message =
    merge_script src branch_main ++ tag_args name message ∷ merge_script src branch_develop

-- The scripts of the three.
abbrev pub release_script : Text → List (List Text)
release_script version =
    let branch = prefix_release ++ version in
    both_script branch (bytes "v" ++ version) (bytes "Release " ++ version)
    ++ delete_args branch ∷ []

abbrev pub hotfix_script : Text → List (List Text)
hotfix_script version =
    let branch = prefix_hotfix ++ version in
    both_script branch (bytes "v" ++ version ++ bytes "-hotfix") (bytes "Hotfix " ++ version)
    ++ delete_args branch ∷ []

abbrev pub feature_script : Text → List (List Text)
feature_script name =
    let branch = prefix_feature ++ name in
    merge_script branch branch_develop ++ delete_args branch ∷ []

module _ {W E : Type 0} (git_command : Git W E) (root : Text) where
  merge_both-Follows :
      (w : W) (src name message : Text)
      → Follows git_command root
          (merge_both git_command root w src name message)
          w
          (both_script src name message)
  unfolding merge_both
  merge_both-Follows w src name message =
      and_then-Follows git_command root _ _ _ w (merge_script src branch_main)
        (tag_args name message ∷ merge_script src branch_develop)
        (merge-Follows git_command root w src branch_main)
        (λ w₁.
          and_then-Follows git_command root _ _ _ w₁ (tag_args name message ∷ [])
            (merge_script src branch_develop) (tag-Follows git_command root w₁ name message)
            (λ w₂.
              and_then-Follows git_command root _ _ _ w₂ (merge_script src branch_develop) []
                (merge-Follows git_command root w₂ src branch_develop)
                (λ w₃. done-Follows git_command root w₃)))

  merge_release :
      (w : W) (version : Text)
      → merge git_command root w (prefix_release ++ version) []
        ≡ merge_both git_command root w
            (prefix_release ++ version)
            (bytes "v" ++ version)
            (bytes "Release " ++ version)
  unfolding merge classify starts_with trim_prefix
  merge_release w version = refl

  merge_hotfix :
      (w : W) (version : Text)
      → merge git_command root w (prefix_hotfix ++ version) []
        ≡ merge_both git_command root w
            (prefix_hotfix ++ version)
            (bytes "v" ++ version ++ bytes "-hotfix")
            (bytes "Hotfix " ++ version)
  unfolding merge classify starts_with trim_prefix
  merge_hotfix w version = refl

  -- For any git and any state, FinishRelease, FinishHotfix and FinishFeature leave the state,
  -- and succeed or fail, as the list of their git commands does that stops at the first
  -- failure: the merge into main, the tag, the merge into develop and the deletion of the
  -- branch, or, for a feature, the merge into develop and the deletion.
  pub finish-Follows :
      (w : W) (version : Text)
      → Follows git_command root
          (finish_release git_command root w version)
          w
          (release_script version)
        × Follows git_command root
            (finish_hotfix git_command root w version)
            w
            (hotfix_script version)
        × Follows git_command root
            (finish_feature git_command root w version)
            w
            (feature_script version)
  unfolding finish_release finish_hotfix finish_feature
  finish-Follows w version =
      let released = prefix_release ++ version in
      let fixed = prefix_hotfix ++ version in
      let named = prefix_feature ++ version in
      (
        rw (merge_release w version) (
            and_then-Follows git_command root _ _ _ w
              (both_script released (bytes "v" ++ version) (bytes "Release " ++ version))
              (delete_args released ∷ []) (merge_both-Follows w _ _ _)
              (λ w'. delete_branch-Follows git_command root w' released)),
        rw (merge_hotfix w version) (
            and_then-Follows git_command root _ _ _ w
              (both_script fixed (bytes "v" ++ version ++ bytes "-hotfix")
                (bytes "Hotfix " ++ version))
              (delete_args fixed ∷ []) (merge_both-Follows w _ _ _)
              (λ w'. delete_branch-Follows git_command root w' fixed)),
        and_then-Follows git_command root _ _ _ w (merge_script named branch_develop)
            (delete_args named ∷ []) (merge-Follows git_command root w named branch_develop)
            (λ w'. delete_branch-Follows git_command root w' named),
      )
