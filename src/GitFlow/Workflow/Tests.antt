-- ===== src/GitFlow/Workflow/Tests.antt =====
-- The Finish methods on a repository whose git fails at the merge into develop, and the theorem there.
use golang_journey.Prelude.{◌≡◌, refl, List, [], ◌∷◌, none, some}
use golang_journey.Prelude.Text.{Text, Text-discrete, bytes, starts_with}
use golang_journey.GitFlow.Repo.{Git}
use golang_journey.GitFlow.Repo.Scripts.{Follows}
use golang_journey.GitFlow.Workflow.{
  hotfix, classify, finish_release, finish_hotfix, finish_feature,
}
use golang_journey.GitFlow.Workflow.Finish
use golang_journey.GitFlow.Workflow.Finish.{release_script, hotfix_script, feature_script}

-- The state is the list of the arguments of the calls, the last first; the fourth call fails.
abbrev fourth_fails : Git (List (List Text)) Text
fourth_fails w args =
    (args ∷ w, ([], elim w [ _ ∷ _ ∷ _ ∷ [] ↦ some (bytes "conflict") | calls ↦ none ]))

classified : classify (bytes "hotfix/1.0") ≡ hotfix
unfolding classify starts_with Text-discrete
classified = refl

finish-Follows_example :
    Follows fourth_fails
      (bytes "/r")
      (finish_release fourth_fails (bytes "/r") [] (bytes "1.0"))
      []
      (release_script (bytes "1.0"))
    × Follows fourth_fails
        (bytes "/r")
        (finish_hotfix fourth_fails (bytes "/r") [] (bytes "1.0"))
        []
        (hotfix_script (bytes "1.0"))
    × Follows fourth_fails
        (bytes "/r")
        (finish_feature fourth_fails (bytes "/r") [] (bytes "1.0"))
        []
        (feature_script (bytes "1.0"))
finish-Follows_example = Finish.finish-Follows fourth_fails (bytes "/r") [] (bytes "1.0")
