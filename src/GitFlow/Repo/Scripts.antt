-- ===== src/GitFlow/Repo/Scripts.antt =====
-- A list of git commands that stops at the first failure, and the methods that are such a list.
use golang_journey.Prelude.{
  ◌≡◌, Bool, true, false, refl, sym, List, [], ◌∷◌, ◌++◌, Option, none, some, Option-cases, inl,
  inr, if◌then◌else◌,
}
use golang_journey.Prelude.Text.{Text, bytes}
use golang_journey.GitFlow.Repo.{Git, and_then, call, command, merge, delete_branch, tag}

abbrev pub succeeded : {E : Type 0} → Option E → Bool
succeeded none = true
succeeded (some e) = false

-- The commands of `Merge`.
abbrev pub merge_script : Text → Text → List (List Text)
merge_script src dst =
    (bytes "checkout" ∷ dst ∷ []) ∷ (bytes "merge" ∷ bytes "--no-ff" ∷ src ∷ []) ∷ []

abbrev pub tag_args : Text → Text → List Text
tag_args name message = bytes "tag" ∷ bytes "-a" ∷ name ∷ bytes "-m" ∷ message ∷ []

abbrev pub delete_args : Text → List Text
delete_args name = bytes "branch" ∷ bytes "-d" ∷ name ∷ []

module _ {W E : Type 0} (git_command : Git W E) (root : Text) where
  unfoldable pub run_all : W → List (List Text) → W × Bool
  run_all w [] = (w, true)
  run_all w (args ∷ script) =
      let (w', e) = call git_command root w args in
      elim e [ none ↦ run_all w' script | some x ↦ (w', false) ]

  -- The state after a script, and its success.
  pub record Follows {X : Type 0} (result : W × Option X) (w : W) (script : List (List Text))
      : Type 0 where
    pub state : result.0 ≡ (run_all w script).0
    pub success : succeeded result.1 ≡ (run_all w script).1

  run_all-append :
      (w : W) (cs ds : List (List Text))
      → run_all w (cs ++ ds)
        ≡ (if (run_all w cs).1 then run_all (run_all w cs).0 ds else run_all w cs)
  unfolding run_all
  run_all-append w [] ds = refl
  run_all-append w (c ∷ cs) ds = elim (Option-cases (call git_command root w c).1) [
    | inl e ↦ rw (run_all, e) (run_all-append (call git_command root w c).0 cs ds)
    | inr (x, e) ↦ rw (run_all, e) refl
  ]

  pub and_then-Follows :
      {X Y : Type 0} (a : W × Option X) (wrap : X → Y) (rest : W → W × Option Y) (w : W)
      (cs ds : List (List Text))
      → Follows a w cs
      → ((w' : W) → Follows (rest w') w' ds)
      → Follows (and_then a wrap rest) w (cs ++ ds)
  unfolding and_then
  and_then-Follows (w', none) wrap rest w cs ds f g =
      let done : (run_all w cs).1 ≡ true = sym f.success in
      let later = g w' in
      let same = run_all-append w cs ds in
      record {
        state = rw (same, done, ← f.state) later.state;
        success = rw (same, done, ← f.state) later.success;
      }
  and_then-Follows (w', some e) wrap rest w cs ds f g =
      let failed : (run_all w cs).1 ≡ false = sym f.success in
      let same = run_all-append w cs ds in
      record { state = rw (same, failed) f.state; success = rw (same, failed) refl }

  pub done-Follows : {Y : Type 0} (w : W) → Follows {X = Y} (w, none) w []
  unfolding run_all
  done-Follows w = record { state = refl; success = refl }

  pub call-Follows :
      (w : W) (args : List Text) → Follows (call git_command root w args) w (args ∷ [])
  unfolding run_all
  call-Follows w args = elim (Option-cases (call git_command root w args).1) [
    | inl e ↦ record { state = rw (run_all, e) refl; success = rw (run_all, e) refl }
    | inr (x, e) ↦ record { state = rw (run_all, e) refl; success = rw (run_all, e) refl }
  ]

  pub command-Follows :
      (w : W) (args : List Text) → Follows (command git_command root w args) w (args ∷ [])
  unfolding run_all command
  command-Follows w args = elim (Option-cases (call git_command root w args).1) [
    | inl e ↦ record { state = rw (run_all, e) refl; success = rw (run_all, e) refl }
    | inr (x, e) ↦ record { state = rw (run_all, e) refl; success = rw (run_all, e) refl }
  ]

  pub merge-Follows :
      (w : W) (src dst : Text) → Follows (merge git_command root w src dst) w (merge_script src dst)
  unfolding merge
  merge-Follows w src dst =
      and_then-Follows _ _ _ w ((bytes "checkout" ∷ dst ∷ []) ∷ [])
        ((bytes "merge" ∷ bytes "--no-ff" ∷ src ∷ []) ∷ []) (call-Follows w _)
        (λ w'.
          and_then-Follows _ _ _ w' ((bytes "merge" ∷ bytes "--no-ff" ∷ src ∷ []) ∷ []) []
            (call-Follows w' _) (λ w''. done-Follows w''))

  pub tag-Follows :
      (w : W) (name message : Text)
      → Follows (tag git_command root w name message) w (tag_args name message ∷ [])
  unfolding tag
  tag-Follows w name message = command-Follows w (tag_args name message)

  pub delete_branch-Follows :
      (w : W) (name : Text)
      → Follows (delete_branch git_command root w name false) w (delete_args name ∷ [])
  unfolding delete_branch
  delete_branch-Follows w name = command-Follows w (delete_args name)
