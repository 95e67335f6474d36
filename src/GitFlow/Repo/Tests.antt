-- ===== src/GitFlow/Repo/Tests.antt =====
-- Listings of a repository, and the theorem at one.
use golang_journey.Prelude.{
  ℕ, ◌++◌, ◌==◌, ◌&&◌, not, All, ◌≡◌, refl, Bool, true, false, List, [], ◌∷◌, none, inr, arith,
}
use golang_journey.Prelude.Text.{Text, bytes}
use golang_journey.Cron.Syntax.{split, trim_space}
use golang_journey.GitFlow.Repo.{
  replacement, Branch, Git, newline, read_files, byte_length, take_bytes, drop_bytes, width, git,
  query, branches, status,
}
use golang_journey.GitFlow.Repo.Listing
use golang_journey.GitFlow.Repo.Listing.{written, branch_line, IsListed, Lacks}

abbrev develop : Branch
develop = record {
  name = bytes "develop";
  current = true;
  remote = bytes "origin/develop";
  last_commit = bytes "a1";
}

abbrev main : Branch
main = record { name = bytes "main"; current = false; remote = []; last_commit = bytes "b2" }

abbrev two : List Branch
two = develop ∷ main ∷ []

-- Any command writes the listing with a line break behind it.
abbrev lister : Git ℕ Text
lister w args = (w, (bytes "develop|*|a1|origin/develop\nmain| |b2|\n", none))

lacks : ℕ → Text → Bool
lacks sep [] = true
lacks sep (c ∷ s) = not (c == sep) && lacks sep s

lacks-Lacks : (sep : ℕ) (s : Text) → lacks sep s ≡ true → Lacks sep s
unfolding lacks
lacks-Lacks sep [] h = tt
lacks-Lacks sep (c ∷ s) h = (ground (arith, h), lacks-Lacks sep s (ground (arith, h)))

branch-IsListed :
    (b : Branch)
    → lacks newline (branch_line b) ≡ true
    → lacks b'|' b.name ≡ true
    → lacks b'|' b.last_commit ≡ true
    → IsListed b
branch-IsListed b l n c = (
  lacks-Lacks newline (branch_line b) l,
  lacks-Lacks b'|' b.name n,
  lacks-Lacks b'|' b.last_commit c,
)

two-IsListed : All IsListed two
unfolding lacks
two-IsListed = (branch-IsListed develop refl refl refl, (branch-IsListed main refl refl refl, tt))

two_branches_text : trim_space (bytes "develop|*|a1|origin/develop\nmain| |b2|\n") ≡ written two
unfolding trim_space
two_branches_text = refl

branches-written_example : branches lister (bytes "/r") 0 ≡ (0, inr two)
branches-written_example =
    Listing.branches-written lister (bytes "/r") 0 0
      (bytes "develop|*|a1|origin/develop\nmain| |b2|\n") two two-IsListed refl two_branches_text

-- The blank that git writes before an unstaged change goes with the blanks around the output, and
-- the first letter of the path with it.
abbrev changed : Git ℕ Text
changed w args = (w, (bytes " M file.go\n M other.go\n", none))

status_first : status changed (bytes "/r") 0 ≡ (
  0,
  inr (
      record { path = bytes "ile.go"; status = bytes "M" }
      ∷ record { path = bytes "other.go"; status = bytes "M" }
      ∷ []),
)
unfolding status query git read_files byte_length take_bytes drop_bytes width split trim_space
status_first = refl

-- A name cut inside a letter of two bytes.
cut_letter : drop_bytes (bytes "M" ++ 233 ∷ bytes "x") 2 ≡ replacement ∷ bytes "x"
unfolding drop_bytes width
cut_letter = refl
