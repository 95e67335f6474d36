-- ===== src/GitFlow/Repo/Listing.antt =====
-- The lines that git writes for `Branches` and `Log` are read back.
use golang_journey.Prelude.{
  ℕ, suc, ◌≡◌, ◌≢◌, false, refl, ap, ◌∙◌, Bool-cases, map, List, [], ◌∷◌, ◌++◌, none, some, arith,
  All, ◌⊎◌, inl, inr, if◌then◌else◌,
}
use golang_journey.Prelude.Text.{Text, Text-discrete, bytes, same_text}
use golang_journey.Cron.Syntax.{split, cut, trim_space}
use golang_journey.GitFlow.Repo.{
  Branch, at_branches, GitError, Git, newline, branch_format, split_n, read_branch, read_branches,
  git, query, branches,
}

abbrev pub Lacks : ℕ → Text → Type 0
Lacks sep s = All (λ c. c ≢ sep) s

cut-append : (sep : ℕ) (a rest : Text) → Lacks sep a → cut sep (a ++ sep ∷ rest) ≡ some (a, rest)
unfolding cut
cut-append sep [] rest h = ground arith
cut-append sep (c ∷ a) rest (ne, h) = ground (arith, ne, cut-append sep a rest h)

split-append :
    (sep : ℕ) (a rest : Text) → Lacks sep a → split sep (a ++ sep ∷ rest) ≡ a ∷ split sep rest
unfolding split
split-append sep [] rest h = ground arith
split-append sep (c ∷ a) rest (ne, h) = ground (arith, ne, split-append sep a rest h)

split-Lacks : (sep : ℕ) (a : Text) → Lacks sep a → split sep a ≡ a ∷ []
unfolding split
split-Lacks sep [] h = refl
split-Lacks sep (c ∷ a) (ne, h) = ground (arith, ne, split-Lacks sep a h)

-- The field `%(HEAD)`.
abbrev pub mark : Branch → Text
mark b = if b.current then bytes "*" else bytes " "

mark-Lacks : (b : Branch) → Lacks b'|' (mark b)
mark-Lacks b = elim (Bool-cases b.current) [
  | inl e ↦ rw e (omega arith, tt)
  | inr e ↦ rw e (omega arith, tt)
]

-- A line of the format of `Branches`.
abbrev pub branch_line : Branch → Text
branch_line b = b.name ++ b'|' ∷ (mark b ++ b'|' ∷ (b.last_commit ++ b'|' ∷ b.remote))

abbrev pub join_lines : List Text → Text
join_lines [] = []
join_lines (s ∷ []) = s
join_lines (s ∷ t ∷ lines) = s ++ newline ∷ join_lines (t ∷ lines)

-- No line break in a line; the fields before the last have no bar.
abbrev pub IsListed : Branch → Type 0
IsListed b = Lacks newline (branch_line b) × Lacks b'|' b.name × Lacks b'|' b.last_commit

split_n-append :
    (n : ℕ) (a rest : Text)
    → Lacks b'|' a
    → split_n b'|' (suc (suc n)) (a ++ b'|' ∷ rest) ≡ a ∷ split_n b'|' (suc n) rest
unfolding split_n
split_n-append n a rest h = ground (arith, cut-append b'|' a rest h)

split_branch_line :
    (b : Branch)
    → IsListed b
    → split_n b'|' 4 (branch_line b) ≡ b.name ∷ mark b ∷ b.last_commit ∷ b.remote ∷ []
unfolding split_n
split_branch_line b (l, n, c) =
    split_n-append 2 b.name _ n
    ∙ ap (◌∷◌ b.name) (
        split_n-append 1 (mark b) _ (mark-Lacks b)
        ∙ ap (◌∷◌ (mark b)) (split_n-append 0 b.last_commit b.remote c))

filled_line : (s : Text) (c : ℕ) (t : Text) → same_text (s ++ c ∷ t) [] ≡ false
unfolding Text-discrete
filled_line [] c t = refl
filled_line (x ∷ s) c t = refl

mark_read : (b : Branch) → same_text (mark b) (bytes "*") ≡ b.current
unfolding Text-discrete
mark_read b = elim (Bool-cases b.current) [ inl e ↦ rw e refl | inr e ↦ rw e refl ]

read_parts :
    (line : Text) (lines parts : List Text)
    → same_text line [] ≡ false
    → split_n b'|' 4 line ≡ parts
    → read_branches (line ∷ lines) ≡ read_branch parts (read_branches lines)
unfolding read_branches
read_parts line lines parts filled e = rw (read_branches, filled, e) refl

read_line :
    (b : Branch) (lines : List Text)
    → IsListed b
    → read_branches (branch_line b ∷ lines) ≡ b ∷ read_branches lines
unfolding read_branch
read_line b lines h =
    read_parts (branch_line b) lines _ (filled_line b.name b'|' _) (split_branch_line b h)
    ∙ rw (mark_read b) refl

abbrev pub written : List Branch → Text
written bs = join_lines (map branch_line bs)

read_written :
    (bs : List Branch) → All IsListed bs → read_branches (split newline (written bs)) ≡ bs
read_written [] h = unfold split read_branches Text-discrete in refl
read_written (b ∷ []) (l, h) =
    rw (split-Lacks newline (branch_line b) l.0, read_line b [] l) (unfold read_branches in refl)
read_written (b ∷ b' ∷ bs) (l, h) =
    rw
      (
        split-append newline (branch_line b) (written (b' ∷ bs)) l.0,
        read_line b _ l,
        read_written (b' ∷ bs) h,
      )
      refl

git_lem :
    {W E : Type 0} (git_command : Git W E) (root : Text) (w w' : W) (out : Text) (args : List Text)
    → git_command w (bytes "-C" ∷ root ∷ args) ≡ (w', (out, none))
    → git git_command root w args ≡ (w', (trim_space out, none))
unfolding git
git_lem git_command root w w' out args ran = rw (ran, git) refl

-- When git succeeds and its output is, but for blanks around it, the lines of some branches in
-- the format asked for, none with a line break and none with a bar in its name or its commit,
-- Branches returns these branches in their order.
pub branches-written :
    {W E : Type 0} (git_command : Git W E) (root : Text) (w w' : W) (out : Text) (bs : List Branch)
    → All IsListed bs
    → git_command w (bytes "-C" ∷ root ∷ bytes "branch" ∷ branch_format ∷ []) ≡ (w', (out, none))
    → trim_space out ≡ written bs
    → branches git_command root w ≡ (w', inr bs)
unfolding branches query
branches-written {E = E} git_command root w w' out bs h ran trimmed =
    let same = git_lem git_command root w w' out _ ran in
    ap
      (λ r. (
        r.0,
        elim r.1.1 as (λ x. GitError E ⊎ List Branch) [
          | none ↦ inr (read_branches (split newline r.1.0))
          | some e ↦ inl (at_branches e)
        ],
      ))
      same
    ∙ rw (trimmed, read_written bs h) refl
