-- ===== src/GitFlow/Repo.antt =====
-- projects/07-tui-gitflow-manager/git/repo.go. The git executable is a parameter: it takes the state
-- of the repository and the arguments to another state, the output and an error. A string is the list
-- of its code points.
pub mod Scripts
pub mod Listing
mod Tests
use mathlib.Core.Option
use golang_journey.Prelude.{
  ℕ, zero, suc, Bool, List, [], ◌∷◌, ◌++◌, Option, none, some, ite, ltb, leb, ◌==◌, ◌+◌, ◌-◌,
  replicate, if◌then◌else◌, ◌⊎◌, inl, inr,
}
use golang_journey.Prelude.Text.{same_text, Text, Text-discrete, bytes}
use golang_journey.Cron.Syntax.{split, cut, trim_space}

pub record Branch : Type 0 where
  pub name : Text
  pub current : Bool
  pub remote : Text
  pub last_commit : Text

pub record LogEntry : Type 0 where
  pub hash : Text
  pub subject : Text
  pub author : Text
  pub date : Text

pub record StatusFile : Type 0 where
  pub path : Text
  pub status : Text

-- An error of git, alone or with what a method puts before it.
pub data GitError (E : Type 0) : Type 0 where
  command_failed : E → GitError E
  at_current_branch at_branches at_log : E → GitError E
  at_checkout : Text → E → GitError E
  at_merge : Text → Text → E → GitError E
  base_not_found : Text → GitError E
  at_base : Text → GitError E → GitError E
  at_main at_tag at_develop : GitError E → GitError E

-- `strings.SplitN(s, sep, n)`, for n from 1 on.
pub split_n : ℕ → ℕ → Text → List Text
split_n sep zero s = []
split_n sep (suc zero) s = s ∷ []
split_n sep (suc (suc n)) s = elim (cut sep s) [
  | none ↦ s ∷ []
  | some (a, rest) ↦ a ∷ split_n sep (suc n) rest
]

-- The loop of `Branches`; a line with fewer than four fields is passed over.
pub read_branch : List Text → List Branch → List Branch
read_branch (a ∷ b ∷ c ∷ d ∷ more) rest =
    record { name = a; current = same_text b (bytes "*"); last_commit = c; remote = d } ∷ rest
read_branch parts rest = rest

pub read_branches : List Text → List Branch
read_branches [] = []
read_branches (line ∷ lines) =
    let rest = read_branches lines in
    if same_text line [] then rest else read_branch (split_n b'|' 4 line) rest

-- The loop of `Log`.
pub read_entry : List Text → List LogEntry → List LogEntry
read_entry (a ∷ b ∷ c ∷ d ∷ more) rest =
    record { hash = a; subject = b; author = c; date = d } ∷ rest
read_entry parts rest = rest

pub read_entries : List Text → List LogEntry
read_entries [] = []
read_entries (line ∷ lines) =
    let rest = read_entries lines in
    if same_text line [] then rest else read_entry (split_n b'|' 4 line) rest

-- The bytes of a code point in UTF-8, and of a string.
pub width : ℕ → ℕ
width c = if ltb c 128 then 1 else (if ltb c 2048 then 2 else (if ltb c 65536 then 3 else 4))

pub byte_length : Text → ℕ
byte_length [] = 0
byte_length (c ∷ s) = width c + byte_length s

-- The bytes of a character that is cut read as replacement characters.
abbrev pub replacement : ℕ
replacement = 65533

-- `s[:n]` and `s[n:]`, where `n` counts bytes.
pub take_bytes : Text → ℕ → Text
take_bytes [] n = []
take_bytes (c ∷ s) n =
    let rest = take_bytes s (n - width c) in
    if leb (width c) n then c ∷ rest else replicate n replacement

pub drop_bytes : Text → ℕ → Text
drop_bytes [] n = []
drop_bytes (c ∷ s) n =
    let rest = drop_bytes s (n - width c) in
    if leb (width c) n
    then rest
    else (if n == 0 then c ∷ s else replicate (width c - n) replacement ++ s)

-- The loop of `Status`.
pub read_files : List Text → List StatusFile
read_files [] = []
read_files (line ∷ lines) =
    let rest = read_files lines in
    if ltb (byte_length line) 4
    then rest
    else record { status = trim_space (take_bytes line 2); path = drop_bytes line 3 } ∷ rest

abbrev pub newline : ℕ
newline = 10

abbrev pub branch_format : Text
branch_format = bytes "--format=%(refname:short)|%(HEAD)|%(objectname:short)|%(upstream:short)"

-- The git executable, with the states `W` of the repository and its errors `E`.
abbrev pub Git : Type 0 → Type 0 → Type 0
Git W E = W → List Text → W × (Text × Option E)

-- `if err := a; err != nil { return wrap(err) }`, and then the rest.
pub and_then : {W X Y : Type 0} → W × Option X → (X → Y) → (W → W × Option Y) → W × Option Y
and_then (w, none) wrap rest = rest w
and_then (w, some e) wrap rest = (w, some (wrap e))

module _ {W E : Type 0} (git_command : Git W E) (root : Text) where
  pub git : W → List Text → W × (Text × Option E)
  git w args =
      let (w', result) = git_command w (bytes "-C" ∷ root ∷ args) in
      (w', (trim_space result.0, result.1))

  -- A call of `git` whose output is not read.
  pub call : W → List Text → W × Option E
  call w args = let (w', result) = git w args in (w', result.1)

  -- A call whose error is returned as it is.
  pub command : W → List Text → W × Option (GitError E)
  command w args = let (w', e) = call w args in (w', Option.map command_failed e)

  -- A call whose output is read.
  pub query : {A : Type 0} → W → List Text → (E → GitError E) → (Text → A) → W × (GitError E ⊎ A)
  query w args wrap read =
      let (w', result) = git w args in
      (w', elim result.1 [ none ↦ inr (read result.0) | some e ↦ inl (wrap e) ])

  pub current_branch : W → W × (GitError E ⊎ Text)
  current_branch w =
      query w (bytes "symbolic-ref" ∷ bytes "--short" ∷ bytes "HEAD" ∷ []) at_current_branch
        (λ out. out)

  pub branches : W → W × (GitError E ⊎ List Branch)
  branches w =
      query w (bytes "branch" ∷ branch_format ∷ []) at_branches
        (λ out. read_branches (split newline out))

  -- `limit` is the text of `-n` with the number of entries.
  pub log : W → Text → Text → W × (GitError E ⊎ List LogEntry)
  log w branch limit =
      query w (bytes "log" ∷ limit ∷ bytes "--format=%H|%s|%an|%ar" ∷ branch ∷ []) at_log
        (λ out. read_entries (split newline out))

  pub create_branch : W → Text → W × Option (GitError E)
  create_branch w name = command w (bytes "checkout" ∷ bytes "-b" ∷ name ∷ [])

  pub checkout : W → Text → W × Option (GitError E)
  checkout w branch = command w (bytes "checkout" ∷ branch ∷ [])

  pub merge : W → Text → Text → W × Option (GitError E)
  merge w src dst = and_then (call w (bytes "checkout" ∷ dst ∷ [])) (at_checkout dst) (λ w'.
      and_then (call w' (bytes "merge" ∷ bytes "--no-ff" ∷ src ∷ [])) (at_merge src dst)
        (λ w''. (w'', none)))

  pub delete_branch : W → Text → Bool → W × Option (GitError E)
  delete_branch w name force =
      command w (bytes "branch" ∷ (if force then bytes "-D" else bytes "-d") ∷ name ∷ [])

  pub tag : W → Text → Text → W × Option (GitError E)
  tag w name message = command w (bytes "tag" ∷ bytes "-a" ∷ name ∷ bytes "-m" ∷ message ∷ [])

  pub status : W → W × (GitError E ⊎ List StatusFile)
  status w =
      query w (bytes "status" ∷ bytes "--porcelain" ∷ []) command_failed
        (λ out. read_files (split newline out))
