-- ===== src/Git/Defs.antt =====
-- lib/gitInfo.ts. `git` is a parameter: what `execSync` gives for the arguments, and `none` where it throws.
use desktopcolors.Common.{
  ℕ, suc, ◌+◌, List, [], ◌∷◌, ◌++◌, Option, none, some, Bool, not, ◌||◌, Text, codes, text_eq,
  starts_with, trim, if◌then◌else◌, is_empty, ◌==◌,
}

pub record GitInfo : Type 0 where
  pub hash : Option Text
  pub date : Option Text
  pub branch : Option Text
  pub url : Option Text
  pub repo_url : Option Text

-- `[^/]+` from the start of a text, up to the first slash: the name, and what follows the slash
unfoldable pub until_slash : Text → Option (Text × Text)
until_slash [] = none
until_slash (c ∷ s) =
    let later : Option (Text × Text) = elim (until_slash s) [
      | none ↦ none
      | some (name, rest) ↦ some (c ∷ name, rest)
    ] in
    if c == b'/' then some ([], s) else later

-- `([^/]+)\/`
abbrev pub nonempty_name : Option (Text × Text) → Option (Text × Text)
nonempty_name none = none
nonempty_name (some ([], rest)) = none
nonempty_name (some (c ∷ name, rest)) = some (c ∷ name, rest)

-- the ends that `(?:\.git)?\/?$` takes
unfoldable pub is_end : Text → Bool
is_end s =
    is_empty s || text_eq s (codes "/") || text_eq s (codes ".git") || text_eq s (codes ".git/")

-- `.` takes no line end
abbrev pub is_dot : ℕ → Bool
is_dot c = not (c == 10 || c == 13 || c == 0x2028 || c == 0x2029)

-- `(.+?)(?:\.git)?\/?$`: the shortest name before such an end
unfoldable pub repo_name : Text → Option Text
unfolding is_end
repo_name [] = none
repo_name (c ∷ s) =
    let longer : Option Text = elim (repo_name s) [ none ↦ none | some name ↦ some (c ∷ name) ] in
    if is_dot c then (if is_end s then some (c ∷ []) else longer) else none

-- the owner and the repository behind `github.com` and its separators
unfoldable pub owner_repo : Text → Option (Text × Text)
unfolding until_slash repo_name
owner_repo s = elim (nonempty_name (until_slash s)) [
  | none ↦ none
  | some (owner, rest) ↦ elim (repo_name rest) [ none ↦ none | some repo ↦ some (owner, repo) ]
]

-- `[:/]+` takes as many separators as it can, and gives one back where what follows does not fit
unfoldable pub separated : Text → Option (Text × Text)
unfolding owner_repo
separated [] = none
separated (c ∷ s) =
    let here : Option (Text × Text) = elim (separated s) [
      | none ↦ owner_repo s
      | some found ↦ some found
    ] in
    if c == b':' || c == b'/' then here else none

abbrev pub drop_units : ℕ → Text → Text
drop_units ℕ.zero s = s
drop_units (suc n) [] = []
drop_units (suc n) (c ∷ s) = drop_units n s

-- `remote.match(...)`: the first place where the pattern fits
unfoldable pub match_remote : Text → Option (Text × Text)
unfolding separated
match_remote [] = none
match_remote (c ∷ s) =
    let later = match_remote s in
    if starts_with (c ∷ s) (codes "github.com")
    then elim (separated (drop_units 10 (c ∷ s))) [ none ↦ later | some found ↦ some found ]
    else later

abbrev pub github_url : Text → Text → Text
github_url owner repo = codes "https://github.com/" ++ (owner ++ (codes "/" ++ repo))

abbrev nonempty : Text → Option Text
nonempty [] = none
nonempty (c ∷ s) = some (c ∷ s)

abbrev pub commit_url : Option Text → Option Text → Option Text
commit_url (some hash) (some repo_url) = some (repo_url ++ (codes "/commit/" ++ hash))
commit_url (some hash) none = none
commit_url none repo_url = none

-- the variable `cached`, and how often git was run
pub record GitCache : Type 0 where
  pub cached : Option GitInfo
  pub runs : ℕ

module _ (exec : Text → Option Text) where
  -- the trimmed output, and null where it is empty or git fails
  unfoldable pub git : Text → Option Text
  git args = elim (exec args) [ none ↦ none | some output ↦ nonempty (trim output) ]

  unfoldable pub github_repo_url : Option Text
  unfolding git match_remote
  github_repo_url = elim (git (codes "remote get-url origin")) [
    | none ↦ none
    | some remote ↦ elim (match_remote remote) [
      | none ↦ none
      | some (owner, repo) ↦ some (github_url owner repo)
    ]
  ]

  unfoldable pub read_info : GitInfo
  unfolding github_repo_url
  read_info =
      let hash = git (codes "rev-parse --short HEAD") in
      record {
        hash = hash;
        date = git (codes "log -1 --format=%cs");
        branch = git (codes "rev-parse --abbrev-ref HEAD");
        url = commit_url hash github_repo_url;
        repo_url = github_repo_url;
      }

  -- four commands are run for an info
  unfoldable pub get_git_info : GitCache → GitInfo × GitCache
  unfolding read_info
  get_git_info st = elim st.cached [
    | some info ↦ (info, st)
    | none ↦ (read_info, record { cached = some read_info; runs = st.runs + 4 })
  ]

  -- the footers of so many pages
  unfoldable pub footers : ℕ → GitCache → List GitInfo × GitCache
  unfolding get_git_info
  footers ℕ.zero st = ([], st)
  footers (suc n) st =
      let first = get_git_info st in let later = footers n first.1 in (first.0 ∷ later.0, later.1)
