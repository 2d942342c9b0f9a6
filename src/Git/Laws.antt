-- ===== src/Git/Laws.antt =====
-- The repository that a remote of GitHub names, and how often git is run.
use mathlib.Core.List.{append-nil}
use desktopcolors.Common.{
  ℕ, zero, suc, [], ◌∷◌, ◌++◌, Option, none, some, Bool, true, false, not, ◌&&◌, ◌||◌, ◌≡◌, inl,
  inr, refl, ap, ◌∙◌, arith, Text, codes, text_eq, text_eq_iff, if◌then◌else◌, is_empty, ◌==◌, all,
  any, length, length-append, All, Bool-cases, run,
}
use desktopcolors.Git.Defs.{
  until_slash, is_end, is_dot, repo_name, owner_repo, separated, match_remote, github_url, git,
  github_repo_url, commit_url, read_info, GitCache, get_git_info, footers,
}

and_true : (a : Bool) {b : Bool} → (a && b) ≡ true → (a ≡ true) × (b ≡ true)
and_true true h = (refl, h)
and_true false h = cc h

-- where an address may end behind the name of a repository
pub data Ending : Type 0 where
  bare slash dot_git dot_git_slash : Ending

abbrev pub ending : Ending → Text
ending bare = []
ending slash = b'/' ∷ []
ending dot_git = codes ".git"
ending dot_git_slash = codes ".git/"

-- the name neither has a slash nor ends in `.git`
abbrev pub is_plain : Text → Bool
is_plain [] = true
is_plain (c ∷ s) = not (c == b'/') && (not (text_eq (c ∷ s) (codes ".git")) && is_plain s)

second : Text → ℕ
second (a ∷ b ∷ s) = b
second _ = 0

text_eq-append_slash : (s t : Text) → text_eq (s ++ b'/' ∷ []) (t ++ b'/' ∷ []) ≡ text_eq s t
unfolding text_eq
text_eq-append_slash [] [] = refl
text_eq-append_slash [] (b ∷ []) = ground arith
text_eq-append_slash [] (b ∷ c ∷ t) = ground arith
text_eq-append_slash (a ∷ []) [] = ground arith
text_eq-append_slash (a ∷ c ∷ s) [] = ground arith
text_eq-append_slash (a ∷ s) (b ∷ t) = ground (arith, text_eq-append_slash s t)

-- what has a slash is no text without one
text_eq-slash :
    (s t : Text) → all (λ c. not (c == b'/')) t ≡ true → text_eq (s ++ b'/' ∷ []) t ≡ false
unfolding text_eq
text_eq-slash [] [] h = refl
text_eq-slash [] (b ∷ t) h = ground arith
text_eq-slash (a ∷ s) [] h = refl
text_eq-slash (a ∷ s) (b ∷ t) h =
    let (plain, later) = and_true (not (b == b'/')) h in ground (arith, text_eq-slash s t later)

not_same : (s t : Text) → (s ≡ t → ⊥) → text_eq s t ≡ false
not_same s t h = elim (Bool-cases (text_eq s t)) [
  | inl e ↦ absurd (h ((text_eq_iff s t).0 e))
  | inr e ↦ e
]

abbrev any_slash : Text → Bool
any_slash = any (λ c. c == b'/')

not_slash : (s t : Text) → is_plain s ≡ true → any_slash t ≡ true → text_eq s t ≡ false
unfolding text_eq
not_slash [] (b ∷ t) h k = refl
not_slash [] [] h k = cc k
not_slash (a ∷ s) [] h k = refl
not_slash (a ∷ s) (b ∷ t) h k =
    let (no_slash, rest) = and_true (not (a == b'/')) h in
    let (_, later) = and_true (not (text_eq (a ∷ s) (codes ".git"))) rest in
    elim (Bool-cases (b == b'/')) [
      | inl e ↦ ground arith
      | inr e ↦ ground (arith, not_slash s t later)
    ]

-- the part of a name with what follows it is no ending, unless all of the name is read
is_end-ending :
    (form : Ending) (c : ℕ) (s : Text)
    → is_plain (c ∷ s) ≡ true
    → is_end (c ∷ (s ++ ending form)) ≡ false
unfolding is_end second
is_end-ending bare c s h =
    let (_, rest) = and_true (not (c == b'/')) h in
    let (no_git, _) = and_true (not (text_eq (c ∷ s) (codes ".git"))) rest in
    let e : text_eq (c ∷ s) (codes ".git") ≡ false = ground (arith, no_git) in
    rw
      (
        append-nil,
        not_slash (c ∷ s) (codes "/") h refl,
        e,
        not_slash (c ∷ s) (codes ".git/") h refl,
      )
      refl
is_end-ending slash c s h =
    let (no_slash, rest) = and_true (not (c == b'/')) h in
    let (no_git, _) = and_true (not (text_eq (c ∷ s) (codes ".git"))) rest in
    let e : text_eq (c ∷ s) (codes ".git") ≡ false = ground (arith, no_git) in
    let size = length-append s (codes "/") in
    rw
      (
        not_same (c ∷ (s ++ codes "/")) (codes "/") (λ k. omega (arith, ap length k, size)),
        text_eq-slash (c ∷ s) (codes ".git") refl,
        text_eq-append_slash (c ∷ s) (codes ".git"),
        e,
      )
      refl
is_end-ending dot_git c s h =
    let size = length-append s (codes ".git") in
    let t = c ∷ (s ++ codes ".git") in
    rw
      (
        not_same t (codes "/") (λ e. omega (arith, ap length e, size)),
        not_same t (codes ".git") (λ e. omega (arith, ap length e, size)),
        not_same t (codes ".git/") (short s),
      )
      refl
  where
    short : (s : Text) → c ∷ (s ++ codes ".git") ≡ codes ".git/" → ⊥
    short [] e = omega (arith, ap second e)
    short (d ∷ s) e = omega (arith, ap length e, length-append s (codes ".git"))
is_end-ending dot_git_slash c s h =
    let size = length-append s (codes ".git/") in
    let t = c ∷ (s ++ codes ".git/") in
    rw
      (
        not_same t (codes "/") (λ e. omega (arith, ap length e, size)),
        not_same t (codes ".git") (λ e. omega (arith, ap length e, size)),
        not_same t (codes ".git/") (λ e. omega (arith, ap length e, size)),
      )
      refl

is_end_all : (form : Ending) → is_end (ending form) ≡ true
unfolding is_end run
is_end_all bare = refl
is_end_all slash = refl
is_end_all dot_git = refl
is_end_all dot_git_slash = refl

-- a name is read without the ending
repo_name-ending :
    (form : Ending) (c : ℕ) (s : Text)
    → all is_dot (c ∷ s) ≡ true
    → is_plain (c ∷ s) ≡ true
    → repo_name (c ∷ (s ++ ending form)) ≡ some (c ∷ s)
unfolding repo_name
repo_name-ending form c [] h k =
    let (dot, _) = and_true (is_dot c) h in rw (dot, is_end_all form, repo_name) refl
repo_name-ending form c (d ∷ s) h k =
    let (dot, dots) = and_true (is_dot c) h in
    let (_, rest) = and_true (not (c == b'/')) k in
    let (_, plain) = and_true (not (text_eq (c ∷ d ∷ s) (codes ".git"))) rest in
    rw (dot, is_end-ending form d s plain, repo_name)
      (rw (repo_name-ending form d s dots plain, repo_name) refl)

until_slash-append :
    (owner rest : Text)
    → all (λ c. not (c == b'/')) owner ≡ true
    → until_slash (owner ++ b'/' ∷ rest) ≡ some (owner, rest)
unfolding until_slash
until_slash-append [] rest h = refl
until_slash-append (c ∷ owner) rest h =
    let (plain, later) = and_true (not (c == b'/')) h in
    let e : (c == b'/') ≡ false = ground (arith, plain) in
    rw e (rw (until_slash-append owner rest later, until_slash) refl)

-- an owner as the first part of an address: not empty, no slash, and no colon at its start
abbrev pub is_owner : Text → Bool
is_owner [] = false
is_owner (c ∷ s) = not (c == b':') && all (λ d. not (d == b'/')) (c ∷ s)

abbrev pub is_repo : Text → Bool
is_repo s = not (is_empty s) && (all is_dot s && is_plain s)

module _ (form : Ending) (owner repo : Text) (h : is_owner owner ≡ true)
    (k : is_repo repo ≡ true) where
  owner_repo-ending : owner_repo (owner ++ b'/' ∷ (repo ++ ending form)) ≡ some (owner, repo)
  unfolding owner_repo
  owner_repo-ending = by_names owner repo h k
    where
      by_names :
          (owner repo : Text)
          → is_owner owner ≡ true
          → is_repo repo ≡ true
          → owner_repo (owner ++ b'/' ∷ (repo ++ ending form)) ≡ some (owner, repo)
      by_names [] repo h k = cc h
      by_names (c ∷ owner) [] h k = cc k
      by_names (c ∷ owner) (d ∷ repo) h k =
          let (_, plain) = and_true (not (c == b':')) h in
          let (dots, no_end) = and_true (all is_dot (d ∷ repo)) k in
          rw (until_slash-append (c ∷ owner) (d ∷ (repo ++ ending form)) plain, owner_repo)
            (rw (repo_name-ending form d repo dots no_end, owner_repo) refl)

  separated-ending :
      (sep : ℕ)
      → (sep == b':' || sep == b'/') ≡ true
      → separated (sep ∷ (owner ++ b'/' ∷ (repo ++ ending form))) ≡ some (owner, repo)
  unfolding separated
  separated-ending sep s = by_owner owner h owner_repo-ending
    where
      by_owner :
          (o : Text)
          → is_owner o ≡ true
          → owner_repo (o ++ b'/' ∷ (repo ++ ending form)) ≡ some (owner, repo)
          → separated (sep ∷ (o ++ b'/' ∷ (repo ++ ending form))) ≡ some (owner, repo)
      by_owner [] h e = cc
      by_owner (c ∷ o) h e =
          let (no_colon, plain) = and_true (not (c == b':')) h in
          let (no_slash, _) = and_true (not (c == b'/')) plain in
          let no : (c == b':' || c == b'/') ≡ false = ground (arith, no_colon, no_slash) in
          rw (s, no, separated) (rw (e, separated) refl)

-- the two ways to write a remote of GitHub
pub data Remote : Type 0 where
  ssh https : Remote

abbrev pub spelled : Remote → Ending → Text → Text → Text
spelled ssh form owner repo =
    codes "git@github.com" ++ b':' ∷ (owner ++ b'/' ∷ (repo ++ ending form))
spelled https form owner repo =
    codes "https://github.com" ++ b'/' ∷ (owner ++ b'/' ∷ (repo ++ ending form))

match_remote-spelled :
    (remote : Remote) (form : Ending) (owner repo : Text)
    → is_owner owner ≡ true
    → is_repo repo ≡ true
    → match_remote (spelled remote form owner repo) ≡ some (owner, repo)
unfolding match_remote run
match_remote-spelled ssh form owner repo h k =
    rw (separated-ending form owner repo h k b':' refl, match_remote) refl
match_remote-spelled https form owner repo h k =
    rw (separated-ending form owner repo h k b'/' refl, match_remote) refl

-- the address of a repository, and that of one of its commits
abbrev pub repo_page : Text → Text → Text
repo_page owner repo = codes "https://github.com/" ++ (owner ++ b'/' ∷ repo)

abbrev pub commit_page : Text → Text → Option Text → Option Text
commit_page owner repo none = none
commit_page owner repo (some hash) = some (repo_page owner repo ++ (codes "/commit/" ++ hash))

commit_url_lem :
    (hash : Option Text) (owner repo : Text)
    → commit_url hash (some (github_url owner repo)) ≡ commit_page owner repo hash
commit_url_lem none owner repo = refl
commit_url_lem (some hash) owner repo = refl

-- Where the remote is a repository of GitHub, written for ssh or for https, with or without `.git` and a
-- slash at its end, the footer links to https://github.com/owner/repo, and to the commit under it exactly
-- where git gives a hash. The name of the repository has no slash and does not end in `.git` itself.
pub read_info-spelled :
    (exec : Text → Option Text) (remote : Remote) (form : Ending) (owner repo : Text)
    → is_owner owner ≡ true
    → is_repo repo ≡ true
    → git exec (codes "remote get-url origin") ≡ some (spelled remote form owner repo)
    → ((read_info exec).repo_url ≡ some (repo_page owner repo))
      × ((read_info exec).hash ≡ git exec (codes "rev-parse --short HEAD"))
      × ((read_info exec).url ≡ commit_page owner repo (git exec (codes "rev-parse --short HEAD")))
unfolding read_info
read_info-spelled exec remote form owner repo h k e =
    let found : github_repo_url exec ≡ some (github_url owner repo) =
      unfold github_repo_url in
      rw (e, github_repo_url)
        (rw (match_remote-spelled remote form owner repo h k, github_repo_url) refl) in
    let hash = git exec (codes "rev-parse --short HEAD") in
    (found, refl, ap (commit_url hash) found ∙ commit_url_lem hash owner repo)

footers_kept :
    (exec : Text → Option Text) (n : ℕ) (runs : ℕ)
    → let st : GitCache = record { cached = some (read_info exec); runs = runs } in
      All (λ info. info ≡ read_info exec) (footers exec n st).0
      × (length (footers exec n st).0 ≡ n)
      × ((footers exec n st).1.runs ≡ runs)
unfolding footers get_git_info
footers_kept exec zero runs = (tt, refl, refl)
footers_kept exec (suc n) runs =
    let (same, many, kept) = footers_kept exec n runs in ((refl, same), ap suc many, kept)

-- However many pages a build has, each footer says the same, and git is run four times.
pub footers_lem :
    (exec : Text → Option Text) (n : ℕ)
    → let st : GitCache = record { cached = none; runs = 0 } in
      All (λ info. info ≡ read_info exec) (footers exec n st).0
      × (length (footers exec n st).0 ≡ n)
      × ((footers exec n st).1.runs ≡ (if n == 0 then 0 else 4))
unfolding footers get_git_info
footers_lem exec zero = (tt, refl, refl)
footers_lem exec (suc n) =
    let (same, many, kept) = footers_kept exec n 4 in
    ((refl, same), ap suc many, kept ∙ ground arith)
