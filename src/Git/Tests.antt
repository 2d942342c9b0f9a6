-- ===== src/Git/Tests.antt =====
-- Runs of lib/gitInfo.ts, and its theorem at one remote.
use desktopcolors.Common.{
  ◌++◌, ◌∷◌, [], Option, none, some, ◌≡◌, refl, Text, codes, text_eq, if◌then◌else◌, run,
}
use desktopcolors.Git.Defs.{git, match_remote, read_info}
use desktopcolors.Git.Laws.{https, bare, repo_page, commit_page, read_info-spelled}

-- a slash may end the address, and another host is no match
remotes :
    (match_remote (codes "https://github.com/vlow/desktopcolors/")
      ≡ some (codes "vlow", codes "desktopcolors"))
    × (match_remote (codes "ssh://git@github.com:/vlow/a.git/") ≡ some (codes "vlow", codes "a"))
    × (match_remote (codes "https://gitlab.com/vlow/a") ≡ none)
unfolding match_remote run
remotes = (refl, refl, refl)

-- a repository without a commit
abbrev exec : Text → Option Text
exec args =
    if text_eq args (codes "remote get-url origin")
    then some (codes "https://github.com/vlow/desktopcolors" ++ 10 ∷ [])
    else none

read_info-spelled_example :
    ((read_info exec).repo_url ≡ some (repo_page (codes "vlow") (codes "desktopcolors")))
    × ((read_info exec).hash ≡ git exec (codes "rev-parse --short HEAD"))
    × ((read_info exec).url
        ≡ commit_page
            (codes "vlow")
            (codes "desktopcolors")
            (git exec (codes "rev-parse --short HEAD")))
read_info-spelled_example =
    read_info-spelled exec https bare (codes "vlow") (codes "desktopcolors") (unfold run in refl)
      (unfold run in refl) (unfold git run in refl)
