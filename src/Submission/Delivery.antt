-- ===== src/Submission/Delivery.antt =====
-- scripts/check_submission.py: the checks of the delivery workflow and of the main branch.
use civic_pulse_24i3089_24i.Prelude.{
  ℕ, suc, Bool, not, ◌&&◌, ◌||◌, List, [], ◌∷◌, ◌++◌, ◌==◌, leb, length, if◌then◌else◌,
}
use civic_pulse_24i3089_24i.Text.{Str, codes, split_on, ◌===◌, strip, starts_with, contains, split}
use civic_pulse_24i3089_24i.Text.Number.{show}
use civic_pulse_24i3089_24i.Pattern.Scan.{search, found, re_split}
use civic_pulse_24i3089_24i.Submission.{
  Entry, Repo, text, listing, pass, warn, record_, git_error, run_git, read, among, is_empty,
  splitlines, offending, first_line, block_name, conclude,
}
use civic_pulse_24i3089_24i.Submission.Expressions.{kubectl_deploy, job_start}
use civic_pulse_24i3089_24i.Submission.Compose.{gather}

abbrev pub cd_file : Str
cd_file = codes ".github/workflows/cd.yml"

unfoldable pub deploys_latest : Str → Bool
unfolding search kubectl_deploy contains
deploys_latest line = found kubectl_deploy line && contains (codes ":latest") line

-- `":latest" in line.split("#", 1)[0]`
unfoldable pub codes_latest : Str → Bool
unfolding split_on contains
codes_latest line = contains (codes ":latest") (first_line (split_on 35 [] line))

-- the body of the loop over the overlays
unfoldable pub latest_lines : Repo → Str → List Str
unfolding codes_latest offending splitlines read
latest_lines repo path = offending codes_latest path 1 (splitlines (read repo path))

unfoldable pub check_no_latest_deploy : Repo → List Entry → List Entry
unfolding deploys_latest latest_lines offending splitlines read conclude
check_no_latest_deploy repo =
    let offenders =
      offending deploys_latest (codes "cd.yml") 1 (splitlines (read repo cd_file))
      ++ gather (latest_lines repo) (repo.rglob (codes "k8s/overlays") (codes "*.yaml")) in
    conclude (codes "no-latest-deploy") offenders
      (listing (codes ":latest referenced in a deploy path: ") offenders)
      (codes "no :latest reference in any deploy path")

abbrev pub gated_jobs : List Str
gated_jobs = codes "build-push" ∷ codes "deploy-k8s" ∷ codes "deploy" ∷ codes "publish" ∷ []

unfoldable pub ungated : List Str → List Str
unfolding block_name contains ◌===◌
ungated [] = []
ungated (block ∷ blocks) =
    let job_name = block_name block in
    let rest = ungated blocks in
    if among job_name gated_jobs && not (contains (codes "needs:") block)
    then job_name ∷ rest
    else rest

unfoldable pub check_needs_gating : Repo → List Entry → List Entry
unfolding ungated re_split job_start read conclude
check_needs_gating repo =
    let problems = ungated (re_split (job_start repo.is_word) (read repo cd_file)) in
    conclude (codes "needs-gating") problems (listing (codes "jobs missing needs: ") problems)
      (codes "publishing/deploying jobs in cd.yml are needs:-gated")

-- `lines[:-1]`
abbrev pub but_last {ℓ} : {A : Type ℓ} → List A → List A
but_last [] = []
but_last (x ∷ []) = []
but_last (x ∷ y ∷ ys) = x ∷ but_last (y ∷ ys)

-- `line.split()[1:]`
abbrev pub parents_of : List Str → List Str
parents_of [] = []
parents_of (commit ∷ parents) = parents

unfoldable pub single_parents : List Str → ℕ
unfolding split
single_parents [] = 0
single_parents (line ∷ lines) =
    let rest = single_parents lines in
    if leb (length (parents_of (split line))) 1 then suc rest else rest

unfoldable pub check_direct_pushes_to_main : Repo → List Entry → List Entry
unfolding run_git starts_with strip splitlines single_parents show record_
check_direct_pushes_to_main repo results =
    let check = codes "direct-pushes-to-main" in
    let out = run_git repo (codes "log" ∷ codes "main" ∷ codes "--pretty=format:%H %P" ∷ []) in
    let non_merge_non_root = single_parents (but_last (splitlines (strip out))) in
    if starts_with git_error out || is_empty (strip out)
    then record_ warn check (text (codes "no local `main` branch to inspect yet")) results
    else if non_merge_non_root == 0
    then record_ pass check (text (codes "every non-root commit on main is a merge commit")) results
    else record_ warn check
        (text (
          show non_merge_non_root
          ++ (codes " non-root commit(s) on main have a single parent "
              ++ codes "(could be a direct push, or a squash-merge PR - verify on GitHub)")))
        results
