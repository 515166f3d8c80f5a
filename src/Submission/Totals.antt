-- ===== src/Submission/Totals.antt =====
-- scripts/check_submission.py: what `main` says of the results of all checks.
use mathlib.Core.List.{map-append}
use civic_pulse_24i3089_24i.Prelude.{
  ℕ, suc, ◌≤◌, if◌then◌else◌, ◌+◌, ◌≡◌, ◌↔◌, refl, sym, ap, ◌∙◌, Bool, true, false, List, [], ◌∷◌,
  ◌++◌, map, length, arith, append_assoc, length-map, append-nil,
}
use civic_pulse_24i3089_24i.Text.{Str, codes}
use civic_pulse_24i3089_24i.Submission.{Level, Entry, Repo, pass, warn, fail}
use civic_pulse_24i3089_24i.Submission.Report.{
  Check, checks, run_checks, tally, is_fail, is_warn, summarise, main,
}
use civic_pulse_24i3089_24i.Submission.Once.{
  Adds, secrets_add, placeholders_add, images_add, localhost_add, segmentation_add, ports_add,
  types_add, statefulset_add, latest_add, gating_add, pushes_add, readme_add, required_add,
  evidence_add, usage_add,
}

-- The checks in the order in which they run.
abbrev pub check_names : List Str
check_names =
    codes "secrets-in-history"
    ∷ codes "k8s-secret-placeholders"
    ∷ codes "unpinned-images"
    ∷ codes "localhost-service-to-service"
    ∷ codes "network-segmentation"
    ∷ codes "compose-prod-hygiene"
    ∷ codes "k8s-service-types"
    ∷ codes "postgres-statefulset"
    ∷ codes "no-latest-deploy"
    ∷ codes "needs-gating"
    ∷ codes "direct-pushes-to-main"
    ∷ codes "readme-quickstart"
    ∷ codes "required-files"
    ∷ codes "evidence-dir"
    ∷ codes "ai-usage-filled"
    ∷ []

abbrev names_of : List Entry → List Str
names_of results = map (λ e. e.check) results

-- Each check of a list adds an entry of the name that stands at its place.
pub data EachAdds (repo : Repo) : List Str → List Check → Type 0 where
  done : EachAdds repo [] []
  next :
      {name : Str} {names : List Str} {check : Check} {cs : List Check}
      → ((results : List Entry) → Adds name results (check repo results) (check repo []))
      → EachAdds repo names cs
      → EachAdds repo (name ∷ names) (check ∷ cs)

run_checks-names :
    {repo : Repo} {names : List Str} {cs : List Check}
    → EachAdds repo names cs
    → (results : List Entry) → names_of (run_checks cs repo results) ≡ names_of results ++ names
unfolding run_checks
run_checks-names done results = sym (append-nil _)
run_checks-names (next {name} {names} h hs) results =
    run_checks-names hs _
    ∙ ap (λ l. l ++ names) (ap (λ l. names_of l) ((h results).added) ∙ map-append _ results _)
    ∙ append_assoc (names_of results) (name ∷ []) names

ruleset each_check = (
  secrets_add, placeholders_add, images_add, localhost_add, segmentation_add, ports_add, types_add,
  statefulset_add, latest_add, gating_add, pushes_add, readme_add, required_add, evidence_add,
  usage_add, done, next,
)

pub checks-EachAdds : (repo : Repo) → EachAdds repo check_names checks
unfolding checks
checks-EachAdds repo = search each_check depth 40

abbrev is_at : Level → Level → Bool
is_at pass pass = true
is_at warn warn = true
is_at fail fail = true
is_at _ _ = false

-- How many results have a level.
unfoldable pub count_of : Level → List Entry → ℕ
count_of level [] = 0
count_of level (e ∷ es) =
    let rest = count_of level es in if is_at level e.level then suc rest else rest

tally_warn : (es : List Entry) → tally is_warn es ≡ count_of warn es
unfolding tally count_of
tally_warn [] = refl
tally_warn (e ∷ es) = ground (arith, tally_warn es)

tally_fail : (es : List Entry) → tally is_fail es ≡ count_of fail es
unfolding tally count_of
tally_fail [] = refl
tally_fail (e ∷ es) = ground (arith, tally_fail es)

count_sum : (es : List Entry) → count_of pass es + count_of warn es + count_of fail es ≡ length es
unfolding count_of
count_sum [] = refl
count_sum (e ∷ es) = ground (arith, count_sum es)

-- Whatever the repository holds, `main` ends with fifteen results, one per check, in the order of
-- the list; each of the three numbers that it prints, of passes, warnings and failures, is how many
-- results have that level, and they add up to fifteen; and the exit code is 0 where no result is a
-- failure, and 1 otherwise.
pub main-Totals :
    (repo : Repo)
    → (map (λ e. e.check) ((main repo).results) ≡ check_names)
      × ((main repo).n_pass ≡ count_of pass ((main repo).results))
      × ((main repo).n_warn ≡ count_of warn ((main repo).results))
      × ((main repo).n_fail ≡ count_of fail ((main repo).results))
      × ((main repo).n_pass + (main repo).n_warn + (main repo).n_fail ≡ length check_names)
      × (((main repo).exit_code ≡ 0) ↔ (count_of fail ((main repo).results) ≡ 0))
      × (((main repo).exit_code ≡ 1) ↔ (1 ≤ count_of fail ((main repo).results)))
unfolding main summarise
main-Totals repo =
    let es = run_checks checks repo [] in
    let named : names_of es ≡ check_names = run_checks-names (checks-EachAdds repo) [] in
    let count : length es ≡ 15 = sym (length-map (λ e. e.check) es) ∙ ap length named in
    let sum = count_sum es in
    let warns = tally_warn es in
    let fails = tally_fail es in
    (
      named,
      omega arith,
      warns,
      fails,
      omega arith,
      ground (arith, tally_fail es),
      ground (arith, tally_fail es),
    )
