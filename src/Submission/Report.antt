-- ===== src/Submission/Report.antt =====
-- scripts/check_submission.py: `CHECKS` and `main`, which runs them, prints their results and gives
-- the exit code. What is printed is kept as the lines of the table, the detail beside each, and the
-- numbers of the summary.
use civic_pulse_24i3089_24i.Prelude.{
  ℕ, zero, suc, ◌-◌, max, Bool, true, false, List, [], ◌∷◌, ◌++◌, ◌==◌, length, if◌then◌else◌,
}
use civic_pulse_24i3089_24i.Text.{Str, codes}
use civic_pulse_24i3089_24i.Submission.{Level, pass, warn, fail, Detail, Entry, Repo}
use civic_pulse_24i3089_24i.Submission.Compose.{
  check_unpinned_images, check_localhost_service_to_service, check_network_segmentation,
  check_prod_ports_and_build_key,
}
use civic_pulse_24i3089_24i.Submission.Cluster.{
  check_secrets_in_history, check_k8s_secret_placeholders, check_k8s_service_types,
  check_postgres_statefulset,
}
use civic_pulse_24i3089_24i.Submission.Delivery.{
  check_no_latest_deploy, check_needs_gating, check_direct_pushes_to_main,
}
use civic_pulse_24i3089_24i.Submission.Layout.{
  check_readme_quickstart, check_required_files, check_evidence_dir, check_ai_usage_filled,
}

abbrev pub Check : Type 0
Check = Repo → List Entry → List Entry

unfoldable pub checks : List Check
checks =
    check_secrets_in_history ∷ check_k8s_secret_placeholders ∷ check_unpinned_images
    ∷ check_localhost_service_to_service ∷ check_network_segmentation
    ∷ check_prod_ports_and_build_key ∷ check_k8s_service_types ∷ check_postgres_statefulset
    ∷ check_no_latest_deploy ∷ check_needs_gating ∷ check_direct_pushes_to_main
    ∷ check_readme_quickstart ∷ check_required_files ∷ check_evidence_dir ∷ check_ai_usage_filled
    ∷ []

unfoldable pub run_checks : List Check → Repo → List Entry → List Entry
run_checks [] repo results = results
run_checks (check ∷ rest) repo results = run_checks rest repo (check repo results)

abbrev pub marker : Level → Str
marker pass = codes "OK"
marker warn = codes "!!"
marker fail = codes "XX"

abbrev pub level_text : Level → Str
level_text pass = codes "PASS"
level_text warn = codes "WARN"
level_text fail = codes "FAIL"

abbrev pub is_fail : Level → Bool
is_fail fail = true
is_fail _ = false

abbrev pub is_warn : Level → Bool
is_warn warn = true
is_warn _ = false

-- `sum(1 for level, *_ in results if …)`
unfoldable pub tally : (Level → Bool) → List Entry → ℕ
tally p [] = 0
tally p (e ∷ es) = let rest = tally p es in if p e.level then suc rest else rest

unfoldable pub width_of : List Entry → ℕ
width_of [] = 0
width_of (e ∷ es) = max (length e.check) (width_of es)

-- `f"{s:<{n}}"`
abbrev pub blanks : ℕ → Str
blanks zero = []
blanks (suc n) = 32 ∷ blanks n

abbrev pub pad : ℕ → Str → Str
pad n s = s ++ blanks (n - length s)

unfoldable pub table : ℕ → List Entry → List (Str × Detail)
table width [] = []
table width (e ∷ es) =
    (
      codes "["
          ++ (marker e.level
              ++ (codes "] "
                  ++ (pad 4 (level_text e.level)
                      ++ (codes " " ++ (pad width e.check ++ codes "  "))))),
      e.detail,
    )
    ∷ table width es

pub record Outcome : Type 0 where
  pub results : List Entry
  pub lines : List (Str × Detail)
  pub n_pass : ℕ
  pub n_warn : ℕ
  pub n_fail : ℕ
  pub exit_code : ℕ

unfoldable pub summarise : List Entry → Outcome
unfolding tally table width_of
summarise results =
    let n_fail = tally is_fail results in
    let n_warn = tally is_warn results in
    record {
      results = results;
      lines = table (width_of results) results;
      n_pass = length results - n_fail - n_warn;
      n_warn = n_warn;
      n_fail = n_fail;
      exit_code = if n_fail == 0 then 0 else 1;
    }

unfoldable pub main : Repo → Outcome
unfolding run_checks checks summarise
main repo = summarise (run_checks checks repo [])
