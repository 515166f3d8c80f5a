-- ===== src/Submission/Layout.antt =====
-- scripts/check_submission.py: the checks of the README, of the required files and of the notes.
use civic_pulse_24i3089_24i.Prelude.{not, List, [], ◌∷◌, ◌++◌, ◌==◌, length, if◌then◌else◌}
use civic_pulse_24i3089_24i.Text.{Str, codes, contains}
use civic_pulse_24i3089_24i.Text.Number.{show}
use civic_pulse_24i3089_24i.Pattern.Scan.{find_all}
use civic_pulse_24i3089_24i.Submission.{
  Entry, Repo, text, listing, pass, warn, fail, record_, read, is_empty, conclude,
}
use civic_pulse_24i3089_24i.Submission.Expressions.{bracketed}

unfoldable pub check_readme_quickstart : Repo → List Entry → List Entry
unfolding read contains record_
check_readme_quickstart repo results =
    let check = codes "readme-quickstart" in
    if not (contains (codes "docker compose up") (read repo (codes "README.md")))
    then record_ fail check (text (codes "README.md does not mention `docker compose up`")) results
    else if not (repo.exists (codes "compose.yaml"))
    then record_ fail check (text (codes "README references compose but compose.yaml is missing"))
        results
    else record_ pass check
        (text (codes "README references docker compose and compose.yaml exists")) results

abbrev pub required_files : List Str
required_files =
    codes "backend/Dockerfile"
    ∷ codes "backend/.dockerignore"
    ∷ codes "backend/pyproject.toml"
    ∷ codes "frontend/Dockerfile"
    ∷ codes "frontend/.dockerignore"
    ∷ codes "frontend/package.json"
    ∷ codes "frontend/nginx.conf"
    ∷ codes "k8s/base/kustomization.yaml"
    ∷ codes "k8s/overlays/dev/kustomization.yaml"
    ∷ codes "k8s/overlays/prod/kustomization.yaml"
    ∷ codes "load/k6-script.js"
    ∷ codes "docs/ENGINEERING-NOTES.md"
    ∷ codes "docs/RUNBOOK.md"
    ∷ codes "docs/AI-USAGE.md"
    ∷ codes "docs/TRIAGE.md"
    ∷ codes "docs/adr/0001-provider-interface.md"
    ∷ codes "docs/adr/0002-frontend-runtime-config.md"
    ∷ codes "docs/adr/0003-deploy-by-sha.md"
    ∷ codes "docs/adr/0004-pii-and-data-governance.md"
    ∷ codes ".github/workflows/ci.yml"
    ∷ codes ".github/workflows/cd.yml"
    ∷ codes ".github/workflows/release.yml"
    ∷ codes "compose.yaml"
    ∷ codes "compose.prod.yaml"
    ∷ codes ".env.example"
    ∷ codes ".gitignore"
    ∷ codes "README.md"
    ∷ codes "LICENSE"
    ∷ []

unfoldable pub missing_files : Repo → List Str → List Str
missing_files repo [] = []
missing_files repo (f ∷ fs) =
    let rest = missing_files repo fs in if not (repo.exists f) then f ∷ rest else rest

unfoldable pub check_required_files : Repo → List Entry → List Entry
unfolding missing_files conclude show
check_required_files repo =
    let missing = missing_files repo required_files in
    conclude (codes "required-files") missing (listing (codes "missing: ") missing)
      (codes "all " ++ (show (length required_files) ++ codes " required files present"))

unfoldable pub check_evidence_dir : Repo → List Entry → List Entry
unfolding show record_
check_evidence_dir repo results =
    let check = codes "evidence-dir" in
    let contents = repo.glob (codes "docs/evidence") (codes "*") in
    if not (repo.exists (codes "docs/evidence"))
    then record_ fail check (text (codes "docs/evidence/ does not exist")) results
    else if is_empty contents
    then record_ warn check
        (text (codes "docs/evidence/ exists but is empty - add the required screenshots")) results
    else record_ pass check
        (text (codes "docs/evidence/ has " ++ (show (length contents) ++ codes " file(s)"))) results

unfoldable pub check_ai_usage_filled : Repo → List Entry → List Entry
unfolding read find_all bracketed show record_
check_ai_usage_filled repo results =
    let check = codes "ai-usage-filled" in
    let unresolved = length (find_all bracketed (read repo (codes "docs/AI-USAGE.md"))) in
    if unresolved == 0
    then record_ pass check (text (codes "docs/AI-USAGE.md has no obvious unresolved placeholders"))
        results
    else record_ warn check
        (text (show unresolved ++ codes " bracketed placeholder(s) still in docs/AI-USAGE.md"))
        results
