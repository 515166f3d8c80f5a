-- ===== src/Submission/Cluster.antt =====
-- scripts/check_submission.py: the checks of the cluster's manifests and of what was committed.
use civic_pulse_24i3089_24i.Prelude.{
  Bool, false, not, ◌&&◌, ◌||◌, Option, none, some, List, [], ◌∷◌, ◌++◌, ◌-◌, ◌%◌, length, take,
  if◌then◌else◌,
}
use civic_pulse_24i3089_24i.Text.{Str, codes, ◌===◌, strip, starts_with, contains}
use civic_pulse_24i3089_24i.Pattern.Scan.{matches, search, found, find_all}
use civic_pulse_24i3089_24i.Submission.{
  Entry, Repo, text, listing, pairs, pass, warn, fail, record_, git_error, run_git, read, among,
  is_empty, splitlines, strip_char, conclude,
}
use civic_pulse_24i3089_24i.Submission.Base64.{decode}
use civic_pulse_24i3089_24i.Submission.Expressions.{secret_filename, secret_line, open_type}

unfoldable pub is_secret : Str → Bool
unfolding matches secret_filename ◌===◌
is_secret line =
    not (is_empty line || line === codes ".env.example") && matches secret_filename line

-- the loop over `out.splitlines()`
unfoldable pub secret_hits : List Str → List Str
unfolding is_secret strip
secret_hits [] = []
secret_hits (line ∷ lines) =
    let rest = secret_hits lines in if is_secret (strip line) then strip line ∷ rest else rest

abbrev pub history_args : List Str
history_args =
    codes "log"
    ∷ codes "--all"
    ∷ codes "--diff-filter=A"
    ∷ codes "--name-only"
    ∷ codes "--pretty=format:"
    ∷ []

unfoldable pub check_secrets_in_history : Repo → List Entry → List Entry
unfolding run_git starts_with splitlines secret_hits conclude record_
check_secrets_in_history repo results =
    let check = codes "secrets-in-history" in
    let out = run_git repo history_args in
    let hits = secret_hits (splitlines out) in
    if starts_with git_error out
    then record_ warn check (text (codes "could not run git log (not a git repo yet?)")) results
    else conclude check hits
        (listing (codes "filenames matching secret patterns were ever committed: ") hits)
        (codes "no .env/.pem/.key/id_rsa filenames found in any commit") results

abbrev pub placeholder_values : List Str
placeholder_values =
    []
    ∷ codes "changeme"
    ∷ codes "change_me"
    ∷ codes "replace_me"
    ∷ codes "replaceme"
    ∷ codes "please-set-me"
    ∷ []

-- `"=" * (-len(v) % 4)`
abbrev pub padding : Str → Str
padding v = take ((4 - length v % 4) % 4) (codes "===")

abbrev pub decodes_to_placeholder : Repo → Option Str → Bool
decodes_to_placeholder repo none = false
decodes_to_placeholder repo (some decoded) = among (repo.lower decoded) placeholder_values

unfoldable pub looks_like_placeholder : Repo → Str → Bool
unfolding strip strip_char ◌===◌ decode
looks_like_placeholder repo value =
    let v = strip_char 39 (strip_char 34 (strip value)) in
    among (repo.lower v) placeholder_values || decodes_to_placeholder repo (decode (v ++ padding v))

-- the loop over the matches: a match holds its value first, its key second
unfoldable pub suspicious_in : Repo → List (List Str) → List (Str × Str)
unfolding looks_like_placeholder
suspicious_in repo [] = []
suspicious_in repo ([] ∷ ms) = suspicious_in repo ms
suspicious_in repo ((value ∷ []) ∷ ms) = suspicious_in repo ms
suspicious_in repo ((value ∷ key ∷ gs) ∷ ms) =
    let rest = suspicious_in repo ms in
    if looks_like_placeholder repo value then rest else (key, value) ∷ rest

unfoldable pub check_k8s_secret_placeholders : Repo → List Entry → List Entry
unfolding read find_all secret_line suspicious_in record_
check_k8s_secret_placeholders repo results =
    let check = codes "k8s-secret-placeholders" in
    let secret_file = codes "k8s/base/secret.yaml" in
    let contents = read repo secret_file in
    let suspicious = suspicious_in repo (find_all secret_line contents) in
    if is_empty contents
    then record_ warn check (text (repo.root ++ (codes "/" ++ (secret_file ++ codes " not found"))))
        results
    else if is_empty suspicious
    then record_ pass check (text (codes "k8s/base/secret.yaml contains placeholders only")) results
    else record_ fail check
        (pairs (codes "non-placeholder-looking values in k8s/base/secret.yaml: ") suspicious)
        results

unfoldable pub open_services : Repo → List Str → List Str
unfolding read search open_type
open_services repo [] = []
open_services repo (path ∷ paths) =
    let rest = open_services repo paths in
    if found open_type (read repo path) then path ∷ rest else rest

unfoldable pub check_k8s_service_types : Repo → List Entry → List Entry
unfolding open_services conclude
check_k8s_service_types repo =
    let offenders = open_services repo (repo.glob (codes "k8s/base") (codes "*.yaml")) in
    conclude (codes "k8s-service-types") offenders
      (listing (codes "NodePort/LoadBalancer found in: ") offenders)
      (codes "no NodePort/LoadBalancer Services found")

unfoldable pub check_postgres_statefulset : Repo → List Entry → List Entry
unfolding read contains record_
check_postgres_statefulset repo results =
    let check = codes "postgres-statefulset" in
    let contents = read repo (codes "k8s/base/postgres.yaml") in
    let deployment = contains (codes "kind: Deployment") contents in
    let stateful = contains (codes "kind: StatefulSet") contents in
    let claims = contains (codes "volumeClaimTemplates") contents in
    if is_empty contents
    then record_ warn check (text (codes "k8s/base/postgres.yaml not found")) results
    else if deployment && not stateful
    then record_ fail check (text (codes "postgres.yaml uses Deployment, not StatefulSet")) results
    else if stateful && claims
    then record_ pass check (text (codes "postgres is a StatefulSet with volumeClaimTemplates"))
        results
    else record_ warn check (text (codes "could not confirm StatefulSet + volumeClaimTemplates"))
        results
