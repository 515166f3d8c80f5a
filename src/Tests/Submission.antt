-- ===== src/Tests/Submission.antt =====
-- A small repository for the checks before a submission.
use civic_pulse_24i3089_24i.Prelude.{
  ◌≤◌, ℕ, ◌+◌, ◌≡◌, ◌↔◌, refl, Bool, true, false, not, ◌&&◌, ◌||◌, none, some, [], ◌∷◌, ◌++◌, map,
  all, length, leb, ◌==◌, if◌then◌else◌, arith,
}
use civic_pulse_24i3089_24i.Text.{
  Str, codes, ◌===◌, starts_with, rstrip, lstrip, is_space, split_from,
}
use civic_pulse_24i3089_24i.Submission.{pass, warn, fail, Repo, finished, is_empty, splitlines}
use civic_pulse_24i3089_24i.Submission.Compose
use civic_pulse_24i3089_24i.Submission.Cluster
use civic_pulse_24i3089_24i.Submission.Delivery
use civic_pulse_24i3089_24i.Submission.Layout
use civic_pulse_24i3089_24i.Submission.Cluster.{is_secret, secret_hits}
use civic_pulse_24i3089_24i.Pattern.Means.{is_plain}
use civic_pulse_24i3089_24i.Submission.Expressions.{
  secret_filename, secret_line, image_line, from_line, networks_list, build_key, ports_key,
  open_type, kubectl_deploy, bracketed, anchor, service_start, job_start,
}
use civic_pulse_24i3089_24i.Pattern.Decides.{reads}
use civic_pulse_24i3089_24i.Submission.Base64.{decode}
use civic_pulse_24i3089_24i.Submission.Report.{main}
use civic_pulse_24i3089_24i.Submission.Totals.{check_names, count_of, main-Totals}
use civic_pulse_24i3089_24i.Submission.Secrets.{is_named, is_secret-is_named, is_secret-nested}

abbrev compose_text : Str
compose_text =
    codes "services:"
    ++ (10 ∷ codes "  frontend:")
    ++ (10 ∷ codes "    image: nginx")
    ++ (10 ∷ codes "    networks: [edge, internal]")
    ++ (10 ∷ codes "  redis:")
    ++ (10 ∷ codes "    image: redis:7")

abbrev history : Str
history = codes "a.py" ++ (10 ∷ codes "app/.env") ++ (10 ∷ codes "id_rsa.pub")

abbrev ascii_word : ℕ → Bool
ascii_word c = leb 97 c && leb c 122 || leb 48 c && leb c 57 || c == 95

abbrev repo : Repo
repo = record {
  root = codes "/srv";
  git = λ args. finished history;
  read_text = λ path. if path === codes "compose.yaml" then some compose_text else none;
  exists = λ path. path === codes "compose.yaml";
  glob = λ dir pattern. [];
  rglob = λ dir pattern. [];
  lower = λ s. s;
  is_word = ascii_word;
}

-- The levels of a run: `app/.env` is passed over, `id_rsa.pub` found, `nginx` has no tag, and the
-- frontend is on the internal network.
levels_run :
    map (λ e. e.level) (main repo).results
    ≡ fail ∷ warn ∷ fail ∷ pass ∷ fail ∷ warn ∷ pass ∷ warn ∷ pass ∷ pass ∷ warn ∷ fail ∷ fail
      ∷ fail ∷ pass ∷ []
unfolding main Layout.check_ai_usage_filled Layout.check_evidence_dir Layout.check_required_files
    Layout.check_readme_quickstart Delivery.check_direct_pushes_to_main Delivery.check_needs_gating
    Delivery.check_no_latest_deploy Cluster.check_postgres_statefulset
    Cluster.check_k8s_service_types Compose.check_prod_ports_and_build_key
    Compose.check_network_segmentation Compose.check_localhost_service_to_service
    Compose.check_unpinned_images Cluster.check_k8s_secret_placeholders
    Cluster.check_secrets_in_history ◌===◌ starts_with rstrip lstrip is_space split_from
levels_run = refl

hits_run : secret_hits (splitlines history) ≡ codes "id_rsa.pub" ∷ []
unfolding secret_hits splitlines rstrip lstrip is_space
hits_run = refl

decode_run : decode (codes "Y2hhbmdlbWU=") ≡ some (codes "changeme")
unfolding decode
decode_run = refl

main-Totals_example :
    (map (λ e. e.check) ((main repo).results) ≡ check_names)
    × ((main repo).n_pass ≡ count_of pass ((main repo).results))
    × ((main repo).n_warn ≡ count_of warn ((main repo).results))
    × ((main repo).n_fail ≡ count_of fail ((main repo).results))
    × ((main repo).n_pass + (main repo).n_warn + (main repo).n_fail ≡ length check_names)
    × (((main repo).exit_code ≡ 0) ↔ (count_of fail ((main repo).results) ≡ 0))
    × (((main repo).exit_code ≡ 1) ↔ (1 ≤ count_of fail ((main repo).results)))
main-Totals_example = main-Totals repo

is_secret-is_named_example : is_secret (codes "certs/a.pem") ≡ (
    not (is_empty (codes "certs/a.pem") || codes "certs/a.pem" === codes ".env.example")
    && (is_named (codes "certs/a.pem") || reads (λ c. c == 47) is_named (codes "certs/a.pem")))
is_secret-is_named_example = is_secret-is_named (codes "certs/a.pem") refl

is_secret-nested_example : is_secret (codes "app/.env") ≡ false
is_secret-nested_example =
    is_secret-nested 97 (codes "pp") (λ e. omega arith) (λ e. omega arith) (λ e. omega arith) refl

-- no lookahead of the script has a group in it
expressions_plain :
    all is_plain (
      secret_filename
      ∷ secret_line
      ∷ image_line
      ∷ from_line
      ∷ networks_list
      ∷ build_key
      ∷ ports_key
      ∷ open_type
      ∷ kubectl_deploy
      ∷ bracketed
      ∷ anchor ascii_word
      ∷ service_start ascii_word
      ∷ job_start ascii_word
      ∷ [])
    ≡ true
unfolding secret_filename secret_line image_line from_line networks_list build_key ports_key
    open_type kubectl_deploy bracketed anchor service_start job_start
expressions_plain = refl
