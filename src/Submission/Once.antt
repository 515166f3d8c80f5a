-- ===== src/Submission/Once.antt =====
-- scripts/check_submission.py: what a run of all checks comes to.
use civic_pulse_24i3089_24i.Prelude.{
  ◌≡◌, refl, Bool, true, false, List, [], ◌∷◌, ◌++◌, if◌then◌else◌,
}
use civic_pulse_24i3089_24i.Text.{Str, codes}
use civic_pulse_24i3089_24i.Submission.{
  Level, Detail, Entry, Repo, pass, fail, text, record_, conclude, is_empty,
}
use civic_pulse_24i3089_24i.Submission.Compose.{
  check_unpinned_images, check_localhost_service_to_service, check_network_segmentation,
  check_prod_ports_and_build_key,
}
use civic_pulse_24i3089_24i.Submission.Cluster.{
  check_secrets_in_history, check_k8s_secret_placeholders, check_k8s_service_types,
  check_postgres_statefulset,
}
use civic_pulse_24i3089_24i.Submission.Delivery.{
  check_no_latest_deploy, check_needs_gating, check_direct_pushes_to_main,
}
use civic_pulse_24i3089_24i.Submission.Layout.{
  check_readme_quickstart, check_required_files, check_evidence_dir, check_ai_usage_filled,
}

-- Of one entry of that name, `after` is the list with the entry added, and `fresh` the entry alone.
pub record Adds (name : Str) (results after fresh : List Entry) : Type 0 where
  pub level : Level
  pub detail : Detail
  pub added : after ≡ results ++ record { level = level; check = name; detail = detail } ∷ []
  pub alone : fresh ≡ record { level = level; check = name; detail = detail } ∷ []

module _ {name : Str} {results : List Entry} where
  either-Adds :
      (b : Bool) {x y v w : List Entry}
      → Adds name results x v
      → Adds name results y w
      → Adds name results (if b then x else y) (if b then v else w)
  either-Adds true h k = h
  either-Adds false h k = k

  record-Adds :
      (level : Level) (detail : Detail)
      → Adds name results (record_ level name detail results) (record_ level name detail [])
  unfolding record_
  record-Adds level detail = record { level = level; detail = detail; added = refl; alone = refl }

  conclude-Adds :
      (found : List Str) (bad : Detail) (good : Str)
      → Adds name results (conclude name found bad good results) (conclude name found bad good [])
  unfolding conclude
  conclude-Adds found bad good =
      either-Adds (is_empty found) (record-Adds pass (text good)) (record-Adds fail bad)

ruleset adds = (record-Adds, conclude-Adds, either-Adds)

module _ (repo : Repo) (results : List Entry) where
  pub secrets_add :
      Adds
        (codes "secrets-in-history")
        results
        (check_secrets_in_history repo results)
        (check_secrets_in_history repo [])
  unfolding check_secrets_in_history
  secrets_add = search adds

  pub placeholders_add :
      Adds
        (codes "k8s-secret-placeholders")
        results
        (check_k8s_secret_placeholders repo results)
        (check_k8s_secret_placeholders repo [])
  unfolding check_k8s_secret_placeholders
  placeholders_add = search adds

  pub images_add :
      Adds
        (codes "unpinned-images")
        results
        (check_unpinned_images repo results)
        (check_unpinned_images repo [])
  unfolding check_unpinned_images
  images_add = search adds

  pub localhost_add :
      Adds
        (codes "localhost-service-to-service")
        results
        (check_localhost_service_to_service repo results)
        (check_localhost_service_to_service repo [])
  unfolding check_localhost_service_to_service
  localhost_add = search adds

  pub segmentation_add :
      Adds
        (codes "network-segmentation")
        results
        (check_network_segmentation repo results)
        (check_network_segmentation repo [])
  unfolding check_network_segmentation
  segmentation_add = search adds

  pub ports_add :
      Adds
        (codes "compose-prod-hygiene")
        results
        (check_prod_ports_and_build_key repo results)
        (check_prod_ports_and_build_key repo [])
  unfolding check_prod_ports_and_build_key
  ports_add = search adds

  pub types_add :
      Adds
        (codes "k8s-service-types")
        results
        (check_k8s_service_types repo results)
        (check_k8s_service_types repo [])
  unfolding check_k8s_service_types
  types_add = search adds

  pub statefulset_add :
      Adds
        (codes "postgres-statefulset")
        results
        (check_postgres_statefulset repo results)
        (check_postgres_statefulset repo [])
  unfolding check_postgres_statefulset
  statefulset_add = search adds

  pub latest_add :
      Adds
        (codes "no-latest-deploy")
        results
        (check_no_latest_deploy repo results)
        (check_no_latest_deploy repo [])
  unfolding check_no_latest_deploy
  latest_add = search adds

  pub gating_add :
      Adds
        (codes "needs-gating")
        results
        (check_needs_gating repo results)
        (check_needs_gating repo [])
  unfolding check_needs_gating
  gating_add = search adds

  pub pushes_add :
      Adds
        (codes "direct-pushes-to-main")
        results
        (check_direct_pushes_to_main repo results)
        (check_direct_pushes_to_main repo [])
  unfolding check_direct_pushes_to_main
  pushes_add = search adds

  pub readme_add :
      Adds
        (codes "readme-quickstart")
        results
        (check_readme_quickstart repo results)
        (check_readme_quickstart repo [])
  unfolding check_readme_quickstart
  readme_add = search adds

  pub required_add :
      Adds
        (codes "required-files")
        results
        (check_required_files repo results)
        (check_required_files repo [])
  unfolding check_required_files
  required_add = search adds

  pub evidence_add :
      Adds
        (codes "evidence-dir")
        results
        (check_evidence_dir repo results)
        (check_evidence_dir repo [])
  unfolding check_evidence_dir
  evidence_add = search adds

  pub usage_add :
      Adds
        (codes "ai-usage-filled")
        results
        (check_ai_usage_filled repo results)
        (check_ai_usage_filled repo [])
  unfolding check_ai_usage_filled
  usage_add = search adds
