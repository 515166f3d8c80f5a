-- ===== src/Submission/Compose.antt =====
-- scripts/check_submission.py: the checks of the compose files and of the Dockerfiles.
use civic_pulse_24i3089_24i.Prelude.{
  Bool, false, not, ◌&&◌, Option, none, some, List, [], ◌∷◌, ◌++◌, ◌==◌, map, if◌then◌else◌,
}
use civic_pulse_24i3089_24i.Text.{Str, codes, split_on, ◌===◌, strip, starts_with, contains, join}
use civic_pulse_24i3089_24i.Pattern.Scan.{search, found, find_all, re_split}
use civic_pulse_24i3089_24i.Submission.{
  Entry, Repo, text, listing, warn, record_, read, among, is_empty, splitlines, offending,
  block_name, conclude,
}
use civic_pulse_24i3089_24i.Submission.Expressions.{
  image_line, from_line, networks_list, build_key, ports_key, anchor, service_start,
}

abbrev pub compose_files : List Str
compose_files = codes "compose.yaml" ∷ codes "compose.prod.yaml" ∷ []

abbrev pub dockerfiles : List Str
dockerfiles = codes "backend/Dockerfile" ∷ codes "frontend/Dockerfile" ∷ []

-- The groups of a match, in the order of the pattern; a match holds the last one first.
abbrev pub only_group : List Str → Str
only_group [] = []
only_group (g ∷ gs) = g

-- `dict(pairs).get(name, default)`: the last pair of a name counts
unfoldable pub anchor_of : List (List Str) → Str → Str → Str
unfolding ◌===◌
anchor_of [] name default = default
anchor_of ([] ∷ ms) name default = anchor_of ms name default
anchor_of ((image ∷ []) ∷ ms) name default = anchor_of ms name default
anchor_of ((image ∷ key ∷ gs) ∷ ms) name default =
    let found_ = if key === name then image else default in anchor_of ms name found_

-- `s.split(sep)[-1]`
abbrev pub last_part : List Str → Str
last_part [] = []
last_part (p ∷ []) = p
last_part (p ∷ q ∷ ps) = last_part (q ∷ ps)

-- `image = anchors.get(image[1:], image)` for an alias
abbrev pub resolve : List (List Str) → Str → Str
resolve anchors [] = []
resolve anchors (c ∷ image) = if c == 42 then anchor_of anchors image (c ∷ image) else c ∷ image

abbrev pub is_unpinned : Str → Bool
is_unpinned image =
    not (contains (codes "${") image)
    && not (contains (codes ":") (last_part (split_on 47 [] image)))

unfoldable pub unpinned_in : Str → List (List Str) → List (List Str) → List Str
unfolding anchor_of
unpinned_in label anchors [] = []
unpinned_in label anchors (m ∷ ms) =
    let image = resolve anchors (only_group m) in
    let rest = unpinned_in label anchors ms in
    if is_unpinned image then (label ++ (codes ": " ++ image)) ∷ rest else rest

unfoldable pub untagged_in : Str → List (List Str) → List Str
unfolding contains
untagged_in label [] = []
untagged_in label (m ∷ ms) =
    let rest = untagged_in label ms in
    if contains (codes ":") (only_group m)
    then rest
    else (label ++ (codes ": " ++ only_group m)) ∷ rest

abbrev pub gather : (Str → List Str) → List Str → List Str
gather f [] = []
gather f (path ∷ paths) = f path ++ gather f paths

-- the body of the loop over the compose files, and that over the Dockerfiles
unfoldable pub compose_offenders : Repo → Str → List Str
unfolding unpinned_in read find_all image_line anchor
compose_offenders repo path =
    let contents = read repo path in
    unpinned_in path (find_all (anchor repo.is_word) contents) (find_all image_line contents)

unfoldable pub docker_offenders : Repo → Str → List Str
unfolding untagged_in read find_all from_line
docker_offenders repo path = untagged_in path (find_all from_line (read repo path))

unfoldable pub unpinned_images : Repo → List Str
unfolding compose_offenders docker_offenders
unpinned_images repo =
    gather (compose_offenders repo) compose_files ++ gather (docker_offenders repo) dockerfiles

unfoldable pub check_unpinned_images : Repo → List Entry → List Entry
unfolding unpinned_images conclude
check_unpinned_images repo =
    let offenders = unpinned_images repo in
    conclude (codes "unpinned-images") offenders
      (listing (codes "images with no explicit tag: ") offenders)
      (codes "all base images carry an explicit tag")

-- The test on a line: it speaks of localhost, and it is no comment.
unfoldable pub names_localhost : Repo → Str → Bool
unfolding contains strip starts_with
names_localhost repo line =
    contains (codes "localhost") (repo.lower line) && not (starts_with (codes "#") (strip line))

unfoldable pub localhost_lines : Repo → Str → List Str
unfolding names_localhost offending splitlines read
localhost_lines repo path = offending (names_localhost repo) path 1 (splitlines (read repo path))

unfoldable pub check_localhost_service_to_service : Repo → List Entry → List Entry
unfolding localhost_lines conclude
check_localhost_service_to_service repo =
    let offenders =
      gather (localhost_lines repo) compose_files
      ++ gather (localhost_lines repo) (repo.glob (codes "k8s/base") (codes "*.yaml")) in
    conclude (codes "localhost-service-to-service") offenders
      (listing (codes "'localhost' found in compose/k8s config: ") offenders)
      (codes "no 'localhost' references in compose/k8s service config")

-- The networks that the loop over the services keeps; none stands for None.
pub record Networks : Type 0 where
  pub frontend : Option (List Str)
  pub db : Option (List Str)
  pub cache : Option (List Str)

abbrev pub nets_of : Option (List Str) → Option (List Str)
nets_of none = none
nets_of (some groups) = some (map strip (split_on 44 [] (only_group groups)))

unfoldable pub assign : Str → Option (List Str) → Networks → Networks
unfolding ◌===◌
assign name nets n = record {
  frontend = if name === codes "frontend" then nets else n.frontend;
  db = if name === codes "postgres" then nets else n.db;
  cache = if name === codes "redis" then nets else n.cache;
}

unfoldable pub networks_from : List Str → Networks → Networks
unfolding assign block_name search networks_list
networks_from [] n = n
networks_from (block ∷ blocks) n =
    networks_from blocks (assign (block_name block) (nets_of (search networks_list block)) n)

-- `nets and net in nets`
abbrev pub joins : Str → Option (List Str) → Bool
joins net none = false
joins net (some nets) = among net nets

abbrev pub problem : Bool → Str → List Str
problem b what = if b then what ∷ [] else []

abbrev pub segmentation_problems : Networks → List Str
segmentation_problems n =
    problem (joins (codes "internal") n.frontend) (codes "frontend is on the internal network")
    ++ (problem (joins (codes "edge") n.db) (codes "postgres is on the edge network")
        ++ problem (joins (codes "edge") n.cache) (codes "redis is on the edge network"))

unfoldable pub check_network_segmentation : Repo → List Entry → List Entry
unfolding networks_from re_split service_start conclude record_ read join
check_network_segmentation repo results =
    let check = codes "network-segmentation" in
    let contents = read repo (codes "compose.yaml") in
    let services = re_split (service_start repo.is_word) contents in
    let problems =
      segmentation_problems
        (networks_from services (record { frontend = none; db = none; cache = none })) in
    if is_empty contents
    then record_ warn check (text (codes "compose.yaml not found")) results
    else conclude check problems (text (join (codes "; ") problems))
        (codes "frontend/db/cache network membership looks correctly segmented") results

unfoldable pub published_ports : List Str → List Str
unfolding block_name search ports_key ◌===◌
published_ports [] = []
published_ports (block ∷ blocks) =
    let name = block_name block in
    let rest = published_ports blocks in
    if among name (codes "postgres" ∷ codes "redis" ∷ []) && found ports_key block
    then (name ++ codes " publishes a port in compose.prod.yaml") ∷ rest
    else rest

unfoldable pub check_prod_ports_and_build_key : Repo → List Entry → List Entry
unfolding published_ports re_split service_start search build_key conclude record_ read join
check_prod_ports_and_build_key repo results =
    let check = codes "compose-prod-hygiene" in
    let contents = read repo (codes "compose.prod.yaml") in
    let problems =
      problem (found build_key contents) (codes "a `build:` key exists in compose.prod.yaml")
      ++ published_ports (re_split (service_start repo.is_word) contents) in
    if is_empty contents
    then record_ warn check (text (codes "compose.prod.yaml not found")) results
    else conclude check problems (text (join (codes "; ") problems))
        (codes "no build: key, no published db/cache ports in compose.prod.yaml") results
