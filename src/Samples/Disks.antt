-- ===== src/Samples/Disks.antt =====
-- A node with one image that is not used any more, and a desired state that is checked.
use devopsellence.Base.{
  Perm, ◌++◌, sort_texts, insert, lookup, distinct, sort_by, ◌==◌, trim, ℕ, true, false, not, ◌&&◌,
  ◌||◌, ◌≡◌, refl, none, some, List, [], ◌∷◌, length, All, here, Text, codes, contains, pos, ok,
  is_distinct, map,
}
use devopsellence.DesiredState.Types.{DesiredState}
use devopsellence.DesiredState.Runtime.{runtime_tasks, runtime_services}
use devopsellence.DiskCare.Store.{
  upsert, releases_from_desired, ReleaseRecord, key_of, normalize, drop_removed_images,
}
use devopsellence.DiskCare.Store.Normalized.{IsNormal, normalize-IsNormal}
use devopsellence.DiskCare.Store.Dropped.{is_recorded, is_recorded-drop_removed_images}
use devopsellence.DiskCare.Retention.{
  retained_image_refs, string_set, used_container_images, image_ref_set, managed_containers,
  prune_candidates, retained_release_keys,
}
use devopsellence.DiskCare.Retention.Newest.{Outranks, retained_release_keys-newest}
use devopsellence.DiskCare.Planning.{retention, Config, Engine, Files, load_store, plan}
use devopsellence.DiskCare.Run.{run, run_loaded, run_with_images, clean_up}
use devopsellence.DiskCare.Run.Safety.{removals, IsSpare, run-IsSpare}

abbrev kept : (revision image : Text) → ℕ → ReleaseRecord
kept revision image seen = record {
  environment = codes "p";
  revision = revision;
  images = image ∷ [];
  last_seen_at = seen;
}

abbrev older : ReleaseRecord
older = kept (codes "r1") (codes "i1") 1

abbrev newer_one : ReleaseRecord
newer_one = kept (codes "r2") (codes "i2") 2

abbrev records : List ReleaseRecord
records = older ∷ newer_one ∷ []

newest_example :
    (newer : List ReleaseRecord) × (length newer ≡ 1)
    × ((others : List ReleaseRecord) × Perm records (newer ++ others))
    × All (Outranks (retained_release_keys records [] 1) records older) newer
unfolding retained_release_keys contains distinct sort_by ◌==◌ trim
newest_example = retained_release_keys-newest records [] 1 older (here refl) refl

abbrev engine : Engine
engine = record {
  list_containers = λ log. ok [];
  list_images =
      λ log. ok (record { id = codes "i1"; repo_tags = []; repo_digests = []; size = 7 } ∷ []);
  image_exists = λ log image. ok false;
  remove_image = λ log image. ok [];
  inspect = λ log name. ok (record {
    name = name;
    running = true;
    health = [];
    state_status = [];
    exit_code = pos 0;
    state_error = [];
    finished_at = [];
    entrypoint = [];
    command = [];
    has_healthcheck = false;
    publish_host_port = false;
    published_ports = [];
    network_ip = [];
    log_path = [];
    log_driver = [];
    log_options = [];
  });
}

abbrev files : Files
files = record {
  read_state = ok (some (codes "{}"));
  decode_state = λ text. ok records;
  write_state = λ rs. ok tt;
  stat_size = λ path. ok none;
}

abbrev config : Config
config = record {
  state_path = codes "/s";
  retained_previous_releases = pos 0;
  protected_images = [];
  container_log_max_size = [];
  container_log_max_file = pos 1;
}

abbrev nothing_desired : DesiredState
nothing_desired = record {
  revision = codes "r";
  ingress = none;
  node_peers = [];
  schema_version = 2;
  environments = [];
}

run_example : IsSpare engine files config 3 nothing_desired (codes "i1")
unfolding run removals contains load_store trim run_loaded run_with_images clean_up
    managed_containers plan prune_candidates sort_texts distinct upsert releases_from_desired
    runtime_tasks runtime_services insert ◌==◌ lookup retained_release_keys retention
    retained_image_refs string_set used_container_images image_ref_set
run_example = run-IsSpare engine files config 3 nothing_desired (codes "i1") refl

dropped_example :
    is_recorded (drop_removed_images (codes "i1" ∷ []) [] records) (key_of older) (codes "i1") ≡ (
      is_recorded records (key_of older) (codes "i1")
      && (contains [] (key_of older) || not (contains (codes "i1" ∷ []) (codes "i1"))))
dropped_example =
    is_recorded-drop_removed_images (codes "i1" ∷ []) [] records (key_of older) (codes "i1")

normalize_example :
    All IsNormal (normalize records) × (is_distinct (map key_of (normalize records)) ≡ true)
normalize_example = normalize-IsNormal records
