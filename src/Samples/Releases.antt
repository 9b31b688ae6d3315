-- ===== src/Samples/Releases.antt =====
-- Releases that are created and selected.
use devopsellence.Base.{
  equal_fold, sort_by, lookup, insert, true, ◌≡◌, refl, ◌↔◌, ◌&&◌, not, none, List, [], ◌∷◌, map,
  Text, codes, is_empty, contains, trim, ◌==◌, pos, ok,
}
use devopsellence.Base.SortLaws.{Ascending}
use devopsellence.Base.Filtering.{OnlyOne}
use devopsellence.Release.Types.{Deployment, ReleaseCreateInput, DeploymentCreateInput, Release}
use devopsellence.Release.Create.{new_deployment, normalize_strings}
use devopsellence.Release.Create.Normalize.{normalize_strings_characterised}
use devopsellence.Release.Create.Validity.{is_acceptable, IsPending, new_deployment_lem}
use devopsellence.Release.Select.{select_rollback_release, rollback_selector, matches_selector}
use devopsellence.Release.Select.Previous.{IsPredecessor, select_rollback_release-IsPredecessor}
use devopsellence.Release.Select.Matching.{select_rollback_release_unique}
use devopsellence.Samples.Values.{sample_times, web_snapshot, old_release, two_releases}

previous_example : IsPredecessor sample_times two_releases (codes "r2") old_release
unfolding select_rollback_release rollback_selector trim ◌==◌ equal_fold sort_by lookup insert
previous_example =
    select_rollback_release-IsPredecessor sample_times two_releases (codes " r2") (codes "Previous")
      old_release refl refl

named_example :
    (select_rollback_release sample_times two_releases (codes "r2") (codes "r1") ≡ ok old_release)
    ↔ OnlyOne (matches_selector (rollback_selector (codes "r1"))) old_release two_releases
unfolding rollback_selector trim ◌==◌ equal_fold
named_example =
    select_rollback_release_unique sample_times two_releases (codes "r2") (codes "r1") old_release
      refl

abbrev some_ids : List Text
some_ids = codes " b" ∷ codes "a" ∷ codes "" ∷ codes "b" ∷ []

normalize_strings_example : (normalize_strings some_ids ≡ codes "a" ∷ codes "b" ∷ []) ↔ (
    Ascending (codes "a" ∷ codes "b" ∷ [])
    × ((v : Text)
        → contains (codes "a" ∷ codes "b" ∷ []) v
          ≡ (contains (map trim some_ids) v && not (is_empty v))))
normalize_strings_example = normalize_strings_characterised some_ids (codes "a" ∷ codes "b" ∷ [])

abbrev rollback_request : DeploymentCreateInput
rollback_request = record {
  id = codes " d1 ";
  environment_id = codes "e";
  release_id = codes "r1";
  kind = codes "rollback";
  sequence = pos 3;
  target_node_ids = codes "n2" ∷ codes "n1" ∷ [];
  created_at = 0;
}

new_deployment_example :
    ((is_acceptable rollback_request ≡ true)
      ↔ ((d : Deployment) × (new_deployment sample_times rollback_request ≡ ok d)))
    × ((d : Deployment) → new_deployment sample_times rollback_request ≡ ok d → IsPending d)
new_deployment_example = new_deployment_lem sample_times rollback_request

abbrev release_request : ReleaseCreateInput
release_request = record {
  id = codes "r1";
  environment_id = codes "e";
  revision = [];
  config_digest = [];
  snapshot = web_snapshot;
  image = record { repository = []; digest = []; reference = [] };
  target_node_ids = [];
  created_at = 7;
  command_result = none;
}

abbrev requested_release : Release
requested_release = record {
  id = codes "r1";
  environment_id = codes "e";
  revision = codes "v";
  config_digest = [];
  snapshot = web_snapshot;
  image = record { repository = []; digest = []; reference = codes "app" };
  target_node_ids = [];
  created_at = codes "t";
  command_result = none;
}
