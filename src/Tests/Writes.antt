-- ===== src/Tests/Writes.antt =====
-- The two types of items on the sample cluster.
use Prim.Native.Nat.{◌%◌, ◌^◌}
use reloader_operator.Base.{
  ◌+◌, ◌⊎◌, String, none, some, List, [], ◌∷◌, ◌≡◌, ◌≢◌, refl, lookup, if◌then◌else◌, ◌==◌,
  StringMap,
}
use reloader_operator.Kube.{ok}
use reloader_operator.Api.{ReloaderConfig, TargetWorkloadStatus}
use reloader_operator.Platform.{Platform, updated_status}
use reloader_operator.Util.Keys.{make_resource_key}
use reloader_operator.Workload.Target.{Target}
use reloader_operator.Controller.StatusQueue.{config_item, target_item}
use reloader_operator.Controller.Status.{process_status_update}
use reloader_operator.Controller.Status.Entries.{first_entry, or_new}
use reloader_operator.Controller.Status.Writes.{
  Notes, process_status_update-config_item, process_status_update-target_item,
}
use reloader_operator.Tests.Sample.{platform, cluster, start, config, target}

abbrev shop : Platform
shop = platform cluster

-- The config with another table of hashes, after its first reload.
abbrev recorded : StringMap → ReloaderConfig
recorded hashes = record config {
  status = record (config.status) {
    watched_resource_hashes = hashes;
    reload_count = (0 + 1) % 2 ^ 64;
    last_reload_time = some 100;
  };
}

process_status_update-config_item_example :
    (hashes : StringMap) × ((key : String)
      → lookup key hashes ≡ (
          if make_resource_key "shop" "Secret" "db" == key
          then (if "2c26" == "" then none else some "2c26")
          else lookup key none))
    × (((process_status_update shop (config_item "shop" "Secret" "db" "2c26" config) start).1.calls
          ≡ updated_status (recorded hashes) ∷ [])
        × ((process_status_update shop (config_item "shop" "Secret" "db" "2c26" config) start).0
            ≡ none))
process_status_update-config_item_example =
    process_status_update-config_item shop config config start "shop" "Secret" "db" "2c26" refl

abbrev web_entry : TargetWorkloadStatus
web_entry = record {
  kind = "Deployment";
  name = "web";
  namespace = "shop";
  last_reload_time = none;
  reload_count = 4;
  paused_until = none;
  last_error = "";
}

-- The config with an entry of another target, and a cluster that holds it.
abbrev with_entries : List TargetWorkloadStatus → ReloaderConfig
with_entries entries = record config { status = record (config.status) { target_status = entries } }

abbrev web_shop : Platform
web_shop = platform (record cluster { config = ok (with_entries (web_entry ∷ [])) })

process_status_update-target_item_example :
    (entries : List TargetWorkloadStatus) × (entry : TargetWorkloadStatus) × (first_entry target
        entries
      ≡ some entry)
    × Notes web_shop 100 target "" (or_new target (first_entry target (web_entry ∷ []))) entry
    × ((other : Target)
        → (other.kind ≢ target.kind)
          ⊎ (other.name ≢ target.name)
          ⊎ (other.namespace ≢ target.namespace)
        → first_entry other entries ≡ first_entry other (web_entry ∷ []))
    × (((process_status_update web_shop (target_item config target "") start).1.calls
          ≡ updated_status (with_entries entries) ∷ [])
        × ((process_status_update web_shop (target_item config target "") start).0 ≡ none))
process_status_update-target_item_example =
    process_status_update-target_item web_shop config (with_entries (web_entry ∷ [])) start target
      "" refl
