-- ===== src/Tests/Rules.antt =====
-- The rules that choose the targets, on the sample cluster.
use reloader_operator.Base.{
  String, true, false, none, some, ◌≡◌, ◌≢◌, ◌↔◌, refl, [], ◌∷◌, arith, eq_iff,
}
use reloader_operator.Kube.{workload, deployment, get_annotations}
use reloader_operator.Util.Hash.{calculate_hash}
use reloader_operator.Util.Hash.Framing.{merged, calculate_hash-merged_pairs}
use reloader_operator.Util.PodReferences.{check_pod_spec_references_resource}
use reloader_operator.Util.PodReferences.RefersTo.{RefersTo, check_pod_spec_iff}
use reloader_operator.Workload.Annotations.{should_reload_from_annotations, references, pod_spec_of}
use reloader_operator.Workload.Annotations.Rules.{Reloads, should_reload_iff}
use reloader_operator.Controller.Discovery.{is_kept}
use reloader_operator.Controller.Discovery.Filtering.{Asks, LacksReference, is_kept-drops_iff}
use reloader_operator.Tests.Sample.{
  platform, cluster, start, config, target, template, api, sample_hash,
}

check_pod_spec_iff_example :
    (check_pod_spec_references_resource "Secret" "db" template.spec ≡ true)
    ↔ RefersTo "Secret" "db" template.spec
check_pod_spec_iff_example = check_pod_spec_iff "Secret" "db" template.spec

should_reload_iff_example :
    (should_reload_from_annotations "Secret" "db" (workload deployment api) none ≡ true) ↔ (
      (get_annotations (workload deployment api) ≢ none)
      × Reloads "Secret" "db"
          (get_annotations (workload deployment api))
          none
          (references (pod_spec_of (workload deployment api)) "Secret" "db"))
should_reload_iff_example = should_reload_iff "Secret" "db" (workload deployment api) none

is_kept-drops_iff_example :
    ((is_kept (platform cluster) "Secret" "tls" target start).0 ≡ false)
    ↔ (Asks target (some config) × LacksReference (platform cluster) "Secret" "tls" target start)
is_kept-drops_iff_example = is_kept-drops_iff (platform cluster) "Secret" "tls" target start

-- The data with "b" beside "a", and the data in which the value of "a" looks like both.
a-ne-b : ◌≢◌ {A = String} "a" "b"
a-ne-b e = ground (arith, eq_iff "a" "b")

calculate_hash-merged_pairs_example :
    calculate_hash sample_hash (some (("a", merged "a" "b" (49 ∷ []) (50 ∷ [])) ∷ []))
    ≡ calculate_hash sample_hash (some (("a", 49 ∷ []) ∷ ("b", 50 ∷ []) ∷ []))
calculate_hash-merged_pairs_example =
    calculate_hash-merged_pairs "a" "b" (49 ∷ []) (50 ∷ []) sample_hash refl a-ne-b
