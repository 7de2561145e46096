-- ===== src/Util/Workloads/Quiet.antt =====
-- Reading workloads leaves no mark.
use reloader_operator.Base.{String, arith}
use reloader_operator.Platform.{Platform}
use reloader_operator.Platform.Quiet.{IsQuiet}
use reloader_operator.Util.Workloads.{get_workload, workload_exists}

module _ (p : Platform) (kind name namespace : String) where
  pub get_workload-IsQuiet : IsQuiet (get_workload p kind name namespace)
  unfolding get_workload
  get_workload-IsQuiet s = ground arith

  pub workload_exists-IsQuiet : IsQuiet (workload_exists p kind name namespace)
  unfolding workload_exists
  workload_exists-IsQuiet s = ground arith
