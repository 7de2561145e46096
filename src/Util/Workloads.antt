-- ===== src/Util/Workloads.antt =====
-- internal/pkg/util/workload_helpers.go: workloads by kind.
pub mod Answers
pub mod Quiet
use reloader_operator.Base.{String, Bool, true, false, none, some, ◌==◌, if◌then◌else◌, [], ◌∷◌}
use reloader_operator.Kube.{
  Result, ok, err, errorf, Failure, ObjectKey, Object, workload, secret, config_map, Workload,
  WorkloadType, deployment, stateful_set, daemon_set, PodTemplateSpec, PodSpec,
}
use reloader_operator.Platform.{Platform, M, pure, read, ◌>>=◌}
use reloader_operator.Util.Names.{kind_deployment, kind_stateful_set, kind_daemon_set}

-- `obj := &T{}; if err := c.Get(ctx, key, obj); err != nil { return nil, err }; return obj, nil`
abbrev pub as_object : WorkloadType → Result Workload → Result Object
as_object t (ok w) = ok (workload t w)
as_object t (err e) = err e

-- `err == nil, client.IgnoreNotFound(err)`
abbrev pub existence : Result Workload → Bool × Failure
existence (ok w) = (true, none)
existence (err e) = (false, (if e.is_not_found then none else some e))

unfoldable pub get_pod_template : Object → Result PodTemplateSpec
get_pod_template (workload t w) = ok w.template
get_pod_template (secret s) = err (errorf ("unsupported workload type" ∷ []))
get_pod_template (config_map c) = err (errorf ("unsupported workload type" ∷ []))

-- `&template.Spec` of a template that was found
abbrev spec_of : Result PodTemplateSpec → Result PodSpec
spec_of (ok t) = ok t.spec
spec_of (err e) = err e

unfoldable pub get_pod_spec : Object → Result PodSpec
unfolding get_pod_template
get_pod_spec obj = spec_of (get_pod_template obj)

module _ (p : Platform) where
  abbrev pub get_object : WorkloadType → ObjectKey → M p.World (Result Object)
  get_object t key = do w ← read (p.get_workload t key); pure (as_object t w)

  abbrev pub get_existence : WorkloadType → ObjectKey → M p.World (Bool × Failure)
  get_existence t key = do w ← read (p.get_workload t key); pure (existence w)

  unfoldable pub get_workload : String → String → String → M p.World (Result Object)
  get_workload kind name namespace =
      let key : ObjectKey = record { namespace = namespace; name = name } in
      if kind == kind_deployment
      then get_object deployment key
      else if kind == kind_stateful_set
      then get_object stateful_set key
      else if kind == kind_daemon_set
      then get_object daemon_set key
      else pure (err (errorf ("unsupported workload kind: " ∷ kind ∷ [])))

  unfoldable pub workload_exists : String → String → String → M p.World (Bool × Failure)
  workload_exists kind name namespace =
      let key : ObjectKey = record { namespace = namespace; name = name } in
      if kind == kind_deployment
      then get_existence deployment key
      else if kind == kind_stateful_set
      then get_existence stateful_set key
      else if kind == kind_daemon_set
      then get_existence daemon_set key
      else pure (false, some (errorf ("unsupported workload kind: " ∷ kind ∷ [])))
