-- ===== src/Controller/ConfigReconcile/Keeps.antt =====
-- What the reconciliation of a ReloaderConfig keeps true of a status.
use reloader_operator.Base.{
  String, Bool, true, false, none, some, List, [], ◌∷◌, inl, inr, ◌≡◌, refl, Bool-cases,
  Option-cases, assign-DistinctKeys, made-DistinctKeys,
}
use reloader_operator.Kube.{Result, ok, err, Failure, Secret, ConfigMap}
use reloader_operator.Api.{
  Time, ReloaderConfig, ReloaderConfigStatus, TargetWorkload, ConditionStatus,
}
use reloader_operator.Platform.{Platform, State}
use reloader_operator.Util.Strategies.{get_default_namespace}
use reloader_operator.Util.Conditions.{set_condition}
use reloader_operator.Util.Conditions.Laws.{set_condition-Unique}
use reloader_operator.Util.Conditions.Known.{IsConditionType, set_condition-AreKnown}
use reloader_operator.Util.Workloads.{workload_exists}
use reloader_operator.Controller.Status.WellFormed.{WellFormed}
use reloader_operator.Controller.ConfigReconcile.{
  put_hash, is_missing, put_condition, note_secret, initialize_watched_secrets, note_config_map,
  initialize_watched_config_maps, note_target, validate_target_workloads, initialize_watched,
  note_validity, reconciled_status,
}

-- What stays true when a condition is set, a hash is put, the table of hashes is made or the generation
-- is noted.
pub record Closed (Q : ReloaderConfigStatus → Type 0) : Type 0 where
  condition :
      (now : Time) (kind : String) (value : ConditionStatus) (reason message : String)
      (status : ReloaderConfigStatus)
      → IsConditionType kind
      → Q status
      → Q (record status {
        conditions = set_condition now kind value reason message status.conditions;
      })
  hash :
      (key hash : String) (status : ReloaderConfigStatus) → Q status → Q (put_hash key hash status)
  made :
      (status : ReloaderConfigStatus)
      → Q status
      → Q (record status {
        watched_resource_hashes = (elim status.watched_resource_hashes [
          | none ↦ some []
          | some m ↦ some m
        ]);
      })
  generation :
      (config : ReloaderConfig) (status : ReloaderConfigStatus)
      → Q status
      → Q (record status { observed_generation = config.generation })

module _ (p : Platform) (Q : ReloaderConfigStatus → Type 0) (closed : Closed Q) where
  put_condition-keeps :
      (kind : String) (value : ConditionStatus) (reason message : String)
      (status : ReloaderConfigStatus) (s : State p.World)
      → IsConditionType kind
      → Q status
      → Q (put_condition p kind value reason message status s).0
  unfolding put_condition
  put_condition-keeps kind value reason message status s known q =
      closed.condition _ kind value reason message status known q

  secrets-keep :
      (namespace : String) (names : List String) (status : ReloaderConfigStatus) (s : State p.World)
      → Q status
      → Q (initialize_watched_secrets p namespace names status s).0
  unfolding initialize_watched_secrets
  secrets-keep namespace [] status s q = q
  secrets-keep namespace (n ∷ ns) status s q = secrets-keep namespace ns _ _ (noted _ _)
    where
      noted :
          (fetched : Result Secret) (s' : State p.World) → Q (note_secret p n fetched status s').0
      noted (ok x) s' = unfold note_secret in closed.hash _ _ status q
      noted (err e) s' =
          unfold note_secret in put_condition-keeps _ _ _ _ status s' (inr (inr refl)) q

  config_maps-keep :
      (namespace : String) (names : List String) (status : ReloaderConfigStatus) (s : State p.World)
      → Q status
      → Q (initialize_watched_config_maps p namespace names status s).0
  unfolding initialize_watched_config_maps
  config_maps-keep namespace [] status s q = q
  config_maps-keep namespace (n ∷ ns) status s q = config_maps-keep namespace ns _ _ (noted _ _)
    where
      noted :
          (fetched : Result ConfigMap) (s' : State p.World)
          → Q (note_config_map p n fetched status s').0
      noted (ok x) s' = unfold note_config_map in closed.hash _ _ status q
      noted (err e) s' =
          unfold note_config_map in put_condition-keeps _ _ _ _ status s' (inr (inr refl)) q

  watched-keeps :
      (config : ReloaderConfig) (status : ReloaderConfigStatus) (s : State p.World)
      → Q status
      → Q (initialize_watched p config status s).0
  unfolding initialize_watched
  watched-keeps config status s q = elim (Option-cases config.spec.watched_resources) [
    | inl e ↦ rw e q
    | inr (r, e) ↦ rw e (
        config_maps-keep config.namespace r.config_maps _ _
          (secrets-keep config.namespace r.secrets status s q))
  ]

  note_target-keeps :
      (target : TargetWorkload) (found : Bool × Failure) (status : ReloaderConfigStatus)
      (valid : Bool) (s : State p.World)
      → Q status
      → Q (note_target p target found status valid s).0.1
  unfolding note_target
  note_target-keeps target found status valid s q = elim (Bool-cases (is_missing found)) [
    | inl e ↦ rw e (put_condition-keeps _ _ _ _ status s (inr (inr refl)) q)
    | inr e ↦ rw e q
  ]

  targets-keep :
      (namespace : String) (targets : List TargetWorkload) (valid : Bool)
      (status : ReloaderConfigStatus) (s : State p.World)
      → Q status
      → Q (validate_target_workloads p namespace targets valid status s).0.1
  unfolding validate_target_workloads
  targets-keep namespace [] valid status s q = q
  targets-keep namespace (t ∷ ts) valid status s q =
      let (found, s') =
        workload_exists p t.kind t.name (get_default_namespace t.namespace namespace) s in
      targets-keep namespace ts _ _ _ (note_target-keeps t found status valid s' q)

  validity-keeps :
      (valid : Bool) (status : ReloaderConfigStatus) (s : State p.World)
      → Q status
      → Q (note_validity p valid status s).0
  unfolding note_validity
  validity-keeps false status s q = q
  validity-keeps true status s q =
      put_condition-keeps _ _ _ _ _ _ (inr (inr refl))
        (put_condition-keeps _ _ _ _ status s (inl refl) q)

  -- What is closed under these changes is kept by the reconciliation.
  pub reconciled_status-keeps :
      (config : ReloaderConfig) (s : State p.World)
      → Q config.status
      → Q (reconciled_status p config s).0
  unfolding reconciled_status
  reconciled_status-keeps config s q =
      let q₁ = put_condition-keeps _ _ _ _ _ s (inr (inl refl)) (closed.made config.status q) in
      let q₂ = watched-keeps config _ _ q₁ in
      let q₃ = targets-keep config.namespace config.spec.targets true _ _ q₂ in
      put_condition-keeps _ _ _ _ _ _ (inr (inl refl))
        (validity-keeps _ _ _ (closed.generation config _ q₃))

pub WellFormed-Closed : Closed WellFormed
WellFormed-Closed = record {
  condition = λ now kind value reason message status known w. record {
    conditions = set_condition-Unique now kind value reason message status.conditions w.conditions;
    known = set_condition-AreKnown now kind value reason message status.conditions known w.known;
    hashes = w.hashes;
    entries = w.entries;
    counts = w.counts;
    count = w.count;
  };
  hash = λ key hash status w. record {
    conditions = w.conditions;
    known = w.known;
    hashes = assign-DistinctKeys key hash status.watched_resource_hashes w.hashes;
    entries = w.entries;
    counts = w.counts;
    count = w.count;
  };
  made = λ status w. record {
    conditions = w.conditions;
    known = w.known;
    hashes = made-DistinctKeys status.watched_resource_hashes w.hashes;
    entries = w.entries;
    counts = w.counts;
    count = w.count;
  };
  generation = λ config status w. record {
    conditions = w.conditions;
    known = w.known;
    hashes = w.hashes;
    entries = w.entries;
    counts = w.counts;
    count = w.count;
  };
}

-- The reloads that a status has noted.
abbrev pub NotesReloadsOf : ReloaderConfigStatus → ReloaderConfigStatus → Type 0
NotesReloadsOf old status =
    (status.reload_count ≡ old.reload_count)
    × (status.last_reload_time ≡ old.last_reload_time)
    × (status.target_status ≡ old.target_status)

NotesReloadsOf-Closed : (old : ReloaderConfigStatus) → Closed (NotesReloadsOf old)
NotesReloadsOf-Closed old = record {
  condition = λ now kind value reason message status known q. q;
  hash = λ key hash status q. q;
  made = λ status q. q;
  generation = λ config status q. q;
}

-- The reconciliation leaves the counts, the entries and the time of the last reload as they are.
pub reconciled_status-NotesReloadsOf :
    (p : Platform) (config : ReloaderConfig) (s : State p.World)
    → NotesReloadsOf config.status (reconciled_status p config s).0
reconciled_status-NotesReloadsOf p config s =
    reconciled_status-keeps p (NotesReloadsOf config.status) (NotesReloadsOf-Closed config.status)
      config s (refl, refl, refl)
