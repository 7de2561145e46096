-- ===== src/Api.antt =====
-- api/v1alpha1/reloaderconfig_types.go: the ReloaderConfig resource. Instants are nanoseconds since
-- the zero instant of Go's `time.Time`, durations are signed nanoseconds.
use reloader_operator.Base.{ℕ, String, Bool, Option, List, StringMap, ◌+◌, ◌-◌, suc}
use reloader_operator.Kube.{LabelSelector}

abbrev pub Time : Type 0
Time = ℕ

-- `negsuc n` is -(n + 1) nanoseconds.
pub data Duration : Type 0 where
  pos : ℕ → Duration
  negsuc : ℕ → Duration

-- `Time.Add`; an instant before the zero instant is held at it.
unfoldable pub add_duration : Time → Duration → Time
add_duration t (pos n) = t + n
add_duration t (negsuc n) = t - suc n

pub record WatchedResources : Type 0 where
  pub secrets : List String
  pub config_maps : List String
  pub enable_targeted_reload : Bool
  pub namespace_selector : Option LabelSelector
  pub resource_selector : Option LabelSelector

pub record TargetWorkload : Type 0 where
  pub kind : String
  pub name : String
  pub namespace : String
  pub rollout_strategy : String
  pub reload_strategy : String
  pub pause_period : String
  pub require_reference : Bool

pub record ResourceReference : Type 0 where
  pub kind : String
  pub name : String
  pub namespace : String

pub record ReloaderConfigSpec : Type 0 where
  pub watched_resources : Option WatchedResources
  pub targets : List TargetWorkload
  pub rollout_strategy : String
  pub reload_strategy : String
  pub auto_reload_all : Bool
  pub ignore_resources : List ResourceReference
  pub match_labels : StringMap

-- `metav1.ConditionStatus`
pub data ConditionStatus : Type 0 where
  condition_true condition_false condition_unknown : ConditionStatus

-- `metav1.Condition`
pub record Condition : Type 0 where
  pub condition_type : String
  pub status : ConditionStatus
  pub observed_generation : ℕ
  pub last_transition_time : Time
  pub reason : String
  pub message : String

pub record TargetWorkloadStatus : Type 0 where
  pub kind : String
  pub name : String
  pub namespace : String
  pub last_reload_time : Option Time
  pub reload_count : ℕ
  pub paused_until : Option Time
  pub last_error : String

-- The counters are the bit patterns of `int64` values.
pub record ReloaderConfigStatus : Type 0 where
  pub conditions : List Condition
  pub last_reload_time : Option Time
  pub watched_resource_hashes : StringMap
  pub reload_count : ℕ
  pub target_status : List TargetWorkloadStatus
  pub observed_generation : ℕ

pub record ReloaderConfig : Type 0 where
  pub name : String
  pub namespace : String
  pub generation : ℕ
  pub annotations : StringMap
  pub spec : ReloaderConfigSpec
  pub status : ReloaderConfigStatus
