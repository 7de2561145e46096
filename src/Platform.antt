-- ===== src/Platform.antt =====
-- What the operator runs on and its repository does not hold: the client of the Kubernetes API, the
-- work queue, the clock, the HTTP client, SHA-256, JSON and the time formats. A `Platform` is a
-- parameter of the model. Its `World` is all that these parts keep; each call may change it, so other
-- controllers and users may act between any two calls of the operator.
pub mod Quiet
use reloader_operator.Base.{
  ℕ, String, Bool, true, false, Option, none, some, List, [], ◌∷◌, StringMap,
}
use reloader_operator.Kube.{
  Result, ok, err, Failure, Bytes, ObjectKey, Object, Workload, WorkloadType, Pod, Secret,
  ConfigMap,
}
use reloader_operator.Api.{Time, Duration, ReloaderConfig}
use reloader_operator.Util.Sources.{ReloadSource}
use reloader_operator.Alerts.Slack.{SlackPayload}
use reloader_operator.Alerts.Teams.{TeamsPayload}
use reloader_operator.Alerts.GoogleChat.{GoogleChatPayload}
use reloader_operator.Controller.WorkItem.{StatusUpdateWorkItem}

-- A label selector of `k8s.io/apimachinery/pkg/labels`: `Empty()`, and `Matches` at a set of labels.
pub record Selector : Type 0 where
  pub is_empty : Bool
  pub matches : StringMap → Bool

-- What the senders of alerts hand to `json.Marshal`.
pub data Payload : Type 0 where
  for_slack : SlackPayload → Payload
  for_teams : TeamsPayload → Payload
  for_google_chat : GoogleChatPayload → Payload

pub record Platform : Type 1 where
  pub World : Type 0
  -- `client.Get` at each type of object; a namespace is read for its labels.
  pub get_config : ObjectKey → World → Result ReloaderConfig × World
  pub get_secret : ObjectKey → World → Result Secret × World
  pub get_config_map : ObjectKey → World → Result ConfigMap × World
  pub get_workload : WorkloadType → ObjectKey → World → Result Workload × World
  pub get_namespace_labels : String → World → Result StringMap × World
  -- `client.List` in a namespace; pods by their labels too.
  pub list_configs : String → World → Result (List ReloaderConfig) × World
  pub list_workloads : WorkloadType → String → World → Result (List Workload) × World
  pub list_pods : String → StringMap → World → Result (List Pod) × World
  -- `client.Update`, `Status().Update` and `client.Delete`
  pub update : Object → World → Failure × World
  pub update_status : ReloaderConfig → World → Failure × World
  pub delete_pod : Pod → World → Failure × World
  -- The work queue: `Add`, `Get` (`none` is a shutdown), `NumRequeues`, `AddRateLimited`, `Forget`, `Done`
  pub queue_add : StatusUpdateWorkItem → World → World
  pub queue_get : World → Option StatusUpdateWorkItem × World
  pub queue_num_requeues : StatusUpdateWorkItem → World → ℕ × World
  pub queue_add_rate_limited : StatusUpdateWorkItem → World → World
  pub queue_forget : StatusUpdateWorkItem → World → World
  pub queue_done : StatusUpdateWorkItem → World → World
  -- `client.Do` at a POST of a body to a URL, with the status of the answer, and `time.Now`
  pub do_request : String → String → World → Result ℕ × World
  pub now : World → Time × World
  -- Pure functions of libraries: the hash in hexadecimal, `json.Marshal` of a reload source,
  -- `time.ParseDuration`, and `Format` and `Parse` at RFC 3339.
  pub sha256 : Bytes → String
  pub marshal_reload_source : ReloadSource → Result String
  -- `json.Marshal` of a payload, and the error of `http.NewRequestWithContext` at a URL and a body.
  pub marshal_payload : Payload → Result String
  pub new_request : String → String → Failure
  pub parse_duration : String → Result Duration
  pub format_time : Time → String
  pub parse_time : String → Result Time

-- The calls of the operator that leave a mark outside it.
pub data Call : Type 0 where
  updated : Object → Call
  updated_status : ReloaderConfig → Call
  deleted_pod : Pod → Call
  enqueued : StatusUpdateWorkItem → Call
  requeued : StatusUpdateWorkItem → Call
  forgot : StatusUpdateWorkItem → Call
  finished : StatusUpdateWorkItem → Call
  posted : String → String → Call

-- The world, and the calls that the operator has made, the latest first.
pub record State (W : Type 0) : Type 0 where
  pub world : W
  pub calls : List Call

-- The last call that was made.
abbrev pub latest : List Call → Option Call
latest [] = none
latest (c ∷ calls) = some c

-- An action reads and changes the state.
abbrev pub M : Type 0 → Type 0 → Type 0
M W A = State W → A × State W

module _ {W : Type 0} where
  abbrev pub pure : {A : Type 0} → A → M W A
  pure a s = (a, s)

  infixl 5 ◌>>=◌ ◌>>◌
  abbrev pub ◌>>=◌ : {A B : Type 0} → M W A → (A → M W B) → M W B
  ◌>>=◌ m f s = f (m s).0 (m s).1

  abbrev pub ◌>>◌ : {A B : Type 0} → M W A → M W B → M W B
  ◌>>◌ m k s = k (m s).1

  -- `if err != nil { return …, err }`, and else the rest
  abbrev pub on_ok : {A B : Type 0} → Result A → (A → M W (Result B)) → M W (Result B)
  on_ok (ok a) f s = f a s
  on_ok (err e) f s = (err e, s)

  -- The same where the function returns only an error.
  abbrev pub or_fail : {A : Type 0} → Result A → (A → M W Failure) → M W Failure
  or_fail (ok a) f s = f a s
  or_fail (err e) f s = (some e, s)

  -- The same after a call that returns only an error.
  abbrev pub unless_failed : Failure → M W Failure → M W Failure
  unless_failed none k s = k s
  unless_failed (some e) k s = (some e, s)

  -- A call that leaves no mark.
  abbrev pub read : {A : Type 0} → (W → A × W) → M W A
  read f s = ((f s.world).0, record s { world = (f s.world).1 })

  -- A call that leaves one.
  abbrev pub write : {A : Type 0} → Call → (W → A × W) → M W A
  write c f s = ((f s.world).0, record { world = (f s.world).1; calls = c ∷ s.calls })

  -- A call that leaves one and returns nothing.
  abbrev pub signal : Call → (W → W) → M W (Unit {0})
  signal c f s = (tt, record { world = f s.world; calls = c ∷ s.calls })

  -- `if b { … }`
  abbrev pub when : Bool → M W (Unit {0}) → M W (Unit {0})
  when true m s = m s
  when false m s = (tt, s)
