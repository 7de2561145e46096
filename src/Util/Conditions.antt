-- ===== src/Util/Conditions.antt =====
-- internal/pkg/util/conditions.go: the list of conditions in a status. `now` is the instant that the
-- call reads from the clock.
pub mod Known
pub mod Refinement
pub mod Laws
use reloader_operator.Base.{
  String, Bool, true, false, List, [], ◌∷◌, Option, none, some, ◌==◌, if◌then◌else◌,
}
use reloader_operator.Api.{
  Time, Condition, ConditionStatus, condition_true, condition_false, condition_unknown,
}

abbrev pub condition_available : String
condition_available = "Available"

abbrev pub condition_progressing : String
condition_progressing = "Progressing"

abbrev pub condition_degraded : String
condition_degraded = "Degraded"

abbrev pub reason_reconciled : String
reason_reconciled = "Reconciled"

abbrev pub reason_reconciling : String
reason_reconciling = "Reconciling"

abbrev pub reason_resource_not_found : String
reason_resource_not_found = "ResourceNotFound"

abbrev pub reason_target_not_found : String
reason_target_not_found = "TargetNotFound"

-- `==` on statuses
abbrev pub same_status : ConditionStatus → ConditionStatus → Bool
same_status condition_true condition_true = true
same_status condition_false condition_false = true
same_status condition_unknown condition_unknown = true
same_status _ _ = false

-- The update of the condition that the loop found.
unfoldable pub update_condition : Time → ConditionStatus → String → String → Condition → Condition
update_condition now status reason message c = record c {
  status = status;
  last_transition_time = (if same_status c.status status then c.last_transition_time else now);
  reason = reason;
  message = message;
  observed_generation = 0;
}

module _ (now : Time) (kind : String) (status : ConditionStatus) (reason message : String) where
  unfoldable pub set_condition : List Condition → List Condition
  unfolding update_condition
  set_condition [] =
      record {
        condition_type = kind;
        status = status;
        observed_generation = 0;
        last_transition_time = now;
        reason = reason;
        message = message;
      }
      ∷ []
  set_condition (c ∷ conditions) =
      if c.condition_type == kind
      then update_condition now status reason message c ∷ conditions
      else c ∷ set_condition conditions

unfoldable pub get_condition : List Condition → String → Option Condition
get_condition [] kind = none
get_condition (c ∷ conditions) kind =
    if c.condition_type == kind then some c else get_condition conditions kind

abbrev pub status_is : ConditionStatus → Option Condition → Bool
status_is s none = false
status_is s (some c) = same_status c.status s

unfoldable pub is_condition_true : List Condition → String → Bool
unfolding get_condition
is_condition_true conditions kind = status_is condition_true (get_condition conditions kind)

unfoldable pub is_condition_false : List Condition → String → Bool
unfolding get_condition
is_condition_false conditions kind = status_is condition_false (get_condition conditions kind)

-- The first condition of the type is cut out.
unfoldable pub remove_condition : List Condition → String → List Condition
remove_condition [] kind = []
remove_condition (c ∷ conditions) kind =
    if c.condition_type == kind then conditions else c ∷ remove_condition conditions kind
