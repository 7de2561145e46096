-- ===== src/Tests/Discovery.antt =====
-- A discovery on the sample cluster, and a series of conditions.
use reloader_operator.Base.{String, List, [], ◌∷◌, ◌≡◌}
use reloader_operator.Api.{condition_true, condition_false}
use reloader_operator.Util.Conditions.{get_condition}
use reloader_operator.Util.Conditions.Laws.{Unique}
use reloader_operator.Util.Conditions.Refinement.{
  Change, setting, removing, change_all, map_change_all, conditions-refine,
}

abbrev changes : List Change
changes =
    setting 100 "Available" condition_true "Reconciled" ""
    ∷ setting 110 "Degraded" condition_false "Reconciled" ""
    ∷ setting 120 "Available" condition_false "TargetNotFound" ""
    ∷ removing "Degraded"
    ∷ []

conditions-refine_example :
    Unique (change_all changes [])
    × ((other : String)
        → get_condition (change_all changes []) other
          ≡ map_change_all changes (get_condition []) other)
conditions-refine_example = conditions-refine changes [] tt
