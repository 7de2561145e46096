-- ===== src/Util/Conditions/Known.antt =====
-- The types of conditions that the operator sets.
use reloader_operator.Base.{String, List, [], ◌∷◌, ◌≡◌, ◌⊎◌, arith, All}
use reloader_operator.Api.{Time, Condition, ConditionStatus}
use reloader_operator.Util.Conditions.{
  condition_available, condition_progressing, condition_degraded, update_condition, set_condition,
}

abbrev pub IsConditionType : String → Type 0
IsConditionType kind =
    (kind ≡ condition_available) ⊎ (kind ≡ condition_progressing) ⊎ (kind ≡ condition_degraded)

abbrev pub AreKnown : List Condition → Type 0
AreKnown = All (λ c. IsConditionType c.condition_type)

module _ (now : Time) (kind : String) (status : ConditionStatus) (reason message : String) where
  pub set_condition-AreKnown :
      (conditions : List Condition)
      → IsConditionType kind
      → AreKnown conditions
      → AreKnown (set_condition now kind status reason message conditions)
  unfolding set_condition update_condition
  set_condition-AreKnown [] known k = (known, tt)
  set_condition-AreKnown (c ∷ cs) known (k, ks) =
      ground (arith, k, set_condition-AreKnown cs known ks)
