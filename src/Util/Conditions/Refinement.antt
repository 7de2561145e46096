-- ===== src/Util/Conditions/Refinement.antt =====
-- The list of conditions as a map from types to conditions.
use reloader_operator.Base.{
  String, List, [], ◌∷◌, Option, none, some, ◌==◌, ◌≡◌, ◌∙◌, refl, arith, if◌then◌else◌,
}
use reloader_operator.Api.{Time, Condition, ConditionStatus}
use reloader_operator.Util.Conditions.{set_condition, get_condition, remove_condition}
use reloader_operator.Util.Conditions.Laws.{
  new_condition, get_condition-set_condition, get_condition-remove_condition, Lacks, Unique,
  set_condition-Unique,
}

-- The calls of `SetCondition`, each with the instant it reads, and of `RemoveCondition`.
pub data Change : Type 0 where
  setting : Time → String → ConditionStatus → String → String → Change
  removing : String → Change

abbrev pub change : Change → List Condition → List Condition
change (setting now kind status reason message) conditions =
    set_condition now kind status reason message conditions
change (removing kind) conditions = remove_condition conditions kind

abbrev pub change_all : List Change → List Condition → List Condition
change_all [] conditions = conditions
change_all (c ∷ changes) conditions = change_all changes (change c conditions)

-- The same calls on a map.
abbrev pub ConditionMap : Type 0
ConditionMap = String → Option Condition

abbrev pub map_change : Change → ConditionMap → ConditionMap
map_change (setting now kind status reason message) m other =
    if kind == other then some (new_condition now kind status reason message (m kind)) else m other
map_change (removing kind) m other = if kind == other then none else m other

abbrev pub map_change_all : List Change → ConditionMap → ConditionMap
map_change_all [] m = m
map_change_all (c ∷ changes) m = map_change_all changes (map_change c m)

Lacks-remove :
    (other kind : String) (conditions : List Condition)
    → Lacks other conditions
    → Lacks other (remove_condition conditions kind)
unfolding remove_condition
Lacks-remove other kind [] l = tt
Lacks-remove other kind (c ∷ cs) (h, l) = ground (arith, Lacks-remove other kind cs l)

remove_condition-Unique :
    (conditions : List Condition) (kind : String)
    → Unique conditions
    → Unique (remove_condition conditions kind)
unfolding remove_condition
remove_condition-Unique [] kind u = tt
remove_condition-Unique (c ∷ cs) kind (l, u) =
    ground (arith, remove_condition-Unique cs kind u, Lacks-remove c.condition_type kind cs l)

change-Unique :
    (c : Change) (conditions : List Condition) → Unique conditions → Unique (change c conditions)
change-Unique (setting now kind status reason message) conditions =
    set_condition-Unique now kind status reason message conditions
change-Unique (removing kind) conditions = remove_condition-Unique conditions kind

get_condition-change :
    (c : Change) (conditions : List Condition) (other : String)
    → Unique conditions
    → get_condition (change c conditions) other ≡ map_change c (get_condition conditions) other
get_condition-change (setting now kind status reason message) conditions other u =
    get_condition-set_condition now kind status reason message conditions other
get_condition-change (removing kind) conditions other u =
    get_condition-remove_condition conditions kind other u

-- The list of conditions implements a map from types to conditions. After any sequence of sets and
-- removals, from a list with one condition of each type at most, the list still has one at most, and
-- it reads at each type what the same sequence gives on the map: a set puts the new condition, whose
-- time of transition is the old one exactly where the status stays, and a removal takes it out.
pub conditions-refine :
    (changes : List Change) (conditions : List Condition)
    → Unique conditions
    → Unique (change_all changes conditions)
      × ((other : String)
          → get_condition (change_all changes conditions) other
            ≡ map_change_all changes (get_condition conditions) other)
conditions-refine [] conditions u = (u, λ other. refl)
conditions-refine (c ∷ changes) conditions u =
    let (unique, reads) =
      conditions-refine changes (change c conditions) (change-Unique c conditions u) in
    (
      unique,
      λ other. reads other ∙ (λ i.
          map_change_all changes (λ kind. get_condition-change c conditions kind u i) other),
    )
