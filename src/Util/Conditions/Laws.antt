-- ===== src/Util/Conditions/Laws.antt =====
-- Setting, getting and removing conditions.
use reloader_operator.Base.{
  String, true, false, List, [], ◌∷◌, Option, none, some, ◌==◌, ◌≡◌, refl, arith, eq_iff, eq_refl,
  if◌then◌else◌, All,
}
use reloader_operator.Api.{
  Time, Condition, ConditionStatus, condition_true, condition_false, condition_unknown,
}
use reloader_operator.Util.Conditions.{
  same_status, update_condition, set_condition, get_condition, is_condition_true,
  is_condition_false, remove_condition,
}

same_status_refl : (s : ConditionStatus) → same_status s s ≡ true
same_status_refl condition_true = refl
same_status_refl condition_false = refl
same_status_refl condition_unknown = refl

-- What a condition of the list becomes: it keeps its time of transition exactly if its status stays.
abbrev pub new_condition :
    Time → String → ConditionStatus → String → String → Option Condition → Condition
new_condition now kind status reason message none = record {
  condition_type = kind;
  status = status;
  observed_generation = 0;
  last_transition_time = now;
  reason = reason;
  message = message;
}
new_condition now kind status reason message (some c) = record {
  condition_type = kind;
  status = status;
  observed_generation = 0;
  last_transition_time = (if same_status c.status status then c.last_transition_time else now);
  reason = reason;
  message = message;
}

module _ (now : Time) (kind : String) (status : ConditionStatus) (reason message : String) where
  -- After a condition is set, the type that was set reads the new condition, whose time of transition
  -- is the old one exactly where the status did not change, and each other type reads as before.
  pub get_condition-set_condition :
      (conditions : List Condition) (other : String)
      → get_condition (set_condition now kind status reason message conditions) other ≡ (
          if kind == other
          then some (new_condition now kind status reason message (get_condition conditions kind))
          else get_condition conditions other)
  unfolding get_condition set_condition update_condition
  get_condition-set_condition [] other = ground (arith, eq_iff kind other)
  get_condition-set_condition (c ∷ cs) other = ground (
    arith,
    eq_iff kind other,
    eq_iff c.condition_type kind,
    eq_iff c.condition_type other,
    get_condition-set_condition cs other,
  )

  pub get_condition-set_self :
      (conditions : List Condition)
      → get_condition (set_condition now kind status reason message conditions) kind
        ≡ some (new_condition now kind status reason message (get_condition conditions kind))
  get_condition-set_self cs = rw (get_condition-set_condition cs kind, eq_refl kind) refl

  pub get_condition-set_ne :
      (conditions : List Condition) (other : String)
      → (kind == other) ≡ false
      → get_condition (set_condition now kind status reason message conditions) other
        ≡ get_condition conditions other
  get_condition-set_ne cs other h = rw (get_condition-set_condition cs other, h) refl

module _ (now : Time) (kind reason message : String) (conditions : List Condition) where
  new_status :
      (status : ConditionStatus) (o : Option Condition)
      → (new_condition now kind status reason message o).status ≡ status
  new_status status none = refl
  new_status status (some c) = refl

  pub is_condition_true-set_self :
      is_condition_true (set_condition now kind condition_true reason message conditions) kind
      ≡ true
  unfolding is_condition_true
  is_condition_true-set_self =
      rw
        (
          get_condition-set_self now kind condition_true reason message conditions,
          new_status condition_true (get_condition conditions kind),
        )
        refl

  pub is_condition_false-set_self :
      is_condition_false (set_condition now kind condition_false reason message conditions) kind
      ≡ true
  unfolding is_condition_false
  is_condition_false-set_self =
      rw
        (
          get_condition-set_self now kind condition_false reason message conditions,
          new_status condition_false (get_condition conditions kind),
        )
        refl

  module _ (status : ConditionStatus) (other : String) (differs : (kind == other) ≡ false) where
    pub is_condition_true-set_ne :
        is_condition_true (set_condition now kind status reason message conditions) other
        ≡ is_condition_true conditions other
    unfolding is_condition_true
    is_condition_true-set_ne =
        rw (get_condition-set_ne now kind status reason message conditions other differs) refl

    pub is_condition_false-set_ne :
        is_condition_false (set_condition now kind status reason message conditions) other
        ≡ is_condition_false conditions other
    unfolding is_condition_false
    is_condition_false-set_ne =
        rw (get_condition-set_ne now kind status reason message conditions other differs) refl

-- No condition of the list has the type.
abbrev pub Lacks : String → List Condition → Type 0
Lacks kind = All (λ c. (c.condition_type == kind) ≡ false)

-- Each type stands in the list once at most.
abbrev pub Unique : List Condition → Type 0
Unique [] = Unit
Unique (c ∷ cs) = Lacks c.condition_type cs × Unique cs

module _ (now : Time) (kind : String) (status : ConditionStatus) (reason message : String) where
  Lacks-set :
      (other : String) (conditions : List Condition)
      → (kind == other) ≡ false
      → Lacks other conditions
      → Lacks other (set_condition now kind status reason message conditions)
  unfolding set_condition update_condition
  Lacks-set other [] h l = (h, tt)
  Lacks-set other (c ∷ cs) h (l, ls) = ground (arith, Lacks-set other cs h ls)

  eq_sym_false : (a b : String) → (a == b) ≡ false → (b == a) ≡ false
  eq_sym_false a b h = ground (arith, eq_iff a b, eq_iff b a)

  -- Setting a condition never makes a second one of a type.
  pub set_condition-Unique :
      (conditions : List Condition)
      → Unique conditions
      → Unique (set_condition now kind status reason message conditions)
  unfolding set_condition update_condition
  set_condition-Unique [] u = (tt, tt)
  set_condition-Unique (c ∷ cs) (l, u) = ground (
    arith,
    set_condition-Unique cs u,
    Lacks-set c.condition_type cs,
    eq_sym_false c.condition_type kind,
  )

get-Lacks : (kind : String) (cs : List Condition) → Lacks kind cs → get_condition cs kind ≡ none
unfolding get_condition
get-Lacks kind [] l = refl
get-Lacks kind (c ∷ cs) (h, l) = rw h (get-Lacks kind cs l)

-- In a list with one condition of a type at most, a type that was removed is gone, and each other
-- type reads as before.
pub get_condition-remove_condition :
    (conditions : List Condition) (kind other : String)
    → Unique conditions
    → get_condition (remove_condition conditions kind) other
      ≡ (if kind == other then none else get_condition conditions other)
unfolding get_condition remove_condition
get_condition-remove_condition [] kind other u = ground arith
get_condition-remove_condition (c ∷ cs) kind other (l, u) = ground (
  arith,
  eq_iff kind other,
  eq_iff c.condition_type kind,
  eq_iff c.condition_type other,
  get-Lacks c.condition_type cs l,
  get_condition-remove_condition cs kind other u,
)
