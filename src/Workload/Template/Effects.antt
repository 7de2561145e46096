-- ===== src/Workload/Template/Effects.antt =====
-- What a reload changes in a pod template, and what it leaves.
use reloader_operator.Base.{
  String, Option, none, some, List, [], ◌∷◌, ◌==◌, ◌≡◌, ◌≢◌, ◌↔◌, refl, arith, eq_iff, eq_refl,
  if◌then◌else◌, lookup, lookup-assign, lookup-delete, All, ◌++◌, Bool-cases, inl, inr,
}
use reloader_operator.Kube.{GoError, ok, err, EnvVar, Container, PodTemplateSpec}
use reloader_operator.Util.Names.{annotation_last_reload, annotation_last_reloaded_from}
use reloader_operator.Util.EnvNames.{get_env_var_name}
use reloader_operator.Workload.Template.{
  set_env, set_first_env, apply_env_vars_strategy, apply_annotations_strategy,
  apply_delete_annotations_strategy,
}

-- The value of the first variable of a name.
abbrev pub env_value : String → List EnvVar → Option String
env_value name [] = none
env_value name (e ∷ env) = if e.name == name then some e.value else env_value name env

env_value-set_env :
    (name value other : String) (env : List EnvVar)
    → env_value other (set_env name value env)
      ≡ (if name == other then some value else env_value other env)
unfolding set_env
env_value-set_env name value other [] = refl
env_value-set_env name value other (e ∷ env) = ground (
  arith,
  eq_iff name other,
  eq_iff e.name name,
  eq_iff e.name other,
  env_value-set_env name value other env,
)

set_env-set_env :
    (name v w : String) (env : List EnvVar)
    → set_env name w (set_env name v env) ≡ set_env name w env
unfolding set_env
set_env-set_env name v w [] = rw (eq_refl name) refl
set_env-set_env name v w (e ∷ env) =
    ground (arith, eq_iff e.name name, set_env-set_env name v w env)

-- No variable of the list has the name.
abbrev pub NoneNamed : String → List EnvVar → Type 0
NoneNamed name = All (λ e. e.name ≢ name)

-- The second list is the first one with the value of the first variable of the name replaced, and
-- nothing else of that variable; or, where no variable has the name, with a variable put at its end.
pub data IsMarked (name value : String) : List EnvVar → List EnvVar → Type 0 where
  replaced :
      (before : List EnvVar) (e : EnvVar) (after : List EnvVar)
      → NoneNamed name before
      → e.name ≡ name
      → IsMarked name value (before ++ (e ∷ after)) (before ++ (record e { value = value } ∷ after))
  appended :
      (env : List EnvVar)
      → NoneNamed name env
      → IsMarked name value env
          (env ++ (record { name = name; value = value; value_from = none } ∷ []))

IsMarked-cons :
    (name value : String) (e : EnvVar) (env env' : List EnvVar)
    → e.name ≢ name
    → IsMarked name value env env'
    → IsMarked name value (e ∷ env) (e ∷ env')
IsMarked-cons name value e _ _ n (replaced before x after h same) =
    replaced (e ∷ before) x after (n, h) same
IsMarked-cons name value e _ _ n (appended env h) = appended (e ∷ env) (n, h)

set_env-IsMarked :
    (name value : String) (env : List EnvVar) → IsMarked name value env (set_env name value env)
unfolding set_env
set_env-IsMarked name value [] = appended [] tt
set_env-IsMarked name value (e ∷ env) = elim (Bool-cases (e.name == name)) [
  | inl h ↦ rw h (replaced [] e env tt ((eq_iff e.name name).0 h))
  | inr h ↦ rw h (
      IsMarked-cons name value e env _ (λ q. ground (arith, eq_iff e.name name))
        (set_env-IsMarked name value env))
]

-- The two templates differ at most in the variables of the first container, where `name` is marked
-- with `value`.
pub record MarksFirst (name value : String) (t t' : PodTemplateSpec) : Type 0 where
  pub first : Container
  pub others : List Container
  pub before : t.spec.containers ≡ first ∷ others
  pub env : List EnvVar
  pub after : t'.spec.containers ≡ record first { env = env } ∷ others
  pub reads :
      (other : String)
      → env_value other env ≡ (if name == other then some value else env_value other first.env)
  pub marked : IsMarked name value first.env env
  pub init : t'.spec.init_containers ≡ t.spec.init_containers
  pub volumes : t'.spec.volumes ≡ t.spec.volumes

module _ (kind name : String) where
  set_first_env-MarksFirst :
      (variable value : String) (t t' : PodTemplateSpec) (cs : List Container)
      → t.spec.containers ≡ cs
      → set_first_env variable value cs t ≡ ok t'
      → MarksFirst variable value t t' × (t'.annotations ≡ t.annotations)
  unfolding set_first_env
  set_first_env-MarksFirst variable value t t' [] same h = absurd (ground arith)
  set_first_env-MarksFirst variable value t t' (c ∷ cs) same h = (
    record {
      first = c;
      others = cs;
      before = same;
      env = set_env variable value c.env;
      after = ground arith;
      reads = λ other. env_value-set_env variable value other c.env;
      marked = set_env-IsMarked variable value c.env;
      init = ground arith;
      volumes = ground arith;
    },
    ground arith,
  )

  -- The env-vars strategy writes the hash to the variable of the resource in the first container, and
  -- changes nothing else: no other variable, no second variable of the name, nothing but the value where
  -- the variable was there, no other container, no volume, no annotation.
  pub apply_env_vars_strategy-MarksFirst :
      (hash : String) (t t' : PodTemplateSpec)
      → apply_env_vars_strategy kind name hash t ≡ ok t'
      → MarksFirst (get_env_var_name kind name) hash t t' × (t'.annotations ≡ t.annotations)
  unfolding apply_env_vars_strategy
  apply_env_vars_strategy-MarksFirst hash t t' h =
      set_first_env-MarksFirst (get_env_var_name kind name) hash t t' t.spec.containers refl h

  set_first_env-fails_iff :
      (variable hash : String) (cs : List Container) (t : PodTemplateSpec)
      → ((e : GoError) × (set_first_env variable hash cs t ≡ err e)) ↔ (cs ≡ [])
  unfolding set_first_env
  set_first_env-fails_iff variable hash [] t = (λ _. refl, λ _. (_, refl))
  set_first_env-fails_iff variable hash (c ∷ cs) t = (λ (e, q). cc, λ q. absurd (ground arith))

  -- The strategy fails exactly on a template without containers.
  pub apply_env_vars_strategy-fails_iff :
      (hash : String) (t : PodTemplateSpec)
      → ((e : GoError) × (apply_env_vars_strategy kind name hash t ≡ err e))
        ↔ (t.spec.containers ≡ [])
  unfolding apply_env_vars_strategy
  apply_env_vars_strategy-fails_iff hash t =
      set_first_env-fails_iff (get_env_var_name kind name) hash t.spec.containers t

  set_first_env_twice :
      (variable v w : String) (t t' : PodTemplateSpec) (cs : List Container)
      → t.spec.containers ≡ cs
      → set_first_env variable v cs t ≡ ok t'
      → set_first_env variable w t'.spec.containers t'
        ≡ set_first_env variable w t.spec.containers t
  unfolding set_first_env
  set_first_env_twice variable v w t t' [] same h = absurd (ground arith)
  set_first_env_twice variable v w t t' (c ∷ cs) same h =
      ground (arith, set_env-set_env variable v w c.env)

  -- A second reload overwrites the mark of the first: the template is the one that the second reload
  -- alone would have made.
  pub apply_env_vars_strategy_twice :
      (hash hash' : String) (t t' : PodTemplateSpec)
      → apply_env_vars_strategy kind name hash t ≡ ok t'
      → apply_env_vars_strategy kind name hash' t' ≡ apply_env_vars_strategy kind name hash' t
  unfolding apply_env_vars_strategy
  apply_env_vars_strategy_twice hash hash' t t' h =
      set_first_env_twice (get_env_var_name kind name) hash hash' t t' t.spec.containers refl h

-- The annotations strategy writes the time and the source, and leaves the pods' spec and every other
-- annotation; after a deletion the time is written and the source is gone.
pub apply_annotations_strategies :
    (timestamp source : String) (t : PodTemplateSpec) (other : String)
    → (lookup other (apply_annotations_strategy timestamp source t).annotations ≡ (
        if annotation_last_reloaded_from == other
        then some source
        else if annotation_last_reload == other
        then some timestamp
        else lookup other t.annotations))
      × (lookup other (apply_delete_annotations_strategy timestamp t).annotations ≡ (
          if annotation_last_reloaded_from == other
          then none
          else if annotation_last_reload == other
          then some timestamp
          else lookup other t.annotations))
      × ((apply_annotations_strategy timestamp source t).spec ≡ t.spec)
      × ((apply_delete_annotations_strategy timestamp t).spec ≡ t.spec)
unfolding apply_annotations_strategy apply_delete_annotations_strategy
apply_annotations_strategies timestamp source t other =
    (simp lookup-assign, simp (lookup-delete, lookup-assign), refl, refl)
