-- ===== src/Workload/Template/Collisions.antt =====
-- Two resources that share an environment variable.
use Prim.Native.String
use text.Mathlib.TextLemmas
use reloader_operator.Base.{String, Char, ◌≡◌, ◌∙◌, sym, ap, refl, concat, [], ◌∷◌}
use reloader_operator.Kube.{ok, PodTemplateSpec}
use reloader_operator.Util.Names.{env_var_prefix}
use reloader_operator.Util.EnvNames.{
  map_runes, to_upper, env_var_rune, convert_to_env_var_name, get_env_var_name,
}
use reloader_operator.Workload.Template.{set_first_env, apply_env_vars_strategy}
use reloader_operator.Workload.Template.Effects.{apply_env_vars_strategy_twice}

map_runes-append :
    (f : Char → Char) (s t : String)
    → map_runes f (String.◌++◌ s t) ≡ String.◌++◌ (map_runes f s) (map_runes f t)
map_runes-append f String.[] t =
    ap (map_runes f) (TextLemmas.nil-append t) ∙ sym (TextLemmas.nil-append (map_runes f t))
map_runes-append f (String.◌∷◌ c s) t =
    ap (map_runes f) (TextLemmas.cons-append c s t)
    ∙ (ap (String.◌∷◌ (f c)) (map_runes-append f s t)
        ∙ sym (TextLemmas.cons-append (f c) (map_runes f s) (map_runes f t)))

convert-append :
    (s t : String)
    → convert_to_env_var_name (String.◌++◌ s t)
      ≡ String.◌++◌ (convert_to_env_var_name s) (convert_to_env_var_name t)
unfolding convert_to_env_var_name to_upper
convert-append s t =
    ap (map_runes env_var_rune) (map_runes-append _ s t) ∙ map_runes-append env_var_rune _ _

same_mark : convert_to_env_var_name "-" ≡ convert_to_env_var_name "."
unfolding convert_to_env_var_name
same_mark = refl

same_name :
    (x y : String)
    → convert_to_env_var_name (String.◌++◌ x (String.◌++◌ "-" y))
      ≡ convert_to_env_var_name (String.◌++◌ x (String.◌++◌ "." y))
same_name x y =
    let tails =
      convert-append "-" y
      ∙ (ap (λ m. String.◌++◌ m (convert_to_env_var_name y)) same_mark
          ∙ sym (convert-append "." y)) in
    convert-append x _
    ∙ (ap (String.◌++◌ (convert_to_env_var_name x)) tails ∙ sym (convert-append x _))

module _ (kind x y : String) where
  abbrev dashed : String
  dashed = String.◌++◌ x (String.◌++◌ "-" y)

  abbrev dotted : String
  dotted = String.◌++◌ x (String.◌++◌ "." y)

  same_variable : get_env_var_name kind dashed ≡ get_env_var_name kind dotted
  unfolding get_env_var_name
  same_variable = ap (λ v. concat (env_var_prefix ∷ v ∷ "_" ∷ to_upper kind ∷ [])) (same_name x y)

  same_change :
      (hash : String) (t : PodTemplateSpec)
      → apply_env_vars_strategy kind dashed hash t ≡ apply_env_vars_strategy kind dotted hash t
  unfolding apply_env_vars_strategy
  same_change hash t = ap (λ v. set_first_env v hash t.spec.containers t) same_variable

  -- Two resources of a kind whose names differ only in that one has a dash where the other has a dot
  -- share their environment variable. So after a reload for the first, a reload for the second with the
  -- same hash is no error and leaves the pod template as it is.
  pub apply_env_vars_strategy-collision :
      (hash : String) (t t' : PodTemplateSpec)
      → apply_env_vars_strategy kind dashed hash t ≡ ok t'
      → (get_env_var_name kind dashed ≡ get_env_var_name kind dotted)
        × (apply_env_vars_strategy kind dotted hash t' ≡ ok t')
  apply_env_vars_strategy-collision hash t t' h = (
    same_variable,
    sym (same_change hash t') ∙ (apply_env_vars_strategy_twice kind dashed hash hash t t' h ∙ h),
  )
