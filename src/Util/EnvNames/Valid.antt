-- ===== src/Util/EnvNames/Valid.antt =====
-- The names of the variables are valid names.
use Prim.Native.String
use text.Mathlib.TextLemmas
use reloader_operator.Base.{
  String, Char, code, Bool, true, ◌≡◌, ◌∙◌, ◌⊎◌, inl, inr, refl, ap, arith, ◌||◌, ◌&&◌, leb, nat_eq,
  eq_iff, Bool-cases,
}
use reloader_operator.Util.Names.{
  kind_secret, kind_config_map, env_var_prefix, is_supported_resource_kind,
}
use reloader_operator.Util.EnvNames.{
  env_var_rune, map_runes, to_upper, convert_to_env_var_name, get_env_var_name,
}

-- A character of a variable's name: an upper case letter, a digit or "_".
unfoldable pub is_env_char : Char → Bool
is_env_char c =
    let r = code c in (leb b'A' r && leb r b'Z') || (leb b'0' r && leb r b'9') || nat_eq r b'_'

unfoldable pub is_env_name : String → Bool
is_env_name String.[] = true
is_env_name (String.◌∷◌ c s) = is_env_char c && is_env_name s

is_env_char-env_var_rune : (c : Char) → is_env_char (env_var_rune c) ≡ true
unfolding is_env_char env_var_rune
is_env_char-env_var_rune c = elim (Bool-cases (is_env_char c)) [
  | inl e ↦ rw e e
  | inr e ↦ rw e refl
]

is_env_name-map_runes : (s : String) → is_env_name (map_runes env_var_rune s) ≡ true
unfolding is_env_name
is_env_name-map_runes String.[] = refl
is_env_name-map_runes (String.◌∷◌ c s) =
    rw (is_env_char-env_var_rune c, is_env_name-map_runes s) refl

is_env_name-append :
    (s t : String)
    → is_env_name s ≡ true
    → is_env_name t ≡ true
    → is_env_name (String.◌++◌ s t) ≡ true
unfolding is_env_name
is_env_name-append String.[] t h k = ap is_env_name (TextLemmas.nil-append t) ∙ k
is_env_name-append (String.◌∷◌ c s) t h k =
    ap is_env_name (TextLemmas.cons-append c s t) ∙ ground (arith, is_env_name-append s t)

supported_cases :
    (kind : String)
    → is_supported_resource_kind kind ≡ true
    → (kind ≡ kind_secret) ⊎ (kind ≡ kind_config_map)
unfolding is_supported_resource_kind
supported_cases kind h = ground (arith, eq_iff kind kind_secret, eq_iff kind kind_config_map)

upper_kind :
    (kind : String) → is_supported_resource_kind kind ≡ true → is_env_name (to_upper kind) ≡ true
unfolding is_env_name is_env_char to_upper
upper_kind kind h = elim (supported_cases kind h) [ inl e ↦ rw e refl | inr e ↦ rw e refl ]

prefix_valid : is_env_name env_var_prefix ≡ true
unfolding is_env_name is_env_char
prefix_valid = refl

underscore_valid : is_env_name "_" ≡ true
unfolding is_env_name is_env_char
underscore_valid = refl

-- The name of the variable for a Secret or a ConfigMap has upper case letters, digits and "_" only,
-- whatever the characters of the resource's name are.
pub get_env_var_name-valid :
    (kind name : String)
    → is_supported_resource_kind kind ≡ true
    → is_env_name (get_env_var_name kind name) ≡ true
unfolding get_env_var_name convert_to_env_var_name
get_env_var_name-valid kind name h = is_env_name-append env_var_prefix _ prefix_valid (
    is_env_name-append (convert_to_env_var_name name) _ (is_env_name-map_runes (to_upper name)) (
      is_env_name-append "_" _ underscore_valid
        (ap is_env_name (TextLemmas.append-nil (to_upper kind)) ∙ upper_kind kind h)))
