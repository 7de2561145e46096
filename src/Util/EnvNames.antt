-- ===== src/Util/EnvNames.antt =====
-- internal/pkg/util/helpers.go: the names of the environment variables that mark a reload.
pub mod Valid
use Prim.Native.Char.{char, IsScalar}
use mathlib.Core.Logic.{dite}
use native.Mathlib.Decide.{dec_lt}
use reloader_operator.Base.{
  String, Char, code, [], ◌∷◌, ◌||◌, ◌&&◌, nat_eq, leb, if◌then◌else◌, ℕ, ◌-◌, ◌<◌, ◌≡◌, refl,
  concat, arith,
}
use reloader_operator.Util.Names.{env_var_prefix}

pub below_surrogates : (n : ℕ) → n < 55296 → IsScalar n
below_surrogates n h = ground (arith, (λ (p : n < 55296). p) h)

-- The character with a number below the surrogates.
unfoldable pub of_code : ℕ → Char
unfolding dec_lt
of_code n = dite (dec_lt n 55296) (λ h. char n (below_surrogates n h)) (λ _. "?")

-- `unicode.ToUpper` on the letters whose upper case is an ASCII letter: a-z, U+0131 and U+017F. Any
-- other character is left as it is; where it is no ASCII letter, its upper case is none either.
unfoldable pub to_upper_rune : Char → Char
unfolding of_code
to_upper_rune c =
    let n = code c in
    if leb b'a' n && leb n b'z'
    then of_code (n - 32)
    else if nat_eq n 0x131
    then "I"
    else if nat_eq n 0x17F
    then "S"
    else c

-- `strings.Map`
abbrev pub map_runes : (Char → Char) → String → String
map_runes f String.[] = String.[]
map_runes f (String.◌∷◌ c s) = String.◌∷◌ (f c) (map_runes f s)

-- `strings.ToUpper`
unfoldable pub to_upper : String → String
unfolding to_upper_rune
to_upper s = map_runes to_upper_rune s

-- The function that the code hands to `strings.Map`.
unfoldable pub env_var_rune : Char → Char
env_var_rune c =
    let r = code c in
    if (leb b'A' r && leb r b'Z') || (leb b'0' r && leb r b'9') || nat_eq r b'_' then c else "_"

unfoldable pub convert_to_env_var_name : String → String
unfolding to_upper env_var_rune
convert_to_env_var_name name = map_runes env_var_rune (to_upper name)

unfoldable pub get_env_var_name : String → String → String
unfolding convert_to_env_var_name to_upper
get_env_var_name resource_kind resource_name =
    concat
      (env_var_prefix ∷ convert_to_env_var_name resource_name ∷ "_" ∷ to_upper resource_kind ∷ [])

env_var_example :
    get_env_var_name "Secret" "db-credentials.v2" ≡ "STAKATER_DB_CREDENTIALS_V2_SECRET"
unfolding get_env_var_name
env_var_example = refl
