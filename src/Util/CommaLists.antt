-- ===== src/Util/CommaLists.antt =====
-- internal/pkg/util/helpers.go: comma-separated lists in annotations and flags.
pub mod RoundTrip
use reloader_operator.Base.{
  String, Char, code, Bool, List, [], ◌∷◌, ◌==◌, ◌||◌, ◌&&◌, nat_eq, leb, if◌then◌else◌,
}
use reloader_operator.Util.Keys.{split}

-- `unicode.IsSpace`
unfoldable pub is_space : Char → Bool
is_space c =
    let n = code c in
    (leb 9 n && leb n 13)
    || nat_eq n 32
    || nat_eq n 0x85
    || nat_eq n 0xA0
    || nat_eq n 0x1680
    || (leb 0x2000 n && leb n 0x200A)
    || nat_eq n 0x2028
    || nat_eq n 0x2029
    || nat_eq n 0x202F
    || nat_eq n 0x205F
    || nat_eq n 0x3000

unfoldable pub trim_left : String → String
unfolding is_space
trim_left String.[] = String.[]
trim_left (String.◌∷◌ c s) = if is_space c then trim_left s else String.◌∷◌ c s

-- A character before a text that is trimmed at its right already.
unfoldable pub cons_trimmed : Char → String → String
unfolding is_space
cons_trimmed c String.[] = if is_space c then String.[] else String.◌∷◌ c String.[]
cons_trimmed c (String.◌∷◌ d s) = String.◌∷◌ c (String.◌∷◌ d s)

unfoldable pub trim_right : String → String
unfolding cons_trimmed
trim_right String.[] = String.[]
trim_right (String.◌∷◌ c s) = cons_trimmed c (trim_right s)

-- `strings.TrimSpace`
unfoldable pub trim_space : String → String
unfolding trim_left trim_right
trim_space s = trim_right (trim_left s)

-- The loop over the parts.
unfoldable pub trimmed_parts : List String → List String
unfolding trim_space
trimmed_parts [] = []
trimmed_parts (part ∷ parts) =
    let trimmed = trim_space part in
    let result = trimmed_parts parts in if trimmed == "" then result else trimmed ∷ result

unfoldable pub parse_comma_separated_list : String → List String
unfolding split trimmed_parts
parse_comma_separated_list input = if input == "" then [] else trimmed_parts (split input ",")
