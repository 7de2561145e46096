-- ===== src/Util/Keys.antt =====
-- internal/pkg/util/helpers.go: the keys "namespace/kind/name" of the hash table in a status.
pub mod RoundTrip
use Prim.Native.String
use reloader_operator.Base.{String, Char, code, List, [], ◌∷◌, nat_eq, if◌then◌else◌, concat}
use reloader_operator.Kube.{Result, ok, err, errorf}

-- `strings.Split` at a separator of one ASCII character: `cur` holds the part that is being read.
unfoldable pub split_from : Char → String → String → List String
split_from sep cur String.[] = cur ∷ []
split_from sep cur (String.◌∷◌ c s) =
    let closed = cur ∷ split_from sep "" s in
    let longer = split_from sep (String.◌++◌ cur (String.◌∷◌ c String.[])) s in
    if nat_eq (code c) (code sep) then closed else longer

unfoldable pub split : String → Char → List String
unfolding split_from
split s sep = split_from sep "" s

unfoldable pub make_resource_key : String → String → String → String
make_resource_key namespace kind name = concat (namespace ∷ "/" ∷ kind ∷ "/" ∷ name ∷ [])

-- The test `len(parts) != 3`.
abbrev three_parts : String → List String → Result (String × String × String)
three_parts key (namespace ∷ kind ∷ name ∷ []) = ok (namespace, kind, name)
three_parts key _ = err (errorf ("invalid resource key format: " ∷ key ∷ []))

unfoldable pub parse_resource_key : String → Result (String × String × String)
unfolding split
parse_resource_key key = three_parts key (split key "/")
