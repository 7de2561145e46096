-- ===== src/Util/Hash.antt =====
-- internal/pkg/util/hash.go: the hash of a Secret's or a ConfigMap's data. `sha256` stands for
-- `hex.EncodeToString(sha256.Sum256(…))`.
pub mod Shuffled
pub mod Order
pub mod Merging
pub mod Framing
use Prim.Native.Nat.{Ordering, ◌/◌, ◌%◌}
use Prim.Native.String.{compare}
use reloader_operator.Base.{
  String, Char, code, Bool, true, false, List, [], ◌∷◌, ◌++◌, map, Option, none, some, ltb, ◌+◌,
  if◌then◌else◌, GoMap, StringMap, lookup, assign, pairs,
}
use reloader_operator.Kube.{Bytes, Object, workload, secret, config_map, Result, ok, err, errorf}

-- The UTF-8 of a character, and `[]byte(s)`.
unfoldable pub utf8 : Char → Bytes
utf8 c =
    let n = code c in
    if ltb n 0x80
    then n ∷ []
    else if ltb n 0x800
    then (0xC0 + n / 64) ∷ (0x80 + n % 64) ∷ []
    else if ltb n 0x10000
    then (0xE0 + n / 4096) ∷ (0x80 + n / 64 % 64) ∷ (0x80 + n % 64) ∷ []
    else (0xF0 + n / 262144) ∷ (0x80 + n / 4096 % 64) ∷ (0x80 + n / 64 % 64) ∷ (0x80 + n % 64) ∷ []

unfoldable pub bytes : String → Bytes
unfolding utf8
bytes String.[] = []
bytes (String.◌∷◌ c s) = utf8 c ++ bytes s

-- `sort.Strings`: the order of the bytes is that of the code points.
abbrev pub text_leb : String → String → Bool
text_leb s t = elim (compare s t) [ Ordering.gt ↦ false | _ ↦ true ]

unfoldable pub insert_sorted : String → List String → List String
insert_sorted k [] = k ∷ []
insert_sorted k (j ∷ ks) = if text_leb k j then k ∷ j ∷ ks else j ∷ insert_sorted k ks

unfoldable pub sort_strings : List String → List String
unfolding insert_sorted
sort_strings [] = []
sort_strings (k ∷ ks) = insert_sorted k (sort_strings ks)

-- `data[key]`, nil where the key is missing
abbrev pub value_of : Option Bytes → Bytes
value_of none = []
value_of (some v) = v

-- What is written to the hasher for the sorted keys.
unfoldable pub write_pairs : GoMap Bytes → List String → Bytes
unfolding bytes
write_pairs m [] = []
write_pairs m (key ∷ keys) =
    bytes key ++ (bytes ":" ++ (value_of (lookup key m) ++ (bytes ";" ++ write_pairs m keys)))

module _ (sha256 : Bytes → String) where
  -- The keys of a non-empty map, sorted, and the pairs in their order.
  unfoldable pub hash_pairs : List (String × Bytes) → String
  unfolding sort_strings write_pairs
  hash_pairs pairs = sha256 (write_pairs (some pairs) (sort_strings (map (λ p. p.0) pairs)))

  unfoldable pub calculate_hash : GoMap Bytes → String
  unfolding hash_pairs
  calculate_hash none = ""
  calculate_hash (some []) = ""
  calculate_hash (some (p ∷ ps)) = hash_pairs (p ∷ ps)

-- The two loops of `MergeDataMaps`.
unfoldable pub add_strings : List (String × String) → GoMap Bytes → GoMap Bytes
unfolding bytes
add_strings [] result = result
add_strings ((k, v) ∷ string_data) result = add_strings string_data (assign k (bytes v) result)

unfoldable pub add_bytes : List (String × Bytes) → GoMap Bytes → GoMap Bytes
add_bytes [] result = result
add_bytes ((k, v) ∷ binary_data) result = add_bytes binary_data (assign k v result)

unfoldable pub merge_data_maps : StringMap → GoMap Bytes → GoMap Bytes
unfolding add_strings add_bytes
merge_data_maps string_data binary_data =
    add_bytes (pairs binary_data) (add_strings (pairs string_data) (some []))

module _ (sha256 : Bytes → String) where
  unfoldable pub calculate_hash_from_string_map : StringMap → String
  unfolding calculate_hash add_strings
  calculate_hash_from_string_map none = ""
  calculate_hash_from_string_map (some []) = ""
  calculate_hash_from_string_map (some (p ∷ ps)) =
      calculate_hash sha256 (add_strings (p ∷ ps) (some []))

  unfoldable pub get_resource_data_and_hash : Object → Result String
  unfolding calculate_hash merge_data_maps
  get_resource_data_and_hash (secret s) = ok (calculate_hash sha256 s.contents)
  get_resource_data_and_hash (config_map c) =
      ok (calculate_hash sha256 (merge_data_maps c.contents c.binary_data))
  get_resource_data_and_hash (workload t w) = err (errorf ("unsupported resource type" ∷ []))
