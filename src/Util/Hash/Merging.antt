-- ===== src/Util/Hash/Merging.antt =====
-- What the merged data of a ConfigMap holds.
use reloader_operator.Base.{
  String, Option, none, some, List, [], ◌∷◌, ◌≡◌, refl, arith, eq_iff, ◌∙◌, GoMap, StringMap,
  Distinct, lookup, lookup-assign, assign, lookup-empty, lookup-cons,
}
use reloader_operator.Kube.{Bytes}
use reloader_operator.Util.Hash.{bytes, add_strings, add_bytes, merge_data_maps, pairs}

module _ {V : Type 0} where
  -- The first option, where it is set.
  abbrev pub or_else : Option V → Option V → Option V
  or_else none o = o
  or_else (some v) o = some v

lookup-add_bytes :
    (ps : List (String × Bytes)) (m : GoMap Bytes) (key : String)
    → Distinct ps
    → lookup key (add_bytes ps m) ≡ or_else (lookup key (some ps)) (lookup key m)
unfolding add_bytes
lookup-add_bytes [] m key d = rw (lookup-empty {V = Bytes} key) refl
lookup-add_bytes ((k, v) ∷ ps) m key (d, ds) =
    lookup-add_bytes ps (assign k v m) key ds
    ∙ rw (lookup-assign k key v m, lookup-cons k key v ps) (ground (arith, eq_iff k key))

abbrev pub as_bytes : Option String → Option Bytes
as_bytes none = none
as_bytes (some v) = some (bytes v)

lookup-add_strings :
    (ps : List (String × String)) (m : GoMap Bytes) (key : String)
    → Distinct ps
    → lookup key (add_strings ps m) ≡ or_else (as_bytes (lookup key (some ps))) (lookup key m)
unfolding add_strings
lookup-add_strings [] m key d = rw (lookup-empty {V = String} key) refl
lookup-add_strings ((k, v) ∷ ps) m key (d, ds) =
    lookup-add_strings ps (assign k (bytes v) m) key ds
    ∙ rw (lookup-assign k key (bytes v) m, lookup-cons k key v ps) (ground (arith, eq_iff k key))

-- The keys that a map has, of a map that may be nil.
lookup-pairs :
    {V : Type 0} (key : String) (m : GoMap V) → lookup key (some (pairs m)) ≡ lookup key m
lookup-pairs {V} key none = lookup-empty {V = V} key
lookup-pairs key (some m) = refl

-- The merged data of a ConfigMap reads, at each key, the binary value, or else the bytes of the text,
-- or else nothing: the binary data wins where both maps have a key.
pub lookup-merge_data_maps :
    (string_data : StringMap) (binary_data : GoMap Bytes) (key : String)
    → Distinct (pairs string_data)
    → Distinct (pairs binary_data)
    → lookup key (merge_data_maps string_data binary_data)
      ≡ or_else (lookup key binary_data) (as_bytes (lookup key string_data))
unfolding merge_data_maps
lookup-merge_data_maps string_data binary_data key ds db =
    lookup-add_bytes (pairs binary_data) (add_strings (pairs string_data) (some [])) key db
    ∙ rw
        (
          lookup-add_strings (pairs string_data) (some []) key ds,
          lookup-pairs key binary_data,
          lookup-pairs key string_data,
          lookup-empty {V = Bytes} key,
        )
        (ground arith)
