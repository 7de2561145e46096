-- ===== src/Util/Hash/Framing.antt =====
-- What the pairs look like to the hasher: they have no frame.
use reloader_operator.Base.{
  String, true, false, some, [], ◌∷◌, ◌++◌, ◌≡◌, ◌≢◌, refl, arith, eq_iff, ◌==◌, ap, append_assoc,
  sym, ◌∙◌, lookup-head, lookup-skip,
}
use reloader_operator.Kube.{Bytes}
use reloader_operator.Util.Hash.{
  bytes, write_pairs, sort_strings, insert_sorted, hash_pairs, calculate_hash, text_leb,
}

module _ (k j : String) (v w : Bytes) where
  -- The value that goes on as a second pair would.
  abbrev pub merged : Bytes
  merged = v ++ (bytes ";" ++ (bytes j ++ (bytes ":" ++ w)))

  write_merged :
      write_pairs (some ((k, merged) ∷ [])) (k ∷ [])
      ≡ bytes k ++ (bytes ":" ++ (merged ++ (bytes ";" ++ [])))
  unfolding write_pairs
  write_merged = rw (lookup-head k merged []) refl

  write_both :
      (k == j) ≡ false
      → write_pairs (some ((k, v) ∷ (j, w) ∷ [])) (k ∷ j ∷ [])
        ≡ bytes k
          ++ (bytes ":"
              ++ (v ++ (bytes ";" ++ (bytes j ++ (bytes ":" ++ (w ++ (bytes ";" ++ [])))))))
  unfolding write_pairs
  write_both h =
      rw (lookup-head k v ((j, w) ∷ []), lookup-skip k j v ((j, w) ∷ []) h, lookup-head j w []) refl

  sort_both : text_leb k j ≡ true → sort_strings (k ∷ j ∷ []) ≡ k ∷ j ∷ []
  unfolding sort_strings insert_sorted
  sort_both h = ground arith

  sort_one : sort_strings (k ∷ []) ≡ k ∷ []
  unfolding sort_strings insert_sorted
  sort_one = refl

  reframed :
      merged ++ (bytes ";" ++ [])
      ≡ v ++ (bytes ";" ++ (bytes j ++ (bytes ":" ++ (w ++ (bytes ";" ++ [])))))
  reframed = simp append_assoc

  -- A value that holds the text of a second pair hashes as the two pairs do: the data with the one key
  -- `k`, whose value goes on with ";", a key `j` that sorts behind `k`, ":" and a value, has the hash of
  -- the data with both keys, for every hash function.
  pub calculate_hash-merged_pairs :
      (sha256 : Bytes → String)
      → text_leb k j ≡ true
      → k ≢ j
      → calculate_hash sha256 (some ((k, merged) ∷ []))
        ≡ calculate_hash sha256 (some ((k, v) ∷ (j, w) ∷ []))
  unfolding calculate_hash hash_pairs
  calculate_hash-merged_pairs sha256 order differs =
      let h : (k == j) ≡ false = ground (arith, eq_iff k j) in
      ap sha256 (
        rw (sort_one, sort_both order)
          (write_merged ∙ (ap (λ x. bytes k ++ (bytes ":" ++ x)) reframed ∙ sym (write_both h))))
